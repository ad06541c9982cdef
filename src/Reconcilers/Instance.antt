-- ===== src/Reconcilers/Instance.antt =====
-- onboarding-manager/internal/handlers/controller/reconcilers/instance.go: the checks that an instance
-- passes before it is reconciled with its desired state.
pub mod Untrusted
pub mod Guards
pub mod Own
use infra_onboarding.Prelude.{
  String, Bool, true, false, not, ◌&&◌, ◌||◌, Option, none, some, ◌==◌, string_has_eq,
  if◌then◌else◌,
}
use infra_onboarding.Api.Enums.{
  HostState, InstanceState, StatusIndication, host_state_eq, instance_state_eq, indication_eq,
  os_type_eq, os_provider_eq,
}
use infra_onboarding.Api.Resources.{InstanceResource}
use infra_onboarding.Api.Errors.{Result, ok, err, code_eq}
use infra_onboarding.Api.Env.{Env}
use infra_onboarding.DeviceInfo.{DeviceInfo}
use infra_onboarding.Act.{Act, pure, panics, ◌>>=◌}
use infra_onboarding.Status.{provisioning_status_failed, provisioning_status_done}
use infra_onboarding.Util.{populate_instance_idle_status}
use infra_onboarding.Inventory.{get_instance_resource_by_resource_id}
use infra_onboarding.Onboarding.{check_workflow_exist}
use infra_onboarding.Reconcilers.{
  ReconcilerId, get_tenant_id, get_resource_id, Directive, ack, handle_inventory_error, or_else,
}
use infra_onboarding.Reconcilers.Device.{
  host_current_state, host_desired_state, host_provider, convert_instance_to_device_info,
}
use infra_onboarding.Reconcilers.Provision.{
  cleanup_provisioning_resources, update_instance_statuses_of, reconcile_instance,
}

unfoldable pub check_status_unknown : InstanceResource → Bool
check_status_unknown instance = instance.instance_status == "Unknown"

abbrev is_idle_or_unspecified : StatusIndication → Bool
is_idle_or_unspecified i = i == StatusIndication.idle || i == StatusIndication.unspecified

unfoldable pub check_status_idle : InstanceResource → Bool
check_status_idle instance =
    is_idle_or_unspecified instance.instance_status_indicator
    && (is_idle_or_unspecified instance.provisioning_status_indicator
        && (is_idle_or_unspecified instance.update_status_indicator
            && is_idle_or_unspecified instance.trusted_attestation_status_indicator))

unfoldable pub is_host_deauthorized : InstanceResource → Bool
is_host_deauthorized instance =
    (host_current_state instance.host == HostState.untrusted
      || host_desired_state instance.host == HostState.untrusted)
    && instance.desired_state == InstanceState.running

-- The host manager may set the state to running before provisioning is done.
unfoldable pub is_provisioning_unfinished : InstanceResource → Bool
is_provisioning_unfinished instance =
    instance.current_state == InstanceState.running
    && (not (instance.provisioning_status_indicator == provisioning_status_done.status_indicator)
        && not (instance.provisioning_status == provisioning_status_done.status))

module _ {E : Type 0} (env : Env E) where
  unfoldable pub handle_provider_specific_rm : InstanceResource → Option (Directive E)
  handle_provider_specific_rm instance = elim (host_provider instance.host) [
    | none ↦ none
    | some name ↦ some ack
  ]

  unfoldable pub handle_error_state : InstanceResource → Option (Directive E)
  handle_error_state instance =
      if instance.provisioning_status_indicator == provisioning_status_failed.status_indicator
        && not (instance.desired_state == InstanceState.deleted)
      then some ack
      else none

  -- the clean-up of a workflow that still exists; `true` if its error ends the handler
  clean_up_if_exists : InstanceResource → Result E DeviceInfo → Act Bool
  unfolding cleanup_provisioning_resources
  clean_up_if_exists instance (err e) = pure false
  clean_up_if_exists instance (ok d) = do
    exists ← check_workflow_exist env d instance
    if exists
        then (do
          failure ← cleanup_provisioning_resources env instance
          pure (elim failure [ none ↦ false | some e ↦ true ]))
        else pure false

  -- all statuses are made idle, unless they are
  idle_instance : InstanceResource → InstanceResource
  idle_instance instance =
      if check_status_idle instance then instance else populate_instance_idle_status instance

  report_unless_stopped : InstanceResource → Bool → Act (Unit {0})
  unfolding update_instance_statuses_of
  report_unless_stopped instance true = pure tt
  report_unless_stopped instance false = update_instance_statuses_of env instance

  clean_up_and_report : InstanceResource → Act (Unit {0})
  unfolding clean_up_if_exists report_unless_stopped convert_instance_to_device_info
  clean_up_and_report instance = do
    stopped ← clean_up_if_exists instance (convert_instance_to_device_info env instance)
    report_unless_stopped instance stopped

  deauthorize : InstanceResource → Act (Unit {0})
  unfolding clean_up_and_report idle_instance
  deauthorize instance = clean_up_and_report (idle_instance instance)

  -- On every path on which the instance was changed the request is acknowledged, so that what comes
  -- after sees the instance as it was read.
  unfoldable pub handle_host_deauthorized : InstanceResource → Act (Option (Directive E))
  unfolding deauthorize is_host_deauthorized
  handle_host_deauthorized instance =
      if is_host_deauthorized instance
      then (do
        _ ← if check_status_unknown instance then pure tt else deauthorize instance
        pure (some ack))
      else pure none

  unfoldable pub handle_matching_states : InstanceResource → Act (Option (Directive E))
  handle_matching_states instance =
      if instance.desired_state == instance.current_state
      then if is_provisioning_unfinished instance
        then (do d ← reconcile_instance env instance; pure (some d))
        else pure (some ack)
      else pure none

  unfoldable pub handle_host_onboarded : InstanceResource → Option (Directive E)
  handle_host_onboarded instance =
      if not (instance.desired_state == InstanceState.running)
        || host_current_state instance.host == HostState.onboarded
      then none
      else some ack

  abbrev after : Act (Option (Directive E)) → Act (Directive E) → Act (Directive E)
  after m k = m >>= λ d. or_else d k

  unfoldable pub reconcile_found : InstanceResource → Act (Directive E)
  reconcile_found instance = or_else (handle_provider_specific_rm instance) (
      or_else (handle_error_state instance) (
        after (handle_host_deauthorized instance) (
          after (handle_matching_states instance)
            (or_else (handle_host_onboarded instance) (reconcile_instance env instance)))))

  -- A nil instance passes the first three checks, which use getters, and its desired state is read
  -- through the nil pointer by the fourth.
  reconcile_response : Result E (Option InstanceResource) → Act (Directive E)
  unfolding reconcile_found
  reconcile_response (err e) = or_else (handle_inventory_error env (some e)) panics
  reconcile_response (ok none) = or_else (handle_inventory_error env none) panics
  reconcile_response (ok (some instance)) =
      or_else (handle_inventory_error env none) (reconcile_found instance)

  reconcile_ids : Option String → Option String → Act (Directive E)
  unfolding reconcile_response
  reconcile_ids (some tenant_id) (some resource_id) = do
    response ← get_instance_resource_by_resource_id env tenant_id resource_id
    reconcile_response response
  reconcile_ids _ _ = panics

  unfoldable pub reconcile : ReconcilerId → Act (Directive E)
  unfolding reconcile_ids
  reconcile id = reconcile_ids (get_tenant_id id) (get_resource_id id)
