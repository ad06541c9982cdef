-- ===== src/Reconcilers/Provision.antt =====
-- onboarding-manager/internal/handlers/controller/reconcilers/instance.go: an instance is provisioned,
-- deleted or marked untrusted, and what has changed is sent to the inventory.
pub mod Own
pub mod Removal
pub mod Reports
use infra_onboarding.Prelude.{
  suc, Bool, true, false, not, ◌||◌, Option, none, some, nat_eq, ◌==◌, string_has_eq, if◌then◌else◌,
}
use infra_onboarding.Api.Enums.{
  InstanceState, OsProviderKind, host_state_eq, instance_state_eq, indication_eq, os_type_eq,
  os_provider_eq,
}
use infra_onboarding.Api.Resources.{HostResource, InstanceResource, OsResource, zero_instance}
use infra_onboarding.Api.Errors.{Result, ok, err, aborted, code_eq}
use infra_onboarding.Api.Env.{Env}
use infra_onboarding.DeviceInfo.{DeviceInfo}
use infra_onboarding.Act.{Act, pure, panics, ◌>>=◌}
use infra_onboarding.Status.{new, provisioning_status_failed, provisioning_status_done}
use infra_onboarding.Util.{
  is_same_host_status, is_same_onboarding_status, is_same_instance_status_and_state,
  populate_instance_provisioning_status, populate_instance_status_and_current_state,
}
use infra_onboarding.Inventory.Setters.{
  set_host_status, set_host_onboarding_status, update_instance_current_state,
  update_instance_statuses, update_instance,
}
use infra_onboarding.Onboarding.{
  check_status_or_run_prod_workflow, delete_tinkerbell_workflow_if_exists,
}
use infra_onboarding.Reconcilers.{
  or_else, Directive, ack, handle_inventory_error, handle_provisioning_error,
}
use infra_onboarding.Reconcilers.Device.{host_text, convert_instance_to_device_info}

module _ {E : Type 0} (env : Env E) where
  unfoldable pub cleanup_provisioning_resources : InstanceResource → Act (Option E)
  cleanup_provisioning_resources instance =
      delete_tinkerbell_workflow_if_exists env (host_text (λ h. h.uuid) instance.host)

  -- The error is only logged.
  unfoldable pub update_instance_statuses_of : InstanceResource → Act (Unit {0})
  update_instance_statuses_of i = do
    _ ←
        update_instance_statuses env i.tenant_id i.resource_id
          (new i.instance_status i.instance_status_indicator) i.instance_status_detail
          (new i.provisioning_status i.provisioning_status_indicator)
          (new i.update_status i.update_status_indicator)
          (new i.trusted_attestation_status i.trusted_attestation_status_indicator)
    pure tt

  -- `if test { m }`, with an error that is only logged
  abbrev when : Bool → Act (Option E) → Act (Option E)
  when true m = m
  when false m = pure none

  -- pointers to two messages: equal if both are nil or they are the same object
  abbrev same_os : Option OsResource → Option OsResource → Bool
  same_os none none = true
  same_os (some a) (some b) = nat_eq a.address b.address
  same_os _ _ = false

  -- the three updates; their errors are only logged
  unfoldable pub report_host_status : HostResource → HostResource → Act (Option E)
  report_host_status old_host new_host = when (not (is_same_host_status old_host new_host)) (
      set_host_status env new_host.tenant_id new_host.resource_id
        (new new_host.host_status new_host.host_status_indicator))

  unfoldable pub report_onboarding_status : HostResource → HostResource → Act (Option E)
  report_onboarding_status old_host new_host =
      when (not (is_same_onboarding_status old_host new_host)) (
        set_host_onboarding_status env new_host.tenant_id new_host.resource_id
          (new new_host.onboarding_status new_host.onboarding_status_indicator))

  unfoldable pub report_instance : InstanceResource → InstanceResource → Act (Option E)
  report_instance old new_instance =
      when
        (not (is_same_instance_status_and_state old new_instance)
          || not (same_os old.os new_instance.os))
        (update_instance env new_instance.tenant_id new_instance.resource_id
          new_instance.current_state
          (new new_instance.provisioning_status new_instance.provisioning_status_indicator)
          new_instance.os)

  -- The hosts' fields are read through the pointers, which panics on a nil host.
  update_with_hosts :
      InstanceResource
      → InstanceResource
      → Option HostResource
      → Option HostResource
      → Act (Unit {0})
  update_with_hosts old new_instance (some old_host) (some new_host) = do
    _ ← report_host_status old_host new_host
    _ ← report_onboarding_status old_host new_host
    _ ← report_instance old new_instance
    pure tt
  update_with_hosts old new_instance _ _ = panics

  unfoldable pub update_host_instance_status_and_current_state :
      InstanceResource → InstanceResource → Act (Unit {0})
  unfolding update_with_hosts
  update_host_instance_status_and_current_state old new_instance =
      update_with_hosts old new_instance old.host new_instance.host

  -- proto.Clone: the copy of the OS stands at another address
  abbrev clone_os : Option OsResource → Option OsResource
  clone_os none = none
  clone_os (some os) = some (record os { address = suc os.address })

  unfoldable pub clone : InstanceResource → InstanceResource
  clone instance = record instance { os = clone_os instance.os }

  -- The deferred function. It reads the outer `err`, which is nil at this place: the error of the
  -- workflow is in a variable of the same name inside the `if`.
  unfoldable pub deferred_update : Option E → InstanceResource → InstanceResource → Act (Unit {0})
  unfolding update_host_instance_status_and_current_state
  deferred_update outer_err old instance =
      let reported =
        if env.code outer_err == aborted
        then populate_instance_provisioning_status instance provisioning_status_failed
        else instance in
      update_host_instance_status_and_current_state old reported

  abbrev provisioned : Option E → InstanceResource → InstanceResource
  provisioned (some e) instance = instance
  provisioned none instance =
      populate_instance_status_and_current_state instance InstanceState.running
        provisioning_status_done

  -- A panic before the deferred function is one on a nil host, on which that panics as well.
  unfoldable pub provision_device : InstanceResource → Result E DeviceInfo → Act (Option E)
  unfolding deferred_update clone
  provision_device instance (err e) = pure (some e)
  provision_device instance (ok d) = do
    let old = clone instance
    result ← check_status_or_run_prod_workflow env d instance
    _ ← deferred_update none old (provisioned result.0 result.1)
    pure result.0

  provision_os : InstanceResource → Option OsResource → Act (Option E)
  unfolding provision_device convert_instance_to_device_info
  provision_os instance none = pure none
  provision_os instance (some os) =
      if not (os.os_provider == OsProviderKind.infra)
      then pure none
      else provision_device instance (convert_instance_to_device_info env instance)

  unfoldable pub try_provision_instance : InstanceResource → Act (Option E)
  unfolding provision_os
  try_provision_instance instance = provision_os instance instance.os

  -- whatever the clean-up gives, the request is acknowledged
  finish_running : InstanceResource → Option E → Act (Directive E)
  finish_running instance e =
      or_else (handle_provisioning_error env e)
        do _ ← cleanup_provisioning_resources instance; pure ack

  set_current_state : InstanceResource → InstanceState → Act (Directive E)
  set_current_state instance s = do
    failure ←
        update_instance_current_state env instance.tenant_id
          (record zero_instance { resource_id = instance.resource_id; current_state = s })
    or_else (handle_inventory_error env failure) (pure ack)

  unfoldable pub reconcile_instance : InstanceResource → Act (Directive E)
  unfolding finish_running set_current_state try_provision_instance cleanup_provisioning_resources
  reconcile_instance instance =
      if instance.desired_state == InstanceState.running
      then (do e ← try_provision_instance instance; finish_running instance e)
      else if instance.desired_state == InstanceState.deleted
      then (do
        e ← cleanup_provisioning_resources instance
        or_else (handle_provisioning_error env e)
            (set_current_state instance InstanceState.deleted))
      else if instance.desired_state == InstanceState.untrusted
      then set_current_state instance InstanceState.untrusted
      else pure ack
