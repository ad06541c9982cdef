-- ===== src/Reconcilers/Instance/Untrusted.antt =====
-- An instance on an untrusted host is never provisioned (instance.go).
use infra_onboarding.Prelude.{
  ◌≡◌, sym, subst, ap, ◌∙◌, ◌⊎◌, String, Bool, true, false, Option, none, some, List, if◌then◌else◌,
  arith,
}
use infra_onboarding.Api.Enums.{HostState, InstanceState, host_state_eq, instance_state_eq}
use infra_onboarding.Api.Resources.{Resource, InstanceResource}
use infra_onboarding.Api.Errors.{Result, ok, err}
use infra_onboarding.Api.Calls
use infra_onboarding.Api.Calls.{Call, Field, History, k8s_client, inv_update}
use infra_onboarding.Api.Env.{Env}
use infra_onboarding.DeviceInfo.{DeviceInfo}
use infra_onboarding.Act.{Outcome, done, panic, pure, continue, ◌>>=◌}
use infra_onboarding.Act.Makes.{
  Makes, Makes-pure, Makes-bind, Makes-bind_result, Makes-if, makes_rules,
}
use infra_onboarding.Tinkerbell.{delete_workflow_if_exists}
use infra_onboarding.Inventory.Setters.{update_instance_statuses}
use infra_onboarding.Inventory.Targets.{update_instance_statuses-Makes}
use infra_onboarding.Onboarding.{check_workflow_exist, delete_tinkerbell_workflow_if_exists}
use infra_onboarding.Onboarding.Look.{check_workflow_exist-Makes}
use infra_onboarding.Reconcilers.{Directive, ack, or_else}
use infra_onboarding.Reconcilers.Device.{
  host_current_state, host_desired_state, convert_instance_to_device_info,
}
use infra_onboarding.Reconcilers.Provision.{
  cleanup_provisioning_resources, update_instance_statuses_of, reconcile_instance,
}
use infra_onboarding.Reconcilers.Provision.Own.{or_else-Makes}
use infra_onboarding.Reconcilers.Instance.{
  check_status_unknown, clean_up_if_exists, deauthorize, idle_instance, report_unless_stopped,
  clean_up_and_report, is_host_deauthorized, handle_host_deauthorized, handle_matching_states,
  handle_provider_specific_rm, handle_error_state, handle_host_onboarded, after, reconcile_found,
}

-- A look for a workflow, its deletion, or a report to the inventory; no creation of a workflow, and no
-- use of credentials.
pub data IsCleanup : Call → Type 0 where
  client : IsCleanup k8s_client
  look : {ns name : String} → IsCleanup (Calls.get_workflow ns name)
  delete : {ns name : String} → IsCleanup (Calls.delete_workflow ns name)
  report : {t id : String} {fs : List Field} {x : Resource} → IsCleanup (inv_update t id fs x)

module _ {E : Type 0} (env : Env E) where
  exist-Makes :
      (d : DeviceInfo) (i : InstanceResource) → Makes IsCleanup (check_workflow_exist env d i)
  exist-Makes d i = check_workflow_exist-Makes env IsCleanup.client (λ ns name. IsCleanup.look) d i

  workflow_removal-Makes :
      (i : InstanceResource) → Makes IsCleanup (cleanup_provisioning_resources env i)
  unfolding cleanup_provisioning_resources delete_tinkerbell_workflow_if_exists
      delete_workflow_if_exists
  workflow_removal-Makes i = search (makes_rules, IsCleanup.client, IsCleanup.delete)

  clean_up-Makes :
      (i : InstanceResource) (r : Result E DeviceInfo)
      → Makes IsCleanup (clean_up_if_exists env i r)
  unfolding clean_up_if_exists
  clean_up-Makes i (err e) = Makes-pure false
  clean_up-Makes i (ok d) = Makes-bind (check_workflow_exist env d i) _ (exist-Makes d i) λ b.
      Makes-if b _ _
        (λ _.
          Makes-bind (cleanup_provisioning_resources env i) _ (workflow_removal-Makes i)
            λ _. Makes-pure _)
        λ _. Makes-pure false

  report-Makes : (i : InstanceResource) (b : Bool) → Makes IsCleanup (report_unless_stopped env i b)
  unfolding report_unless_stopped update_instance_statuses_of
  report-Makes i true = Makes-pure tt
  report-Makes i false =
      Makes-bind (update_instance_statuses env i.tenant_id i.resource_id _ _ _ _ _) _
        (update_instance_statuses-Makes env i.tenant_id i.resource_id (λ fs x. IsCleanup.report) _ _
          _ _ _)
        λ _. Makes-pure tt

  idle-Makes : (i : InstanceResource) → Makes IsCleanup (clean_up_and_report env i)
  unfolding clean_up_and_report
  idle-Makes i =
      Makes-bind (clean_up_if_exists env i (convert_instance_to_device_info env i)) _
        (clean_up-Makes i (convert_instance_to_device_info env i)) (report-Makes i)

  deauthorize-Makes : (i : InstanceResource) → Makes IsCleanup (deauthorize env i)
  unfolding deauthorize
  deauthorize-Makes i = idle-Makes (idle_instance env i)

  handle-Makes : (i : InstanceResource) → Makes IsCleanup (handle_host_deauthorized env i)
  unfolding handle_host_deauthorized
  handle-Makes i =
      Makes-if (is_host_deauthorized i) _ _
        (λ _.
          Makes-bind (if check_status_unknown i then pure tt else deauthorize env i) _
            (Makes-if (check_status_unknown i) _ _ (λ _. Makes-pure tt) λ _. deauthorize-Makes i)
            λ _. Makes-pure _)
        λ _. Makes-pure none

  acknowledged :
      (o : Outcome (Unit {0})) (g : History) (a : Option (Directive E))
      → (continue (λ _. pure (some ack)) (o, g)).0 ≡ done a
      → a ≡ some ack
  acknowledged (done u) g a q = cc
  acknowledged panic g a q = absurd (cc)

  handler_acts :
      (i : InstanceResource) (h : History)
      → is_host_deauthorized i ≡ true
      → handle_host_deauthorized env i h
        ≡ ((if check_status_unknown i then pure tt else deauthorize env i) >>= λ _. pure (some ack))
            h
  unfolding handle_host_deauthorized
  handler_acts i h d = rw d

  -- the handler acknowledges where it does not panic
  handled :
      (i : InstanceResource) (h : History) (a : Option (Directive E))
      → is_host_deauthorized i ≡ true
      → (handle_host_deauthorized env i h).0 ≡ done a
      → a ≡ some ack
  unfolding handle_host_deauthorized
  handled i h a d q =
      let m = if check_status_unknown i then pure tt else deauthorize env i in
      acknowledged (m h).0 (m h).1 a (sym (ap (λ o. o.0) (handler_acts i h d)) ∙ q)

  deauthorized :
      (i : InstanceResource)
      → (host_current_state i.host ≡ HostState.untrusted)
        ⊎ (host_desired_state i.host ≡ HostState.untrusted)
      → i.desired_state ≡ InstanceState.running
      → is_host_deauthorized i ≡ true
  unfolding is_host_deauthorized
  deauthorized i u r = ground arith

  -- Where the host of an instance is untrusted or is to be, and the instance is to run, nothing is
  -- called but a look for its workflow, the deletion of the workflow, and updates of the inventory: no
  -- workflow is created, and no credentials are asked for or made.
  pub untrusted_only_cleaned_up :
      (i : InstanceResource)
      → (host_current_state i.host ≡ HostState.untrusted)
        ⊎ (host_desired_state i.host ≡ HostState.untrusted)
      → i.desired_state ≡ InstanceState.running
      → Makes IsCleanup (reconcile_found env i)
  unfolding reconcile_found
  untrusted_only_cleaned_up i u r = or_else-Makes (handle_provider_specific_rm env i) _ (
      or_else-Makes (handle_error_state env i) _ (
        Makes-bind_result (handle_host_deauthorized env i) _ (handle-Makes i) λ h a q.
          let rest =
            after env (handle_matching_states env i)
              (or_else (handle_host_onboarded env i) (reconcile_instance env i)) in
          subst (λ d. Makes IsCleanup (or_else d rest)) (sym (handled i h a (deauthorized i u r) q))
            (Makes-pure ack)))
