-- ===== src/Reconcilers/Instance/Own.antt =====
-- A reconciliation of an instance touches nothing but the instance, its host and their workflow
-- (instance.go).
use infra_onboarding.Prelude.{
  ◌≡◌, refl, subst, Bool, true, false, none, ◌==◌, if◌then◌else◌, inl, inr, Bool-cases,
}
use infra_onboarding.Api.Enums.{instance_state_eq}
use infra_onboarding.Api.Resources.{InstanceResource}
use infra_onboarding.Api.Errors.{Result, ok, err}
use infra_onboarding.Api.Env.{Env}
use infra_onboarding.DeviceInfo.{DeviceInfo}
use infra_onboarding.Act.{pure}
use infra_onboarding.Act.Makes.{Makes, Makes-pure, Makes-bind, Makes-if}
use infra_onboarding.Onboarding.{check_workflow_exist}
use infra_onboarding.Onboarding.Own.{exist-Own}
use infra_onboarding.Reconcilers.Identity.{identity, IsOwn, convert-guid, populate_idle-identity}
use infra_onboarding.Reconcilers.Device.{convert_instance_to_device_info}
use infra_onboarding.Reconcilers.Provision.{cleanup_provisioning_resources, reconcile_instance}
use infra_onboarding.Reconcilers.Provision.Own.{
  cleanup-Own, statuses-Own, reconcile_instance-Own, or_else-Makes,
}
use infra_onboarding.Reconcilers.Instance.{
  check_status_idle, check_status_unknown, clean_up_if_exists, deauthorize, idle_instance,
  report_unless_stopped, clean_up_and_report, is_host_deauthorized, is_provisioning_unfinished,
  handle_host_deauthorized, handle_matching_states, handle_provider_specific_rm, handle_error_state,
  handle_host_onboarded, reconcile_found,
}

module _ {E : Type 0} (env : Env E) where
  clean_up-Own :
      (i : InstanceResource) (r : Result E DeviceInfo)
      → ((d : DeviceInfo) → r ≡ ok d → d.guid ≡ (identity i).host_uuid)
      → Makes (IsOwn (identity i)) (clean_up_if_exists env i r)
  unfolding clean_up_if_exists
  clean_up-Own i (err e) p = Makes-pure false
  clean_up-Own i (ok d) p =
      Makes-bind (check_workflow_exist env d i) _ (exist-Own env i d (p d refl)) λ b.
        Makes-if b _ _
          (λ _.
            Makes-bind (cleanup_provisioning_resources env i) _ (cleanup-Own env i)
              λ _. Makes-pure _)
          λ _. Makes-pure false

  idle-identity : (i : InstanceResource) → identity (idle_instance env i) ≡ identity i
  unfolding idle_instance
  idle-identity i = elim (Bool-cases (check_status_idle i)) [
    | inl y ↦ rw y
    | inr n ↦ rw n (populate_idle-identity i)
  ]

  report-Own :
      (i : InstanceResource) (b : Bool) → Makes (IsOwn (identity i)) (report_unless_stopped env i b)
  unfolding report_unless_stopped
  report-Own i true = Makes-pure tt
  report-Own i false = statuses-Own env i

  deauthorize_idle-Own :
      (i : InstanceResource) → Makes (IsOwn (identity i)) (clean_up_and_report env i)
  unfolding clean_up_and_report
  deauthorize_idle-Own i =
      Makes-bind (clean_up_if_exists env i (convert_instance_to_device_info env i)) _
        (clean_up-Own i (convert_instance_to_device_info env i) (convert-guid env i)) (report-Own i)

  deauthorize-Own : (i : InstanceResource) → Makes (IsOwn (identity i)) (deauthorize env i)
  unfolding deauthorize
  deauthorize-Own i =
      subst (λ a. Makes (IsOwn a) (clean_up_and_report env (idle_instance env i))) (idle-identity i)
        (deauthorize_idle-Own (idle_instance env i))

  handle_deauthorized-Own :
      (i : InstanceResource) → Makes (IsOwn (identity i)) (handle_host_deauthorized env i)
  unfolding handle_host_deauthorized
  handle_deauthorized-Own i =
      Makes-if (is_host_deauthorized i) _ _
        (λ _.
          Makes-bind (if check_status_unknown i then pure tt else deauthorize env i) _
            (Makes-if (check_status_unknown i) _ _ (λ _. Makes-pure tt) (λ _. deauthorize-Own i))
            λ _. Makes-pure _)
        λ _. Makes-pure none

  handle_matching-Own :
      (i : InstanceResource) → Makes (IsOwn (identity i)) (handle_matching_states env i)
  unfolding handle_matching_states
  handle_matching-Own i =
      Makes-if (i.desired_state == i.current_state) _ _
        (λ _.
          Makes-if (is_provisioning_unfinished i) _ _
            (λ _.
              Makes-bind (reconcile_instance env i) _ (reconcile_instance-Own env i)
                λ _. Makes-pure _)
            λ _. Makes-pure _)
        λ _. Makes-pure none

  -- Whatever the inventory, Kubernetes and the authorization service answer, the reconciliation of an
  -- instance updates no other resource than that instance and its host, under their tenants, and
  -- reads, creates and deletes no other workflow and no other credentials than those of the host.
  -- Its other calls probe an OS image, look at files and read them, download artifacts and cache them.
  pub reconcile-Own : (i : InstanceResource) → Makes (IsOwn (identity i)) (reconcile_found env i)
  unfolding reconcile_found
  reconcile-Own i = or_else-Makes (handle_provider_specific_rm env i) _ (
      or_else-Makes (handle_error_state env i) _ (
        Makes-bind (handle_host_deauthorized env i) _ (handle_deauthorized-Own i) λ d.
          or_else-Makes d _ (
            Makes-bind (handle_matching_states env i) _ (handle_matching-Own i) λ d'.
              or_else-Makes d' _
                (or_else-Makes (handle_host_onboarded env i) _ (reconcile_instance-Own env i)))))
