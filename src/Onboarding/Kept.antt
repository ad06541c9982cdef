-- ===== src/Onboarding/Kept.antt =====
-- What checking a workflow, or starting one, leaves as it is in an instance (workflow.go).
use infra_onboarding.Prelude.{
  ◌≡◌, ◌∙◌, Bool, true, false, Option, none, some, Option-cases, inl, inr, String, arith,
}
use infra_onboarding.Api.Enums.{InstanceState}
use infra_onboarding.Api.Resources.{HostResource, InstanceResource}
use infra_onboarding.Api.Tink.{WorkflowState, Workflow}
use infra_onboarding.Api.Errors.{Result, ok, err}
use infra_onboarding.Api.Calls.{History}
use infra_onboarding.Api.Env.{Env}
use infra_onboarding.DeviceInfo.{DeviceInfo}
use infra_onboarding.Act.{done, pure}
use infra_onboarding.Status.{ResourceStatus, host_status_rebooting}
use infra_onboarding.Util.{
  populate_host_status, populate_instance_provisioning_status,
  populate_instance_status_and_current_state,
}
use infra_onboarding.Onboarding.{
  reboot_unless_standalone, set_rebooting, on_workflow_state, handle_workflow_status, with_workflow,
  with_client, check_status_or_run_prod_workflow, get_workflow,
}

-- What is written to an instance while its workflow is checked leaves `f` of it as it was.
pub record IsKept {A : Type 0} (f : InstanceResource → A) : Type 0 where
  pub state :
      (i : InstanceResource) (c : InstanceState) (s : ResourceStatus)
      → f (populate_instance_status_and_current_state i c s) ≡ f i
  pub provisioning :
      (i : InstanceResource) (s : ResourceStatus)
      → f (populate_instance_provisioning_status i s) ≡ f i
  pub host :
      (i j : InstanceResource) (s : ResourceStatus) → populate_host_status i s ≡ some j → f j ≡ f i

module _ {A : Type 0} (f : InstanceResource → A) (kept : IsKept f) {E : Type 0} where
  same_result :
      (i j : InstanceResource) (e e' : Option E) (h : History)
      → (pure {A = Option E × InstanceResource} (e, i) h).0 ≡ done (e', j)
      → f j ≡ f i
  same_result i j e e' h q = cc

  module _ (env : Env E) where
    rebooting-kept :
        (i j : InstanceResource) (e : Option E) (h : History)
        → (set_rebooting env i h).0 ≡ done (e, j)
        → f j ≡ f i
    unfolding set_rebooting
    rebooting-kept i j e h q = elim (Option-cases (populate_host_status i host_status_rebooting)) [
      | inl n ↦ ground arith
      | inr (k, p) ↦ let r = kept.host i k host_status_rebooting p in ground arith
    ]

    standalone-kept :
        (i j : InstanceResource) (b : Bool) (e : Option E) (h : History)
        → (reboot_unless_standalone env i (ok b) h).0 ≡ done (e, j)
        → f j ≡ f i
    unfolding reboot_unless_standalone
    standalone-kept i j true e h q = same_result i j _ e h q
    standalone-kept i j false e h q = rebooting-kept i j e h q

    reboot-kept :
        (i j : InstanceResource) (b : Result E Bool) (e : Option E) (h : History)
        → (reboot_unless_standalone env i b h).0 ≡ done (e, j)
        → f j ≡ f i
    unfolding reboot_unless_standalone
    reboot-kept i j (err x) e h q = same_result i j _ e h q
    reboot-kept i j (ok b) e h q = standalone-kept i j b e h q

    state-kept :
        (state : WorkflowState) (i j : InstanceResource) (detail : String)
        (s failed : ResourceStatus) (e : Option E) (h : History)
        → (on_workflow_state env state i detail s failed h).0 ≡ done (e, j)
        → f j ≡ f i
    unfolding on_workflow_state
    state-kept WorkflowState.success i j detail s failed e h q =
        reboot-kept _ j _ e h q ∙ kept.state i InstanceState.running _
    state-kept WorkflowState.failed i j detail s failed e h q =
        same_result _ j _ e h q ∙ kept.provisioning i _
    state-kept WorkflowState.timeout i j detail s failed e h q =
        same_result _ j _ e h q ∙ kept.provisioning i _
    state-kept (WorkflowState.unnamed n) i j detail s failed e h q = same_result _ j _ e h q
    state-kept _ i j detail s failed e h q =
        same_result _ j _ e h q ∙ kept.state i InstanceState.unspecified _

    with_workflow-kept :
        (d : DeviceInfo) (i j : InstanceResource) (r : Result E Workflow) (e : Option E)
        (h : History)
        → (with_workflow env d i r h).0 ≡ done (e, j)
        → f j ≡ f i
    unfolding with_workflow handle_workflow_status
    with_workflow-kept d i j (ok w) e h q =
        state-kept w.state _ j _ _ _ e h q ∙ kept.state i InstanceState.unspecified _
    with_workflow-kept d i j (err x) e h q = ground arith

    with_client-kept :
        (d : DeviceInfo) (i j : InstanceResource) (host : Option HostResource)
        (failure e : Option E) (h : History)
        → (with_client env d i host failure h).0 ≡ done (e, j)
        → f j ≡ f i
    unfolding with_client get_workflow
    with_client-kept d i j host (some x) e h q = same_result i j (some x) e h q
    with_client-kept d i j none none e h q = absurd (cc)
    with_client-kept d i j (some host) none e h q = with_workflow-kept d i j _ e _ q

    -- Checking or starting the workflow keeps what the statuses, the current state and the status of
    -- the host have no part in.
    pub check-kept :
        (d : DeviceInfo) (i j : InstanceResource) (e : Option E) (h : History)
        → (check_status_or_run_prod_workflow env d i h).0 ≡ done (e, j)
        → f j ≡ f i
    unfolding check_status_or_run_prod_workflow
    check-kept d i j e h q = with_client-kept d i j i.host _ e _ q
