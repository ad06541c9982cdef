-- ===== src/Onboarding/Progress.antt =====
-- Provisioning counts as done only when the workflow has succeeded (workflow.go).
use infra_onboarding.Prelude.{
  ◌≡◌, ◌≢◌, ◌⊎◌, inl, inr, ◌↔◌, refl, ap, subst, ◌∙◌, String, Bool, Option, none, some, ◌∷◌, arith,
}
use infra_onboarding.Api.Enums.{InstanceState}
use infra_onboarding.Api.Resources.{HostResource, InstanceResource}
use infra_onboarding.Api.Tink.{WorkflowState, Workflow}
use infra_onboarding.Api.Errors.{Result, ok, err}
use infra_onboarding.Api.Calls.{Call, History, k8s_client}
use infra_onboarding.Api.Calls
use infra_onboarding.Api.Env.{Env}
use infra_onboarding.DeviceInfo.{DeviceInfo}
use infra_onboarding.Act.{done, pure}
use infra_onboarding.Status.{ResourceStatus, new_status_with_details, provisioning_status_done}
use infra_onboarding.Util.{
  populate_instance_provisioning_status, populate_host_status,
  populate_instance_status_and_current_state,
}
use infra_onboarding.Tinkerbell.{generate_status_detail_from_workflow_state}
use infra_onboarding.Onboarding.{
  generate_workflow_name, on_workflow_state, reboot_unless_standalone, handle_workflow_status,
  with_workflow, with_client, check_status_or_run_prod_workflow, get_workflow, workflow_or_error,
}

-- An instance that is running with the given provisioning status.
pub record IsRunningWith (s : ResourceStatus) (i : InstanceResource) : Type 0 where
  pub running : i.current_state ≡ InstanceState.running
  pub status : i.provisioning_status ≡ s.status
  pub indicator : i.provisioning_status_indicator ≡ s.status_indicator

module _ {E : Type 0} (env : Env E) where
  rebooting_keeps :
      (s : ResourceStatus) (i : InstanceResource) (standalone : Result E Bool) (h g : History)
      (j : InstanceResource)
      → IsRunningWith s i
      → reboot_unless_standalone env i standalone h ≡ (done (none, j), g)
      → IsRunningWith s j
  unfolding reboot_unless_standalone populate_host_status
  rebooting_keeps s i (err e) h g j r q = cc
  rebooting_keeps s i (ok b) h g j r q = ground arith

  populated-IsRunningWith :
      (i : InstanceResource) (s : ResourceStatus)
      → IsRunningWith s (populate_instance_status_and_current_state i InstanceState.running s)
  unfolding populate_instance_status_and_current_state
  populated-IsRunningWith i s = record { running = refl; status = refl; indicator = refl }

  on_state_success_only :
      (state : WorkflowState) (i : InstanceResource) (detail : String) (s f : ResourceStatus)
      (h g : History) (j : InstanceResource)
      → on_workflow_state env state i detail s f h ≡ (done (none, j), g)
      → (state ≡ WorkflowState.success) × IsRunningWith (new_status_with_details s detail) j
  unfolding on_workflow_state
  on_state_success_only WorkflowState.success i detail s f h g j q = (
    refl,
    rebooting_keeps (new_status_with_details s detail) _ _ h g j
        (populated-IsRunningWith i (new_status_with_details s detail)) q,
  )
  on_state_success_only _ i detail s f h g j q = cc

  detail_of_success :
      (w : Workflow)
      → w.state ≡ WorkflowState.success
      → generate_status_detail_from_workflow_state (some w) ≡ ""
  unfolding generate_status_detail_from_workflow_state
  detail_of_success w e = ground arith

  no_details : (s : ResourceStatus) → new_status_with_details s "" ≡ s
  unfolding new_status_with_details
  no_details s = refl

  -- No error means a success, and then the instance is running with the status that was given for
  -- success, with no detail added.
  no_error_success :
      (i : InstanceResource) (w : Workflow) (s f : ResourceStatus) (h g : History)
      (j : InstanceResource)
      → handle_workflow_status env i w s f h ≡ (done (none, j), g)
      → (w.state ≡ WorkflowState.success) × IsRunningWith s j
  unfolding handle_workflow_status
  no_error_success i w s f h g j q =
      let (e, r) = on_state_success_only w.state i _ s f h g j q in
      (
        e,
        subst (λ t. IsRunningWith t j)
            (ap (new_status_with_details s) (detail_of_success w e) ∙ no_details s) r,
      )

  result_instance :
      {i j : InstanceResource} {e f : Option E} {h g : History}
      → pure {A = Option E × InstanceResource} (e, i) h ≡ (done (f, j), g)
      → i ≡ j
  result_instance q = cc

  -- The reboot leaves a running instance running, also where it gives an error.
  reboot_running :
      (s : ResourceStatus) (i j : InstanceResource) (standalone : Result E Bool) (e : Option E)
      (h g : History)
      → IsRunningWith s i
      → reboot_unless_standalone env i standalone h ≡ (done (e, j), g)
      → IsRunningWith s j
  unfolding reboot_unless_standalone populate_host_status
  reboot_running s i j (err x) e h g r q = subst (IsRunningWith s) (result_instance q) r
  reboot_running s i j (ok b) e h g r q = ground arith

  state_running :
      (state : WorkflowState) (i : InstanceResource) (detail : String) (s f : ResourceStatus)
      (e : Option E) (h g : History) (j : InstanceResource)
      → i.current_state ≢ InstanceState.running
      → on_workflow_state env state i detail s f h ≡ (done (e, j), g)
      → ((state ≡ WorkflowState.success) × IsRunningWith (new_status_with_details s detail) j)
        ⊎ ((state ≢ WorkflowState.success) × (j.current_state ≢ InstanceState.running))
  unfolding on_workflow_state populate_instance_provisioning_status
      populate_instance_status_and_current_state
  state_running WorkflowState.success i detail s f e h g j n q = inl (
    refl,
    reboot_running (new_status_with_details s detail) _ j _ e h g
        (populated-IsRunningWith i (new_status_with_details s detail)) q,
  )
  state_running WorkflowState.failed i detail s f e h g j n q =
      inr (
        λ x. absurd (cc),
        subst (λ x. x.current_state ≢ InstanceState.running) (result_instance q) n,
      )
  state_running WorkflowState.timeout i detail s f e h g j n q =
      inr (
        λ x. absurd (cc),
        subst (λ x. x.current_state ≢ InstanceState.running) (result_instance q) n,
      )
  state_running (WorkflowState.unnamed k) i detail s f e h g j n q =
      inr (
        λ x. absurd (cc),
        subst (λ x. x.current_state ≢ InstanceState.running) (result_instance q) n,
      )
  state_running _ i detail s f e h g j n q = inr (
    λ x. absurd (cc),
    subst (λ x. x.current_state ≢ InstanceState.running) (result_instance q) (λ x. absurd (cc)),
  )

  -- The state of an instance that is not running is changed to running exactly where the workflow has
  -- succeeded, whatever error is reported, and then, and only then, it is running with the status that
  -- was given for success, with no detail added.
  pub success_only :
      (i : InstanceResource) (w : Workflow) (s f : ResourceStatus) (e : Option E) (h g : History)
      (j : InstanceResource)
      → i.current_state ≢ InstanceState.running
      → handle_workflow_status env i w s f h ≡ (done (e, j), g)
      → ((j.current_state ≡ InstanceState.running) ↔ (w.state ≡ WorkflowState.success))
        × (IsRunningWith s j ↔ (w.state ≡ WorkflowState.success))
  unfolding handle_workflow_status
  success_only i w s f e h g j n q = elim (state_running w.state i _ s f e h g j n q) [
    | inl (t, r) ↦
        let u =
          subst (λ x. IsRunningWith x j)
            (ap (new_status_with_details s) (detail_of_success w t) ∙ no_details s) r in
        ((λ x. t, λ x. r.running), (λ x. t, λ x. u))
    | inr (t, r) ↦
        ((λ x. absurd (r x), λ x. absurd (t x)), (λ x. absurd (r x.running), λ x. absurd (t x)))
  ]

  -- What is found where provisioning reports no error.
  pub record Succeeded (d : DeviceInfo) (h : History) (j : InstanceResource) : Type 0 where
    pub found : Workflow
    pub read :
        env.workflow
          (k8s_client ∷ h)
          (Calls.get_workflow env.k8s_namespace (generate_workflow_name d.guid))
        ≡ ok found
    pub succeeded : found.state ≡ WorkflowState.success
    pub is_running : IsRunningWith provisioning_status_done j

  no_success_on_error :
      (d : DeviceInfo) (i j : InstanceResource) (e : E) (h g : History)
      → with_workflow env d i (err e) h ≡ (done (none, j), g)
      → ⊥
  unfolding with_workflow
  no_success_on_error d i j e h g q = ground arith

  with_workflow_success :
      (d : DeviceInfo) (i j : InstanceResource) (r : Result E Workflow) (h g : History)
      → with_workflow env d i r h ≡ (done (none, j), g)
      → (w : Workflow) × (r ≡ ok w)
        × (w.state ≡ WorkflowState.success)
        × IsRunningWith provisioning_status_done j
  unfolding with_workflow
  with_workflow_success d i j (ok w) h g q =
      let (e, r) = no_error_success _ w provisioning_status_done _ h g j q in (w, refl, e, r)
  with_workflow_success d i j (err e) h g q = absurd (no_success_on_error d i j e h g q)

  workflow_read :
      (name : String) (r : Result E Workflow) (w : Workflow)
      → workflow_or_error env name r ≡ ok w
      → r ≡ ok w
  unfolding workflow_or_error
  workflow_read name (ok v) w q = q
  workflow_read name (err e) w q = ground arith

  client_success :
      (d : DeviceInfo) (i j : InstanceResource) (host : Option HostResource) (failure : Option E)
      (h g : History)
      → with_client env d i host failure h ≡ (done (none, j), g)
      → (w : Workflow) × (env.workflow h
            (Calls.get_workflow env.k8s_namespace (generate_workflow_name d.guid))
          ≡ ok w)
        × (w.state ≡ WorkflowState.success)
        × IsRunningWith provisioning_status_done j
  unfolding with_client get_workflow
  client_success d i j host (some e) h g q = absurd (cc)
  client_success d i j none none h g q = absurd (cc)
  client_success d i j (some host) none h g q =
      let (w, e, s, r) = with_workflow_success d i j _ _ g q in
      (w, workflow_read (generate_workflow_name d.guid) _ w e, s, r)

  -- Provisioning reports no error only after the host's workflow was read and found to have
  -- succeeded; the instance is then running, and its provisioning status is "Provisioned".
  pub no_error_only_on_success :
      (d : DeviceInfo) (i j : InstanceResource) (h g : History)
      → check_status_or_run_prod_workflow env d i h ≡ (done (none, j), g)
      → Succeeded d h j
  unfolding check_status_or_run_prod_workflow
  no_error_only_on_success d i j h g q =
      let (w, e, s, r) = client_success d i j i.host _ (k8s_client ∷ h) g q in
      record { found = w; read = e; succeeded = s; is_running = r }
