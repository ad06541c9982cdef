-- ===== src/Onboarding/Own.antt =====
-- The calls about a workflow are about the workflow of the instance's own host (workflow.go).
use infra_onboarding.Prelude.{◌≡◌, ap, ◌∙◌, String, Bool, Option, none, some}
use infra_onboarding.Api.Resources.{HostResource, InstanceResource}
use infra_onboarding.Api.Tink.{WorkflowState, Workflow}
use infra_onboarding.Api.Errors.{Result, ok, err}
use infra_onboarding.Api.Calls.{Call, k8s_client}
use infra_onboarding.Api.Env.{Env}
use infra_onboarding.DeviceInfo.{DeviceInfo}
use infra_onboarding.Act.{Act, pure, panics, call}
use infra_onboarding.Act.Makes.{
  Makes, Makes-pure, Makes-panics, Makes-bind, Makes-on_value, Makes-weaken, Makes-if, Makes-call,
  makes_rules,
}
use infra_onboarding.Status.{ResourceStatus, host_status_rebooting}
use infra_onboarding.Util.{populate_host_status}
use infra_onboarding.Tinkerbell.{
  new_workflow, dummy_hardware_name, create_workflow_if_not_exists, delete_workflow_if_exists,
}
use infra_onboarding.Tinkerbell.Inputs.{generate_workflow_inputs}
use infra_onboarding.Tinkerbell.Inputs.Asks.{
  AsksInputs, image, looks, reads, downloads, stores, inputs-Makes,
}
use infra_onboarding.Onboarding.{
  generate_workflow_name, os_type_to_template_name, complete_device_info, run_prod_workflow,
  create_from_template, create_en_credentials_if_not_exists, get_workflow, with_workflow,
  with_client, check_status_or_run_prod_workflow, handle_workflow_status, on_workflow_state,
  reboot_unless_standalone, set_rebooting, check_workflow_exist, exists_with_client,
  delete_tinkerbell_workflow_if_exists,
}
use infra_onboarding.Onboarding.Runs.{
  AsksAuth, login, get, create, leave, credentials-Makes, complete-guid,
}
use infra_onboarding.Reconcilers.Identity.{identity, IsOwn}

auth-IsOwn :
    (i : InstanceResource) (c : Call)
    → AsksAuth (identity i).tenant_id (identity i).host_uuid c
    → IsOwn (identity i) c
auth-IsOwn i c login = IsOwn.login
auth-IsOwn i c get = IsOwn.get_credentials
auth-IsOwn i c create = IsOwn.create_credentials
auth-IsOwn i c leave = IsOwn.leave

inputs-IsOwn : (i : InstanceResource) (c : Call) → AsksInputs c → IsOwn (identity i) c
inputs-IsOwn i c image = IsOwn.probe_image
inputs-IsOwn i c looks = IsOwn.look_for_file
inputs-IsOwn i c reads = IsOwn.read_file
inputs-IsOwn i c downloads = IsOwn.download
inputs-IsOwn i c stores = IsOwn.store

module _ {E : Type 0} (env : Env E) (i : InstanceResource) where
  credentials-Own :
      (uuid : String)
      → uuid ≡ (identity i).host_uuid
      → Makes (IsOwn (identity i)) (create_en_credentials_if_not_exists env i.tenant_id uuid)
  credentials-Own uuid e = rw e (
      Makes-weaken (create_en_credentials_if_not_exists env i.tenant_id (identity i).host_uuid)
        (auth-IsOwn i) (credentials-Makes env i.tenant_id (identity i).host_uuid))

  create-Own :
      (w : Workflow)
      → w.name ≡ generate_workflow_name (identity i).host_uuid
      → Makes (IsOwn (identity i)) (create_workflow_if_not_exists env w)
  unfolding create_workflow_if_not_exists
  create-Own w e = search (makes_rules, IsOwn.create_workflow)

  from_template-Own :
      (d : DeviceInfo) (t : Option String)
      → d.guid ≡ (identity i).host_uuid
      → Makes (IsOwn (identity i)) (create_from_template env d t)
  unfolding create_from_template
  from_template-Own d none e = Makes-pure _
  from_template-Own d (some name) e =
      Makes-on_value (generate_workflow_inputs env d) _
        (Makes-weaken (generate_workflow_inputs env d) (inputs-IsOwn i) (inputs-Makes env d))
        λ inputs.
          create-Own
            (new_workflow (generate_workflow_name d.guid) env.k8s_namespace dummy_hardware_name name
              inputs)
            (unfold new_workflow in ap generate_workflow_name e)

  run-Own :
      (d : DeviceInfo)
      → d.guid ≡ (identity i).host_uuid
      → Makes (IsOwn (identity i)) (run_prod_workflow env d i)
  unfolding run_prod_workflow
  run-Own d e =
      Makes-on_value (create_en_credentials_if_not_exists env i.tenant_id d.guid) _
        (credentials-Own d.guid e)
        λ c.
          from_template-Own (complete_device_info c i d) (os_type_to_template_name d.os_type)
            (complete-guid c i d ∙ e)

  get-Own :
      (uuid : String)
      → uuid ≡ (identity i).host_uuid
      → Makes (IsOwn (identity i)) (get_workflow env (generate_workflow_name uuid))
  unfolding get_workflow
  get-Own uuid e = rw e (search (makes_rules, IsOwn.read_workflow))

  reboot-Own :
      (j : InstanceResource) (b : Result E Bool)
      → Makes (IsOwn (identity i)) (reboot_unless_standalone env j b)
  unfolding reboot_unless_standalone set_rebooting
  reboot-Own j (err e) = Makes-pure _
  reboot-Own j (ok b) =
      Makes-if b (pure (none, j)) _ (λ _. Makes-pure _)
        λ _.
          elim (populate_host_status j host_status_rebooting)
            as (λ o.
              Makes (IsOwn (identity i)) (elim o as (λ _. Act (Option E × InstanceResource)) [
                | none ↦ panics
                | some rebooting ↦ pure (none, rebooting)
              ])) [ none ↦ Makes-panics | some r ↦ Makes-pure _ ]

  state-Own :
      (state : WorkflowState) (j : InstanceResource) (detail : String) (s f : ResourceStatus)
      → Makes (IsOwn (identity i)) (on_workflow_state env state j detail s f)
  unfolding on_workflow_state
  state-Own WorkflowState.success j detail s f = reboot-Own _ _
  state-Own _ j detail s f = Makes-pure _

  with_workflow-Own :
      (d : DeviceInfo) (r : Result E Workflow)
      → d.guid ≡ (identity i).host_uuid
      → Makes (IsOwn (identity i)) (with_workflow env d i r)
  unfolding with_workflow handle_workflow_status
  with_workflow-Own d (ok w) e = state-Own w.state _ _ _ _
  with_workflow-Own d (err x) e =
      Makes-if (env.is_not_found (some x)) _ _
        (λ _. Makes-bind (run_prod_workflow env d i) _ (run-Own d e) (λ a. Makes-pure _))
        (λ _. Makes-pure _)

  with_client-Own :
      (d : DeviceInfo) (host : Option HostResource) (failure : Option E)
      → d.guid ≡ (identity i).host_uuid
      → Makes (IsOwn (identity i)) (with_client env d i host failure)
  unfolding with_client
  with_client-Own d host (some x) e = Makes-pure _
  with_client-Own d none none e = Makes-panics
  with_client-Own d (some host) none e =
      Makes-bind (get_workflow env (generate_workflow_name d.guid)) _ (get-Own d.guid e)
        λ r. with_workflow-Own d r e

  pub check-Own :
      (d : DeviceInfo)
      → d.guid ≡ (identity i).host_uuid
      → Makes (IsOwn (identity i)) (check_status_or_run_prod_workflow env d i)
  unfolding check_status_or_run_prod_workflow
  check-Own d e =
      Makes-bind (call env.outcome k8s_client) _ (Makes-call env.outcome k8s_client IsOwn.client)
        λ failure. with_client-Own d i.host failure e

  exists_with-Own :
      (d : DeviceInfo) (host : Option HostResource) (failure : Option E)
      → d.guid ≡ (identity i).host_uuid
      → Makes (IsOwn (identity i)) (exists_with_client env d host failure)
  unfolding exists_with_client
  exists_with-Own d host (some x) e = Makes-pure _
  exists_with-Own d none none e = Makes-panics
  exists_with-Own d (some host) none e =
      Makes-bind (get_workflow env (generate_workflow_name d.guid)) _ (get-Own d.guid e)
        λ r. Makes-pure _

  pub exist-Own :
      (d : DeviceInfo)
      → d.guid ≡ (identity i).host_uuid
      → Makes (IsOwn (identity i)) (check_workflow_exist env d i)
  unfolding check_workflow_exist
  exist-Own d e =
      Makes-bind (call env.outcome k8s_client) _ (Makes-call env.outcome k8s_client IsOwn.client)
        λ failure. exists_with-Own d i.host failure e

  pub delete-Own :
      (uuid : String)
      → uuid ≡ (identity i).host_uuid
      → Makes (IsOwn (identity i)) (delete_tinkerbell_workflow_if_exists env uuid)
  unfolding delete_tinkerbell_workflow_if_exists delete_workflow_if_exists
  delete-Own uuid e = rw e (search (makes_rules, IsOwn.client, IsOwn.delete_workflow))
