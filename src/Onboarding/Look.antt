-- ===== src/Onboarding/Look.antt =====
-- The calls of a look for a workflow, for any property of calls (workflow.go).
use infra_onboarding.Prelude.{String, Option, none, some}
use infra_onboarding.Api.Resources.{HostResource, InstanceResource}
use infra_onboarding.Api.Calls
use infra_onboarding.Api.Calls.{Call, k8s_client}
use infra_onboarding.Api.Env.{Env}
use infra_onboarding.DeviceInfo.{DeviceInfo}
use infra_onboarding.Act.{call}
use infra_onboarding.Act.Makes.{Makes, Makes-pure, Makes-panics, Makes-bind, Makes-call}
use infra_onboarding.Onboarding.{
  generate_workflow_name, workflow_or_error, get_workflow, exists_with_client, check_workflow_exist,
}

module _ {ℓ} {E : Type 0} (env : Env E) {P : Call → Type ℓ} (client : P k8s_client)
    (look : (ns name : String) → P (Calls.get_workflow ns name)) where
  get_workflow-Makes : (name : String) → Makes P (get_workflow env name)
  unfolding get_workflow
  get_workflow-Makes name =
      Makes-bind (call env.workflow (Calls.get_workflow env.k8s_namespace name)) _
        (Makes-call env.workflow _ (look env.k8s_namespace name))
        λ r. Makes-pure (workflow_or_error env name r)

  exists_with-Makes :
      (d : DeviceInfo) (host : Option HostResource) (failure : Option E)
      → Makes P (exists_with_client env d host failure)
  unfolding exists_with_client
  exists_with-Makes d host (some x) = Makes-pure _
  exists_with-Makes d none none = Makes-panics
  exists_with-Makes d (some host) none =
      Makes-bind (get_workflow env (generate_workflow_name d.guid)) _
        (get_workflow-Makes (generate_workflow_name d.guid)) λ r. Makes-pure _

  pub check_workflow_exist-Makes :
      (d : DeviceInfo) (i : InstanceResource) → Makes P (check_workflow_exist env d i)
  unfolding check_workflow_exist
  check_workflow_exist-Makes d i =
      Makes-bind (call env.outcome k8s_client) _ (Makes-call env.outcome k8s_client client)
        λ failure. exists_with-Makes d i.host failure
