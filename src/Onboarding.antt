-- ===== src/Onboarding.antt =====
-- onboarding-manager/internal/onboarding/workflow.go: the provisioning workflow of a host, which is
-- started if it is not there, and whose state is carried over to the instance.
pub mod Runs
pub mod Own
pub mod Kept
pub mod Look
pub mod Progress
pub mod Secret
use infra_onboarding.Prelude.{
  String, Bool, false, not, Option, none, some, List, [], ◌∷◌, format, insert, if◌then◌else◌,
}
use infra_onboarding.Api.Enums.{OsType, InstanceState}
use infra_onboarding.Api.Resources.{CustomConfig, HostResource, InstanceResource, LocalAccount}
use infra_onboarding.Api.Tink.{WorkflowState, Workflow}
use infra_onboarding.Api.Errors.{Result, ok, err, not_found, aborted, operation_in_progress}
use infra_onboarding.Api.Calls
use infra_onboarding.Api.Calls.{auth_service, get_credentials, create_credentials, logout}
use infra_onboarding.Api.Env.{Env}
use infra_onboarding.DeviceInfo.{DeviceInfo}
use infra_onboarding.Act.{Act, pure, panics, call, ◌>>=◌, ◌on_value◌}
use infra_onboarding.Status.{
  ResourceStatus, new_status_with_details, provisioning_status_in_progress,
  provisioning_status_done, provisioning_status_failed, host_status_rebooting,
}
use infra_onboarding.Util.{
  populate_host_status, populate_instance_provisioning_status,
  populate_instance_status_and_current_state, is_standalone,
}
use infra_onboarding.Tinkerbell.{
  generate_status_detail_from_workflow_state, new_workflow, dummy_hardware_name, k8s_client_factory,
  create_workflow_if_not_exists, delete_workflow_if_exists,
}
use infra_onboarding.Tinkerbell.Inputs.{generate_workflow_inputs}

unfoldable pub generate_workflow_name : String → String
generate_workflow_name uuid = format ("workflow-" ∷ uuid ∷ [])

-- templates/templates.go
abbrev pub os_type_to_template_name : OsType → Option String
os_type_to_template_name OsType.mutable = some "ubuntu"
os_type_to_template_name OsType.immutable = some "microvisor"
os_type_to_template_name _ = none

abbrev with_local_account : Option LocalAccount → DeviceInfo → DeviceInfo
with_local_account none d = d
with_local_account (some a) d = record d {
  local_account_user_name = a.username;
  ssh_key = a.ssh_key;
}

custom_configs_from : List (String × String) → List CustomConfig → List (String × String)
custom_configs_from m [] = m
custom_configs_from m (c ∷ rest) = custom_configs_from (insert c.name c.config m) rest

abbrev with_custom_configs : List CustomConfig → DeviceInfo → DeviceInfo
with_custom_configs [] d = d
with_custom_configs (c ∷ rest) d = record d { custom_configs = custom_configs_from [] (c ∷ rest) }

-- what `runProdWorkflow` adds to the device info
unfoldable pub complete_device_info : String × String → InstanceResource → DeviceInfo → DeviceInfo
unfolding custom_configs_from
complete_device_info credentials instance d =
    let d1 = record d {
      auth_client_id = credentials.0;
      auth_client_secret = credentials.1;
      tenant_id = instance.tenant_id;
      os_tls_ca_cert = elim instance.os [ none ↦ "" | some os ↦ os.tls_ca_cert ];
    } in
    with_custom_configs instance.custom_config (with_local_account instance.localaccount d1)

module _ {E : Type 0} (env : Env E) where
  workflow_or_error : String → Result E Workflow → Result E Workflow
  workflow_or_error name (ok w) = ok w
  workflow_or_error name (err e) =
      if env.k8s_is_not_found e
      then err (env.errorfc not_found (format ("Workflow " ∷ name ∷ " doesn't exist" ∷ [])))
      else err (env.errorf (format ("Failed to get workflow " ∷ name ∷ " status." ∷ [])))

  -- The measurements of the actions' times, which are only logged, are left out.
  unfoldable pub get_workflow : String → Act (Result E Workflow)
  unfolding workflow_or_error
  get_workflow name = do
    answer ← call env.workflow (Calls.get_workflow env.k8s_namespace name)
    pure (workflow_or_error name answer)

  unfoldable pub credentials_or_create :
      String → String → Result E (String × String) → Act (Result E (String × String))
  credentials_or_create tenant_id uuid (ok c) = pure (ok c)
  credentials_or_create tenant_id uuid (err e) =
      if env.is_not_found (some e)
      then call env.credentials (create_credentials tenant_id uuid)
      else pure (
          err (
            env.errorf
              (format ("Failed to check if EN credentials for host " ∷ uuid ∷ " exist." ∷ []))))

  -- the deferred logout
  unfoldable pub then_logout : Result E (String × String) → Act (Result E (String × String))
  then_logout r = do _ ← call env.outcome logout; pure r

  unfoldable pub with_auth_service : String → String → Option E → Act (Result E (String × String))
  unfolding credentials_or_create then_logout
  with_auth_service tenant_id uuid (some e) = pure (err e)
  with_auth_service tenant_id uuid none = do
    found ← call env.credentials (get_credentials tenant_id uuid)
    result ← credentials_or_create tenant_id uuid found
    then_logout result

  unfoldable pub create_en_credentials_if_not_exists :
      String → String → Act (Result E (String × String))
  unfolding with_auth_service
  create_en_credentials_if_not_exists tenant_id uuid = do
    failure ← call env.outcome auth_service
    with_auth_service tenant_id uuid failure

  -- from the choice of the template on
  unfoldable pub create_from_template : DeviceInfo → Option String → Act (Option E)
  create_from_template d none =
      pure (some (env.errorf "Cannot find Tinkerbell template for OS type"))
  create_from_template d (some template_name) = generate_workflow_inputs env d on_value λ inputs.
      create_workflow_if_not_exists env (
        new_workflow (generate_workflow_name d.guid) env.k8s_namespace dummy_hardware_name
          template_name inputs)

  unfoldable pub run_prod_workflow : DeviceInfo → InstanceResource → Act (Option E)
  unfolding create_from_template
  run_prod_workflow d instance =
      create_en_credentials_if_not_exists instance.tenant_id d.guid on_value λ credentials.
      create_from_template (complete_device_info credentials instance d)
        (os_type_to_template_name d.os_type)

  set_rebooting : InstanceResource → Act (Option E × InstanceResource)
  set_rebooting instance = elim (populate_host_status instance host_status_rebooting) [
    | none ↦ panics
    | some rebooting ↦ pure (none, rebooting)
  ]

  unfoldable pub reboot_unless_standalone :
      InstanceResource → Result E Bool → Act (Option E × InstanceResource)
  unfolding set_rebooting
  reboot_unless_standalone instance (err e) = pure (some e, instance)
  reboot_unless_standalone instance (ok standalone) =
      if standalone then pure (none, instance) else set_rebooting instance

  unfoldable pub on_workflow_state :
      WorkflowState
      → InstanceResource
      → String
      → ResourceStatus
      → ResourceStatus
      → Act (Option E × InstanceResource)
  unfolding reboot_unless_standalone
  on_workflow_state WorkflowState.success instance detail on_success on_failure =
      let finished =
        populate_instance_status_and_current_state instance InstanceState.running
          (new_status_with_details on_success detail) in
      reboot_unless_standalone finished (is_standalone env finished)
  on_workflow_state WorkflowState.failed instance detail on_success on_failure = pure (
    some (env.errorfc aborted "Workflow failed or timed out"),
    populate_instance_provisioning_status instance (new_status_with_details on_failure detail),
  )
  on_workflow_state WorkflowState.timeout instance detail on_success on_failure = pure (
    some (env.errorfc aborted "Workflow failed or timed out"),
    populate_instance_provisioning_status instance (new_status_with_details on_failure detail),
  )
  on_workflow_state (WorkflowState.unnamed n) instance detail on_success on_failure =
      pure (some (env.errorf "Unknown workflow state"), instance)
  on_workflow_state _ instance detail on_success on_failure = pure (
    some (env.errorfr operation_in_progress ""),
    populate_instance_status_and_current_state instance InstanceState.unspecified
        (new_status_with_details provisioning_status_in_progress detail),
  )

  unfoldable pub handle_workflow_status :
      InstanceResource
      → Workflow
      → ResourceStatus
      → ResourceStatus
      → Act (Option E × InstanceResource)
  unfolding on_workflow_state
  handle_workflow_status instance w on_success on_failure =
      on_workflow_state w.state instance (generate_status_detail_from_workflow_state (some w))
        on_success on_failure

  started : Option E → Option E
  started (some e) = some e
  started none =
      some (env.errorfr operation_in_progress "Prod workflow started, waiting for it to complete")

  unfoldable pub with_workflow :
      DeviceInfo → InstanceResource → Result E Workflow → Act (Option E × InstanceResource)
  unfolding started
  with_workflow d instance (ok w) =
      let in_progress =
        populate_instance_status_and_current_state instance InstanceState.unspecified
          provisioning_status_in_progress in
      handle_workflow_status in_progress w provisioning_status_done provisioning_status_failed
  with_workflow d instance (err e) =
      if env.is_not_found (some e)
      then (do run_error ← run_prod_workflow d instance; pure (started run_error, instance))
      else pure (some e, instance)

  -- `instance.Host.ResourceId` is read before the workflow is looked up
  unfoldable pub with_client :
      DeviceInfo
      → InstanceResource
      → Option HostResource
      → Option E
      → Act (Option E × InstanceResource)
  unfolding with_workflow
  with_client d instance host (some e) = pure (some e, instance)
  with_client d instance none none = panics
  with_client d instance (some host) none = do
    found ← get_workflow (generate_workflow_name d.guid)
    with_workflow d instance found

  unfoldable pub check_status_or_run_prod_workflow :
      DeviceInfo → InstanceResource → Act (Option E × InstanceResource)
  unfolding with_client
  check_status_or_run_prod_workflow d instance = do
    failure ← k8s_client_factory env
    with_client d instance instance.host failure

  exists_or_not : Result E Workflow → Bool
  exists_or_not (err e) = false
  exists_or_not (ok w) = not (env.is_not_found none)

  exists_with_client : DeviceInfo → Option HostResource → Option E → Act Bool
  unfolding exists_or_not
  exists_with_client d host (some e) = pure false
  exists_with_client d none none = panics
  exists_with_client d (some host) none = do
    found ← get_workflow (generate_workflow_name d.guid)
    pure (exists_or_not found)

  unfoldable pub check_workflow_exist : DeviceInfo → InstanceResource → Act Bool
  unfolding exists_with_client
  check_workflow_exist d instance = do
    failure ← k8s_client_factory env
    exists_with_client d instance.host failure

  unfoldable pub delete_tinkerbell_workflow_if_exists : String → Act (Option E)
  delete_tinkerbell_workflow_if_exists uuid =
      delete_workflow_if_exists env env.k8s_namespace (generate_workflow_name uuid)
