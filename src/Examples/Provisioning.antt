-- ===== src/Examples/Provisioning.antt =====
-- Workflows at work.
use infra_onboarding.Prelude.{
  ◌↔◌, true, trim_space, contains, ◌≡◌, ◌≢◌, refl, none, some, List, [], ◌∷◌, arith,
}
use infra_onboarding.Api.Enums.{InstanceState, StatusIndication}
use infra_onboarding.Api.Resources.{InstanceResource}
use infra_onboarding.Api.Tink.{WorkflowState, Workflow, Action}
use infra_onboarding.Api.Calls.{History}
use infra_onboarding.Act.{done}
use infra_onboarding.Status.{
  new_status_with_details, provisioning_status_done, provisioning_status_failed,
}
use infra_onboarding.Util.{
  populate_host_status, populate_instance_status_and_current_state, is_standalone,
}
use infra_onboarding.Tinkerbell.{
  generate_status_detail_from_workflow_state, create_workflow_if_not_exists,
}
use infra_onboarding.Tinkerbell.Details.{Progress, told, status_detail-Progress}
use infra_onboarding.Tinkerbell.Images.{get_stream_os_to_disk_tinker_action_image}
use infra_onboarding.Tinkerbell.Inputs.{generate_workflow_inputs}
use infra_onboarding.PlatformBundle.{fetch_platform_bundle_scripts}
use infra_onboarding.CloudInit.{generate_from_infra_config}
use infra_onboarding.Dkam.Curation.{get_common_infra_template_variables, curate_from_template}
use infra_onboarding.Onboarding.{
  handle_workflow_status, on_workflow_state, reboot_unless_standalone,
  check_status_or_run_prod_workflow, run_prod_workflow, with_client, with_workflow, get_workflow,
  create_from_template, create_en_credentials_if_not_exists, with_auth_service,
  credentials_or_create, then_logout, complete_device_info,
}
use infra_onboarding.Onboarding.Progress.{
  IsRunningWith, success_only, Succeeded, no_error_only_on_success,
}
use infra_onboarding.Onboarding.Runs.{Created, run_prod_workflow-Created}
use infra_onboarding.Api.Calls.{http_get}
use infra_onboarding.Tinkerbell.Images.{detect_image_format, proxy_of, qcow2_image_format}
use infra_onboarding.Tinkerbell.Images.Format.{HasMagic, detect_image_format_iff}
use infra_onboarding.Examples.World.{world, finished_workflow, machine, server, device}

abbrev first_actions : List Action
first_actions =
    (record { name = "partition"; status = WorkflowState.success; message = "" })
    ∷ (record { name = "write image"; status = WorkflowState.running; message = "40%" })
    ∷ []

abbrev running_workflow : Workflow
running_workflow = record finished_workflow {
  state = WorkflowState.running;
  tasks = (record { actions = first_actions }) ∷ [];
}

status_detail-Progress_example :
    (g : Progress first_actions) × (generate_status_detail_from_workflow_state
        (some running_workflow)
      ≡ told g)
status_detail-Progress_example =
    status_detail-Progress running_workflow (record { actions = first_actions }) []
      (record { name = "partition"; status = WorkflowState.success; message = "" })
      (record { name = "write image"; status = WorkflowState.running; message = "40%" } ∷ [])
      (λ e. ground arith) refl refl (λ e. cc, (λ e. cc, tt))

abbrev rebooted : InstanceResource
rebooted = record machine {
  host = some (record server {
    host_status = "Rebooting";
    host_status_indicator = StatusIndication.in_progress;
  });
  current_state = InstanceState.running;
  provisioning_status = "Provisioned";
  provisioning_status_indicator = StatusIndication.idle;
}

handles :
    (h : History)
    → handle_workflow_status world machine finished_workflow provisioning_status_done
        provisioning_status_failed h
      ≡ (done (none, rebooted), h)
unfolding handle_workflow_status on_workflow_state reboot_unless_standalone new_status_with_details
    populate_host_status populate_instance_status_and_current_state is_standalone
    generate_status_detail_from_workflow_state
handles h = refl

not_running_before : machine.current_state ≢ InstanceState.running
not_running_before e = absurd (cc)

success_only_example :
    ((rebooted.current_state ≡ InstanceState.running)
      ↔ (finished_workflow.state ≡ WorkflowState.success))
    × (IsRunningWith provisioning_status_done rebooted
        ↔ (finished_workflow.state ≡ WorkflowState.success))
success_only_example =
    success_only world machine finished_workflow provisioning_status_done provisioning_status_failed
      none [] [] rebooted not_running_before (handles [])

abbrev checked_calls : History
checked_calls = (check_status_or_run_prod_workflow world device machine []).1

checks :
    check_status_or_run_prod_workflow world device machine []
    ≡ (done (none, rebooted), checked_calls)
unfolding check_status_or_run_prod_workflow handle_workflow_status on_workflow_state
    reboot_unless_standalone new_status_with_details populate_host_status
    populate_instance_status_and_current_state is_standalone
    generate_status_detail_from_workflow_state with_client with_workflow get_workflow
checks = refl

no_error_only_on_success_example : Succeeded world device [] rebooted
no_error_only_on_success_example =
    no_error_only_on_success world device machine rebooted [] checked_calls checks

abbrev run_calls : History
run_calls = (run_prod_workflow world device machine []).1

runs : run_prod_workflow world device machine [] ≡ (done none, run_calls)
unfolding run_prod_workflow create_from_template create_en_credentials_if_not_exists
    with_auth_service credentials_or_create then_logout complete_device_info
    create_workflow_if_not_exists generate_workflow_inputs get_stream_os_to_disk_tinker_action_image
    contains trim_space fetch_platform_bundle_scripts generate_from_infra_config
    get_common_infra_template_variables curate_from_template
runs = refl

run_prod_workflow-Created_example : Created world device run_calls
run_prod_workflow-Created_example = run_prod_workflow-Created world device machine [] run_calls runs

detect_image_format_iff_example :
    ((detect_image_format world "https://images/ubuntu.img" "" []).0 ≡ done qcow2_image_format) ↔ (
      (contains (trim_space "https://images/ubuntu.img") ".img" ≡ true)
      × (world.request_error (trim_space "https://images/ubuntu.img") ≡ none)
      × HasMagic world (
          world.fetched [] (http_get (trim_space "https://images/ubuntu.img") (proxy_of world ""))))
detect_image_format_iff_example = detect_image_format_iff world "https://images/ubuntu.img" "" []
