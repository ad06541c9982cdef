-- ===== src/Examples/Generating.antt =====
-- A platform bundle that is fetched, and the inputs of a workflow.
use infra_onboarding.Prelude.{◌≡◌, refl, String, List, [], ◌∷◌, contains, trim_space}
use infra_onboarding.Api.Errors.{ok}
use infra_onboarding.Api.Calls.{History}
use infra_onboarding.DeviceInfo.{DeviceInfo}
use infra_onboarding.Act.{done}
use infra_onboarding.PlatformBundle.{fetch_platform_bundle_data, fetch_platform_bundle_scripts}
use infra_onboarding.PlatformBundle.Cached.{after_fetches, fetched_once}
use infra_onboarding.CloudInit.{generate_from_infra_config}
use infra_onboarding.Dkam.Curation.{get_common_infra_template_variables, curate_from_template}
use infra_onboarding.Tinkerbell.Images.{get_stream_os_to_disk_tinker_action_image}
use infra_onboarding.Tinkerbell.Inputs.{
  generate_workflow_inputs, struct_to_map_string_string, inputs_of,
}
use infra_onboarding.Tinkerbell.Inputs.Keys.{Describes, generate_workflow_inputs-Describes}
use infra_onboarding.Examples.World.{world, config, device}

abbrev fetched_calls : History
fetched_calls = (fetch_platform_bundle_data world "scripts:v1" []).1

fetches : fetch_platform_bundle_data world "scripts:v1" [] ≡ (done (ok "script"), fetched_calls)
unfolding fetch_platform_bundle_data
fetches = refl

abbrev later : History
later = after_fetches world ("other:v1" ∷ "broken" ∷ "scripts:v1" ∷ []) fetched_calls

fetched_once_example :
    fetch_platform_bundle_data world "scripts:v1" later ≡ (done (ok "script"), later)
fetched_once_example =
    fetched_once world "scripts:v1" "script" [] fetched_calls
      ("other:v1" ∷ "broken" ∷ "scripts:v1" ∷ []) fetches

abbrev managed_node : DeviceInfo
managed_node = record device {
  auth_client_id = "id";
  auth_client_secret = "secret";
  platform_bundle = "{}";
}

abbrev generated_calls : History
generated_calls = (generate_workflow_inputs world managed_node []).1

abbrev generated_inputs : List (String × String)
generated_inputs = struct_to_map_string_string world (
    inputs_of world config managed_node "localhost:7443/edge/qemu_nbd_image2disk:1.0"
      (record { cloud_init_template = "script"; installer_script = "" }) "script")

generates :
    generate_workflow_inputs world managed_node [] ≡ (done (ok generated_inputs), generated_calls)
unfolding generate_workflow_inputs get_stream_os_to_disk_tinker_action_image contains trim_space
    fetch_platform_bundle_scripts generate_from_infra_config get_common_infra_template_variables
    curate_from_template
generates = refl

generate_workflow_inputs-Describes_example : Describes managed_node generated_inputs
generate_workflow_inputs-Describes_example =
    generate_workflow_inputs-Describes world managed_node [] generated_calls generated_inputs
      generates
