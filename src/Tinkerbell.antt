-- ===== src/Tinkerbell.antt =====
-- onboarding-manager/internal/tinkerbell: what is asked of Kubernetes (client.go, bootstrap.go) and
-- how a workflow's progress is told (status.go). Timeouts of the calls are failures like others.
pub mod Images
pub mod Inputs
pub mod Details
use infra_onboarding.Prelude.{
  ℕ, ◌+◌, ◌-◌, String, Bool, true, false, not, ◌&&◌, Option, none, some, List, [], ◌∷◌, format,
  lookup, length, nat_eq, decimal, ◌==◌, string_has_eq, if◌then◌else◌,
}
use infra_onboarding.Api.Tink.{
  WorkflowState, workflow_state_eq, Action, Task, Workflow, Template, Hardware, Kind,
}
use infra_onboarding.Api.Calls.{
  k8s_client, create_workflow, delete_workflow, create_template, create_hardware, delete_all_of,
}
use infra_onboarding.Api.Env.{Env}
use infra_onboarding.Act.{Act, pure, call, for_each, ◌>>=◌, ◌>>◌, ◌and_then◌}

-- The names of the actions, in the order of the table.
abbrev pub workflow_step_to_status_detail : List (String × String)
workflow_step_to_status_detail =
    ("erase-non-removable-disk", "Erasing data from all non-removable disks")
    ∷ ("secure-boot-status-flag-read", "Verifying Secure Boot settings")
    ∷ ("profile-pkg-and-node-agents-install-script-download", "Downloading installation scripts")
    ∷ ("stream-os-image", "Streaming OS image")
    ∷ ("service-script-for-profile-pkg-and-node-agents-install", "Installing packages")
    ∷ ("efibootset-for-diskboot", "Setting boot option")
    ∷ ("fde-encryption", "Setting FDE encryption")
    ∷ ("enable-security-features", "Enabling OS security features")
    ∷ ("reboot", "Rebooting")
    ∷ ("add-apt-proxy", "Configuring APT proxy settings")
    ∷ ("system-configuration", "Applying system configuration")
    ∷ ("kernel-upgrade", "Upgrading kernel")
    ∷ ("install-cloud-init", "Installing cloud-init")
    ∷ ("custom-configs", "Copying custom cloud-init configs")
    ∷ ("custom-configs-split", "Installing custom cloud-init configs")
    ∷ ("cloud-init-ds-identity", "Setting up cloud-init")
    ∷ []

unfoldable pub step_detail : String → String
step_detail name = elim (lookup name workflow_step_to_status_detail) [
  | none ↦ name
  | some detail ↦ detail
]

-- the message of the action that the loop stops at
unfoldable pub action_message : Action → String
unfolding step_detail
action_message a =
    let detail = step_detail a.name in
    if a.status == WorkflowState.failed
    then format (detail ∷ " failed" ∷ (if a.message == "" then [] else ": " ∷ a.message ∷ []))
    else if a.status == WorkflowState.timeout
    then format (detail ∷ " timeout" ∷ [])
    else detail

-- the loop from index `i`: `none` is the early return of an empty text
scan_actions : ℕ → ℕ → List Action → Option (ℕ × String)
scan_actions total i [] = some (1, "")
scan_actions total i (a ∷ rest) =
    let next = scan_actions total (i + 1) rest in
    if a.name == ""
    then none
    else if a.status == WorkflowState.success && not (nat_eq i (total - 1))
    then next
    else some (i + 1, action_message a)

unfoldable pub prepare_status_details : ℕ → List Action → String
unfolding scan_actions
prepare_status_details total actions = elim (scan_actions total 0 actions) [
  | none ↦ ""
  | some (number, message) ↦ format (decimal number ∷ "/" ∷ decimal total ∷ ": " ∷ message ∷ [])
]

details_of_tasks : List Task → String
details_of_tasks [] = ""
details_of_tasks (task ∷ rest) =
    if nat_eq (length task.actions) 0
    then ""
    else prepare_status_details (length task.actions) task.actions

unfoldable pub generate_status_detail_from_workflow_state : Option Workflow → String
unfolding details_of_tasks
generate_status_detail_from_workflow_state none = ""
generate_status_detail_from_workflow_state (some w) =
    if w.state == WorkflowState.success then "" else details_of_tasks w.tasks

unfoldable pub new_workflow : String → String → String → String → List (String × String) → Workflow
new_workflow name ns hardware_ref template_ref hardware_map = record {
  name = name;
  namespace = ns;
  hardware_map = hardware_map;
  hardware_ref = hardware_ref;
  template_ref = template_ref;
  state = WorkflowState.empty;
  tasks = [];
}

abbrev pub dummy_hardware_name : String
dummy_hardware_name = "eim-dummy-tink-hardware"

module _ {E : Type 0} (env : Env E) where
  -- K8sClientFactory(): no client, or an error
  abbrev pub k8s_client_factory : Act (Option E)
  k8s_client_factory = call env.outcome k8s_client

  -- a failed creation counts as done where the object is there already
  abbrev pub unless_exists : String → Option E → Option E
  unless_exists message none = none
  unless_exists message (some e) =
      if env.k8s_is_already_exists e then none else some (env.errorf message)

  abbrev pub unless_missing : String → Option E → Option E
  unless_missing message none = none
  unless_missing message (some e) =
      if env.k8s_is_not_found e then none else some (env.errorf message)

  abbrev pub any_failure : String → Option E → Option E
  any_failure message none = none
  any_failure message (some e) = some (env.errorf message)

  create_template_named : String → String → String → Act (Option E)
  create_template_named ns name template_data = k8s_client_factory and_then do
    failure ←
        call env.outcome
          (create_template (record { name = name; namespace = ns; template_data = template_data }))
    pure (any_failure (format ("Failed to create Tinkerbell template " ∷ name ∷ [])) failure)

  create_hardware_if_not_exists : String → String → Act (Option E)
  create_hardware_if_not_exists ns name = k8s_client_factory and_then do
    failure ← call env.outcome (create_hardware (record { name = name; namespace = ns }))
    pure (unless_exists (format ("Failed to create Tinkerbell hardware " ∷ name ∷ [])) failure)

  delete_all_k8s_resources_of_kind : String → List Kind → Act (Option E)
  delete_all_k8s_resources_of_kind ns kinds =
      k8s_client_factory
      and_then for_each
          (λ kind. do
            failure ← call env.outcome (delete_all_of kind ns)
            pure (any_failure "Failed to delete Tinkerbell template" failure))
          kinds

  delete_predefined_tinkerbell_resources : Act (Option E)
  unfolding delete_all_k8s_resources_of_kind
  delete_predefined_tinkerbell_resources =
      delete_all_k8s_resources_of_kind env.k8s_namespace (Kind.template ∷ Kind.hardware ∷ [])

  unfoldable pub create_workflow_if_not_exists : Workflow → Act (Option E)
  create_workflow_if_not_exists w = do
    failure ← call env.outcome (create_workflow w)
    pure (unless_exists (format ("Failed to create Tinkerbell workflow " ∷ w.name ∷ [])) failure)

  unfoldable pub delete_workflow_if_exists : String → String → Act (Option E)
  delete_workflow_if_exists ns name = k8s_client_factory and_then do
    failure ← call env.outcome (delete_workflow ns name)
    pure (unless_missing "Failed to delete Tinkerbell Workflow" failure)

  -- The table of templates, in the order in which Go walks the map.
  create_templates : List (String × String) → Act (Option E)
  unfolding create_template_named
  create_templates templates_map =
      for_each (λ entry. create_template_named env.k8s_namespace entry.0 entry.1) templates_map

  create_dummy_hardware : Act (Option E)
  unfolding create_hardware_if_not_exists
  create_dummy_hardware = create_hardware_if_not_exists env.k8s_namespace dummy_hardware_name

  unfoldable pub bootstrap : List (String × String) → Act (Option E)
  unfolding delete_predefined_tinkerbell_resources create_templates create_dummy_hardware
  bootstrap templates_map =
      delete_predefined_tinkerbell_resources
      and_then (create_templates templates_map and_then create_dummy_hardware)
