-- ===== src/Examples/Reconciling.antt =====
-- The reconcilers at work.
use infra_onboarding.Prelude.{inr, ◌≡◌, refl, Option, none, some, [], ◌∷◌, inl, arith}
use infra_onboarding.Api.Enums.{HostState, InstanceState, StatusIndication}
use infra_onboarding.Api.Resources.{InstanceResource, Resource}
use infra_onboarding.Api.Tink.{WorkflowState}
use infra_onboarding.Api.Errors.{aborted, internal, ok}
use infra_onboarding.Api.Calls.{Call, Field, History, k8s_client, delete_workflow, inv_update}
use infra_onboarding.Api.Env.{Env}
use infra_onboarding.Act.{done, pure, ◌>>=◌}
use infra_onboarding.Act.Makes.{Extends, Makes}
use infra_onboarding.Status.{new_status_with_details}
use infra_onboarding.Util.{
  populate_instance_provisioning_status, populate_instance_status_and_current_state,
}
use infra_onboarding.Tinkerbell.{generate_status_detail_from_workflow_state}
use infra_onboarding.Onboarding.{
  check_status_or_run_prod_workflow, with_client, with_workflow, get_workflow,
  handle_workflow_status, on_workflow_state,
}
use infra_onboarding.Reconcilers.{ack, retry, min_delay, max_delay}
use infra_onboarding.Reconcilers.Identity.{IsOwn, identity}
use infra_onboarding.Reconcilers.Provision.{reconcile_instance, provision_device}
use infra_onboarding.Reconcilers.Provision.Removal.{
  deletion, deleted_message, removal_waits, removal_completes,
}
use infra_onboarding.Reconcilers.Provision.Reports.{WritesHost, sends, cycle_sends_instance}
use infra_onboarding.Reconcilers.Instance.{reconcile_found}
use infra_onboarding.Reconcilers.Instance.Guards.{waiting, settled_is_quiet}
use infra_onboarding.Reconcilers.Instance.Untrusted.{IsCleanup, untrusted_only_cleaned_up}
use infra_onboarding.Reconcilers.Instance.Own.{reconcile-Own}
use infra_onboarding.Examples.World.{
  server, Failure, coded, world, finished_workflow, machine, ubuntu, device, failures-IsLawful,
}

reconcile-Own_example : Makes (IsOwn (identity machine)) (reconcile_found world machine)
reconcile-Own_example = reconcile-Own world machine

-- an instance to delete, and surroundings in which its workflow cannot be deleted
abbrev retired : InstanceResource
retired = record machine { desired_state = InstanceState.deleted }

abbrev stuck : Failure
stuck = coded internal "stuck"

abbrev refuses_deletion : Call → Option Failure
refuses_deletion (delete_workflow ns name) = some stuck
refuses_deletion _ = none

abbrev stuck_world : Env Failure
stuck_world = record world { outcome = λ h c. refuses_deletion c }

removal_waits_example : reconcile_instance stuck_world retired [] ≡ (
  done (retry (world.errorf "Failed to delete Tinkerbell Workflow") min_delay max_delay),
  deletion stuck_world retired ∷ k8s_client ∷ [],
)
removal_waits_example =
    removal_waits stuck_world failures-IsLawful retired [] stuck refl refl refl refl

abbrev marked_deleted : Resource
marked_deleted = Resource.instance (deleted_message world retired)

removal_completes_example : reconcile_instance world retired [] ≡ (
  done ack,
  inv_update "t1" "inst-1" (Field.current_state ∷ []) marked_deleted
      ∷ deletion world retired
      ∷ k8s_client
      ∷ [],
)
removal_completes_example =
    removal_completes world failures-IsLawful retired [] marked_deleted refl refl (inl refl) refl
      refl refl

-- a workflow that has failed
abbrev failed_world : Env Failure
failed_world = record world {
  workflow = λ h c. ok (record finished_workflow { state = WorkflowState.failed });
}

abbrev failure : Failure
failure = world.errorfc aborted "Workflow failed or timed out"

abbrev left : InstanceResource
left = record machine {
  provisioning_status = "Provisioning Failed";
  provisioning_status_indicator = StatusIndication.error;
}

abbrev failing_calls : History
failing_calls = (check_status_or_run_prod_workflow failed_world device machine []).1

fails :
    check_status_or_run_prod_workflow failed_world device machine []
    ≡ (done (some failure, left), failing_calls)
unfolding check_status_or_run_prod_workflow with_client with_workflow get_workflow
    handle_workflow_status on_workflow_state populate_instance_provisioning_status
    populate_instance_status_and_current_state new_status_with_details
    generate_status_detail_from_workflow_state
fails = refl

cycle_sends_instance_example :
    (mid : History) × Extends (WritesHost server.tenant_id server.resource_id) failing_calls mid
    × (provision_device failed_world machine (ok device) []
        ≡ (sends failed_world left >>= λ x. pure (some failure)) mid)
cycle_sends_instance_example =
    cycle_sends_instance failed_world failures-IsLawful machine left server ubuntu device
      (some failure) [] failing_calls refl refl fails

settled_is_quiet_example :
    reconcile_found world (record machine { host = none }) [] ≡ (done ack, [])
settled_is_quiet_example =
    settled_is_quiet world (record machine { host = none }) []
      (waiting (inl ((λ e. ground arith), (λ e. ground arith))) refl (λ e. ground arith)
        (λ e. ground arith))

abbrev distrusted : InstanceResource
distrusted = record machine { host = some (record server { desired_state = HostState.untrusted }) }

untrusted_only_cleaned_up_example : Makes IsCleanup (reconcile_found world distrusted)
untrusted_only_cleaned_up_example = untrusted_only_cleaned_up world distrusted (inr refl) refl
