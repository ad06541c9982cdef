-- ===== src/Examples/Controlling.antt =====
-- The controller at work.
use infra_onboarding.Prelude.{
  ◌≡◌, ◌≢◌, ◌↔◌, refl, true, none, List, [], ◌∷◌, ◌++◌, All, arith, String,
}
use infra_onboarding.Api.Enums.{ResourceKind, EventKind}
use infra_onboarding.Api.Resources.{Event}
use infra_onboarding.Api.Errors.{Result, ok}
use infra_onboarding.Api.Calls.{Call, History, inv_find_all, enqueue}
use infra_onboarding.Api.Env.{Env}
use infra_onboarding.Act.{done, for_each}
use infra_onboarding.Act.Makes.{Makes}
use infra_onboarding.Act.Past.{Passes}
use infra_onboarding.Reconcilers.{new_reconciler_id}
use infra_onboarding.Controller.{
  new, filter_event, handle_inventory_event, control_loop, inventory_event, tick, stopped,
  Occurrence, reconcile_all, start, find_all_resources, reconcile_resource,
}
use infra_onboarding.Controller.Events.{IsAccepted, filter_event_iff, event_reconciles}
use infra_onboarding.Controller.Sweep.{skipping_start_only_hosts}
use infra_onboarding.Controller.Swept.{Swept, reconcile_all-Swept}
use infra_onboarding.Controller.Loop.{IsControl, control_loop-Makes}
use infra_onboarding.Examples.World.{Failure, world}

abbrev host_updated : Event
host_updated = record { event_kind = EventKind.updated; resource_id = "host-1"; resource = none }

update_is_no_deletion : EventKind.updated ≢ EventKind.deleted
update_is_no_deletion e = ground arith

abbrev host_update_accepted : IsAccepted world true host_updated
host_update_accepted = record {
  valid = refl;
  kind = ResourceKind.host;
  named = refl;
  counts = update_is_no_deletion;
}

filter_event_iff_example :
    (filter_event world (new true) host_updated ≡ true) ↔ IsAccepted world true host_updated
filter_event_iff_example = filter_event_iff world true host_updated

event_reconciles_example :
    handle_inventory_event world (new true) host_updated []
    ≡ (done tt, enqueue ResourceKind.host (new_reconciler_id "t1" "host-1") ∷ [])
event_reconciles_example =
    event_reconciles world true host_updated [] host_update_accepted "t1" refl

-- one host is found, and no instance
abbrev found_of : Call → Result Failure (List (String × String))
found_of (inv_find_all ResourceKind.host) = ok (("t1", "host-1") ∷ [])
found_of _ = ok []

abbrev small_world : Env Failure
small_world = record world { found = λ h c. found_of c }

abbrev sweep_calls : History
sweep_calls = (reconcile_all small_world (new true) []).1

sweeps : Passes (reconcile_all small_world (new true)) [] sweep_calls
unfolding reconcile_all find_all_resources for_each reconcile_resource new
sweeps = refl

reconcile_all-Swept_example : Swept small_world true [] sweep_calls
reconcile_all-Swept_example = reconcile_all-Swept small_world true [] sweep_calls refl refl sweeps

starts : Passes (start small_world (new true) []) [] sweep_calls
unfolding start new
starts = sweeps

skipping_start_only_hosts_example :
    All
      (λ (id : String × String). small_world.kind_of_resource_id id.1 ≡ ok ResourceKind.host)
      ((("t1", "host-1") ∷ []) ++ [])
skipping_start_only_hosts_example =
    skipping_start_only_hosts small_world [] [] sweep_calls (("t1", "host-1") ∷ []) [] refl refl
      refl refl starts

abbrev day : List Occurrence
day = inventory_event host_updated ∷ tick ∷ stopped ∷ tick ∷ []

control_loop-Makes_example : Makes (IsControl true) (control_loop world (new true) day)
control_loop-Makes_example = control_loop-Makes world true day
