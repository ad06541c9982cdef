-- ===== src/Controller.antt =====
-- onboarding-manager/internal/handlers/controller/controller.go: which events and which resources are
-- handed to the reconcilers.
pub mod Events
pub mod Sweep
pub mod Swept
pub mod Loop
use infra_onboarding.Prelude.{
  String, Bool, true, false, not, ◌||◌, Option, none, some, List, [], ◌∷◌, ◌++◌, format, ◌==◌,
  if◌then◌else◌,
}
use infra_onboarding.Api.Enums.{ResourceKind, EventKind, event_kind_eq}
use infra_onboarding.Api.Resources.{Event}
use infra_onboarding.Api.Errors.{Result, ok, err}
use infra_onboarding.Api.Calls.{inv_find_all, enqueue}
use infra_onboarding.Api.Env.{Env}
use infra_onboarding.Act.{Act, pure, panics, call, for_each, ◌>>=◌, ◌>>◌, ◌and_then◌}
use infra_onboarding.Tinkerbell.{bootstrap}
use infra_onboarding.Reconcilers.{new_reconciler_id}

unfoldable pub instance_event_filter : Event → Bool
instance_event_filter event =
    event.event_kind == EventKind.updated
    || (event.event_kind == EventKind.created || event.event_kind == EventKind.deleted)

unfoldable pub host_event_filter : Event → Bool
host_event_filter event = not (event.event_kind == EventKind.deleted)

-- The two maps by the kind of a resource; of a reconciler it matters only that it is there.
pub record OnboardingController : Type 0 where
  pub filters : ResourceKind → Option (Event → Bool)
  pub controllers : ResourceKind → Bool
  pub skip_os_provisioning : Bool

filters_of : Bool → ResourceKind → Option (Event → Bool)
filters_of skip ResourceKind.host = some host_event_filter
filters_of true ResourceKind.instance = none
filters_of false ResourceKind.instance = some instance_event_filter
filters_of skip _ = none

controllers_of : Bool → ResourceKind → Bool
controllers_of skip ResourceKind.host = true
controllers_of skip ResourceKind.instance = not skip
controllers_of skip _ = false

unfoldable pub new : Bool → OnboardingController
unfolding filters_of controllers_of
new skip_os_provisioning = record {
  filters = filters_of skip_os_provisioning;
  controllers = controllers_of skip_os_provisioning;
  skip_os_provisioning = skip_os_provisioning;
}

-- What the control loop waits for. Where a channel is closed, the log's Fatal ends the process, which
-- is told as a panic.
pub data Occurrence : Type 0 where
  inventory_event : Event → Occurrence
  internal_event : String × String → Occurrence
  tick watcher_closed internal_watcher_closed stopped : Occurrence

abbrev is_stopped : Occurrence → Bool
is_stopped stopped = true
is_stopped _ = false

-- an event of a kind without a filter is dropped
abbrev passes : Option (Event → Bool) → Event → Bool
passes none event = false
passes (some filter) event = filter event

module _ {E : Type 0} (env : Env E) where
  -- `allResources` is nil beside an error
  find_more :
      List (String × String) → Result E (List (String × String)) → Result E (List (String × String))
  find_more first (ok rest) = ok (first ++ rest)
  find_more first (err e) = err e

  find_unless : ResourceKind → Option E → Act (Result E (List (String × String)))
  find_unless kind none = call env.found (inv_find_all kind)
  find_unless kind (some e) = pure (err e)

  pub find_kind : ResourceKind → Act (Result E (List (String × String)))
  unfolding find_unless
  find_kind kind = find_unless kind (env.resource_from_kind kind)

  then_find :
      Act (Result E (List (String × String)))
      → Result E (List (String × String))
      → Act (Result E (List (String × String)))
  unfolding find_more
  then_find others (ok first) = do rest ← others; pure (find_more first rest)
  then_find others (err e) = pure (err e)

  unfoldable pub find_all_resources : List ResourceKind → Act (Result E (List (String × String)))
  unfolding find_kind then_find
  find_all_resources [] = pure (ok [])
  find_all_resources (kind ∷ kinds) =
      let others = find_all_resources kinds in find_kind kind >>= then_find others

  module _ (obc : OnboardingController) where
    filter_by_kind : Event → Result E ResourceKind → Bool
    filter_by_kind event (err e) = false
    filter_by_kind event (ok kind) = passes (obc.filters kind) event

    unfoldable pub filter_event : Event → Bool
    unfolding filter_by_kind
    filter_event event = elim (env.validate_event event) [
      | some e ↦ false
      | none ↦ filter_by_kind event (env.kind_of_resource_id event.resource_id)
    ]

    reconcile_kind : String → String → Result E ResourceKind → Act (Option E)
    reconcile_kind tenant_id resource_id (err e) = pure (
        some (
          env.wrap_message e
            (format ("unknown resource kind for resource ID " ∷ resource_id ∷ []))))
    reconcile_kind tenant_id resource_id (ok kind) =
        if obc.controllers kind
        then call env.outcome (enqueue kind (new_reconciler_id tenant_id resource_id))
        else pure (some (env.fmt_errorf "unknown resource controller"))

    unfoldable pub reconcile_resource : String × String → Act (Option E)
    unfolding reconcile_kind
    reconcile_resource (tenant_id, resource_id) =
        reconcile_kind tenant_id resource_id (env.kind_of_resource_id resource_id)

    unfoldable pub handle_internal_event : String × String → Act (Unit {0})
    handle_internal_event key = do _ ← reconcile_resource key; pure tt

    handle_key : Result E (String × String) → Act (Unit {0})
    unfolding handle_internal_event
    handle_key (ok key) = handle_internal_event key
    handle_key (err e) = pure tt

    unfoldable pub handle_inventory_event : Event → Act (Unit {0})
    unfolding handle_key filter_event
    handle_inventory_event event =
        if filter_event event then handle_key (env.key_of_resource event.resource) else pure tt

    -- The loop over what was found; nothing was found beside a NotFound error.
    reconcile_found : Result E (List (String × String)) → Act (Option E)
    unfolding reconcile_resource
    reconcile_found (ok ids) = for_each reconcile_resource ids
    reconcile_found (err e) = if env.is_not_found (some e) then pure none else pure (some e)

    unfoldable pub reconcile_all : Act (Option E)
    unfolding reconcile_found find_all_resources
    reconcile_all =
        find_all_resources (ResourceKind.host ∷ ResourceKind.instance ∷ []) >>= reconcile_found

    -- up to the start of the control loop
    unfoldable pub start : List (String × String) → Act (Option E)
    unfolding reconcile_all
    start templates_map =
        (if obc.skip_os_provisioning then pure none else bootstrap env templates_map)
        and_then reconcile_all

    -- a failure is only logged
    unfoldable pub handle_occurrence : Occurrence → Act (Unit {0})
    unfolding handle_inventory_event handle_internal_event reconcile_all
    handle_occurrence (inventory_event event) = handle_inventory_event event
    handle_occurrence (internal_event key) = handle_internal_event key
    handle_occurrence tick = do _ ← reconcile_all; pure tt
    handle_occurrence watcher_closed = panics
    handle_occurrence internal_watcher_closed = panics
    handle_occurrence stopped = pure tt

    -- The loop over what occurs, in the order in which `select` takes it.
    unfoldable pub control_loop : List Occurrence → Act (Unit {0})
    unfolding handle_occurrence
    control_loop [] = pure tt
    control_loop (o ∷ rest) =
        let after = control_loop rest in
        if is_stopped o then pure tt else handle_occurrence o >> after
