-- ===== src/Controller/Loop.antt =====
-- What the control loop may do, whatever occurs and in whatever order (controller.go).
use infra_onboarding.Prelude.{◌≡◌, true, String, Bool, Option, none, some, List, [], ◌∷◌}
use infra_onboarding.Api.Enums.{ResourceKind}
use infra_onboarding.Api.Resources.{Event}
use infra_onboarding.Api.Errors.{Result, ok, err}
use infra_onboarding.Api.Calls.{Call, inv_find_all, enqueue}
use infra_onboarding.Api.Env.{Env}
use infra_onboarding.Act.{Act}
use infra_onboarding.Act.Makes.{
  Makes, makes_rules, Makes-pure, Makes-panics, Makes-bind, Makes-if, Makes-call, Makes-for_each,
}
use infra_onboarding.Controller.{
  new, Occurrence, inventory_event, internal_event, tick, watcher_closed, internal_watcher_closed,
  stopped, is_stopped, reconcile_kind, reconcile_resource, reconcile_found, reconcile_all,
  find_unless, find_kind, then_find, find_all_resources, filter_event, handle_key,
  handle_inventory_event, handle_internal_event, handle_occurrence, control_loop,
}

-- A search of the inventory, or an ID for a reconciler that there is.
pub data IsControl (skip : Bool) : Call → Type 0 where
  search_all : {kind : ResourceKind} → IsControl skip (inv_find_all kind)
  request :
      {kind : ResourceKind} {id : String}
      → (new skip).controllers kind ≡ true
      → IsControl skip (enqueue kind id)

module _ {E : Type 0} (env : Env E) (skip : Bool) where
  kind-Makes :
      (t id : String) (r : Result E ResourceKind)
      → Makes (IsControl skip) (reconcile_kind env (new skip) t id r)
  unfolding reconcile_kind
  kind-Makes t id (err e) = Makes-pure _
  kind-Makes t id (ok kind) =
      Makes-if ((new skip).controllers kind) _ _ (λ c. Makes-call env.outcome _ (request c))
        λ _. Makes-pure _

  resource-Makes :
      (key : String × String) → Makes (IsControl skip) (reconcile_resource env (new skip) key)
  unfolding reconcile_resource
  resource-Makes key = kind-Makes key.0 key.1 (env.kind_of_resource_id key.1)

  internal-Makes :
      (key : String × String) → Makes (IsControl skip) (handle_internal_event env (new skip) key)
  unfolding handle_internal_event
  internal-Makes key = Makes-bind _ _ (resource-Makes key) λ e. Makes-pure tt

  key-Makes :
      (r : Result E (String × String)) → Makes (IsControl skip) (handle_key env (new skip) r)
  unfolding handle_key
  key-Makes (ok key) = internal-Makes key
  key-Makes (err e) = Makes-pure tt

  event-Makes :
      (event : Event) → Makes (IsControl skip) (handle_inventory_event env (new skip) event)
  unfolding handle_inventory_event
  event-Makes event =
      Makes-if (filter_event env (new skip) event) _ _
        (λ _. key-Makes (env.key_of_resource event.resource)) λ _. Makes-pure tt

  unless-Makes :
      (kind : ResourceKind) (e : Option E) → Makes (IsControl skip) (find_unless env kind e)
  unfolding find_unless
  unless-Makes kind none = Makes-call env.found _ search_all
  unless-Makes kind (some e) = Makes-pure _

  find-Makes : (kind : ResourceKind) → Makes (IsControl skip) (find_kind env kind)
  unfolding find_kind
  find-Makes kind = unless-Makes kind (env.resource_from_kind kind)

  then_find-Makes :
      (others : Act (Result E (List (String × String))))
      → Makes (IsControl skip) others
      → (r : Result E (List (String × String))) → Makes (IsControl skip) (then_find env others r)
  unfolding then_find
  then_find-Makes others p (ok first) = Makes-bind others _ p λ rest. Makes-pure _
  then_find-Makes others p (err e) = Makes-pure _

  find_all-Makes :
      (kinds : List ResourceKind) → Makes (IsControl skip) (find_all_resources env kinds)
  unfolding find_all_resources
  find_all-Makes [] = Makes-pure _
  find_all-Makes (kind ∷ kinds) =
      Makes-bind (find_kind env kind) _ (find-Makes kind)
        (then_find-Makes (find_all_resources env kinds) (find_all-Makes kinds))

  found-Makes :
      (r : Result E (List (String × String)))
      → Makes (IsControl skip) (reconcile_found env (new skip) r)
  unfolding reconcile_found
  found-Makes (ok ids) = Makes-for_each (reconcile_resource env (new skip)) ids resource-Makes
  found-Makes (err e) = search makes_rules

  all-Makes : Makes (IsControl skip) (reconcile_all env (new skip))
  unfolding reconcile_all
  all-Makes =
      let kinds = ResourceKind.host ∷ ResourceKind.instance ∷ [] in
      Makes-bind (find_all_resources env kinds) _ (find_all-Makes kinds) found-Makes

  occurrence-Makes : (o : Occurrence) → Makes (IsControl skip) (handle_occurrence env (new skip) o)
  unfolding handle_occurrence
  occurrence-Makes (inventory_event event) = event-Makes event
  occurrence-Makes (internal_event key) = internal-Makes key
  occurrence-Makes tick = Makes-bind _ _ all-Makes λ e. Makes-pure tt
  occurrence-Makes watcher_closed = Makes-panics
  occurrence-Makes internal_watcher_closed = Makes-panics
  occurrence-Makes stopped = Makes-pure tt

  -- Whatever occurs, in whatever order, and however it is answered, the control loop only searches
  -- the inventory and gives IDs to reconcilers that were made: with OS provisioning skipped, only to
  -- that of hosts.
  pub control_loop-Makes :
      (occurrences : List Occurrence)
      → Makes (IsControl skip) (control_loop env (new skip) occurrences)
  unfolding control_loop
  control_loop-Makes [] = Makes-pure tt
  control_loop-Makes (o ∷ rest) =
      Makes-if (is_stopped o) _ _ (λ _. Makes-pure tt)
        λ _.
          Makes-bind (handle_occurrence env (new skip) o) _ (occurrence-Makes o)
            λ _. control_loop-Makes rest
