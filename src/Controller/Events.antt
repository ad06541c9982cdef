-- ===== src/Controller/Events.antt =====
-- Which events of the inventory are reconciled (controller.go).
use infra_onboarding.Prelude.{
  ◌≡◌, sym, ◌∙◌, ◌≢◌, ◌↔◌, ◌⊎◌, inl, inr, refl, true, false, String, Bool, none, some, ◌∷◌, arith,
  Option-cases,
}
use infra_onboarding.Api.Enums.{ResourceKind, EventKind, event_kind_eq}
use infra_onboarding.Api.Resources.{Event}
use infra_onboarding.Api.Errors.{ok, err, Result-cases}
use infra_onboarding.Api.Calls.{History, enqueue}
use infra_onboarding.Api.Env.{Env}
use infra_onboarding.Act.{done}
use infra_onboarding.Reconcilers.{new_reconciler_id}
use infra_onboarding.Controller.{
  new, passes, filter_event, filter_by_kind, filters_of, controllers_of, reconcile_kind,
  reconcile_resource, handle_internal_event, handle_key, handle_inventory_event, host_event_filter,
  instance_event_filter,
}

-- Events about a resource of the kind that count: for a host all but deletions, for an instance those
-- that name a change, where instances are provisioned at all.
abbrev pub Counts : Bool → EventKind → ResourceKind → Type 0
Counts skip event ResourceKind.host = event ≢ EventKind.deleted
Counts skip event ResourceKind.instance =
    (skip ≡ false)
    × ((event ≡ EventKind.created) ⊎ (event ≡ EventKind.updated) ⊎ (event ≡ EventKind.deleted))
Counts skip event _ = ⊥

host_change :
    (event : Event) → (host_event_filter event ≡ true) ↔ (event.event_kind ≢ EventKind.deleted)
unfolding host_event_filter
host_change event = (λ h. ground arith, λ c. ground arith)

instance_change :
    (event : Event)
    → (instance_event_filter event ≡ true) ↔ (
        (event.event_kind ≡ EventKind.created)
        ⊎ (event.event_kind ≡ EventKind.updated)
        ⊎ (event.event_kind ≡ EventKind.deleted))
unfolding instance_event_filter
instance_change event = (λ h. ground arith, λ c. ground arith)

instance-Counts :
    (skip : Bool) (event : Event)
    → (passes (filters_of skip ResourceKind.instance) event ≡ true)
      ↔ Counts skip event.event_kind ResourceKind.instance
unfolding filters_of
instance-Counts true event = (λ h. absurd (cc), λ c. absurd (cc))
instance-Counts false event =
    (λ h. (refl, (instance_change event).0 h), λ c. (instance_change event).1 c.1)

true_not_false : ¬ (true ≡ false)
true_not_false h = cc

module _ {E : Type 0} (env : Env E) (skip : Bool) where
  -- The event is valid, and counts for the kind that its resource ID names.
  pub record IsAccepted (event : Event) : Type 0 where
    pub valid : env.validate_event event ≡ none
    pub kind : ResourceKind
    pub named : env.kind_of_resource_id event.resource_id ≡ ok kind
    pub counts : Counts skip event.event_kind kind

  accepted_kind :
      (event : Event) (kind : ResourceKind)
      → (filter_by_kind env (new skip) event (ok kind) ≡ true) ↔ Counts skip event.event_kind kind
  unfolding filter_by_kind new filters_of
  accepted_kind event ResourceKind.host = host_change event
  accepted_kind event ResourceKind.instance = instance-Counts skip event
  accepted_kind event ResourceKind.unspecified = (λ h. absurd (cc), λ c. absurd c)
  accepted_kind event (ResourceKind.unnamed n) = (λ h. absurd (cc), λ c. absurd c)

  invalid_event :
      (event : Event) (e : E)
      → env.validate_event event ≡ some e
      → filter_event env (new skip) event ≡ false
  unfolding filter_event
  invalid_event event e v = rw (v, filter_event)

  unknown_event :
      (event : Event) (e : E)
      → env.validate_event event ≡ none
      → env.kind_of_resource_id event.resource_id ≡ err e
      → filter_event env (new skip) event ≡ false
  unfolding filter_event filter_by_kind
  unknown_event event e v k = rw (v, k, filter_event)

  known_event :
      (event : Event) (kind : ResourceKind)
      → env.validate_event event ≡ none
      → env.kind_of_resource_id event.resource_id ≡ ok kind
      → filter_event env (new skip) event ≡ filter_by_kind env (new skip) event (ok kind)
  unfolding filter_event
  known_event event kind v k = rw (v, k, filter_event)

  -- An event passes the filter exactly if it is valid, its resource ID names a host or, where OS
  -- provisioning is not skipped, an instance, and it is no deletion of a host and of a known kind for
  -- an instance.
  pub filter_event_iff :
      (event : Event) → (filter_event env (new skip) event ≡ true) ↔ IsAccepted event
  unfolding filter_event
  filter_event_iff event = (
    λ h. elim (Option-cases (env.validate_event event)) [
      | inr (e, v) ↦ absurd (true_not_false (sym h ∙ invalid_event event e v))
      | inl v ↦ elim (Result-cases (env.kind_of_resource_id event.resource_id)) [
        | inr (e, k) ↦ absurd (true_not_false (sym h ∙ unknown_event event e v k))
        | inl (kind, k) ↦ record {
          valid = v;
          kind = kind;
          named = k;
          counts = (accepted_kind event kind).0 (sym (known_event event kind v k) ∙ h);
        }
      ]
    ],
    λ a. rw (a.valid, a.named, filter_event) ((accepted_kind event a.kind).1 a.counts),
  )

  -- a kind for which events count has a reconciler
  counted_has_controller :
      (event : EventKind) (kind : ResourceKind)
      → Counts skip event kind
      → (new skip).controllers kind ≡ true
  unfolding new controllers_of
  counted_has_controller event ResourceKind.host c = refl
  counted_has_controller event ResourceKind.instance c = rw (c.0)
  counted_has_controller event ResourceKind.unspecified c = absurd c
  counted_has_controller event (ResourceKind.unnamed n) c = absurd c

  -- An accepted event gives the ID of its resource to the reconciler of the resource's kind, and does
  -- nothing else, if the key that is read from its resource is that of the resource that it names.
  pub event_reconciles :
      (event : Event) (h : History) (a : IsAccepted event) (tenant_id : String)
      → env.key_of_resource event.resource ≡ ok (tenant_id, event.resource_id)
      → handle_inventory_event env (new skip) event h
        ≡ (done tt, enqueue a.kind (new_reconciler_id tenant_id event.resource_id) ∷ h)
  unfolding handle_inventory_event handle_key handle_internal_event reconcile_resource
      reconcile_kind
  event_reconciles event h a t k = rw (
    (filter_event_iff event).1 a,
    k,
    a.named,
    counted_has_controller event.event_kind a.kind a.counts,
  )
