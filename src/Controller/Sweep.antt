-- ===== src/Controller/Sweep.antt =====
-- The reconciliation of all resources, at the start and on every tick (controller.go).
use mathlib.Core.List.{append-nil}
use infra_onboarding.Prelude.{
  ◌≡◌, refl, ap, true, false, String, Bool, none, some, List, [], ◌∷◌, ◌++◌, All, All-map,
  Bool-cases, inl, inr, sym, ◌∙◌, subst,
}
use infra_onboarding.Api.Enums.{ResourceKind}
use infra_onboarding.Api.Errors.{Result, ok, err}
use infra_onboarding.Api.Calls.{History, inv_find_all, enqueue}
use infra_onboarding.Api.Env.{Env}
use infra_onboarding.Act.{done, for_each}
use infra_onboarding.Act.Makes.{Makes, makes_rules, Makes-pure, Extends}
use infra_onboarding.Act.Past.{
  Past, here, AnyCall, Extends-Past, Passes, for_each-All, done-injective,
}
use infra_onboarding.Reconcilers.{new_reconciler_id}
use infra_onboarding.Controller.{
  new, controllers_of, reconcile_kind, reconcile_resource, reconcile_found, reconcile_all,
  find_unless, find_kind, then_find, find_all_resources, start,
}

module _ {E : Type 0} (env : Env E) (skip : Bool) where
  -- The ID was given to the reconciler of its kind with no error.
  pub record Requested (g : History) (id : String × String) : Type 0 where
    pub kind : ResourceKind
    pub named : env.kind_of_resource_id id.1 ≡ ok kind
    pub controlled : (new skip).controllers kind ≡ true
    pub asked :
        Past (λ h c. (c ≡ enqueue kind (new_reconciler_id id.0 id.1)) × (env.outcome h c ≡ none)) g

  request :
      (id : String × String) (kind : ResourceKind) (h : History)
      → (new skip).controllers kind ≡ true
      → reconcile_kind env (new skip) id.0 id.1 (ok kind) h ≡ (
        done (env.outcome h (enqueue kind (new_reconciler_id id.0 id.1))),
        enqueue kind (new_reconciler_id id.0 id.1) ∷ h,
      )
  unfolding reconcile_kind
  request id kind h c = rw c

  no_request :
      (id : String × String) (kind : ResourceKind) (h : History)
      → (new skip).controllers kind ≡ false
      → reconcile_kind env (new skip) id.0 id.1 (ok kind) h
        ≡ (done (some (env.fmt_errorf "unknown resource controller")), h)
  unfolding reconcile_kind
  no_request id kind h c = rw c

  kind-Requested :
      (id : String × String) (r : Result E ResourceKind) (h g : History)
      → env.kind_of_resource_id id.1 ≡ r
      → Passes (reconcile_kind env (new skip) id.0 id.1 r) h g
      → Requested g id
  unfolding reconcile_kind
  kind-Requested id (err e) h g k q = absurd (cc)
  kind-Requested id (ok kind) h g k q = elim (Bool-cases ((new skip).controllers kind)) [
    | inl c ↦
        let p = sym (request id kind h c) ∙ q in
        record {
          kind = kind;
          named = k;
          controlled = c;
          asked = subst (Past _) (ap (λ o. o.1) p) (here (refl, done-injective (ap (λ o. o.0) p)));
        }
    | inr c ↦ let p = sym (no_request id kind h c) ∙ q in absurd (cc)
  ]

  resource-Requested :
      (id : String × String) (h g : History)
      → Passes (reconcile_resource env (new skip) id) h g
      → Requested g id
  unfolding reconcile_resource
  resource-Requested id h g q = kind-Requested id (env.kind_of_resource_id id.1) h g refl q

  kind-Makes :
      (id : String × String) (r : Result E ResourceKind)
      → Makes AnyCall (reconcile_kind env (new skip) id.0 id.1 r)
  unfolding reconcile_kind
  kind-Makes id (err e) = Makes-pure _
  kind-Makes id (ok kind) = search makes_rules

  resource-Makes : (id : String × String) → Makes AnyCall (reconcile_resource env (new skip) id)
  unfolding reconcile_resource
  resource-Makes id = kind-Makes id (env.kind_of_resource_id id.1)

  Requested-lasts :
      (id : String × String) (h g : History) → Extends AnyCall h g → Requested h id → Requested g id
  Requested-lasts id h g e r = record {
    kind = r.kind;
    named = r.named;
    controlled = r.controlled;
    asked = Extends-Past e r.asked;
  }

  pub kind_answered :
      (kind : ResourceKind) (h : History) (r : Result E (List (String × String)))
      → env.resource_from_kind kind ≡ none
      → env.found h (inv_find_all kind) ≡ r
      → find_kind env kind h ≡ (done r, inv_find_all kind ∷ h)
  unfolding find_kind find_unless
  kind_answered kind h r a f =
      rw (a, find_kind, find_unless) (ap (λ x. (done x, inv_find_all kind ∷ h)) f)

  -- what the two searches find, one after the other
  found_all :
      (h : History) (hosts instances : List (String × String))
      → env.resource_from_kind ResourceKind.host ≡ none
      → env.resource_from_kind ResourceKind.instance ≡ none
      → env.found h (inv_find_all ResourceKind.host) ≡ ok hosts
      → env.found (inv_find_all ResourceKind.host ∷ h) (inv_find_all ResourceKind.instance)
        ≡ ok instances
      → reconcile_all env (new skip) h
        ≡ for_each
            (reconcile_resource env (new skip))
            (hosts ++ (instances ++ []))
            (inv_find_all ResourceKind.instance ∷ inv_find_all ResourceKind.host ∷ h)
  unfolding reconcile_all find_all_resources then_find reconcile_found
  found_all h hosts instances a b f g = rw (
    kind_answered ResourceKind.host h (ok hosts) a f,
    kind_answered ResourceKind.instance (inv_find_all ResourceKind.host ∷ h) (ok instances) b g,
  )

  -- Where both searches give what they find and the reconciliation of all resources gives no error, each
  -- host and each instance found was given to the reconciler of its kind with no error.
  pub reconcile_all-Requested :
      (h g : History) (hosts instances : List (String × String))
      → env.resource_from_kind ResourceKind.host ≡ none
      → env.resource_from_kind ResourceKind.instance ≡ none
      → env.found h (inv_find_all ResourceKind.host) ≡ ok hosts
      → env.found (inv_find_all ResourceKind.host ∷ h) (inv_find_all ResourceKind.instance)
        ≡ ok instances
      → Passes (reconcile_all env (new skip)) h g
      → All (Requested g) (hosts ++ instances)
  reconcile_all-Requested h g hosts instances a b f i q =
      for_each-All (reconcile_resource env (new skip)) (λ id g. Requested g id) Requested-lasts
        resource-Makes resource-Requested (hosts ++ instances)
        (inv_find_all ResourceKind.instance ∷ inv_find_all ResourceKind.host ∷ h) g
        (subst
          (λ ids.
            Passes (for_each (reconcile_resource env (new skip)) (hosts ++ ids))
              (inv_find_all ResourceKind.instance ∷ inv_find_all ResourceKind.host ∷ h) g)
          (append-nil instances) (sym (found_all h hosts instances a b f i) ∙ q))

module _ {E : Type 0} (env : Env E) where
  only_hosts_controlled :
      (kind : ResourceKind) → (new true).controllers kind ≡ true → kind ≡ ResourceKind.host
  unfolding new controllers_of
  only_hosts_controlled ResourceKind.host c = refl
  only_hosts_controlled ResourceKind.instance c = absurd (cc)
  only_hosts_controlled ResourceKind.unspecified c = absurd (cc)
  only_hosts_controlled (ResourceKind.unnamed n) c = absurd (cc)

  Requested-host :
      (g : History) (id : String × String)
      → Requested env true g id
      → env.kind_of_resource_id id.1 ≡ ok ResourceKind.host
  Requested-host g id r = r.named ∙ ap ok (only_hosts_controlled r.kind r.controlled)

  -- Where OS provisioning is skipped, the controller starts without an error only if every resource
  -- that the inventory finds, instances being searched too, is a host.
  pub skipping_start_only_hosts :
      (templates_map : List (String × String)) (h g : History)
      (hosts instances : List (String × String))
      → env.resource_from_kind ResourceKind.host ≡ none
      → env.resource_from_kind ResourceKind.instance ≡ none
      → env.found h (inv_find_all ResourceKind.host) ≡ ok hosts
      → env.found (inv_find_all ResourceKind.host ∷ h) (inv_find_all ResourceKind.instance)
        ≡ ok instances
      → Passes (start env (new true) templates_map) h g
      → All (λ id. env.kind_of_resource_id id.1 ≡ ok ResourceKind.host) (hosts ++ instances)
  unfolding start new
  skipping_start_only_hosts t h g hosts instances a b f i q =
      All-map (Requested-host g) (hosts ++ instances)
        (reconcile_all-Requested env true h g hosts instances a b f i q)
