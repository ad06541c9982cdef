-- ===== src/Inventory/Sent.antt =====
-- What an update of a host that gave no error has sent (invclient.go).
use infra_onboarding.Prelude.{◌≡◌, sym, ap, ◌∙◌, String, inl, inr, none, List, ◌∷◌}
use infra_onboarding.Api.Resources.{Resource, HostResource}
use infra_onboarding.Api.Errors.{ok}
use infra_onboarding.Api.Calls.{Field, History, inv_update}
use infra_onboarding.Api.Env.{Env}
use infra_onboarding.Act.Past.{Passes, done-injective}
use infra_onboarding.Inventory.{set_inventory_resource_and_id, update_host}
use infra_onboarding.Inventory.Updates.{update_sends_masked}

module _ {E : Type 0} (env : Env E) (tenant_id : String) (x : HostResource)
    (fields : List Field) where
  -- The update of the host was the last call, and it was answered with no error.
  pub record Sent (before g : History) : Type 0 where
    pub sent : Resource
    pub filtered : env.filter_message (Resource.host x) fields ≡ ok sent
    pub answered : env.outcome before (inv_update tenant_id x.resource_id fields sent) ≡ none
    pub last_call : g ≡ inv_update tenant_id x.resource_id fields sent ∷ before

  update-Sent :
      (h g : History) (id : String) (sent : Resource)
      → x.resource_id ≡ id
      → env.filter_message (Resource.host x) fields ≡ ok sent
      → env.outcome h (inv_update tenant_id id fields sent) ≡ none
      → g ≡ inv_update tenant_id id fields sent ∷ h
      → Sent h g
  update-Sent h g id sent e f a l = record {
    sent = sent;
    filtered = f;
    answered = rw e a;
    last_call = rw e l;
  }

module _ {E : Type 0} (env : Env E) (tenant_id : String) (x : HostResource) where
  pub update_host-Sent :
      (f : Field) (fs : List Field) (h g : History)
      → Passes (update_host env tenant_id x (f ∷ fs)) h g
      → Sent env tenant_id x (f ∷ fs) h g
  unfolding update_host set_inventory_resource_and_id
  update_host-Sent f fs h g q =
      elim (update_sends_masked env tenant_id (Resource.host x) (f ∷ fs) h) [
        | inl (e, r) ↦ absurd (cc)
        | inr (inl (e, r)) ↦ absurd (cc)
        | inr (inr (id, sent, e, filtered, r)) ↦
            let p = sym r ∙ q in
            update-Sent env tenant_id x (f ∷ fs) h g id sent (cc) filtered
              (done-injective (ap (λ o. o.0) p)) (sym (ap (λ o. o.1) p))
      ]
