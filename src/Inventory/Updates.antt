-- ===== src/Inventory/Updates.antt =====
-- What an update sends to the inventory (invclient.go).
use infra_onboarding.Prelude.{
  ◌≡◌, refl, ap, ◌⊎◌, inl, inr, String, Option, none, some, List, [], ◌∷◌, Option-cases,
}
use infra_onboarding.Api.Resources.{Resource, HostResource, InstanceResource}
use infra_onboarding.Api.Errors.{Result, ok, err, Result-cases}
use infra_onboarding.Api.Calls.{Call, Field, History, inv_update}
use infra_onboarding.Api.Env.{Env}
use infra_onboarding.Act.{done}
use infra_onboarding.Act.Makes.{Makes, Makes-pure, Makes-call}
use infra_onboarding.Inventory.{
  set_inventory_resource_and_id, send_filtered, send_masked, update_inv_resource_fields,
  update_host, update_instance_fields,
}

module _ {E : Type 0} (env : Env E) where
  module _ {ℓ} {P : Call → Type ℓ} where
    send_filtered-Makes :
        (t id : String) (fs : List Field) (r : Result E Resource)
        → ((x : Resource) → P (inv_update t id fs x))
        → Makes P (send_filtered env t id fs r)
    unfolding send_filtered
    send_filtered-Makes t id fs (ok x) p = Makes-call env.outcome _ (p x)
    send_filtered-Makes t id fs (err e) p = Makes-pure (some e)

    pub send_masked-Makes :
        (t id : String) (r : Resource) (fs : List Field) (mask_error : Option E)
        → ((x : Resource) → P (inv_update t id fs x))
        → Makes P (send_masked env t r fs mask_error (ok id))
    unfolding send_masked
    send_masked-Makes t id r fs none p = send_filtered-Makes t id fs (env.filter_message r fs) p
    send_masked-Makes t id r fs (some e) p = Makes-pure _

    pub update_host-Makes :
        (t : String) (r : HostResource) (fs : List Field)
        → ((x : Resource) → P (inv_update t r.resource_id fs x))
        → Makes P (update_host env t r fs)
    unfolding update_host
    update_host-Makes t r [] p = Makes-pure none
    update_host-Makes t r (f ∷ fs) p =
        send_masked-Makes t r.resource_id (Resource.host r) (f ∷ fs)
          (env.mask_error (Resource.host r) (f ∷ fs)) p

    pub update_instance_fields-Makes :
        (t : String) (r : InstanceResource) (fs : List Field)
        → ((x : Resource) → P (inv_update t r.resource_id fs x))
        → Makes P (update_instance_fields env t r fs)
    unfolding update_instance_fields
    update_instance_fields-Makes t r [] p = Makes-pure none
    update_instance_fields-Makes t r (f ∷ fs) p =
        send_masked-Makes t r.resource_id (Resource.instance r) (f ∷ fs)
          (env.mask_error (Resource.instance r) (f ∷ fs)) p

  nothing_to_write :
      (t : String) (r : Resource) (h : History)
      → update_inv_resource_fields env t (some r) [] h ≡ (done none, h)
  unfolding update_inv_resource_fields
  nothing_to_write t r h = refl

  update_refused :
      (t : String) (r : Resource) (f : Field) (fs : List Field) (h : History) (e : E)
      → set_inventory_resource_and_id env r ≡ err e
      → update_inv_resource_fields env t (some r) (f ∷ fs) h ≡ (done (some e), h)
  unfolding update_inv_resource_fields
  update_refused t r f fs h e q = rw (q, send_masked)

  update_bad_mask :
      (t : String) (r : Resource) (f : Field) (fs : List Field) (h : History) {id : String} {e : E}
      → set_inventory_resource_and_id env r ≡ ok id
      → env.mask_error r (f ∷ fs) ≡ some e
      → update_inv_resource_fields env t (some r) (f ∷ fs) h ≡ (done (some (env.wrap e)), h)
  unfolding update_inv_resource_fields
  update_bad_mask t r f fs h q m = rw (q, m, send_masked)

  update_unfiltered :
      (t : String) (r : Resource) (f : Field) (fs : List Field) (h : History) {id : String} {e : E}
      → set_inventory_resource_and_id env r ≡ ok id
      → env.mask_error r (f ∷ fs) ≡ none
      → env.filter_message r (f ∷ fs) ≡ err e
      → update_inv_resource_fields env t (some r) (f ∷ fs) h ≡ (done (some e), h)
  unfolding update_inv_resource_fields
  update_unfiltered t r f fs h q m x = rw (q, m, x, send_masked, send_filtered)

  pub update_sent :
      (t : String) (r : Resource) (f : Field) (fs : List Field) (h : History) {id : String}
      {sent : Resource}
      → set_inventory_resource_and_id env r ≡ ok id
      → env.mask_error r (f ∷ fs) ≡ none
      → env.filter_message r (f ∷ fs) ≡ ok sent
      → update_inv_resource_fields env t (some r) (f ∷ fs) h
        ≡ (done (env.outcome h (inv_update t id (f ∷ fs) sent)), inv_update t id (f ∷ fs) sent ∷ h)
  unfolding update_inv_resource_fields
  update_sent t r f fs h q m x = rw (q, m, x, send_masked, send_filtered)

  -- An update of a resource either makes no call and gives an error, or nothing was to be written, or
  -- it is one call: for the given tenant, at the resource's own ID, with exactly the given fields in
  -- its mask, and with the message that filtering by these fields left; its answer is the result.
  pub update_sends_masked :
      (tenant_id : String) (r : Resource) (fields : List Field) (h : History)
      → ((e : E) × (update_inv_resource_fields env tenant_id (some r) fields h
            ≡ (done (some e), h)))
        ⊎ ((fields ≡ [])
            × (update_inv_resource_fields env tenant_id (some r) fields h ≡ (done none, h)))
        ⊎ ((id : String) × (sent : Resource) × (set_inventory_resource_and_id env r ≡ ok id)
            × (env.filter_message r fields ≡ ok sent)
            × (update_inv_resource_fields env tenant_id (some r) fields h ≡ (
              done (env.outcome h (inv_update tenant_id id fields sent)),
              inv_update tenant_id id fields sent ∷ h,
            )))
  update_sends_masked tenant_id r [] h = inr (inl (refl, nothing_to_write tenant_id r h))
  update_sends_masked tenant_id r (f ∷ fields) h =
      elim (Result-cases (set_inventory_resource_and_id env r)) [
        | inr (e, q) ↦ inl (e, update_refused tenant_id r f fields h e q)
        | inl (id, q) ↦ elim (Option-cases (env.mask_error r (f ∷ fields))) [
          | inr (e, m) ↦ inl (env.wrap e, update_bad_mask tenant_id r f fields h q m)
          | inl m ↦ elim (Result-cases (env.filter_message r (f ∷ fields))) [
            | inr (e, x) ↦ inl (e, update_unfiltered tenant_id r f fields h q m x)
            | inl (sent, x) ↦ inr (inr (id, sent, q, x, update_sent tenant_id r f fields h q m x))
          ]
        ]
      ]

  -- An update never panics.
  pub update-done :
      (tenant_id : String) (r : Resource) (fields : List Field) (h : History)
      → (e : Option E) × ((update_inv_resource_fields env tenant_id (some r) fields h).0 ≡ done e)
  update-done tenant_id r fields h = elim (update_sends_masked tenant_id r fields h) [
    | inl (e, q) ↦ (some e, ap (λ o. o.0) q)
    | inr (inl (n, q)) ↦ (none, ap (λ o. o.0) q)
    | inr (inr (id, sent, i, f, q)) ↦
        (env.outcome h (inv_update tenant_id id fields sent), ap (λ o. o.0) q)
  ]
