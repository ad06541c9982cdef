-- ===== src/Reconcilers/Host/Objects.antt =====
-- What a host's deletion leaves done before the host is marked (host.go).
use infra_onboarding.Prelude.{
  ◌≡◌, refl, ap, subst, ◌⊎◌, inl, inr, true, Option, none, List, [], ◌∷◌, All, arith, Bool-cases,
  ◌==◌,
}
use infra_onboarding.Api.Enums.{HostState, host_state_eq}
use infra_onboarding.Api.Resources.{SubResource, HostResource}
use infra_onboarding.Api.Calls.{Call, History, inv_delete, revoke_credentials}
use infra_onboarding.Api.Env.{Env}
use infra_onboarding.Act.{call, for_each, ◌and_then◌}
use infra_onboarding.Act.Makes.{
  Makes, makes_rules, Extends, Makes-and_then, Makes-for_each, Extends-trans,
}
use infra_onboarding.Act.Past.{
  Past, done-injective, here, AnyCall, Extends-Past, Passes, and_then-split, Passes-Extends,
  for_each-All,
}
use infra_onboarding.Inventory.{drop_not_found, delete_resource}
use infra_onboarding.Inventory.Setters.{delete_host_resource}
use infra_onboarding.Inventory.Targets.{delete_ip_address-Makes, list_ip_addresses-Makes}
use infra_onboarding.Reconcilers.Host.{
  delete_sub_resource, delete_ip, delete_ips_by_host_nic, delete_nic, delete_host_nic_by_host,
  delete_host_storage_by_host, delete_host_usb_by_host, delete_host_gpu_by_host, unless,
  revoke_unless_untrusted, delete_host_objects,
}

module _ {E : Type 0} (env : Env E) where
  -- The deletion of the resource was asked for, and succeeded or found nothing.
  abbrev pub IsDeletion : SubResource → History → Call → Type 0
  IsDeletion r h c =
      (c ≡ inv_delete r.tenant_id r.resource_id)
      × ((env.outcome h c ≡ none) ⊎ (env.is_not_found (env.outcome h c) ≡ true))

  abbrev pub IsGone : History → SubResource → Type 0
  IsGone g r = Past (IsDeletion r) g

  abbrev pub IsRevocation : HostResource → History → Call → Type 0
  IsRevocation host h c =
      (c ≡ revoke_credentials host.tenant_id host.uuid) × (env.outcome h c ≡ none)

  dropped : (e : Option E) → drop_not_found env e ≡ none → (e ≡ none) ⊎ (env.is_not_found e ≡ true)
  unfolding drop_not_found
  dropped e q = ground arith

  delete_resource-IsGone :
      (r : SubResource) (h g : History) → Passes (delete_sub_resource env r) h g → IsGone g r
  unfolding delete_sub_resource delete_resource
  delete_resource-IsGone r h g q =
      subst (λ o. IsGone o r) (ap (λ o. o.1) q)
        (here (refl, dropped _ (done-injective (ap (λ o. o.0) q))))

  sub_resource-Makes : (r : SubResource) → Makes AnyCall (delete_sub_resource env r)
  unfolding delete_sub_resource delete_resource
  sub_resource-Makes r = search makes_rules

  delete_ip-Makes : (r : SubResource) → Makes AnyCall (delete_ip env r)
  unfolding delete_ip
  delete_ip-Makes r = delete_ip_address-Makes env r.tenant_id r.resource_id λ fs x. tt

  ips-Makes : (r : SubResource) → Makes AnyCall (delete_ips_by_host_nic env r)
  unfolding delete_ips_by_host_nic
  ips-Makes r = search (makes_rules, list_ip_addresses-Makes, delete_ip-Makes)

  nic-Makes : (r : SubResource) → Makes AnyCall (delete_nic env r)
  unfolding delete_nic
  nic-Makes r = Makes-and_then _ _ (ips-Makes r) (sub_resource-Makes r)

  delete_nic-IsGone : (r : SubResource) (h g : History) → Passes (delete_nic env r) h g → IsGone g r
  unfolding delete_nic
  delete_nic-IsGone r h g q =
      let (mid, first, rest) =
        and_then-split (delete_ips_by_host_nic env r) (delete_sub_resource env r) h g q in
      delete_resource-IsGone r mid g rest

  pub for_each-IsGone :
      (rs : List SubResource) (h g : History)
      → Passes (for_each (delete_sub_resource env) rs) h g
      → All (IsGone g) rs
  for_each-IsGone =
      for_each-All (delete_sub_resource env) (λ r g. IsGone g r) (λ r h g. Extends-Past)
        sub_resource-Makes delete_resource-IsGone

  for_each_nic-IsGone :
      (rs : List SubResource) (h g : History)
      → Passes (for_each (delete_nic env) rs) h g
      → All (IsGone g) rs
  for_each_nic-IsGone =
      for_each-All (delete_nic env) (λ r g. IsGone g r) (λ r h g. Extends-Past) nic-Makes
        delete_nic-IsGone

  asked :
      (host : HostResource) (h g : History)
      → Passes (call env.outcome (revoke_credentials host.tenant_id host.uuid)) h g
      → Past (IsRevocation host) g
  asked host h g q =
      subst (Past (IsRevocation host)) (ap (λ o. o.1) q)
        (here (refl, done-injective (ap (λ o. o.0) q)))

  revoked :
      (host : HostResource) (h g : History)
      → Passes (revoke_unless_untrusted env host) h g
      → (host.current_state ≡ HostState.untrusted) ⊎ Past (IsRevocation host) g
  unfolding revoke_unless_untrusted
  revoked host h g q = elim (Bool-cases (host.current_state == HostState.untrusted)) [
    | inl e ↦ inl ((host_state_eq.equals_iff host.current_state HostState.untrusted).0 e)
    | inr e ↦ inr (
        asked host h g (
          subst
            (λ b.
              Passes (unless env b (call env.outcome (revoke_credentials host.tenant_id host.uuid)))
                h g)
            e q))
  ]

  -- All that has happened when a host was marked deleted.
  pub record Deleted (host : HostResource) (g : History) : Type 0 where
    pub credentials : (host.current_state ≡ HostState.untrusted) ⊎ Past (IsRevocation host) g
    pub nics : All (IsGone g) host.host_nics
    pub storages : All (IsGone g) host.host_storages
    pub usbs : All (IsGone g) host.host_usbs
    pub gpus : All (IsGone g) host.host_gpus

  All-lasts :
      (rs : List SubResource) (h g : History)
      → Extends AnyCall h g
      → All (IsGone h) rs
      → All (IsGone g) rs
  All-lasts [] h g e a = tt
  All-lasts (r ∷ rs) h g e (p, a) = (Extends-Past e p, All-lasts rs h g e a)

  credentials-last :
      (host : HostResource) (h g : History)
      → Extends AnyCall h g
      → (host.current_state ≡ HostState.untrusted) ⊎ Past (IsRevocation host) h
      → (host.current_state ≡ HostState.untrusted) ⊎ Past (IsRevocation host) g
  credentials-last host h g e (inl u) = inl u
  credentials-last host h g e (inr p) = inr (Extends-Past e p)

  loop-Makes : (rs : List SubResource) → Makes AnyCall (for_each (delete_sub_resource env) rs)
  loop-Makes rs = Makes-for_each (delete_sub_resource env) rs sub_resource-Makes

  nics-Makes : (rs : List SubResource) → Makes AnyCall (for_each (delete_nic env) rs)
  nics-Makes rs = Makes-for_each (delete_nic env) rs nic-Makes

  -- the four loops, up to the update of the host
  pub delete_host_objects-Deleted :
      (host : HostResource) (h g : History)
      → Passes (delete_host_objects env host) h g
      → (before : History) × Deleted host before
        × Passes (delete_host_resource env host.tenant_id host.resource_id) before g
  unfolding delete_host_objects delete_host_nic_by_host delete_host_storage_by_host
      delete_host_usb_by_host delete_host_gpu_by_host
  delete_host_objects-Deleted host h g q =
      let last = delete_host_resource env host.tenant_id host.resource_id in
      let gpus = delete_host_gpu_by_host env host in
      let usbs = delete_host_usb_by_host env host in
      let storages = delete_host_storage_by_host env host in
      let nics = delete_host_nic_by_host env host in
      let from_gpus = gpus and_then last in
      let from_usbs = usbs and_then from_gpus in
      let from_storages = storages and_then from_usbs in
      let from_nics = nics and_then from_storages in
      let (a, p, qa) = and_then-split (revoke_unless_untrusted env host) from_nics h g q in
      let (b, pn, qb) = and_then-split nics from_storages a g qa in
      let (c, ps, qc) = and_then-split storages from_usbs b g qb in
      let (d, pu, qd) = and_then-split usbs from_gpus c g qc in
      let (e, pg, qe) = and_then-split gpus last d g qd in
      let ab = Passes-Extends (for_each (delete_nic env) host.host_nics) a b (nics-Makes _) pn in
      let bc =
        Passes-Extends (for_each (delete_sub_resource env) host.host_storages) b c (loop-Makes _)
          ps in
      let cd =
        Passes-Extends (for_each (delete_sub_resource env) host.host_usbs) c d (loop-Makes _) pu in
      let de =
        Passes-Extends (for_each (delete_sub_resource env) host.host_gpus) d e (loop-Makes _) pg in
      let ce = Extends-trans cd de in
      let be = Extends-trans bc ce in
      (
        e,
        record {
          credentials = credentials-last host a e (Extends-trans ab be) (revoked host h a p);
          nics = All-lasts host.host_nics b e be (for_each_nic-IsGone host.host_nics a b pn);
          storages =
              All-lasts host.host_storages c e ce (for_each-IsGone host.host_storages b c ps);
          usbs = All-lasts host.host_usbs d e de (for_each-IsGone host.host_usbs c d pu);
          gpus = for_each-IsGone host.host_gpus d e pg;
        },
        qe,
      )
