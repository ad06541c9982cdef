-- ===== src/Southbound/ZeroTouch/Grown.antt =====
-- What zero touch does for a host without an instance (grpc_server.go).
use infra_onboarding.Prelude.{
  ℕ, ◌≡◌, refl, String, Bool, true, false, Option, none, some, ◌∷◌, ◌==◌, string_has_eq,
  if◌then◌else◌,
}
use infra_onboarding.Api.Enums.{InstanceState, instance_state_eq}
use infra_onboarding.Api.Resources.{
  Resource, HostResource, InstanceResource, LocalAccount, ProviderConfig, zero_host,
}
use infra_onboarding.Api.Errors.{Result, ok, err}
use infra_onboarding.Api.Calls.{Call, Filter, History, inv_list, inv_get, inv_create}
use infra_onboarding.Api.Env.{Env}
use infra_onboarding.Act.{
  Outcome, done, panic, Act, pure, panics, continue, ok_or_stop, value_or, ◌>>=◌,
}
use infra_onboarding.Act.Makes.{Extends, Extends-trans}
use infra_onboarding.Inventory.Lookups.{
  create_instance_resource, create_resource, id_of_created,
  get_local_account_resource_by_resource_id,
}
use infra_onboarding.Southbound.ZeroTouch.{
  new_instance, through_api, desired_security_feature, with_account, add_local_account,
  create_instance, error_of, check_n_create_instance,
}
use infra_onboarding.Southbound.ZeroTouch.Asks.{feature-Makes, account-Makes}

-- A read of the inventory, by a filter or in one tenant by the resource ID.
pub data IsRead (t : String) : Call → Type 0 where
  finds : {f : Filter} → IsRead t (inv_list f)
  gets : {x : String} → IsRead t (inv_get t x)

-- An instance that is to run, in this tenant and on this host.
pub record IsFor (t : String) (host : HostResource) (x : InstanceResource) : Type 0 where
  pub tenant : x.tenant_id ≡ t
  pub placed : x.host ≡ some (record zero_host { resource_id = host.resource_id })
  pub desired : x.desired_state ≡ InstanceState.running

-- Reads after `g`, and after them at most the creation of one instance for the host.
pub data Grown (t : String) (host : HostResource) (g : History) : History → Type 0 where
  kept : {k : History} → Extends (IsRead t) g k → Grown t host g k
  created :
      {k : History} {x : InstanceResource}
      → Extends (IsRead t) g k
      → IsFor t host x
      → Grown t host g (inv_create t (Resource.instance x) ∷ k)

module _ {E : Type 0} (env : Env E) (api : Bool) (t : String) where
  module _ (host : HostResource) where
    -- the instance to create, where one comes out
    abbrev ForHost : Outcome (Result E InstanceResource) → Type 0
    ForHost (done (ok x)) = IsFor t host x
    ForHost (done (err e)) = Unit
    ForHost panic = Unit

    with_account-ForHost :
        (i : InstanceResource) (o : Outcome (Result E (Option LocalAccount)) × History)
        → IsFor t host i
        → ForHost (continue (ok_or_stop (with_account env api i)) o).0
    with_account-ForHost i (done (ok (some a)), g) p = record {
      tenant = p.tenant;
      placed = p.placed;
      desired = p.desired;
    }
    with_account-ForHost i (done (ok none), g) p = tt
    with_account-ForHost i (done (err e), g) p = tt
    with_account-ForHost i (panic, g) p = tt

    account-ForHost :
        (b : Bool) (i : InstanceResource) (m : Act (Result E (Option LocalAccount))) (g : History)
        → IsFor t host i
        → ForHost ((if b then pure (ok i) else (m >>= ok_or_stop (with_account env api i))) g).0
    account-ForHost true i m g p = p
    account-ForHost false i m g p = with_account-ForHost i (m g) p

    new_instance-IsFor :
        (c : ProviderConfig) (feature : ℕ) → IsFor t host (new_instance t c host feature)
    unfolding new_instance
    new_instance-IsFor c feature = record { tenant = refl; placed = refl; desired = refl }

    created-Grown :
        (x : InstanceResource) (r : Result E Resource) (g k : History)
        → Extends (IsRead t) g k
        → IsFor t host x
        → Grown t host g
            (continue
              (λ s. pure (error_of env api s))
              (ok_or_stop (id_of_created env) r (inv_create t (Resource.instance x) ∷ k))).1
    unfolding id_of_created
    created-Grown x (ok r) g k e p = created e p
    created-Grown x (err r) g k e p = created e p

    creation-Grown :
        (b : Bool) (x : InstanceResource) (g k : History)
        → Extends (IsRead t) g k
        → IsFor t host x
        → Grown t host g
            (((if b then create_instance_resource env t x else panics) >>= λ s.
                pure (error_of env api s))
              k).1
    unfolding create_instance_resource create_resource
    creation-Grown true x g k e p =
        created-Grown x (env.inserted k (inv_create t (Resource.instance x))) g k e p
    creation-Grown false x g k e p = kept e

    added-Grown :
        (o : Outcome (Result E InstanceResource)) (g k : History)
        → Extends (IsRead t) g k
        → ForHost o
        → Grown t host g (continue (value_or (create_instance env api t)) (o, k)).1
    added-Grown (done (ok x)) g k e p = creation-Grown api x g k e p
    added-Grown (done (err x)) g k e p = kept e
    added-Grown panic g k e p = kept e

    featured-Grown :
        (c : ProviderConfig) (o : Outcome (Result E ℕ)) (g k : History)
        → Extends (IsRead t) g k
        → Grown t host g
            (continue
              (value_or λ f.
                add_local_account env api t c (new_instance t c host f)
                >>= value_or (create_instance env api t))
              (o, k)).1
    unfolding add_local_account
    featured-Grown c (done (ok f)) g k e =
        let x = new_instance t c host f in
        let m = get_local_account_resource_by_resource_id env t c.default_local_account in
        let account =
          if c.default_local_account == ""
          then pure (ok x)
          else (through_api env api m >>= ok_or_stop (with_account env api x)) in
        let o = account k in
        added-Grown o.0 g o.1 (Extends-trans e ((account-Makes env api t (λ y. gets) c x).at k)) (
          account-ForHost (c.default_local_account == "") x (through_api env api m) k
            (new_instance-IsFor c f))
    featured-Grown c (done (err x)) g k e = kept e
    featured-Grown c panic g k e = kept e

    abbrev auto_provision : ProviderConfig → Act (Option E)
    auto_provision c =
        desired_security_feature env api t c
        >>= value_or λ f.
          add_local_account env api t c (new_instance t c host f)
          >>= value_or (create_instance env api t)

    auto-Grown :
        (b : Bool) (c : ProviderConfig) (g k : History)
        → Extends (IsRead t) g k
        → Grown t host g ((if b then auto_provision c else pure none) k).1
    auto-Grown true c g k e =
        let o = desired_security_feature env api t c k in
        featured-Grown c o.0 g o.1 (Extends-trans e ((feature-Makes env api t (λ y. gets) c).at k))
    auto-Grown false c g k e = kept e

    pub check-Grown :
        (c : ProviderConfig) (g k : History)
        → Extends (IsRead t) g k
        → Grown t host g (check_n_create_instance env api t c (some host) k).1
    unfolding check_n_create_instance
    check-Grown c g k e = auto-Grown c.auto_provision c g k e
