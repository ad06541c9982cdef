-- ===== src/Reconcilers/Reads.antt =====
-- A reconciler reads the resource that its ID was made of, and reconciles what it has read
-- (reconciler.go, host.go, instance.go).
use infra_onboarding.Prelude.{◌≡◌, refl, Bool, String, none, some, ◌∷◌}
use infra_onboarding.Api.Resources.{Resource, HostResource, InstanceResource}
use infra_onboarding.Api.Errors.{ok, IsLawful}
use infra_onboarding.Api.Calls.{History, inv_get}
use infra_onboarding.Api.Env.{Env}
use infra_onboarding.Inventory.Reads.{instance_read, host_read}
use infra_onboarding.Reconcilers.{new_reconciler_id}
use infra_onboarding.Reconcilers.Id.{HasNoUnderscore, get-new_reconciler_id}
use infra_onboarding.Reconcilers.Errors.{inventory_goes_on}
use infra_onboarding.Reconcilers.Host
use infra_onboarding.Reconcilers.Instance

module _ {E : Type 0} (env : Env E) (lawful : IsLawful env.errors) {t r : String}
    (t_plain : HasNoUnderscore t) (r_plain : HasNoUnderscore r) where
  instance-reads :
      (i : InstanceResource) (h : History)
      → env.got h (inv_get t r) ≡ ok (some (Resource.instance i))
      → env.validate (some (Resource.instance i)) ≡ none
      → Instance.reconcile env (new_reconciler_id t r) h
        ≡ Instance.reconcile_found env i (inv_get t r ∷ h)
  unfolding Instance.reconcile
  instance-reads i h g v =
      let (et, er) = get-new_reconciler_id t_plain r_plain in
      rw (et, er, instance_read env t r h i g v, (inventory_goes_on env lawful none).1 refl)

  host-reads :
      (skip : Bool) (x : HostResource) (h : History)
      → env.got h (inv_get t r) ≡ ok (some (Resource.host x))
      → env.validate (some (Resource.host x)) ≡ none
      → Host.reconcile env skip (new_reconciler_id t r) h
        ≡ Host.reconcile_found env skip x (inv_get t r ∷ h)
  unfolding Host.reconcile
  host-reads skip x h g v =
      let (et, er) = get-new_reconciler_id t_plain r_plain in
      rw (et, er, host_read env t r h x g v, (inventory_goes_on env lawful none).1 refl)

  -- The reconciliation of an instance or a host by an ID made of a tenant ID and a resource ID without
  -- underscores gets this resource of this tenant, and, where the inventory gives a valid instance, or
  -- a valid host, reconciles it.
  pub reconcile-Reads :
      (i : InstanceResource) (skip : Bool) (x : HostResource) (h g : History)
      → env.got h (inv_get t r) ≡ ok (some (Resource.instance i))
      → env.validate (some (Resource.instance i)) ≡ none
      → env.got g (inv_get t r) ≡ ok (some (Resource.host x))
      → env.validate (some (Resource.host x)) ≡ none
      → (Instance.reconcile env (new_reconciler_id t r) h
          ≡ Instance.reconcile_found env i (inv_get t r ∷ h))
        × (Host.reconcile env skip (new_reconciler_id t r) g
            ≡ Host.reconcile_found env skip x (inv_get t r ∷ g))
  reconcile-Reads i skip x h g hi vi gx vx = (instance-reads i h hi vi, host-reads skip x g gx vx)
