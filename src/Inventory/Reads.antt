-- ===== src/Inventory/Reads.antt =====
-- What a read by ID gives where the inventory has a valid resource (invclient.go).
use infra_onboarding.Prelude.{◌≡◌, String, Option, none, some, ◌∷◌}
use infra_onboarding.Api.Resources.{Resource, HostResource, InstanceResource}
use infra_onboarding.Api.Errors.{ok}
use infra_onboarding.Api.Calls.{History, inv_get}
use infra_onboarding.Api.Env.{Env}
use infra_onboarding.Act.{done}
use infra_onboarding.Inventory.{
  validated, host_of_response, instance_of_response, get_resource_by_id,
  get_host_resource_by_resource_id, get_instance_resource_by_resource_id,
}

module _ {E : Type 0} (env : Env E) (t r : String) (h : History) where
  valid {ℓ} :
      {A : Type ℓ} (m : Option Resource) (a : A) → env.validate m ≡ none → validated env m a ≡ ok a
  unfolding validated
  valid m a v = rw (v, validated)

  pub instance_read :
      (i : InstanceResource)
      → env.got h (inv_get t r) ≡ ok (some (Resource.instance i))
      → env.validate (some (Resource.instance i)) ≡ none
      → get_instance_resource_by_resource_id env t r h ≡ (done (ok (some i)), inv_get t r ∷ h)
  unfolding get_instance_resource_by_resource_id get_resource_by_id instance_of_response
  instance_read i g v = rw (g, valid (some (Resource.instance i)) (some i) v)

  pub host_read :
      (x : HostResource)
      → env.got h (inv_get t r) ≡ ok (some (Resource.host x))
      → env.validate (some (Resource.host x)) ≡ none
      → get_host_resource_by_resource_id env t r h ≡ (done (ok (some x)), inv_get t r ∷ h)
  unfolding get_host_resource_by_resource_id get_resource_by_id host_of_response
  host_read x g v = rw (g, valid (some (Resource.host x)) (some x) v)
