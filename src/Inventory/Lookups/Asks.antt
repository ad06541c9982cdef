-- ===== src/Inventory/Lookups/Asks.antt =====
-- Which calls the lookups and creations of the client make (invclient.go).
use infra_onboarding.Prelude.{String, Option, none, some, List, [], ◌∷◌, ◌==◌, string_has_eq}
use infra_onboarding.Api.Resources.{Resource, HostResource, InstanceResource}
use infra_onboarding.Api.Calls.{Call, Field, Filter, inv_list, inv_get, inv_create}
use infra_onboarding.Api.Env.{Env}
use infra_onboarding.Act.{call}
use infra_onboarding.Act.Makes.{
  Makes, Makes-pure, Makes-panics, Makes-call, Makes-if, Makes-on_ok, makes_rules,
}
use infra_onboarding.Inventory.{
  list_all_resources, get_host, get_resource_by_id, get_host_resource_by_resource_id,
}
use infra_onboarding.Inventory.Targets.{list_all-Makes}
use infra_onboarding.Inventory.Lookups.{
  single_of, if_singular, not_empty, host_filter, host_by_filter, get_provider,
  list_and_return_host, list_and_return_provider, get_host_resource, get_provider_resource_by_name,
  config_of, get_provider_config, get_os_resource_by_resource_id,
  get_local_account_resource_by_resource_id, create_resource, id_of_created, create_host_resource,
  create_instance_resource,
}

module _ {ℓ} {E : Type 0} (env : Env E) {P : Call → Type ℓ} where
  not_empty-Makes {κ} :
      {A : Type κ} (get : Option Resource → Option A) (empty : String) (a : Option A)
      → Makes P (not_empty env get empty a)
  not_empty-Makes get empty none = Makes-pure _
  not_empty-Makes get empty (some a) = Makes-pure _

  singular-Makes {κ} :
      {A : Type κ} (get : Option Resource → Option A) (empty : String) (rs : List Resource)
      (e : Option E)
      → Makes P (if_singular env get empty rs e)
  singular-Makes get empty rs (some e) = Makes-pure _
  singular-Makes get empty [] none = Makes-panics
  singular-Makes get empty (r ∷ rs) none = not_empty-Makes get empty (get (some r))

  module _ (lists : (f : Filter) → P (inv_list f)) where
    single-Makes {κ} :
        {A : Type κ} (get : Option Resource → Option A) (empty : String) (rs : List Resource)
        → Makes P (single_of env get empty rs)
    single-Makes get empty rs = singular-Makes get empty rs (env.check_singular rs)

    pub list_and_return_host-Makes : (f : Filter) → Makes P (list_and_return_host env f)
    unfolding list_and_return_host
    list_and_return_host-Makes f =
        Makes-on_ok (list_all_resources env f) _ (list_all-Makes env f (lists f))
          λ rs. single-Makes (get_host env) "Empty Host resource" rs

    by_filter-Makes : (f : Option Filter) → Makes P (host_by_filter env f)
    by_filter-Makes none = Makes-pure _
    by_filter-Makes (some f) = list_and_return_host-Makes f

    pub get_host_resource-Makes :
        (field : Field) (value : String) → Makes P (get_host_resource env field value)
    unfolding get_host_resource
    get_host_resource-Makes field value = by_filter-Makes (host_filter env field value)

    provider-Makes : (f : Filter) → Makes P (list_and_return_provider env f)
    unfolding list_and_return_provider
    provider-Makes f =
        Makes-on_ok (list_all_resources env f) _ (list_all-Makes env f (lists f))
          λ rs. single-Makes get_provider "Empty provider resource" rs

    pub get_provider_config-Makes : (t name : String) → Makes P (get_provider_config env t name)
    unfolding get_provider_config get_provider_resource_by_name config_of
    get_provider_config-Makes t name =
        Makes-on_ok (get_provider_resource_by_name env t name) _
          (Makes-if (name == "") _ _ (λ _. Makes-pure _) λ _. provider-Makes _) λ p. Makes-pure _

  module _ (t id : String) (gets : P (inv_get t id)) where
    pub get_host-Makes : Makes P (get_host_resource_by_resource_id env t id)
    unfolding get_host_resource_by_resource_id get_resource_by_id
    get_host-Makes = search (makes_rules, gets)

    pub get_os-Makes : Makes P (get_os_resource_by_resource_id env t id)
    unfolding get_os_resource_by_resource_id get_resource_by_id
    get_os-Makes = search (makes_rules, gets)

    pub get_local_account-Makes : Makes P (get_local_account_resource_by_resource_id env t id)
    unfolding get_local_account_resource_by_resource_id get_resource_by_id
    get_local_account-Makes = search (makes_rules, gets)

  create-Makes :
      (t : String) (r : Resource) → P (inv_create t r) → Makes P (create_resource env t r)
  unfolding create_resource id_of_created
  create-Makes t r p =
      Makes-on_ok (call env.inserted (inv_create t r)) _ (Makes-call env.inserted _ p)
        λ x. Makes-pure _

  pub create_host-Makes :
      (t : String) (x : HostResource)
      → P (inv_create t (Resource.host x))
      → Makes P (create_host_resource env t x)
  unfolding create_host_resource
  create_host-Makes t x p = create-Makes t (Resource.host x) p

  pub create_instance-Makes :
      (t : String) (i : InstanceResource)
      → P (inv_create t (Resource.instance i))
      → Makes P (create_instance_resource env t i)
  unfolding create_instance_resource
  create_instance-Makes t i p = create-Makes t (Resource.instance i) p
