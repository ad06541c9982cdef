-- ===== src/Southbound/ZeroTouch/Asks.antt =====
-- Which calls zero touch makes (grpc_server.go).
use infra_onboarding.Prelude.{String, Bool, true, false, Option, none, some, ◌==◌, string_has_eq}
use infra_onboarding.Api.Enums.{InstanceState, instance_state_eq}
use infra_onboarding.Api.Resources.{
  Resource, HostResource, InstanceEdge, InstanceResource, LocalAccount, ProviderConfig,
}
use infra_onboarding.Api.Errors.{Result, ok, err}
use infra_onboarding.Api.Calls.{Call, Filter, inv_list, inv_get, inv_create, internal_event}
use infra_onboarding.Api.Env.{Env}
use infra_onboarding.Dkam.{InfraConfig}
use infra_onboarding.Act.{Act, ask}
use infra_onboarding.Act.Makes.{
  Makes, Makes-pure, Makes-ask, Makes-panics, Makes-bind, Makes-call, Makes-if, Makes-on_ok,
  Makes-on_value,
}
use infra_onboarding.Inventory.{get_host_resource_by_resource_id}
use infra_onboarding.Inventory.Lookups.{
  default_provider_name, get_os_resource_by_resource_id, create_instance_resource,
  get_local_account_resource_by_resource_id, get_provider_config, send_internal_event,
}
use infra_onboarding.Inventory.Lookups.Asks.{
  get_provider_config-Makes, get_host-Makes, get_os-Makes, get_local_account-Makes,
  create_instance-Makes,
}
use infra_onboarding.Southbound.ZeroTouch.{
  instance_of, new_instance, through_api, desired_security_feature, with_account, add_local_account,
  create_instance, check_n_create_instance, with_provider_config, on_instance, unless_skipped,
  start_zero_touch,
}

module _ {ℓ} {E : Type 0} (env : Env E) (api : Bool) {P : Call → Type ℓ} where
  through-Makes {κ} :
      {A : Type κ} (b : Bool) (m : Act A) → Makes P m → Makes P (through_api env b m)
  through-Makes true m p = p
  through-Makes false m p = Makes-panics

module _ {ℓ} {E : Type 0} (env : Env E) (api : Bool) {P : Call → Type ℓ} (t : String)
    (gets : (x : String) → P (inv_get t x)) where
  pub feature-Makes : (c : ProviderConfig) → Makes P (desired_security_feature env api t c)
  unfolding desired_security_feature
  feature-Makes c =
      Makes-if c.os_security_feature_enable _ _
        (λ _.
          Makes-on_ok (through_api env api (get_os_resource_by_resource_id env t c.default_os)) _
            (through-Makes env api api _ (get_os-Makes env t c.default_os (gets _)))
            λ os. Makes-pure _)
        λ _. Makes-pure _

  with_account-Makes :
      (i : InstanceResource) (a : Option LocalAccount) → Makes P (with_account env api i a)
  with_account-Makes i none = Makes-panics
  with_account-Makes i (some a) = Makes-pure _

  pub account-Makes :
      (c : ProviderConfig) (i : InstanceResource) → Makes P (add_local_account env api t c i)
  unfolding add_local_account
  account-Makes c i =
      Makes-if (c.default_local_account == "") _ _ (λ _. Makes-pure _)
        λ _.
          let read = get_local_account_resource_by_resource_id env t c.default_local_account in
          Makes-on_ok (through_api env api read) _
            (through-Makes env api api read
              (get_local_account-Makes env t c.default_local_account (gets _)))
            (with_account-Makes i)

module _ {ℓ} {E : Type 0} (env : Env E) (api : Bool) {P : Call → Type ℓ}
    (lists : (f : Filter) → P (inv_list f)) (t id : String) (gets : (x : String) → P (inv_get t x))
    (creates : (x : InstanceResource) → P (inv_create t (Resource.instance x)))
    (events : (x : String) → P (internal_event t x)) where
  creation-Makes : (i : InstanceResource) → Makes P (create_instance env api t i)
  creation-Makes i =
      Makes-bind (through_api env api (create_instance_resource env t i)) _
        (through-Makes env api api _ (create_instance-Makes env t i (creates i))) λ r. Makes-pure _

  check-Makes :
      (c : ProviderConfig) (x : Option HostResource)
      → Makes P (check_n_create_instance env api t c x)
  unfolding check_n_create_instance
  check-Makes c none =
      Makes-if c.auto_provision _ _
        (λ _.
          Makes-bind (desired_security_feature env api t c) _ (feature-Makes env api t gets c)
            λ _. Makes-panics)
        λ _. Makes-pure _
  check-Makes c (some x) =
      Makes-if c.auto_provision _ _
        (λ _.
          Makes-on_value (desired_security_feature env api t c) _ (feature-Makes env api t gets c)
            λ f.
              Makes-on_value (add_local_account env api t c (new_instance t c x f)) _
                (account-Makes env api t gets c _) creation-Makes)
        λ _. Makes-pure _

  config-Makes :
      (x : Option HostResource) (c : Result E ProviderConfig)
      → Makes P (with_provider_config env api t x c)
  config-Makes x (err e) = Makes-pure none
  config-Makes x (ok c) = check-Makes c x

  on_instance-Makes :
      (x : Option HostResource) (i : Option InstanceEdge) → Makes P (on_instance env api t x i)
  unfolding on_instance send_internal_event
  on_instance-Makes x none =
      Makes-bind (get_provider_config env t default_provider_name) _
        (get_provider_config-Makes env lists t default_provider_name) (config-Makes x)
  on_instance-Makes x (some i) =
      Makes-if (i.current_state == InstanceState.running) _ _ (λ _. Makes-pure none)
        λ _.
          Makes-bind (send_internal_event env t i.resource_id) _ (Makes-call _ _ (events _))
            λ _. Makes-pure none

  unless_skipped-Makes : (c : InfraConfig) → Makes P (unless_skipped env api t id c)
  unfolding unless_skipped
  unless_skipped-Makes c =
      Makes-if c.skip_os_provisioning _ _ (λ _. Makes-pure none)
        λ _.
          Makes-on_value (get_host_resource_by_resource_id env t id) _
            (get_host-Makes env t id (gets id)) λ x. on_instance-Makes x (instance_of x)

  pub start_zero_touch-Makes : Makes P (start_zero_touch env api t id)
  unfolding start_zero_touch
  start_zero_touch-Makes =
      Makes-bind (ask env.infra_config) _ (Makes-ask env.infra_config) unless_skipped-Makes
