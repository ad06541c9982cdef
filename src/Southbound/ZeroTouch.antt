-- ===== src/Southbound/ZeroTouch.antt =====
-- grpc_server.go: `startZeroTouch` and `checkNCreateInstance`, which give an onboarded host its
-- instance.
pub mod Asks
pub mod Grown
pub mod Outcome
use infra_onboarding.Prelude.{
  ℕ, String, Bool, Option, none, some, ◌==◌, string_has_eq, if◌then◌else◌,
}
use infra_onboarding.Api.Enums.{InstanceState, InstanceKind, instance_state_eq}
use infra_onboarding.Api.Resources.{
  HostResource, InstanceEdge, InstanceResource, OsResource, LocalAccount, ProviderConfig, zero_host,
  zero_os, zero_local_account, zero_instance,
}
use infra_onboarding.Api.Errors.{Result, ok, err}
use infra_onboarding.Api.Env.{Env}
use infra_onboarding.Dkam.{InfraConfig}
use infra_onboarding.Act.{Act, pure, panics, ask, ◌>>=◌, ◌>>◌, ◌on_value◌, ◌on_ok◌}
use infra_onboarding.Inventory.{get_host_resource_by_resource_id}
use infra_onboarding.Inventory.Lookups.{
  default_provider_name, get_provider_config, get_os_resource_by_resource_id,
  get_local_account_resource_by_resource_id, create_instance_resource, send_internal_event,
}

abbrev pub security_feature_of : Option OsResource → ℕ
security_feature_of none = 0
security_feature_of (some os) = os.security_feature

abbrev pub instance_of : Option HostResource → Option InstanceEdge
instance_of none = none
instance_of (some host) = host.instance

-- the instance that is created, with no account yet
unfoldable pub new_instance : String → ProviderConfig → HostResource → ℕ → InstanceResource
new_instance tenant_id pconf host feature = record zero_instance {
  tenant_id = tenant_id;
  kind = InstanceKind.metal;
  desired_state = InstanceState.running;
  current_state = InstanceState.unspecified;
  host = some (record zero_host { resource_id = host.resource_id });
  os = some (record zero_os { resource_id = pconf.default_os });
  security_feature = feature;
}

-- `has_api` tells whether there is a client of the inventory's API; a call through a nil one panics.
module _ {E : Type 0} (env : Env E) (has_api : Bool) where
  abbrev pub through_api {ℓ} : {A : Type ℓ} → Act A → Act A
  through_api m = if has_api then m else panics

  abbrev pub feature_of_os : Option OsResource → Act (Result E ℕ)
  feature_of_os os = pure (ok (security_feature_of os))

  unfoldable pub desired_security_feature : String → ProviderConfig → Act (Result E ℕ)
  desired_security_feature tenant_id pconf =
      if pconf.os_security_feature_enable
      then through_api (get_os_resource_by_resource_id env tenant_id pconf.default_os)
        on_ok feature_of_os
      else pure (ok env.security_feature_none)

  -- a nil account is dereferenced
  abbrev pub with_account : InstanceResource → Option LocalAccount → Act (Result E InstanceResource)
  with_account instance none = panics
  with_account instance (some account) = pure (
      ok (record instance {
        localaccount = some (record zero_local_account { resource_id = account.resource_id });
      }))

  unfoldable pub add_local_account :
      String → ProviderConfig → InstanceResource → Act (Result E InstanceResource)
  add_local_account tenant_id pconf instance =
      if pconf.default_local_account == ""
      then pure (ok instance)
      else through_api
          (get_local_account_resource_by_resource_id env tenant_id pconf.default_local_account)
        on_ok with_account instance

  abbrev pub error_of {ℓ} : {A : Type ℓ} → Result E A → Option E
  error_of (ok a) = none
  error_of (err e) = some e

  abbrev pub create_instance : String → InstanceResource → Act (Option E)
  create_instance tenant_id instance = do
    result ← through_api (create_instance_resource env tenant_id instance)
    pure (error_of result)

  -- A nil host is dereferenced after the read of the OS, whether that gave an error or not.
  unfoldable pub check_n_create_instance :
      String → ProviderConfig → Option HostResource → Act (Option E)
  unfolding new_instance desired_security_feature add_local_account
  check_n_create_instance tenant_id pconf none =
      if pconf.auto_provision then desired_security_feature tenant_id pconf >> panics else pure none
  check_n_create_instance tenant_id pconf (some host) =
      if pconf.auto_provision
      then desired_security_feature tenant_id pconf on_value (λ feature.
        add_local_account tenant_id pconf (new_instance tenant_id pconf host feature)
        on_value create_instance tenant_id)
      else pure none

  abbrev pub with_provider_config :
      String → Option HostResource → Result E ProviderConfig → Act (Option E)
  with_provider_config tenant_id host (err e) = pure none
  with_provider_config tenant_id host (ok pconf) = check_n_create_instance tenant_id pconf host

  -- An instance that is not running yet is reconciled.
  unfoldable pub on_instance : String → Option HostResource → Option InstanceEdge → Act (Option E)
  unfolding check_n_create_instance
  on_instance tenant_id host none =
      get_provider_config env tenant_id default_provider_name
      >>= with_provider_config tenant_id host
  on_instance tenant_id host (some instance) =
      if instance.current_state == InstanceState.running
      then pure none
      else send_internal_event env tenant_id instance.resource_id >> pure none

  unfoldable pub unless_skipped : String → String → InfraConfig → Act (Option E)
  unfolding on_instance
  unless_skipped tenant_id host_id config =
      if config.skip_os_provisioning
      then pure none
      else (get_host_resource_by_resource_id env tenant_id host_id on_value λ host.
          on_instance tenant_id host (instance_of host))

  unfoldable pub start_zero_touch : String → String → Act (Option E)
  unfolding unless_skipped
  start_zero_touch tenant_id host_id = ask env.infra_config >>= unless_skipped tenant_id host_id
