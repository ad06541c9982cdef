-- ===== src/Inventory/Lookups.antt =====
-- onboarding-manager/internal/invclient/invclient.go: lookups of one host or provider by a filter,
-- reads of an OS and of a local account, and creation.
pub mod Asks
use infra_onboarding.Prelude.{
  String, Bool, true, false, Option, none, some, List, [], ◌∷◌, ◌==◌, string_has_eq, if◌then◌else◌,
  ◌||◌, not, nat_eq, byte_length,
}
use infra_onboarding.Api.Resources.{
  OsResource, HostResource, InstanceResource, LocalAccount, ProviderResource, ProviderConfig,
  Resource,
}
use infra_onboarding.Api.Errors.{Result, ok, err, internal, invalid_argument}
use infra_onboarding.Api.Calls.{
  Field, Filter, hosts_with_uuid, hosts_with_serial_number, tenant_hosts_with_uuid,
  tenant_providers_with_name, inv_create, internal_event,
}
use infra_onboarding.Api.Env.{Env}
use infra_onboarding.Act.{Act, pure, panics, call, ◌>>=◌, ◌on_ok◌}
use infra_onboarding.Inventory.{get_host, validated, get_resource_by_id, list_all_resources}

abbrev pub get_provider : Option Resource → Option ProviderResource
get_provider (some (Resource.provider p)) = some p
get_provider _ = none

abbrev get_os : Option Resource → Option OsResource
get_os (some (Resource.os r)) = some r
get_os _ = none

abbrev get_local_account : Option Resource → Option LocalAccount
get_local_account (some (Resource.localaccount a)) = some a
get_local_account _ = none

-- the name of the provider that the manager uses (onboarding/types/types.go)
abbrev pub default_provider_name : String
default_provider_name = "infra_onboarding"

module _ {E : Type 0} (env : Env E) where
  module _ {ℓ} {A : Type ℓ} (get : Option Resource → Option A) (empty : String) where
    abbrev pub not_empty : Option A → Act (Result E A)
    not_empty none = pure (err (env.errorfc internal empty))
    not_empty (some a) = pure (ok a)

    -- `resources[0].GetHost()`, which may be nil
    abbrev pub first_of : List Resource → Act (Result E A)
    first_of [] = panics
    first_of (r ∷ rest) = not_empty (get (some r))

    abbrev pub if_singular : List Resource → Option E → Act (Result E A)
    if_singular rs (some e) = pure (err e)
    if_singular rs none = first_of rs

    abbrev pub single_of : List Resource → Act (Result E A)
    single_of rs = if_singular rs (env.check_singular rs)

  unfoldable pub list_and_return_host : Filter → Act (Result E HostResource)
  unfolding list_all_resources
  list_and_return_host filter =
      list_all_resources env filter on_ok single_of (get_host env) "Empty Host resource"

  unfoldable pub list_and_return_provider : Filter → Act (Result E ProviderResource)
  unfolding list_all_resources
  list_and_return_provider filter =
      list_all_resources env filter on_ok single_of get_provider "Empty provider resource"

  -- The kind of filter is a field of a host.
  abbrev pub host_filter : Field → String → Option Filter
  host_filter Field.uuid value = some (hosts_with_uuid value)
  host_filter Field.serial_number value = some (hosts_with_serial_number value)
  host_filter _ value = none

  abbrev pub host_by_filter : Option Filter → Act (Result E HostResource)
  host_by_filter none = pure (err (env.errorfc invalid_argument "invalid filter type"))
  host_by_filter (some filter) = list_and_return_host filter

  unfoldable pub get_host_resource : Field → String → Act (Result E HostResource)
  unfolding list_and_return_host
  get_host_resource field value = host_by_filter (host_filter field value)

  abbrev is_some {ℓ} : {A : Type ℓ} → Option A → Bool
  is_some none = false
  is_some (some a) = true

  unfoldable pub get_host_resource_by_uuid : String → String → Act (Result E HostResource)
  unfolding list_and_return_host
  get_host_resource_by_uuid tenant_id uuid =
      if is_some (env.parse_uuid uuid) || not (nat_eq (byte_length uuid) 36)
      then pure (err (env.errorfc invalid_argument "invalid UUID"))
      else list_and_return_host (tenant_hosts_with_uuid tenant_id uuid)

  unfoldable pub get_provider_resource_by_name : String → String → Act (Result E ProviderResource)
  unfolding list_and_return_provider
  get_provider_resource_by_name tenant_id name =
      if name == ""
      then pure (err (env.errorfc invalid_argument "Empty provider name"))
      else list_and_return_provider (tenant_providers_with_name tenant_id name)

  abbrev pub wrapped {ℓ} : {A : Type ℓ} → Result E A → Result E A
  wrapped (ok a) = ok a
  wrapped (err e) = err (env.wrap e)

  config_of : ProviderResource → Act (Result E ProviderConfig)
  config_of provider = pure (wrapped (env.unmarshal_provider provider.config))

  unfoldable pub get_provider_config : String → String → Act (Result E ProviderConfig)
  unfolding get_provider_resource_by_name config_of
  get_provider_config tenant_id name = get_provider_resource_by_name tenant_id name on_ok config_of

  os_of_response : Result E (Option Resource) → Result E (Option OsResource)
  unfolding validated
  os_of_response (err e) = err e
  os_of_response (ok r) = elim (get_os r) [
    | none ↦ validated env none none
    | some o ↦ validated env (some (Resource.os o)) (some o)
  ]

  local_account_of_response : Result E (Option Resource) → Result E (Option LocalAccount)
  unfolding validated
  local_account_of_response (err e) = err e
  local_account_of_response (ok r) = elim (get_local_account r) [
    | none ↦ validated env none none
    | some a ↦ validated env (some (Resource.localaccount a)) (some a)
  ]

  unfoldable pub get_os_resource_by_resource_id :
      String → String → Act (Result E (Option OsResource))
  unfolding get_resource_by_id os_of_response
  get_os_resource_by_resource_id tenant_id resource_id = do
    response ← get_resource_by_id env tenant_id resource_id
    pure (os_of_response response)

  unfoldable pub get_local_account_resource_by_resource_id :
      String → String → Act (Result E (Option LocalAccount))
  unfolding get_resource_by_id local_account_of_response
  get_local_account_resource_by_resource_id tenant_id resource_id = do
    response ← get_resource_by_id env tenant_id resource_id
    pure (local_account_of_response response)

  abbrev pub id_of_key : Result E (String × String) → Result E String
  id_of_key (ok key) = ok key.1
  id_of_key (err e) = err e

  unfoldable pub id_of_created : Resource → Act (Result E String)
  id_of_created r = pure (id_of_key (env.key_of_resource (some r)))

  unfoldable pub create_resource : String → Resource → Act (Result E String)
  unfolding id_of_created
  create_resource tenant_id r = call env.inserted (inv_create tenant_id r) on_ok id_of_created

  unfoldable pub create_host_resource : String → HostResource → Act (Result E String)
  unfolding create_resource
  create_host_resource tenant_id host = create_resource tenant_id (Resource.host host)

  unfoldable pub create_instance_resource : String → InstanceResource → Act (Result E String)
  unfolding create_resource
  create_instance_resource tenant_id inst = create_resource tenant_id (Resource.instance inst)

  unfoldable pub create_os_resource : String → OsResource → Act (Result E String)
  unfolding create_resource
  create_os_resource tenant_id os = create_resource tenant_id (Resource.os os)

  -- The answer, whether somebody listened, is only logged.
  unfoldable pub send_internal_event : String → String → Act {0} Unit
  send_internal_event tenant_id resource_id =
      call (λ h c. tt) (internal_event tenant_id resource_id)
