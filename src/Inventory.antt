-- ===== src/Inventory.antt =====
-- onboarding-manager/internal/invclient (invclient.go, common.go): the manager's client of the
-- inventory. An update names the fields that it writes by a mask.
pub mod Sent
pub mod Reads
pub mod Setters
pub mod Updates
pub mod Targets
pub mod Lookups
pub mod Registration
use infra_onboarding.Prelude.{
  String, ◌||◌, Option, none, some, List, [], ◌∷◌, nat_eq, ◌==◌, string_has_eq, if◌then◌else◌,
}
use infra_onboarding.Api.Enums.{HostState, InstanceState, StatusIndication, indication_eq}
use infra_onboarding.Api.Resources.{
  SubResource, OsResource, HostResource, InstanceResource, Resource, zero_host, zero_instance,
}
use infra_onboarding.Api.Errors.{Result, ok, err, invalid_argument}
use infra_onboarding.Api.Calls.{
  Field, Filter, ip_addresses_of_nic, inv_get, inv_update, inv_delete, inv_list,
}
use infra_onboarding.Api.Env.{Env}
use infra_onboarding.Act.{Act, pure, panics, call, ask, ◌>>=◌}
use infra_onboarding.Status.{ResourceStatus}

module _ {E : Type 0} (env : Env E) where
  -- common.go: the ID, for the kinds that can be updated; the oneof keeps the kind
  unfoldable pub set_inventory_resource_and_id : Resource → Result E String
  set_inventory_resource_and_id (Resource.host r) = ok r.resource_id
  set_inventory_resource_and_id (Resource.hoststorage r) = ok r.resource_id
  set_inventory_resource_and_id (Resource.hostnic r) = ok r.resource_id
  set_inventory_resource_and_id (Resource.hostusb r) = ok r.resource_id
  set_inventory_resource_and_id (Resource.hostgpu r) = ok r.resource_id
  set_inventory_resource_and_id (Resource.ipaddress r) = ok r.resource_id
  set_inventory_resource_and_id (Resource.deleted_ipaddress r) = ok r.resource_id
  set_inventory_resource_and_id (Resource.instance r) = ok r.resource_id
  set_inventory_resource_and_id (Resource.os r) = ok r.resource_id
  set_inventory_resource_and_id (Resource.provider r) =
      err (env.errorfc invalid_argument "unsupported resource type")
  set_inventory_resource_and_id (Resource.localaccount r) =
      err (env.errorfc invalid_argument "unsupported resource type")
  set_inventory_resource_and_id (Resource.unsupported r) =
      err (env.errorfc invalid_argument "unsupported resource type")

  -- from `ValidateMaskAndFilterMessage` on
  send_filtered : String → String → List Field → Result E Resource → Act (Option E)
  send_filtered tenant_id id fields (ok filtered) =
      call env.outcome (inv_update tenant_id id fields filtered)
  send_filtered tenant_id id fields (err e) = pure (some e)

  pub send_masked : String → Resource → List Field → Option E → Result E String → Act (Option E)
  unfolding send_filtered
  send_masked tenant_id r fields mask_error (err e) = pure (some e)
  send_masked tenant_id r fields (some e) (ok id) = pure (some (env.wrap e))
  send_masked tenant_id r fields none (ok id) =
      send_filtered tenant_id id fields (env.filter_message r fields)

  unfoldable pub update_inv_resource_fields : String → Option Resource → List Field → Act (Option E)
  unfolding send_masked set_inventory_resource_and_id
  update_inv_resource_fields tenant_id none fields =
      pure (some (env.errorfc invalid_argument "no resource provided"))
  update_inv_resource_fields tenant_id (some r) [] = pure none
  update_inv_resource_fields tenant_id (some r) (f ∷ fields) =
      send_masked tenant_id r (f ∷ fields) (env.mask_error r (f ∷ fields))
        (set_inventory_resource_and_id r)

  unfoldable pub update_host : String → HostResource → List Field → Act (Option E)
  unfolding update_inv_resource_fields
  update_host tenant_id r = update_inv_resource_fields tenant_id (some (Resource.host r))

  unfoldable pub update_instance_fields : String → InstanceResource → List Field → Act (Option E)
  unfolding update_inv_resource_fields
  update_instance_fields tenant_id r =
      update_inv_resource_fields tenant_id (some (Resource.instance r))

  -- the loop over a list response
  collect : List (Option Resource) → Result E (List Resource)
  collect [] = ok []
  collect (none ∷ rest) = collect rest
  collect (some r ∷ rest) =
      let others = collect rest in
      elim (env.validate (some r)) [
        | some e ↦ err (env.wrap e)
        | none ↦ elim others [ ok rs ↦ ok (r ∷ rs) | err e ↦ err e ]
      ]

  read_list : Option (List (Option Resource)) → Option E → Act (Result E (List Resource))
  unfolding collect
  read_list objs (some e) =
      if env.is_not_found (some e)
      then elim objs [ none ↦ panics | some l ↦ pure (collect l) ]
      else pure (err e)
  read_list none none = panics
  read_list (some l) none = pure (collect l)

  unfoldable pub list_all_resources : Filter → Act (Result E (List Resource))
  unfolding read_list
  list_all_resources filter = do
    response ← call env.listed (inv_list filter)
    read_list response.0 response.1

  unfoldable pub get_resource_by_id : String → String → Act (Result E (Option Resource))
  get_resource_by_id tenant_id resource_id = call env.got (inv_get tenant_id resource_id)

  abbrev pub get_host : Option Resource → Option HostResource
  get_host (some (Resource.host r)) = some r
  get_host _ = none

  abbrev get_instance : Option Resource → Option InstanceResource
  get_instance (some (Resource.instance r)) = some r
  get_instance _ = none

  pub validated {ℓ} : {A : Type ℓ} → Option Resource → A → Result E A
  validated r a = elim (env.validate r) [ none ↦ ok a | some e ↦ err (env.wrap e) ]

  host_of_response : Result E (Option Resource) → Result E (Option HostResource)
  unfolding validated
  host_of_response (err e) = err e
  host_of_response (ok r) = elim (get_host r) [
    | none ↦ validated none none
    | some h ↦ validated (some (Resource.host h)) (some h)
  ]

  instance_of_response : Result E (Option Resource) → Result E (Option InstanceResource)
  unfolding validated
  instance_of_response (err e) = err e
  instance_of_response (ok r) = elim (get_instance r) [
    | none ↦ validated none none
    | some i ↦ validated (some (Resource.instance i)) (some i)
  ]

  -- The result may be a nil message: a response of another kind.
  unfoldable pub get_host_resource_by_resource_id :
      String → String → Act (Result E (Option HostResource))
  unfolding get_resource_by_id host_of_response
  get_host_resource_by_resource_id tenant_id resource_id = do
    response ← get_resource_by_id tenant_id resource_id
    pure (host_of_response response)

  unfoldable pub get_instance_resource_by_resource_id :
      String → String → Act (Result E (Option InstanceResource))
  unfolding get_resource_by_id instance_of_response
  get_instance_resource_by_resource_id tenant_id resource_id = do
    response ← get_resource_by_id tenant_id resource_id
    pure (instance_of_response response)

  -- `if IsNotFound(err) { return nil }`
  unfoldable pub drop_not_found : Option E → Option E
  drop_not_found e = if env.is_not_found e then none else e

  unfoldable pub delete_resource : String → String → Act (Option E)
  unfolding drop_not_found
  delete_resource tenant_id resource_id = do
    failure ← call env.outcome (inv_delete tenant_id resource_id)
    pure (drop_not_found failure)

  ips_of : Result E (List Resource) → Result E (List SubResource)
  ips_of (ok rs) = env.ip_addresses rs
  ips_of (err e) = err e

  unfoldable pub list_ip_addresses : SubResource → Act (Result E (List SubResource))
  unfolding ips_of list_all_resources
  list_ip_addresses nic = do
    resources ← list_all_resources (ip_addresses_of_nic nic.resource_id)
    pure (ips_of resources)

  unfoldable pub delete_ip_address : String → String → Act (Option E)
  unfolding drop_not_found update_inv_resource_fields
  delete_ip_address tenant_id resource_id = do
    failure ←
        update_inv_resource_fields tenant_id
          (some (Resource.deleted_ipaddress (record { resource_id = resource_id; tenant_id = "" })))
          (Field.current_state ∷ [])
    pure (drop_not_found failure)
