-- ===== src/Inventory/Targets.antt =====
-- Each setter of the client writes to the one resource that it is given (invclient.go).
use infra_onboarding.Prelude.{String, Option, none, some, List, [], ◌∷◌}
use infra_onboarding.Api.Enums.{InstanceState}
use infra_onboarding.Api.Resources.{Resource, SubResource, OsResource, zero_instance}
use infra_onboarding.Api.Calls.{Call, Field, Filter, inv_update, inv_list, ip_addresses_of_nic}
use infra_onboarding.Api.Env.{Env}
use infra_onboarding.Act.{call}
use infra_onboarding.Act.Makes.{
  Makes, Makes-pure, Makes-panics, Makes-bind, Makes-call, makes_rules,
}
use infra_onboarding.Status.{ResourceStatus}
use infra_onboarding.Inventory.{
  delete_ip_address, drop_not_found, list_ip_addresses, read_list, list_all_resources,
  update_inv_resource_fields,
}
use infra_onboarding.Inventory.Setters.{
  set_host_status, set_host_onboarding_status, set_host_status_detail, update_instance,
  update_instance_statuses, update_instance_current_state, delete_host_resource,
  update_host_current_state,
}
use infra_onboarding.Inventory.Updates.{
  send_masked-Makes, update_host-Makes, update_instance_fields-Makes,
}

module _ {ℓ} {E : Type 0} (env : Env E) {P : Call → Type ℓ} (t id : String)
    (p : (fs : List Field) (x : Resource) → P (inv_update t id fs x)) where
  pub set_host_status-Makes : (s : ResourceStatus) → Makes P (set_host_status env t id s)
  unfolding set_host_status
  set_host_status-Makes s = record { at = λ h. (update_host-Makes env t _ _ (p _)).at h }

  pub set_host_onboarding_status-Makes :
      (s : ResourceStatus) → Makes P (set_host_onboarding_status env t id s)
  unfolding set_host_onboarding_status
  set_host_onboarding_status-Makes s = record { at = λ h. (update_host-Makes env t _ _ (p _)).at h }

  pub set_host_status_detail-Makes :
      (s : ResourceStatus) → Makes P (set_host_status_detail env t id s)
  unfolding set_host_status_detail
  set_host_status_detail-Makes s = record { at = λ h. (update_host-Makes env t _ _ (p _)).at h }

  pub delete_host_resource-Makes : Makes P (delete_host_resource env t id)
  unfolding delete_host_resource update_host_current_state
  delete_host_resource-Makes = update_host-Makes env t _ _ (p _)

  pub update_instance-Makes :
      (c : InstanceState) (s : ResourceStatus) (os : Option OsResource)
      → Makes P (update_instance env t id c s os)
  unfolding update_instance
  update_instance-Makes c s os = record {
    at = λ h. (update_instance_fields-Makes env t _ _ (p _)).at h;
  }

  pub update_instance_statuses-Makes :
      (s : ResourceStatus) (detail : String) (u v w : ResourceStatus)
      → Makes P (update_instance_statuses env t id s detail u v w)
  unfolding update_instance_statuses
  update_instance_statuses-Makes s detail u v w = record {
    at = λ h. (update_instance_fields-Makes env t _ _ (p _)).at h;
  }

  pub update_current-Makes :
      (c : InstanceState)
      → Makes P (
          update_instance_current_state env t
            (record zero_instance { resource_id = id; current_state = c }))
  unfolding update_instance_current_state
  update_current-Makes c = update_instance_fields-Makes env t _ _ (p _)

  pub delete_ip_address-Makes : Makes P (delete_ip_address env t id)
  unfolding delete_ip_address update_inv_resource_fields
  delete_ip_address-Makes =
      let ip = Resource.deleted_ipaddress (record { resource_id = id; tenant_id = "" }) in
      let mask = Field.current_state ∷ [] in
      Makes-bind (update_inv_resource_fields env t (some ip) mask) _
        (send_masked-Makes env t id ip mask (env.mask_error ip mask) (p mask))
        λ e. Makes-pure (drop_not_found env e)

module _ {ℓ} {E : Type 0} (env : Env E) {P : Call → Type ℓ} where
  read_list-Makes :
      (objs : Option (List (Option Resource))) (e : Option E) → Makes P (read_list env objs e)
  unfolding read_list
  read_list-Makes (some rs) none = Makes-pure _
  read_list-Makes none none = Makes-panics
  read_list-Makes (some rs) (some e) = search makes_rules
  read_list-Makes none (some e) = search makes_rules

  pub list_all-Makes : (f : Filter) → P (inv_list f) → Makes P (list_all_resources env f)
  unfolding list_all_resources
  list_all-Makes f p =
      Makes-bind (call env.listed (inv_list f)) _ (Makes-call env.listed _ p)
        λ r. read_list-Makes r.0 r.1

  pub list_ip_addresses-Makes :
      (nic : SubResource)
      → P (inv_list (ip_addresses_of_nic nic.resource_id))
      → Makes P (list_ip_addresses env nic)
  unfolding list_ip_addresses
  list_ip_addresses-Makes nic p =
      Makes-bind (list_all_resources env (ip_addresses_of_nic nic.resource_id)) _
        (list_all-Makes (ip_addresses_of_nic nic.resource_id) p) λ r. Makes-pure _
