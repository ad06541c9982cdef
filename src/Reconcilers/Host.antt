-- ===== src/Reconcilers/Host.antt =====
-- onboarding-manager/internal/handlers/controller/reconcilers/host.go: a host is deleted with all
-- that belongs to it, or marked untrusted.

pub mod Invalidation
pub mod Objects
pub mod Deletion
pub mod Refusal
use infra_onboarding.Prelude.{
  String, Bool, Option, none, some, [], ◌∷◌, format, ◌==◌, if◌then◌else◌,
}
use infra_onboarding.Api.Enums.{HostState, host_state_eq}
use infra_onboarding.Api.Resources.{SubResource, InstanceEdge, HostResource, zero_host}
use infra_onboarding.Api.Errors.{Result, ok, err}
use infra_onboarding.Api.Calls.{revoke_credentials}
use infra_onboarding.Api.Env.{Env}
use infra_onboarding.Act.{Act, pure, panics, call, ask, for_each, ◌>>=◌, ◌and_then◌, ◌on_value◌}
use infra_onboarding.Status.{
  modern_host_status_deleting_with_details, deleting_status, authorization_status_invalidated,
  onboarding_status_unknown, host_registration_unknown,
}
use infra_onboarding.Inventory.{
  get_host_resource_by_resource_id, delete_resource, list_ip_addresses, delete_ip_address,
}
use infra_onboarding.Inventory.Setters.{
  set_host_status_detail, delete_host_resource, update_host_state_and_runtime_status,
}
use infra_onboarding.Reconcilers.{
  ReconcilerId, get_tenant_id, get_resource_id, Directive, ack, handle_inventory_error, or_else,
}

module _ {E : Type 0} (env : Env E) where
  -- the failure of an update of the status is only logged
  refuse_deletion : HostResource → InstanceEdge → Act (Option E)
  refuse_deletion host instance = do
    _ ← set_host_status_detail env host.tenant_id host.resource_id (
        modern_host_status_deleting_with_details
          (format ("waiting on " ∷ instance.resource_id ∷ " deletion" ∷ [])))
    pure (
        some (
          env.errorf
            "Instance is still assigned to host, waiting for Instance to be deleted first"))

  unfoldable pub check_if_instance_is_associated : HostResource → Act (Option E)
  unfolding refuse_deletion
  check_if_instance_is_associated host = elim host.instance [
    | none ↦ pure none
    | some instance ↦ refuse_deletion host instance
  ]

  unfoldable pub delete_sub_resource : SubResource → Act (Option E)
  delete_sub_resource r = delete_resource env r.tenant_id r.resource_id

  unfoldable pub delete_ip : SubResource → Act (Option E)
  delete_ip ip = delete_ip_address env ip.tenant_id ip.resource_id

  unfoldable pub delete_ips_by_host_nic : SubResource → Act (Option E)
  delete_ips_by_host_nic nic = list_ip_addresses env nic on_value λ ips. for_each delete_ip ips

  unfoldable pub delete_nic : SubResource → Act (Option E)
  unfolding delete_ips_by_host_nic
  delete_nic nic = delete_ips_by_host_nic nic and_then delete_sub_resource nic

  unfoldable pub delete_host_nic_by_host : HostResource → Act (Option E)
  delete_host_nic_by_host host = for_each delete_nic host.host_nics

  unfoldable pub delete_host_storage_by_host : HostResource → Act (Option E)
  delete_host_storage_by_host host = for_each delete_sub_resource host.host_storages

  unfoldable pub delete_host_usb_by_host : HostResource → Act (Option E)
  delete_host_usb_by_host host = for_each delete_sub_resource host.host_usbs

  unfoldable pub delete_host_gpu_by_host : HostResource → Act (Option E)
  delete_host_gpu_by_host host = for_each delete_sub_resource host.host_gpus

  abbrev unless : Bool → Act (Option E) → Act (Option E)
  unless b m = if b then pure none else m

  unfoldable pub revoke_unless_untrusted : HostResource → Act (Option E)
  revoke_unless_untrusted host =
      unless (host.current_state == HostState.untrusted)
        (call env.outcome (revoke_credentials host.tenant_id host.uuid))

  -- from the credentials on
  unfoldable pub delete_host_objects : HostResource → Act (Option E)
  delete_host_objects host =
      revoke_unless_untrusted host
      and_then (delete_host_nic_by_host host
          and_then (delete_host_storage_by_host host
              and_then (delete_host_usb_by_host host
                  and_then (delete_host_gpu_by_host host
                      and_then delete_host_resource env host.tenant_id host.resource_id))))

  unfoldable pub delete_host : Bool → HostResource → Act (Option E)
  unfolding delete_host_objects check_if_instance_is_associated
  delete_host skip_os_provisioning host =
      unless skip_os_provisioning (check_if_instance_is_associated host) and_then do
        _ ← set_host_status_detail env host.tenant_id host.resource_id deleting_status
        delete_host_objects host

  unfoldable pub invalidate_host : HostResource → Act (Option E)
  invalidate_host host = call env.outcome (revoke_credentials host.tenant_id host.uuid) and_then do
    time ← ask env.now
    update_host_state_and_runtime_status env host.tenant_id (record zero_host {
      resource_id = host.resource_id;
      current_state = HostState.untrusted;
      host_status = authorization_status_invalidated.status;
      host_status_indicator = authorization_status_invalidated.status_indicator;
      host_status_timestamp = time;
      onboarding_status = onboarding_status_unknown.status;
      onboarding_status_indicator = onboarding_status_unknown.status_indicator;
      registration_status = host_registration_unknown.status;
      registration_status_indicator = host_registration_unknown.status_indicator;
    })

  acknowledge : Option E → Act (Directive E)
  acknowledge e = or_else (handle_inventory_error env e) (pure ack)

  unfoldable pub reconcile_host : Bool → HostResource → Act (Directive E)
  unfolding acknowledge delete_host invalidate_host
  reconcile_host skip_os_provisioning host =
      if host.desired_state == HostState.deleted
      then (do e ← delete_host skip_os_provisioning host; acknowledge e)
      else if host.desired_state == HostState.untrusted
      then (do e ← invalidate_host host; acknowledge e)
      else pure ack

  unfoldable pub reconcile_found : Bool → HostResource → Act (Directive E)
  unfolding reconcile_host
  reconcile_found skip_os_provisioning host = elim host.provider [
    | some name ↦ pure ack
    | none ↦
        if host.desired_state == host.current_state
        then pure ack
        else reconcile_host skip_os_provisioning host
  ]

  -- A nil host has no provider, and its desired state is read through the nil pointer.
  reconcile_response : Bool → Result E (Option HostResource) → Act (Directive E)
  unfolding reconcile_found
  reconcile_response skip (err e) = or_else (handle_inventory_error env (some e)) panics
  reconcile_response skip (ok none) = or_else (handle_inventory_error env none) panics
  reconcile_response skip (ok (some host)) =
      or_else (handle_inventory_error env none) (reconcile_found skip host)

  reconcile_ids : Bool → Option String → Option String → Act (Directive E)
  unfolding reconcile_response
  reconcile_ids skip (some tenant_id) (some resource_id) = do
    response ← get_host_resource_by_resource_id env tenant_id resource_id
    reconcile_response skip response
  reconcile_ids skip _ _ = panics

  unfoldable pub reconcile : Bool → ReconcilerId → Act (Directive E)
  unfolding reconcile_ids
  reconcile skip_os_provisioning id =
      reconcile_ids skip_os_provisioning (get_tenant_id id) (get_resource_id id)
