-- ===== src/Inventory/Setters.antt =====
-- onboarding-manager/internal/invclient/invclient.go: the setters of the states and statuses of a host
-- and of an instance, each an update of the fields that it names.
use infra_onboarding.Prelude.{
  String, ◌||◌, Option, some, [], ◌∷◌, nat_eq, ◌==◌, string_has_eq, if◌then◌else◌,
}
use infra_onboarding.Api.Enums.{HostState, InstanceState, StatusIndication, indication_eq}
use infra_onboarding.Api.Resources.{
  OsResource, HostResource, InstanceResource, zero_host, zero_instance,
}
use infra_onboarding.Api.Errors.{invalid_argument}
use infra_onboarding.Api.Calls.{Field}
use infra_onboarding.Api.Env.{Env}
use infra_onboarding.Act.{Act, pure, ask, ◌>>=◌}
use infra_onboarding.Status.{ResourceStatus}
use infra_onboarding.Inventory.{update_host, update_instance_fields}

module _ {E : Type 0} (env : Env E) where
  unfoldable pub update_host_state_and_runtime_status : String → HostResource → Act (Option E)
  update_host_state_and_runtime_status tenant_id host =
      if host.host_status == ""
        || (nat_eq host.host_status_timestamp 0
            || host.host_status_indicator == StatusIndication.unspecified)
      then pure (
          some (
            env.errorfc invalid_argument
              "Missing mandatory host status fields during host status update"))
      else update_host env tenant_id host (
          Field.current_state ∷ Field.host_status ∷ Field.host_status_indicator
          ∷ Field.host_status_timestamp ∷ Field.onboarding_status
          ∷ Field.onboarding_status_indicator ∷ Field.registration_status
          ∷ Field.registration_status_indicator ∷ [])

  unfoldable pub update_host_current_state : String → HostResource → Act (Option E)
  update_host_current_state tenant_id host =
      update_host env tenant_id host (Field.current_state ∷ [])

  unfoldable pub set_host_status : String → String → ResourceStatus → Act (Option E)
  set_host_status tenant_id host_id s = do
    time ← ask env.now
    update_host env tenant_id
        (record zero_host {
          resource_id = host_id;
          host_status = s.status;
          host_status_indicator = s.status_indicator;
          host_status_timestamp = time;
        })
        (Field.host_status ∷ Field.host_status_indicator ∷ Field.host_status_timestamp ∷ [])

  unfoldable pub set_host_onboarding_status : String → String → ResourceStatus → Act (Option E)
  set_host_onboarding_status tenant_id host_id s = do
    time ← ask env.now
    update_host env tenant_id
        (record zero_host {
          resource_id = host_id;
          onboarding_status = s.status;
          onboarding_status_indicator = s.status_indicator;
          onboarding_status_timestamp = time;
        })
        (Field.onboarding_status ∷ Field.onboarding_status_indicator
          ∷ Field.onboarding_status_timestamp ∷ [])

  -- The detail is written to the onboarding status.
  unfoldable pub set_host_status_detail : String → String → ResourceStatus → Act (Option E)
  set_host_status_detail tenant_id host_id s = do
    time ← ask env.now
    update_host env tenant_id
        (record zero_host {
          resource_id = host_id;
          onboarding_status = s.status;
          onboarding_status_indicator = s.status_indicator;
          onboarding_status_timestamp = time;
        })
        (Field.onboarding_status ∷ Field.onboarding_status_indicator
          ∷ Field.onboarding_status_timestamp ∷ [])

  unfoldable pub delete_host_resource : String → String → Act (Option E)
  delete_host_resource tenant_id resource_id =
      update_host_current_state tenant_id
        (record zero_host { resource_id = resource_id; current_state = HostState.deleted })

  unfoldable pub update_instance_current_state : String → InstanceResource → Act (Option E)
  update_instance_current_state tenant_id instance =
      update_instance_fields env tenant_id instance (Field.current_state ∷ [])

  unfoldable pub delete_instance_resource : String → String → Act (Option E)
  unfolding update_instance_current_state
  delete_instance_resource tenant_id resource_id =
      update_instance_current_state tenant_id
        (record zero_instance { resource_id = resource_id; current_state = InstanceState.deleted })

  unfoldable pub update_instance_statuses :
      String
      → String
      → ResourceStatus
      → String
      → ResourceStatus
      → ResourceStatus
      → ResourceStatus
      → Act (Option E)
  update_instance_statuses tenant_id instance_id s detail provisioning update attestation = do
    time ← ask env.now
    update_instance_fields env tenant_id
        (record zero_instance {
          resource_id = instance_id;
          instance_status = s.status;
          instance_status_indicator = s.status_indicator;
          instance_status_timestamp = time;
          provisioning_status = provisioning.status;
          provisioning_status_indicator = provisioning.status_indicator;
          provisioning_status_timestamp = time;
          update_status = update.status;
          update_status_indicator = update.status_indicator;
          update_status_timestamp = time;
          trusted_attestation_status = attestation.status;
          trusted_attestation_status_indicator = attestation.status_indicator;
          trusted_attestation_status_timestamp = time;
          instance_status_detail = detail;
        })
        (Field.instance_status ∷ Field.instance_status_indicator ∷ Field.instance_status_timestamp
          ∷ Field.provisioning_status ∷ Field.provisioning_status_indicator
          ∷ Field.provisioning_status_timestamp ∷ Field.update_status
          ∷ Field.update_status_indicator ∷ Field.update_status_timestamp
          ∷ Field.trusted_attestation_status ∷ Field.trusted_attestation_status_indicator
          ∷ Field.trusted_attestation_status_timestamp ∷ Field.instance_status_detail ∷ [])

  unfoldable pub update_instance :
      String → String → InstanceState → ResourceStatus → Option OsResource → Act (Option E)
  update_instance tenant_id instance_id current provisioning os = do
    time ← ask env.now
    update_instance_fields env tenant_id
        (record zero_instance {
          resource_id = instance_id;
          current_state = current;
          provisioning_status = provisioning.status;
          provisioning_status_indicator = provisioning.status_indicator;
          provisioning_status_timestamp = time;
          os = os;
        })
        (Field.current_state ∷ Field.provisioning_status ∷ Field.provisioning_status_indicator
          ∷ Field.provisioning_status_timestamp ∷ Field.edge_os ∷ [])
