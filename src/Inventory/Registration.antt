-- ===== src/Inventory/Registration.antt =====
-- onboarding-manager/internal/invclient/invclient.go: the updates that registration and onboarding make
-- to a host.
pub mod Asks
use infra_onboarding.Prelude.{String, Option, List, [], ◌∷◌}
use infra_onboarding.Api.Enums.{HostState}
use infra_onboarding.Api.Resources.{HostResource, zero_host, zero_instance}
use infra_onboarding.Api.Calls.{Field}
use infra_onboarding.Api.Env.{Env}
use infra_onboarding.Act.{Act, ask, ◌>>=◌}
use infra_onboarding.Status.{ResourceStatus}
use infra_onboarding.Inventory.{update_host, update_instance_fields}

abbrev pub host_resource_fields : List Field
host_resource_fields =
    Field.kind ∷ Field.name ∷ Field.serial_number ∷ Field.current_state ∷ Field.mgmt_ip
    ∷ Field.bmc_kind ∷ Field.bmc_ip ∷ Field.bmc_username ∷ Field.bmc_password ∷ Field.pxe_mac
    ∷ Field.hostname ∷ Field.uuid ∷ []

abbrev pub registration_fields : List Field
registration_fields =
    Field.current_state ∷ Field.bmc_ip ∷ Field.pxe_mac ∷ Field.registration_status
    ∷ Field.registration_status_indicator ∷ Field.registration_status_timestamp ∷ []

abbrev pub onboarding_fields : List Field
onboarding_fields =
    Field.current_state ∷ Field.bmc_ip ∷ Field.pxe_mac ∷ Field.onboarding_status
    ∷ Field.onboarding_status_indicator ∷ Field.onboarding_status_timestamp ∷ []

abbrev pub status_fields : List Field
status_fields =
    Field.serial_number ∷ Field.bmc_ip ∷ Field.pxe_mac ∷ Field.current_state
    ∷ Field.onboarding_status ∷ Field.onboarding_status_indicator
    ∷ Field.onboarding_status_timestamp ∷ Field.registration_status
    ∷ Field.registration_status_indicator ∷ Field.registration_status_timestamp ∷ []

module _ {E : Type 0} (env : Env E) where
  unfoldable pub update_host_resource : String → HostResource → Act (Option E)
  update_host_resource tenant_id host = update_host env tenant_id host host_resource_fields

  unfoldable pub update_host_reg_state :
      String → String → HostState → String → String → ResourceStatus → Act (Option E)
  update_host_reg_state tenant_id resource_id current ip mac registration = do
    time ← ask env.now
    update_host env tenant_id
        (record zero_host {
          resource_id = resource_id;
          current_state = current;
          bmc_ip = ip;
          pxe_mac = mac;
          registration_status = registration.status;
          registration_status_indicator = registration.status_indicator;
          registration_status_timestamp = time;
        })
        registration_fields

  unfoldable pub update_host_current_state_n_onboard_status :
      String → String → String → String → HostState → ResourceStatus → Act (Option E)
  update_host_current_state_n_onboard_status tenant_id resource_id ip mac current onboarding = do
    time ← ask env.now
    update_host env tenant_id
        (record zero_host {
          resource_id = resource_id;
          current_state = current;
          bmc_ip = ip;
          pxe_mac = mac;
          onboarding_status = onboarding.status;
          onboarding_status_indicator = onboarding.status_indicator;
          onboarding_status_timestamp = time;
        })
        onboarding_fields

  unfoldable pub update_host_resource_status :
      String → String → HostResource → ResourceStatus → ResourceStatus → Act (Option E)
  update_host_resource_status tenant_id resource_id host onboarding registration = do
    onboarding_time ← ask env.now
    registration_time ← ask env.now
    update_host env tenant_id
        (record zero_host {
          resource_id = resource_id;
          serial_number = host.serial_number;
          bmc_ip = host.bmc_ip;
          pxe_mac = host.pxe_mac;
          current_state = host.current_state;
          onboarding_status = onboarding.status;
          onboarding_status_indicator = onboarding.status_indicator;
          onboarding_status_timestamp = onboarding_time;
          registration_status = registration.status;
          registration_status_indicator = registration.status_indicator;
          registration_status_timestamp = registration_time;
        })
        status_fields

  unfoldable pub set_instance_provisioning_status :
      String → String → ResourceStatus → Act (Option E)
  set_instance_provisioning_status tenant_id instance_id provisioning = do
    time ← ask env.now
    update_instance_fields env tenant_id
        (record zero_instance {
          resource_id = instance_id;
          provisioning_status = provisioning.status;
          provisioning_status_indicator = provisioning.status_indicator;
          provisioning_status_timestamp = time;
        })
        (Field.provisioning_status ∷ Field.provisioning_status_indicator
          ∷ Field.provisioning_status_timestamp ∷ [])
