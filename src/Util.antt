-- ===== src/Util.antt =====
-- onboarding-manager/internal/util/util.go: the status fields of hosts and instances. A function that
-- writes through the pointer returns the new message.
use infra_onboarding.Prelude.{
  String, Bool, false, ◌&&◌, Option, none, some, List, lookup, ◌==◌, string_has_eq, if◌then◌else◌,
}
use infra_onboarding.Api.Enums.{InstanceState, OsType, instance_state_eq, indication_eq, os_type_eq}
use infra_onboarding.Api.Errors.{Result, ok, err, invalid_argument}
use infra_onboarding.Api.Env.{Env}
use infra_onboarding.Api.Resources.{HostResource, InstanceResource, OsResource}
use infra_onboarding.Status.{
  ResourceStatus, instance_status_unknown, provisioning_status_unknown, update_status_unknown,
  trusted_attestation_status_unknown,
}

unfoldable pub is_same_host_status : HostResource → HostResource → Bool
is_same_host_status old new =
    old.host_status_indicator == new.host_status_indicator && old.host_status == new.host_status

unfoldable pub is_same_onboarding_status : HostResource → HostResource → Bool
is_same_onboarding_status old new =
    old.onboarding_status_indicator == new.onboarding_status_indicator
    && old.onboarding_status == new.onboarding_status

unfoldable pub is_same_instance_status_and_state : InstanceResource → InstanceResource → Bool
is_same_instance_status_and_state old new =
    old.current_state == new.current_state
    && (old.provisioning_status == new.provisioning_status
        && old.provisioning_status_indicator == new.provisioning_status_indicator)

-- The write goes to the instance's host; `none` is the panic on an instance that has none.
unfoldable pub populate_host_status : InstanceResource → ResourceStatus → Option InstanceResource
populate_host_status instance s = elim instance.host [
  | none ↦ none
  | some host ↦ some (record instance {
    host =
        some (record host { host_status = s.status; host_status_indicator = s.status_indicator });
  })
]

unfoldable pub populate_host_onboarding_status :
    InstanceResource → ResourceStatus → Option InstanceResource
populate_host_onboarding_status instance s = elim instance.host [
  | none ↦ none
  | some host ↦ some (record instance {
    host = some (record host {
      onboarding_status = s.status;
      onboarding_status_indicator = s.status_indicator;
    });
  })
]

unfoldable pub populate_instance_provisioning_status :
    InstanceResource → ResourceStatus → InstanceResource
populate_instance_provisioning_status instance s = record instance {
  provisioning_status = s.status;
  provisioning_status_indicator = s.status_indicator;
}

unfoldable pub populate_instance_status_and_current_state :
    InstanceResource → InstanceState → ResourceStatus → InstanceResource
populate_instance_status_and_current_state instance current s = record instance {
  current_state = current;
  provisioning_status = s.status;
  provisioning_status_indicator = s.status_indicator;
}

unfoldable pub populate_instance_status : InstanceResource → ResourceStatus → InstanceResource
populate_instance_status instance s = record instance {
  instance_status = s.status;
  instance_status_indicator = s.status_indicator;
  instance_status_detail = "";
}

unfoldable pub populate_instance_update_status :
    InstanceResource → ResourceStatus → InstanceResource
populate_instance_update_status instance s = record instance {
  update_status = s.status;
  update_status_indicator = s.status_indicator;
}

unfoldable pub populate_instance_trusted_attestation_status :
    InstanceResource → ResourceStatus → InstanceResource
populate_instance_trusted_attestation_status instance s = record instance {
  trusted_attestation_status = s.status;
  trusted_attestation_status_indicator = s.status_indicator;
}

unfoldable pub populate_instance_idle_status : InstanceResource → InstanceResource
unfolding populate_instance_status populate_instance_provisioning_status
    populate_instance_update_status populate_instance_trusted_attestation_status
populate_instance_idle_status i0 =
    let i1 = populate_instance_status i0 instance_status_unknown in
    let i2 = populate_instance_provisioning_status i1 provisioning_status_unknown in
    let i3 = populate_instance_update_status i2 update_status_unknown in
    populate_instance_trusted_attestation_status i3 trusted_attestation_status_unknown

abbrev pub is_standalone_metadata_key : String
is_standalone_metadata_key = "standalone-node"

-- the value is compared once the key is found
standalone_flag : List (String × String) → Bool
standalone_flag m = elim (lookup is_standalone_metadata_key m) [
  | none ↦ false
  | some v ↦ v == "true"
]

module _ {E : Type 0} (env : Env E) where
  standalone_of_metadata : Result E (List (String × String)) → Result E Bool
  unfolding standalone_flag
  standalone_of_metadata (ok m) = ok (standalone_flag m)
  standalone_of_metadata (err e) = err (env.errorfc invalid_argument "Failed to parse JSON map")

  standalone_of_os : OsResource → Result E Bool
  unfolding standalone_of_metadata
  standalone_of_os os =
      if os.os_type == OsType.mutable
      then ok false
      else if os.metadata == ""
      then ok false
      else standalone_of_metadata (env.unmarshal os.metadata)

  unfoldable pub is_standalone : InstanceResource → Result E Bool
  unfolding standalone_of_os
  is_standalone instance = elim instance.os [ none ↦ ok false | some os ↦ standalone_of_os os ]
