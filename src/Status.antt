-- ===== src/Status.antt =====
-- onboarding-manager/pkg/status/status.go: the statuses that the manager reports.
use infra_onboarding.Prelude.{String, [], ◌∷◌, format, ◌==◌, string_has_eq, if◌then◌else◌}
use infra_onboarding.Api.Enums.{StatusIndication}

-- inv_status.ResourceStatus
pub record ResourceStatus : Type 0 where
  pub status : String
  pub status_indicator : StatusIndication

-- inv_status.New
abbrev pub new : String → StatusIndication → ResourceStatus
new s i = record { status = s; status_indicator = i }

abbrev pub legacy_host_status_deleting : String
legacy_host_status_deleting = "Deleting"

abbrev pub instance_status_unknown : ResourceStatus
instance_status_unknown = new "Unknown" StatusIndication.unspecified

abbrev pub provisioning_status_unknown : ResourceStatus
provisioning_status_unknown = new "Unknown" StatusIndication.unspecified

abbrev pub provisioning_status_in_progress : ResourceStatus
provisioning_status_in_progress = new "Provisioning In Progress" StatusIndication.in_progress

abbrev pub provisioning_status_failed : ResourceStatus
provisioning_status_failed = new "Provisioning Failed" StatusIndication.error

abbrev pub provisioning_status_done : ResourceStatus
provisioning_status_done = new "Provisioned" StatusIndication.idle

abbrev pub update_status_unknown : ResourceStatus
update_status_unknown = new "Unknown" StatusIndication.unspecified

abbrev pub trusted_attestation_status_unknown : ResourceStatus
trusted_attestation_status_unknown = new "Unknown" StatusIndication.unspecified

abbrev pub onboarding_status_unknown : ResourceStatus
onboarding_status_unknown = new "Unknown" StatusIndication.unspecified

abbrev pub onboarding_status_done : ResourceStatus
onboarding_status_done = new "Onboarded" StatusIndication.idle

abbrev pub authorization_status_invalidated : ResourceStatus
authorization_status_invalidated = new "Invalidated" StatusIndication.idle

abbrev pub host_registration_unknown : ResourceStatus
host_registration_unknown = new "Unknown" StatusIndication.unspecified

abbrev pub host_registration_done : ResourceStatus
host_registration_done = new "Host is Registered" StatusIndication.idle

abbrev pub host_status_rebooting : ResourceStatus
host_status_rebooting = new "Rebooting" StatusIndication.in_progress

abbrev pub deleting_status : ResourceStatus
deleting_status = new "Deleting" StatusIndication.in_progress

unfoldable pub legacy_host_status_deleting_with_details : String → String
legacy_host_status_deleting_with_details detail =
    format (legacy_host_status_deleting ∷ ": " ∷ detail ∷ [])

unfoldable pub modern_host_status_deleting_with_details : String → ResourceStatus
unfolding legacy_host_status_deleting_with_details
modern_host_status_deleting_with_details detail =
    new (legacy_host_status_deleting_with_details detail) StatusIndication.in_progress

unfoldable pub new_status_with_details : ResourceStatus → String → ResourceStatus
new_status_with_details base details = if details == "" then base else record {
  status = format (base.status ∷ ": " ∷ details ∷ []);
  status_indicator = base.status_indicator;
}

unfoldable pub with_details : ResourceStatus → String → ResourceStatus
with_details s details = new (format (s.status ∷ ": " ∷ details ∷ [])) s.status_indicator

abbrev pub new_host_registration_uuid_failed : ResourceStatus
new_host_registration_uuid_failed =
    new "Host Registration Failed due to mismatch of UUID, Reported UUID is" StatusIndication.error

abbrev pub new_host_registration_serial_num_failed : ResourceStatus
new_host_registration_serial_num_failed =
    new "Host Registration Failed due to mismatch of Serial Number, Reported Serial Number is"
      StatusIndication.error

unfoldable pub host_registration_uuid_failed_with_details : String → ResourceStatus
host_registration_uuid_failed_with_details detail =
    new (format (new_host_registration_uuid_failed.status ∷ ": " ∷ detail ∷ []))
      StatusIndication.error

unfoldable pub host_registration_serial_num_failed_with_details : String → ResourceStatus
host_registration_serial_num_failed_with_details detail =
    new (format (new_host_registration_serial_num_failed.status ∷ ": " ∷ detail ∷ []))
      StatusIndication.error
