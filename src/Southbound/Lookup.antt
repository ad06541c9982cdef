-- ===== src/Southbound/Lookup.antt =====
-- grpc_server.go: `getHostResource`, the host that a request is about, by its UUID and its serial
-- number.
pub mod Agreement
pub mod Asks
use infra_onboarding.Prelude.{
  String, Option, none, some, [], ◌∷◌, format, not, ◌==◌, string_has_eq, if◌then◌else◌,
}
use infra_onboarding.Api.Resources.{HostResource}
use infra_onboarding.Api.Errors.{Result, ok, err, internal, invalid_argument, not_found}
use infra_onboarding.Api.Calls.{Field}
use infra_onboarding.Api.Env.{Env}
use infra_onboarding.Act.{Act, pure, ◌>>=◌}
use infra_onboarding.Onboardingmgr.{OnboardNodeStreamRequest}
use infra_onboarding.Status.{
  ResourceStatus, host_registration_serial_num_failed_with_details,
  host_registration_uuid_failed_with_details,
}
use infra_onboarding.Inventory.Lookups.{get_host_resource}
use infra_onboarding.Inventory.Registration.{update_host_resource, update_host_reg_state}

module _ {E : Type 0} (env : Env E) where
  -- the failure is written to the host, and then the host counts as not found
  abbrev pub not_found_after : Field → String → Option E → Result E HostResource
  not_found_after field detail (some e) = err e
  not_found_after field detail none = err (
      env.errorfc not_found
        (format ("Node doesn't exist for " ∷ env.field_text field ∷ ": " ∷ detail ∷ [])))

  unfoldable pub fail_registration :
      HostResource → Field → String → ResourceStatus → Act (Result E HostResource)
  fail_registration host field detail status = do
    failure ←
        update_host_reg_state env host.tenant_id host.resource_id host.current_state "" "" status
    pure (not_found_after field detail failure)

  -- from the handling of mismatches on: the hosts found by the UUID and by the serial number
  unfoldable pub resolve_matches :
      OnboardNodeStreamRequest
      → Option HostResource
      → Option HostResource
      → Act (Result E HostResource)
  unfolding fail_registration
  resolve_matches req (some by_uuid) (some by_serial) =
      if not (by_uuid.resource_id == by_serial.resource_id)
      then pure
          (err (env.errorfc invalid_argument "UUID and Serial Number refer to different resources"))
      else pure (ok by_uuid)
  resolve_matches req (some by_uuid) none =
      fail_registration by_uuid Field.serial_number req.serialnum
        (host_registration_serial_num_failed_with_details req.serialnum)
  resolve_matches req none (some by_serial) =
      fail_registration by_serial Field.uuid req.uuid
        (host_registration_uuid_failed_with_details req.uuid)
  resolve_matches req none none =
      pure (err (env.errorfc not_found "Device not found for both UUID and Serial Number"))

  abbrev pub adopted : HostResource → Option E → Result E HostResource
  adopted host none = ok host
  adopted host (some e) = err (env.errorfc internal "failed to updated the host resource uuid")

  -- a host without a UUID takes that of the request
  pub adopt_uuid : OnboardNodeStreamRequest → HostResource → Act (Result E HostResource)
  adopt_uuid req host = do
    failure ← update_host_resource env host.tenant_id (record host { uuid = req.uuid })
    pure (adopted (record host { uuid = req.uuid }) failure)

  -- `hostResource`: the host found by the UUID before the one found by the serial number
  abbrev pub first_found : Option HostResource → HostResource → HostResource
  first_found none by_serial = by_serial
  first_found (some by_uuid) by_serial = by_uuid

  pub after_serial_lookup :
      OnboardNodeStreamRequest
      → Option HostResource
      → Result E HostResource
      → Act (Result E HostResource)
  unfolding resolve_matches adopt_uuid
  after_serial_lookup req by_uuid (err e) =
      if env.is_not_found (some e)
      then resolve_matches req by_uuid none
      else pure (err (env.errorfc internal "Error retrieving host resource by serial number"))
  after_serial_lookup req by_uuid (ok by_serial) =
      if (first_found by_uuid by_serial).uuid == ""
      then adopt_uuid req (first_found by_uuid by_serial)
      else resolve_matches req by_uuid (some by_serial)

  abbrev pub without_serial :
      OnboardNodeStreamRequest → Option HostResource → Act (Result E HostResource)
  without_serial req none = resolve_matches req none none
  without_serial req (some by_uuid) = pure (ok by_uuid)

  unfoldable pub look_up_serial :
      OnboardNodeStreamRequest → Option HostResource → Act (Result E HostResource)
  unfolding after_serial_lookup resolve_matches
  look_up_serial req by_uuid =
      if req.serialnum == ""
      then without_serial req by_uuid
      else get_host_resource env Field.serial_number req.serialnum
        >>= after_serial_lookup req by_uuid

  pub after_uuid_lookup :
      OnboardNodeStreamRequest → Result E HostResource → Act (Result E HostResource)
  unfolding look_up_serial
  after_uuid_lookup req (err e) =
      if env.is_not_found (some e)
      then look_up_serial req none
      else pure (err (env.errorfc internal "Error retrieving host resource by UUID"))
  after_uuid_lookup req (ok by_uuid) =
      if by_uuid.serial_number == "" then pure (ok by_uuid) else look_up_serial req (some by_uuid)

  -- The method has the name of one of the client's; this is the service's.
  unfoldable pub get_host_of_request : OnboardNodeStreamRequest → Act (Result E HostResource)
  unfolding after_uuid_lookup look_up_serial
  get_host_of_request req =
      if req.uuid == ""
      then look_up_serial req none
      else get_host_resource env Field.uuid req.uuid >>= after_uuid_lookup req
