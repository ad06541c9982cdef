-- ===== src/Southbound/Stream/Unchecked.antt =====
-- A stream request whose serial number is invalid (grpc_server.go).
use infra_onboarding.Prelude.{
  ◌≡◌, ◌≢◌, refl, String, true, false, some, [], ◌∷◌, format, string_has_eq, ==-false,
}
use infra_onboarding.Api.Resources.{HostResource}
use infra_onboarding.Api.Errors.{IsLawful, ok, err, not_found}
use infra_onboarding.Api.Calls.{Field, History}
use infra_onboarding.Api.Env.{Env}
use infra_onboarding.Act.{done, ◌>>=◌}
use infra_onboarding.Act.Past.{Passes}
use infra_onboarding.Onboardingmgr.{OnboardNodeStreamRequest}
use infra_onboarding.Onboardingmgr.Patterns.{
  match_string, onboarding_uuid_pattern, serialnum_pattern,
}
use infra_onboarding.Onboardingmgr.Validate.{
  validate_uuid, validate_fields, validate_onboard_node_stream_request, serialnum_error,
}
use infra_onboarding.Status.{host_registration_serial_num_failed_with_details}
use infra_onboarding.Inventory.Lookups.{get_host_resource}
use infra_onboarding.Inventory.Registration.{update_host_reg_state}
use infra_onboarding.Southbound.Lookup.{
  fail_registration, resolve_matches, after_serial_lookup, look_up_serial, after_uuid_lookup,
  get_host_of_request,
}
use infra_onboarding.Southbound.Stream.{
  serial_num_not_available, again, send_stream_error_response, unless_failed, on_lookup, look_up,
  on_validation, handle_request, serial_number_validation_error,
}

empty_uuid : match_string onboarding_uuid_pattern "" ≡ false
unfolding match_string onboarding_uuid_pattern
empty_uuid = refl

uuid_not_empty : (u : String) → match_string onboarding_uuid_pattern u ≡ true → u ≢ ""
uuid_not_empty u m e = let n = empty_uuid in absurd (cc)

invalid_serial :
    (req : OnboardNodeStreamRequest)
    → match_string onboarding_uuid_pattern req.uuid ≡ true
    → match_string serialnum_pattern req.serialnum ≡ false
    → validate_onboard_node_stream_request false req
      ≡ some (serialnum_error "OnboardNodeStreamRequest")
unfolding validate_onboard_node_stream_request validate_fields validate_uuid
invalid_serial req u s = rw (u, s) refl

module _ {E : Type 0} (env : Env E) (req : OnboardNodeStreamRequest) where
  abbrev unnumbered : OnboardNodeStreamRequest
  unnumbered = record req { serialnum = serial_num_not_available }

  -- The MAC ID and the IP address do not matter.
  invalid_serial_looked_up :
      match_string onboarding_uuid_pattern req.uuid ≡ true
      → match_string serialnum_pattern req.serialnum ≡ false
      → handle_request env req ≡ look_up env unnumbered
  unfolding handle_request on_validation serial_number_validation_error
  invalid_serial_looked_up u s = rw (invalid_serial req u s, on_validation) refl

  -- Without the serial number, the registration is failed.
  unnumbered_fails :
      (host : HostResource) (e : E) (h g k : History)
      → req.uuid ≢ ""
      → get_host_resource env Field.uuid req.uuid h ≡ (done (ok host), g)
      → host.serial_number ≢ ""
      → get_host_resource env Field.serial_number serial_num_not_available g ≡ (done (err e), k)
      → env.is_not_found (some e) ≡ true
      → get_host_of_request env unnumbered h
        ≡ fail_registration env host Field.serial_number serial_num_not_available
            (host_registration_serial_num_failed_with_details serial_num_not_available)
            k
  unfolding get_host_of_request resolve_matches look_up_serial
  unnumbered_fails host e h g k u found known missing n =
      rw
        (
          ==-false req.uuid "" u,
          found,
          after_uuid_lookup,
          ==-false host.serial_number "" known,
          missing,
          after_serial_lookup,
          n,
        )
        refl

  abbrev missing_serial : String → String
  missing_serial detail =
      format ("Node doesn't exist for " ∷ env.field_text Field.serial_number ∷ ": " ∷ detail ∷ [])

  failed_registration :
      (host : HostResource) (detail : String) (k m : History)
      → Passes
          (update_host_reg_state env host.tenant_id host.resource_id host.current_state "" ""
            (host_registration_serial_num_failed_with_details detail))
          k
          m
      → fail_registration env host Field.serial_number detail
          (host_registration_serial_num_failed_with_details detail)
          k
        ≡ (done (err (env.errorfc not_found (missing_serial detail))), m)
  unfolding fail_registration
  failed_registration host detail k m p = rw p refl

  -- If a request has a valid UUID and an invalid serial number, its UUID finds a host that has a serial
  -- number in the inventory, the search for a host with the serial number "N/A" answers NotFound, and
  -- the update of the registration status passes, then, whatever the MAC ID and the IP address are,
  -- valid or not, the request is not refused as invalid: the registration of the host is written as
  -- failed, and the node is told that the device is not found.
  pub invalid_serial_fails_registration :
      IsLawful env.errors
      → (host : HostResource) (e : E) (h g k m : History)
      → match_string onboarding_uuid_pattern req.uuid ≡ true
      → match_string serialnum_pattern req.serialnum ≡ false
      → get_host_resource env Field.uuid req.uuid h ≡ (done (ok host), g)
      → host.serial_number ≢ ""
      → get_host_resource env Field.serial_number serial_num_not_available g ≡ (done (err e), k)
      → env.is_not_found (some e) ≡ true
      → Passes
          (update_host_reg_state env host.tenant_id host.resource_id host.current_state "" ""
            (host_registration_serial_num_failed_with_details serial_num_not_available))
          k
          m
      → handle_request env req h
        ≡ (send_stream_error_response env not_found "Device not found" >>= unless_failed env again)
            m
  unfolding look_up on_lookup
  invalid_serial_fails_registration lawful host e h g k m u s found known missing n passes =
      rw
        (
          invalid_serial_looked_up u s,
          unnumbered_fails host e h g k (uuid_not_empty req.uuid u) found known missing n,
          failed_registration host serial_num_not_available k m passes,
          lawful.not_found-errorfc (missing_serial serial_num_not_available),
        )
        refl
