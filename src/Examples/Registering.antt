-- ===== src/Examples/Registering.antt =====
-- The services of edge nodes at concrete requests.
use infra_onboarding.Prelude.{
  ◌≡◌, ◌≢◌, refl, inl, true, false, Option, none, some, List, [], ◌∷◌, ◌≤◌, ==-true, string_has_eq,
  byte_length, char_count,
}
use infra_onboarding.Api.Enums.{InstanceState}
use infra_onboarding.Api.Resources.{Resource, HostResource, InstanceEdge}
use infra_onboarding.Api.Errors.{ok, err, not_found}
use infra_onboarding.Api.Calls.{Call, History, inv_list, hosts_with_uuid, hosts_with_serial_number}
use infra_onboarding.Api.Env.{Env}
use infra_onboarding.Onboardingmgr.Patterns.{
  match_string, onboarding_uuid_pattern, serialnum_pattern, mac_id_pattern, ip_pattern,
}
use infra_onboarding.Status.{host_registration_serial_num_failed_with_details}
use infra_onboarding.Act.{◌>>=◌}
use infra_onboarding.Act.Makes.{Extends}
use infra_onboarding.Onboardingmgr.{OnboardNodeStreamRequest, HwData}
use infra_onboarding.Onboardingmgr.Validate.{validate_onboard_node_stream_request, validate_hw_data}
use infra_onboarding.Onboardingmgr.Accepted.{
  first_error, validate_gives_first, valid_request_bounds,
}
use infra_onboarding.Inventory.{update_host}
use infra_onboarding.Inventory.Lookups.{get_host_resource}
use infra_onboarding.Inventory.Registration.{update_host_reg_state}
use infra_onboarding.Southbound.Lookup.{get_host_of_request}
use infra_onboarding.Southbound.Lookup.Agreement.{Agrees, found_host-Agrees}
use infra_onboarding.Southbound.ZeroTouch.Outcome.{Touches, start_zero_touch-Touches}
use infra_onboarding.Southbound.Stream.{
  again, look_up, handle_request, send_stream_error_response, unless_failed, onboard_node_stream,
}
use infra_onboarding.Southbound.Stream.Protocol.{Phase, ready, Plays, Left}
use infra_onboarding.Southbound.Stream.Follows.{Waits, stream_follows_protocol}
use infra_onboarding.Southbound.Stream.Ends.{Ends, closed_stream_returns}
use infra_onboarding.Southbound.Stream.Released.{GivesNothing, credentials-Withheld}
use infra_onboarding.Southbound.Stream.Unchecked.{invalid_serial_fails_registration}
use infra_onboarding.Southbound.Nodes.{Context, create_nodes}
use infra_onboarding.Southbound.Nodes.Refused.{Refuses, unauthorized_makes_no_call}
use infra_onboarding.Examples.World.{Failure, coded, failures-IsLawful, world, server}

abbrev request : OnboardNodeStreamRequest
request = record {
  uuid = "12345678-1234-1234-1234-123456789abc";
  serialnum = "SN12345";
  mac_id = "aa:bb:cc:dd:ee:ff";
  host_ip = "10.0.0.1";
}

abbrev unserialised : OnboardNodeStreamRequest
unserialised = record request { serialnum = ""; mac_id = "no address" }

abbrev numbered_server : HostResource
numbered_server = record server { serial_number = "SN12345" }

-- what the inventory lists: a server for any UUID, and nothing else
abbrev listing : HostResource → Call → Option (List (Option Resource)) × Option Failure
listing host (inv_list (hosts_with_uuid u)) = (some (some (Resource.host host) ∷ []), none)
listing host _ = (some [], none)

abbrev registry : HostResource → Env Failure
registry host = record world { listed = λ h c. listing host c }

abbrev gone : Failure
gone = coded not_found "gone"

stream_follows_protocol_example :
    (q : Phase) × Plays ready [] q
      (onboard_node_stream world true (ok request ∷ ok unserialised ∷ err gone ∷ []) []).1
    × Left Waits
        (onboard_node_stream world true (ok request ∷ ok unserialised ∷ err gone ∷ []) []).0
        q
stream_follows_protocol_example =
    stream_follows_protocol world true (ok request ∷ ok unserialised ∷ err gone ∷ []) []

closed_stream_returns_example : Ends world true (ok request ∷ ok unserialised ∷ []) [] gone []
closed_stream_returns_example =
    closed_stream_returns world true (ok request ∷ ok unserialised ∷ []) [] gone []

abbrev found_server : History
found_server = inv_list (hosts_with_uuid request.uuid) ∷ []

found_host-Agrees_example : Agrees (registry server) request server
unfolding get_host_of_request get_host_resource
found_host-Agrees_example = found_host-Agrees (registry server) request [] found_server server refl

-- The server of the example is onboarded already.
credentials-Withheld_example : Extends GivesNothing [] (look_up (registry server) request []).1
unfolding get_host_of_request get_host_resource
credentials-Withheld_example =
    credentials-Withheld (registry server) request (ok server) [] found_server refl (inl refl)

has_serial : numbered_server.serial_number ≢ ""
has_serial e = let same = ==-true numbered_server.serial_number "" e in absurd (cc)

abbrev unknown_serial : History
unknown_serial = inv_list (hosts_with_serial_number "N/A") ∷ found_server

abbrev failed : History
failed =
    (update_host_reg_state (registry numbered_server) "t1" "host-1" numbered_server.current_state ""
      "" (host_registration_serial_num_failed_with_details "N/A") unknown_serial).1

invalid_serial_fails_registration_example :
    handle_request (registry numbered_server) unserialised []
    ≡ (send_stream_error_response (registry numbered_server) not_found "Device not found"
          >>= unless_failed (registry numbered_server) again)
        failed
unfolding get_host_resource match_string onboarding_uuid_pattern serialnum_pattern
    update_host_reg_state update_host
invalid_serial_fails_registration_example =
    invalid_serial_fails_registration (registry numbered_server) unserialised failures-IsLawful
      numbered_server (coded not_found "no host") [] found_server unknown_serial failed refl refl
      refl has_serial refl refl refl

abbrev stopped_instance : InstanceEdge
stopped_instance = record {
  resource_id = "inst-1";
  tenant_id = "t1";
  current_state = InstanceState.unspecified;
}

abbrev assigned_server : HostResource
assigned_server = record server { instance = some stopped_instance }

abbrev with_instance : Env Failure
with_instance = record world { got = λ h c. ok (some (Resource.host assigned_server)) }

start_zero_touch-Touches_example : Touches with_instance true "t1" "host-1" []
start_zero_touch-Touches_example = start_zero_touch-Touches with_instance true "t1" "host-1" []

abbrev stranger : Context
stranger = record { authorized = false; tenant_id = some "t1" }

unauthorized_makes_no_call_example :
    Refuses world true (create_nodes world true true stranger (record { payload = [] })) []
unauthorized_makes_no_call_example =
    unauthorized_makes_no_call world true true stranger (record { payload = [] }) []
      (inl (refl, refl))

valid_request_bounds_example :
    (byte_length request.uuid ≡ 36)
    × (5 ≤ char_count request.serialnum)
    × (char_count request.serialnum ≤ 20)
unfolding validate_onboard_node_stream_request onboarding_uuid_pattern serialnum_pattern
    mac_id_pattern ip_pattern
valid_request_bounds_example = valid_request_bounds request refl

abbrev hardware : HwData
hardware = record { uuid = "u1"; serialnum = "SN12345"; mac_id = "aa"; sut_ip = "10.0.0.1" }

validate_gives_first_example :
    (first_error (validate_onboard_node_stream_request true unserialised)
      ≡ validate_onboard_node_stream_request false unserialised)
    × (first_error (validate_hw_data true hardware) ≡ validate_hw_data false hardware)
validate_gives_first_example = validate_gives_first unserialised hardware
