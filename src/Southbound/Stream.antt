-- ===== src/Southbound/Stream.antt =====
-- grpc_server.go: `OnboardNodeStream`, the loop over what an edge node sends on its stream.
pub mod Protocol
pub mod Ends
pub mod Follows
pub mod Released
pub mod Unchecked
use infra_onboarding.Prelude.{
  String, Bool, true, false, ◌&&◌, ◌||◌, Option, none, some, List, [], ◌∷◌, format, ◌==◌,
  string_has_eq, if◌then◌else◌,
}
use infra_onboarding.Api.Enums.{HostState, StatusIndication, host_state_eq, indication_eq}
use infra_onboarding.Api.Resources.{HostResource}
use infra_onboarding.Api.Errors.{
  Result, ok, err, Code, ok_code, not_found, internal, invalid_argument, failed_precondition,
}
use infra_onboarding.Api.Calls.{stream_recv, stream_send}
use infra_onboarding.Api.Env.{Env}
use infra_onboarding.Act.{Act, pure, call, ◌>>=◌, ◌>>◌, ◌and_then◌, ◌on_value◌}
use infra_onboarding.Onboardingmgr.{
  OnboardNodeStreamRequest, OnboardNodeStreamResponse, NodeState, ValidationError, plain, violation,
  caused, multi,
}
use infra_onboarding.Onboardingmgr.Validate.{validate_onboard_node_stream_request, error_text}
use infra_onboarding.Status.{host_registration_done, onboarding_status_done}
use infra_onboarding.Inventory.Registration.{
  update_host_reg_state, update_host_current_state_n_onboard_status,
}
use infra_onboarding.Onboarding.Secret.{fetch_client_secret}
use infra_onboarding.Southbound.Lookup.{get_host_of_request}
use infra_onboarding.Southbound.ZeroTouch.{start_zero_touch}

abbrev pub serial_num_not_available : String
serial_num_not_available = "N/A"

-- `errors.As` for the validation error of a stream request, which unwraps to nothing
unfoldable pub serial_number_validation_error : ValidationError → Bool
serial_number_validation_error (violation message field reason) =
    message == "OnboardNodeStreamRequest" && field == "Serialnum"
serial_number_validation_error (caused message field reason cause) =
    message == "OnboardNodeStreamRequest" && field == "Serialnum"
serial_number_validation_error _ = false

abbrev pub error_response : Code → String → OnboardNodeStreamResponse
error_response code message = record {
  status = record { code = code; message = message };
  node_state = NodeState.unspecified;
  client_id = "";
  client_secret = "";
  project_id = "";
}

abbrev pub registered_response : HostResource → OnboardNodeStreamResponse
registered_response host = record {
  status = record { code = ok_code; message = "" };
  node_state = NodeState.registered;
  client_id = "";
  client_secret = "";
  project_id = host.tenant_id;
}

abbrev pub onboarded_response : HostResource → String × String → OnboardNodeStreamResponse
onboarded_response host credentials = record {
  status = record { code = ok_code; message = "" };
  node_state = NodeState.onboarded;
  client_id = credentials.0;
  client_secret = credentials.1;
  project_id = host.tenant_id;
}

-- What the loop does after a message: it goes on, or it returns; after an onboarding, zero touch is
-- started for the host.
pub data Next (E : Type 0) : Type 0 where
  again : Next E
  closed : Option E → Next E
  onboarded : HostResource → Next E

-- `stream.Recv`, whose answers are given to the loop
abbrev pub stream_receive : Act {0} Unit
stream_receive = call (λ h c. tt) stream_recv

unfoldable pub is_settled : HostResource → Bool
is_settled host =
    host.current_state == HostState.onboarded
    || host.registration_status_indicator == StatusIndication.error

module _ {E : Type 0} (env : Env E) where
  abbrev pub send_onboard_stream_response : OnboardNodeStreamResponse → Act (Option E)
  send_onboard_stream_response response = call env.outcome (stream_send response)

  abbrev pub send_stream_error_response : Code → String → Act (Option E)
  send_stream_error_response code message =
      send_onboard_stream_response (error_response code message)

  unfoldable pub handle_registered_state : HostResource → OnboardNodeStreamRequest → Act (Option E)
  handle_registered_state host req =
      send_onboard_stream_response (registered_response host)
      and_then update_host_reg_state env host.tenant_id host.resource_id HostState.registered
          req.host_ip req.mac_id host_registration_done

  unfoldable pub handle_onboarded_state : HostResource → OnboardNodeStreamRequest → Act (Option E)
  handle_onboarded_state host req =
      fetch_client_secret env host.tenant_id host.uuid on_value λ credentials.
      send_onboard_stream_response (onboarded_response host credentials)
      and_then update_host_current_state_n_onboard_status env host.tenant_id host.resource_id
          req.host_ip req.mac_id HostState.onboarded onboarding_status_done

  abbrev pub handle_default_state : Act (Option E)
  handle_default_state =
      send_onboard_stream_response
        (error_response failed_precondition "The node state is unspecified")

  -- `if err != nil { return err }`, and what comes after it
  abbrev pub unless_failed : Next E → Option E → Act (Next E)
  unless_failed next none = pure next
  unless_failed next (some e) = pure (closed (some e))

  abbrev pub return : Option E → Act (Next E)
  return e = pure (closed e)

  unfoldable pub on_desired_state :
      HostResource → OnboardNodeStreamRequest → HostState → Act (Next E)
  unfolding handle_registered_state handle_onboarded_state
  on_desired_state host req HostState.registered =
      handle_registered_state host req >>= unless_failed again
  on_desired_state host req HostState.onboarded =
      handle_onboarded_state host req >>= unless_failed (onboarded host)
  on_desired_state host req _ = handle_default_state >>= return

  unfoldable pub on_host : HostResource → OnboardNodeStreamRequest → Act (Next E)
  unfolding on_desired_state is_settled
  on_host host req =
      if is_settled host
      then send_stream_error_response failed_precondition
          (format ("Node is already " ∷ env.host_state_text host.current_state ∷ []))
        >>= return
      else on_desired_state host req host.desired_state

  unfoldable pub on_lookup : OnboardNodeStreamRequest → Result E HostResource → Act (Next E)
  unfolding on_host
  on_lookup req (ok host) = on_host host req
  on_lookup req (err e) =
      if env.is_not_found (some e)
      then send_stream_error_response not_found "Device not found" >>= unless_failed again
      else send_stream_error_response internal "Internal server error" >>= return

  unfoldable pub look_up : OnboardNodeStreamRequest → Act (Next E)
  unfolding on_lookup
  look_up req = get_host_of_request env req >>= on_lookup req

  unfoldable pub on_validation : OnboardNodeStreamRequest → Option ValidationError → Act (Next E)
  unfolding look_up serial_number_validation_error
  on_validation req none = look_up req
  on_validation req (some v) =
      if serial_number_validation_error v
      then look_up (record req { serialnum = serial_num_not_available })
      else send_stream_error_response invalid_argument (error_text v) >>= return

  -- the body of the loop
  unfoldable pub handle_request : OnboardNodeStreamRequest → Act (Next E)
  unfolding on_validation
  handle_request req = on_validation req (validate_onboard_node_stream_request false req)

  -- `receiveFromStream` on an error, which may be the end of the stream
  abbrev pub receive_error : E → E
  receive_error e = if env.is_eof e then env.eof else e

  abbrev pub go_on : Act (Next E) → Next E → Act (Next E)
  go_on rest again = rest
  go_on rest (closed e) = pure (closed e)
  go_on rest (onboarded host) = pure (onboarded host)

  -- one answer of `Recv`, with the rest of the loop
  unfoldable pub on_received : Result E OnboardNodeStreamRequest → Act (Next E) → Act (Next E)
  unfolding handle_request
  on_received (err e) rest = pure (closed (some (receive_error e)))
  on_received (ok req) rest = handle_request req >>= go_on rest

  -- The loop over the answers of `Recv`, in order. Where they run out, it waits for the next one.
  unfoldable pub serve : List (Result E OnboardNodeStreamRequest) → Act (Next E)
  unfolding on_received
  serve [] = pure again
  serve (r ∷ rs) = let rest = serve rs in stream_receive >> on_received r rest

  -- The result of the handler, or none while it waits. Zero touch runs on its own once the handler has
  -- returned, and its error is only logged.
  abbrev pub finish : Bool → Next E → Act (Option (Option E))
  finish has_api again = pure none
  finish has_api (closed e) = pure (some e)
  finish has_api (onboarded host) =
      start_zero_touch env has_api host.tenant_id host.resource_id >> pure (some none)

  unfoldable pub onboard_node_stream :
      Bool → List (Result E OnboardNodeStreamRequest) → Act (Option (Option E))
  unfolding serve
  onboard_node_stream has_api received = serve received >>= finish has_api
