-- ===== src/DeviceDiscovery/Stream.antt =====
-- hook-os/device_discovery/onboarding-client.go: the edge node's side of the onboarding stream.
use infra_onboarding.Prelude.{
  ℕ, ◌*◌, String, Bool, true, false, ◌||◌, Option, none, some, List, [], ◌∷◌, format, decimal, ltb,
  ◌==◌, string_has_eq, if◌then◌else◌,
}
use infra_onboarding.Api.Errors.{Result, ok, err, Code, ok_code, not_found, code_eq}
use infra_onboarding.Api.Calls.{read_file, node_dial, node_stream, node_recv, node_send, node_wait}
use infra_onboarding.Api.Env.{Env}
use infra_onboarding.Act.{Act, pure, panics, call, ◌>>=◌, ◌>>◌, ◌and_then◌}
use infra_onboarding.Onboardingmgr.{OnboardNodeStreamRequest, OnboardNodeStreamResponse, NodeState}
use infra_onboarding.DeviceDiscovery.{project_id_path, save_to_file, certs_added}

-- A response, and whether its status is set.
pub record Received : Type 0 where
  pub has_status : Bool
  pub response : OnboardNodeStreamResponse

-- The results of `grpcStreamClient`.
pub record Session (E : Type 0) : Type 0 where
  pub client_id : String
  pub client_secret : String
  pub failure : Option E
  pub fallback : Bool

-- After an answer the loop goes on with the next back-off, or it is over.
pub data Next (E : Type 0) : Type 0 where
  again : ℕ → Next E
  over : Session E → Next E

-- The loop returns, or waits for an answer that never comes.
pub data Talk (E : Type 0) : Type 0 where
  waits : Talk E
  ends : Session E → Talk E

module _ {E : Type 0} where
  abbrev pub failed_session : E → Session E
  failed_session e = record {
    client_id = "";
    client_secret = "";
    failure = some e;
    fallback = false;
  }

  abbrev pub fallback_session : E → Session E
  fallback_session e = record {
    client_id = "";
    client_secret = "";
    failure = some e;
    fallback = true;
  }

  abbrev pub session_of : OnboardNodeStreamResponse → Session E
  session_of r = record {
    client_id = r.client_id;
    client_secret = r.client_secret;
    failure = none;
    fallback = false;
  }

abbrev pub first_backoff : ℕ
first_backoff = 2

abbrev pub max_backoff : ℕ
max_backoff = 32

-- without the random part
abbrev pub wait : ℕ → Act {0} Unit
wait backoff = call (λ h c. tt) (node_wait backoff)

abbrev pub receive : Act {0} Unit
receive = call (λ h c. tt) node_recv

unfoldable pub next_backoff : ℕ → ℕ
next_backoff backoff = if ltb max_backoff (backoff * 2) then first_backoff else backoff * 2

module _ {E : Type 0} (env : Env E) where
  abbrev pub fails : String → Act (Next E)
  fails message = pure (over (failed_session (env.fmt_errorf message)))

  -- after the project ID is written, or not
  unfoldable pub on_saved : OnboardNodeStreamResponse → Option E → Act (Next E)
  on_saved r (some e) = fails "failed to save Project ID to file"
  on_saved r none =
      if r.client_id == "" || r.client_secret == ""
      then fails "received empty clientID or clientSecret"
      else pure (over (session_of r))

  unfoldable pub on_onboarded : OnboardNodeStreamResponse → Act (Next E)
  unfolding on_saved
  on_onboarded r =
      if r.project_id == ""
      then fails "received empty Project ID"
      else (save_to_file env project_id_path r.project_id >>= on_saved r)

  unfoldable pub on_node_state : ℕ → OnboardNodeStreamResponse → NodeState → Act (Next E)
  unfolding on_onboarded next_backoff
  on_node_state backoff r NodeState.registered = wait backoff >> pure (again (next_backoff backoff))
  on_node_state backoff r NodeState.onboarded = on_onboarded r
  on_node_state backoff r NodeState.unspecified = fails "edge node state is unspecified or unknown"
  on_node_state backoff r (NodeState.unnamed n) = fails "unknown node state"

  unfoldable pub on_status : ℕ → OnboardNodeStreamResponse → Code → Act (Next E)
  unfolding on_node_state
  on_status backoff r ok_code = on_node_state backoff r r.node_state
  on_status backoff r not_found = pure (over (fallback_session (env.fmt_errorf r.status.message)))
  on_status backoff r _ = fails r.status.message

  -- A response without a status panics.
  unfoldable pub on_answer : ℕ → Result E (Option Received) → Act (Next E)
  unfolding on_status
  on_answer backoff (err e) =
      if env.is_eof e
      then fails "stream closed by server"
      else fails "error receiving response from server"
  on_answer backoff (ok none) = fails "received nil response from server"
  on_answer backoff (ok (some r)) =
      if r.has_status then on_status backoff r.response r.response.status.code else panics

  -- the loop goes on after a response that lets it
  abbrev pub continued : (ℕ → Act (Talk E)) → Next E → Act (Talk E)
  continued k (again backoff) = k backoff
  continued k (over s) = pure (ends s)

  -- after the request is sent, or not
  abbrev pub on_sent : Act (Talk E) → Option E → Act (Talk E)
  on_sent k none = k
  on_sent k (some e) = pure (ends (failed_session (env.fmt_errorf "could not send data to server")))

  -- the loop over the answers of the server, which stops answering where they end
  unfoldable pub converse :
      OnboardNodeStreamRequest → List (Result E (Option Received)) → ℕ → Act (Talk E)
  unfolding on_answer
  converse request [] backoff =
      call env.outcome (node_send request) >>= on_sent (receive >> pure waits)
  converse request (a ∷ rest) backoff =
      let later = converse request rest in
      call env.outcome (node_send request)
      >>= on_sent ((receive >> on_answer backoff a) >>= continued later)

  unfoldable pub create_secure_connection : String → String → Act (Option E)
  create_secure_connection target ca_cert_path =
      (call env.file (read_file ca_cert_path) >>= λ pem. pure (
        certs_added env "failed to read CA certificate"
          "failed to append CA certificate to cert pool" pem))
      and_then call env.outcome (node_dial target "")

  abbrev pub on_stream : Act (Talk E) → Option E → Act (Talk E)
  on_stream k none = k
  on_stream k (some e) = pure (ends (failed_session (env.fmt_errorf "could not create stream")))

  abbrev pub on_connection : Act (Talk E) → Option E → Act (Talk E)
  on_connection k none = k
  on_connection k (some e) = pure (ends (failed_session (env.fmt_errorf "failed to connect")))

  unfoldable pub grpc_stream_client :
      String
      → ℕ
      → OnboardNodeStreamRequest
      → String
      → List (Result E (Option Received))
      → Act (Talk E)
  unfolding converse create_secure_connection decimal
  grpc_stream_client address port request ca_cert_path answers =
      create_secure_connection (format (address ∷ ":" ∷ decimal port ∷ [])) ca_cert_path
      >>= on_connection
          (call env.outcome node_stream >>= on_stream (converse request answers first_backoff))
