-- ===== src/DeviceDiscovery/Onboard.antt =====
-- hook-os/device_discovery/device-discovery.go: what follows the onboarding stream of an edge node, the
-- tokens after a success, and the interactive login with a registration by CreateNodes as a fall-back.
use infra_onboarding.Prelude.{
  ℕ, zero, suc, String, Option, none, some, List, [], ◌∷◌, format, decimal, trim_space, ◌==◌,
  string_has_eq, if◌then◌else◌,
}
use infra_onboarding.Api.Errors.{Result, ok, err}
use infra_onboarding.Api.Calls.{
  read_file, node_dial, node_create, client_auth_start, client_auth_wait,
}
use infra_onboarding.Api.Env.{Env}
use infra_onboarding.Act.{Act, pure, call, ◌>>=◌, ◌>>◌, ◌and_then◌, ◌on_value◌}
use infra_onboarding.Onboardingmgr.{
  CreateNodesRequest, CreateNodesResponse, OnboardNodeStreamRequest,
}
use infra_onboarding.DeviceDiscovery.{
  project_id_path, client_id_path, client_secret_path, access_token_file, release_token_file,
  save_to_file, certs_added,
}
use infra_onboarding.DeviceDiscovery.Stream.{
  Received, Session, Talk, waits, ends, grpc_stream_client, wait,
}
use infra_onboarding.DeviceDiscovery.Auth.{client_auth}

-- How the program goes on: the function returns, it exits with a failure, or it waits for ever.
pub data Ending : Type 0 where
  returned exited waiting : Ending

-- the node's data in both kinds of request
abbrev pub create_request : OnboardNodeStreamRequest → CreateNodesRequest
create_request r = record {
  payload =
      record {
        hwdata =
            record { uuid = r.uuid; serialnum = r.serialnum; mac_id = r.mac_id; sut_ip = r.host_ip }
            ∷ [];
      }
      ∷ [];
}

abbrev pub max_retries : ℕ
max_retries = 3

module _ {E : Type 0} (env : Env E) where
  abbrev pub failing : String → Act (Option E)
  failing message = pure (some (env.fmt_errorf message))

  abbrev pub wrapped_error : String → Option E → Option E
  wrapped_error message none = none
  wrapped_error message (some e) = some (env.fmt_errorf message)

  unfoldable pub on_create : Result E CreateNodesResponse → Act (Option E)
  on_create (err e) = failing "could not call gRPC endpoint"
  on_create (ok r) =
      if r.project_id == ""
      then failing "received empty Project ID"
      else (save_to_file env project_id_path r.project_id >>= λ e.
          pure (wrapped_error "failed to save Project ID to file" e))

  abbrev pub token_read : Result E String → Result E String
  token_read (ok t) = ok (trim_space t)
  token_read (err e) = err (env.fmt_errorf "failed to read JWT token from file")

  abbrev pub load_certs : String → Act (Option E)
  load_certs path = call env.file (read_file path) >>= λ pem. pure (
      certs_added env "failed to read CA certificate" "failed to append CA certificate to cert pool"
        pem)

  abbrev pub read_token : String → Act (Result E String)
  read_token path = call env.file (read_file path) >>= λ t. pure (token_read t)

  abbrev pub dial_server : String → String → Act (Option E)
  dial_server target token = call env.outcome (node_dial target token) >>= λ e.
      pure (wrapped_error "could not dial server" e)

  abbrev pub call_create_nodes : OnboardNodeStreamRequest → Act (Option E)
  call_create_nodes node = call env.created (node_create (create_request node)) >>= on_create

  unfoldable pub grpc_infra_onboard_node_jwt :
      String → ℕ → OnboardNodeStreamRequest → String → String → Act (Option E)
  unfolding on_create decimal trim_space
  grpc_infra_onboard_node_jwt address port node ca_cert_path access_token_path =
      load_certs ca_cert_path
      and_then (read_token access_token_path on_value λ token.
          dial_server (format (address ∷ ":" ∷ decimal port ∷ [])) token
          and_then call_create_nodes node)

  abbrev pub pause_before : ℕ → Act {0} Unit
  pause_before zero = pure tt
  pause_before (suc n) = wait 2

  -- after one of the attempts, with so many left
  abbrev pub after_attempt : ℕ → Act Ending → Option E → Act Ending
  after_attempt left again none = pure returned
  after_attempt left again (some e) = pause_before left >> again

  -- the attempts that are left; the last one ends the program
  unfoldable pub attempts : Act (Option E) → ℕ → Act Ending
  attempts update zero = pure exited
  attempts update (suc left) =
      let again = attempts update left in update >>= after_attempt left again

  abbrev pub after_script : Act Ending → Option E → Act Ending
  after_script k none = k
  after_script k (some e) = pure exited

  abbrev pub after_start : Act Ending → Option E → Act Ending
  after_start k none = k
  after_start k (some e) = pure returned

  -- The script ends with an error also where its time is over.
  unfoldable pub fall_back : String → ℕ → OnboardNodeStreamRequest → String → Act Ending
  unfolding grpc_infra_onboard_node_jwt attempts
  fall_back obm_svc obm_port node ca_cert_path =
      let update =
        grpc_infra_onboard_node_jwt obm_svc obm_port node ca_cert_path access_token_file in
      call env.outcome client_auth_start
      >>= after_start
          (call env.outcome client_auth_wait >>= after_script (attempts update max_retries))

  abbrev pub ending_of : Option E → Ending
  ending_of none = returned
  ending_of (some e) = exited

  abbrev pub save_tokens : String × String → Act (Option E)
  save_tokens tokens =
      save_to_file env access_token_file tokens.0
      and_then save_to_file env release_token_file tokens.1

  abbrev pub authorize : String → String → Session E → Act (Option E)
  authorize keycloak_url ca_cert_path s =
      client_auth env s.client_id s.client_secret keycloak_url
        "/realms/master/protocol/openid-connect/token" "/token" ca_cert_path
      on_value save_tokens

  unfoldable pub store_credentials : String → String → Session E → Act (Option E)
  unfolding client_auth
  store_credentials keycloak_url ca_cert_path s =
      save_to_file env client_id_path s.client_id
      and_then (save_to_file env client_secret_path s.client_secret
          and_then authorize keycloak_url ca_cert_path s)

  abbrev pub on_failure : Act Ending → Option E → Act Ending
  on_failure k none = k
  on_failure k (some e) = pure exited

  unfoldable pub on_talk : Act Ending → String → String → Talk E → Act Ending
  unfolding store_credentials
  on_talk interactive keycloak_url ca_cert_path waits = pure waiting
  on_talk interactive keycloak_url ca_cert_path (ends s) =
      if s.fallback
      then interactive
      else on_failure (store_credentials keycloak_url ca_cert_path s >>= λ e. pure (ending_of e))
          s.failure

  unfoldable pub grpc_client :
      String
      → String
      → ℕ
      → String
      → OnboardNodeStreamRequest
      → String
      → List (Result E (Option Received))
      → Act Ending
  unfolding fall_back on_talk grpc_stream_client
  grpc_client obs_svc obm_svc obm_port keycloak_url node ca_cert_path answers =
      grpc_stream_client env obs_svc obm_port node ca_cert_path answers
      >>= on_talk (fall_back obm_svc obm_port node ca_cert_path) keycloak_url ca_cert_path
