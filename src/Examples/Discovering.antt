-- ===== src/Examples/Discovering.antt =====
-- An edge node on its stream.
use infra_onboarding.Prelude.{◌≡◌, refl, true, Option, some, List, [], ◌∷◌, format, decimal}
use infra_onboarding.Api.Errors.{Result, ok, ok_code}
use infra_onboarding.Api.Calls.{History}
use infra_onboarding.Act.{done}
use infra_onboarding.Onboardingmgr.{OnboardNodeStreamRequest, OnboardNodeStreamResponse, NodeState}
use infra_onboarding.DeviceDiscovery.Stream.{Received, ends, session_of, grpc_stream_client}
use infra_onboarding.DeviceDiscovery.Answers.{Explained}
use infra_onboarding.DeviceDiscovery.Session.{grpc_stream_client-Explained}
use infra_onboarding.DeviceDiscovery.Waits.{TalkPaced, grpc_stream_client-Paced}
use infra_onboarding.DeviceDiscovery.Onboard.{returned, grpc_client}
use infra_onboarding.DeviceDiscovery.Returns.{Returned, grpc_client-Returned}
use infra_onboarding.Examples.World.{Failure, world}

abbrev node : OnboardNodeStreamRequest
node = record { uuid = "u1"; serialnum = "s1"; mac_id = "aa:bb"; host_ip = "10.0.0.1" }

abbrev registered : OnboardNodeStreamResponse
registered = record {
  status = record { code = ok_code; message = "" };
  node_state = NodeState.registered;
  client_id = "";
  client_secret = "";
  project_id = "t1";
}

abbrev with_credentials : OnboardNodeStreamResponse
with_credentials = record registered {
  node_state = NodeState.onboarded;
  client_id = "id";
  client_secret = "secret";
}

abbrev answers : List (Result Failure (Option Received))
answers =
    ok (some (record { has_status = true; response = registered }))
    ∷ ok (some (record { has_status = true; response = with_credentials }))
    ∷ []

abbrev calls : History
calls = (grpc_stream_client world "orch" 443 node "ca.crt" answers []).1

onboards :
    grpc_stream_client world "orch" 443 node "ca.crt" answers []
    ≡ (done (ends (session_of with_credentials)), calls)
unfolding grpc_stream_client
onboards = refl

grpc_stream_client-Explained_example : Explained answers calls (session_of with_credentials)
grpc_stream_client-Explained_example =
    grpc_stream_client-Explained world node "orch" 443 "ca.crt" answers [] calls
      (session_of with_credentials) onboards

grpc_stream_client-Paced_example :
    TalkPaced node
      (format ("orch" ∷ ":" ∷ decimal 443 ∷ []))
      "ca.crt"
      []
      (grpc_stream_client world "orch" 443 node "ca.crt" answers [])
grpc_stream_client-Paced_example =
    grpc_stream_client-Paced world node "orch" 443 "ca.crt" answers []

abbrev all_calls : History
all_calls = (grpc_client world "stream" "om" 443 "keycloak.orch" node "ca.crt" answers []).1

registers :
    grpc_client world "stream" "om" 443 "keycloak.orch" node "ca.crt" answers []
    ≡ (done returned, all_calls)
unfolding grpc_client
registers = refl

grpc_client-Returned_example : Returned world answers all_calls
grpc_client-Returned_example =
    grpc_client-Returned world "stream" "om" 443 "keycloak.orch" node "ca.crt" answers [] all_calls
      registers
