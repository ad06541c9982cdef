-- ===== src/DeviceDiscovery/Waits.antt =====
-- In which order an edge node makes its calls on the stream, and how long it waits in between
-- (onboarding-client.go).
use infra_onboarding.Prelude.{
  ℕ, ◌≤◌, String, Bool, true, false, ◌||◌, Option, none, some, List, [], ◌∷◌, format, decimal, ◌==◌,
  string_has_eq, if◌then◌else◌, arith,
}
use infra_onboarding.Api.Errors.{Result, ok, err, Code, ok_code}
use infra_onboarding.Api.Calls.{
  History, read_file, write_file, node_send, node_recv, node_wait, node_dial, node_stream,
}
use infra_onboarding.Api.Env.{Env}
use infra_onboarding.Act.{
  Outcome, done, panic, Act, pure, panics, call, continue, stop_on, ◌>>=◌, ◌>>◌,
}
use infra_onboarding.Onboardingmgr.{OnboardNodeStreamRequest, OnboardNodeStreamResponse, NodeState}
use infra_onboarding.DeviceDiscovery.{certs_added, project_id_path, save_to_file}
use infra_onboarding.DeviceDiscovery.Stream.{
  Received, Next, again, over, Talk, waits, ends, next_backoff, on_saved, on_onboarded,
  on_node_state, on_status, on_answer, on_sent, continued, converse, fails, receive, on_stream,
  on_connection, first_backoff, max_backoff, create_secure_connection, grpc_stream_client,
  session_of,
}

-- a back-off between the first and the greatest
abbrev IsBackoff : ℕ → Type 0
IsBackoff b = (first_backoff ≤ b) × (b ≤ max_backoff)

next-IsBackoff : (b : ℕ) → IsBackoff b → IsBackoff (next_backoff b)
unfolding next_backoff
next-IsBackoff b h = ground arith

-- What the edge node has done last, or may do next.
pub data Phase : Type 0 where
  initial : Phase
  certified : Phase
  dialled : Phase
  ready : Phase
  sent : Phase
  listened : Phase
  saved : Phase

-- The calls of an edge node after `h`, with one request and one address: a request is sent only on a
-- new stream or after a wait, and waiting or saving only after the receiving that follows a request.
pub data Paced (request : OnboardNodeStreamRequest) (target ca_cert_path : String) (h : History)
    : Phase → History → Type 0 where
  starts : Paced request target ca_cert_path h initial h
  reads :
      {g : History}
      → Paced request target ca_cert_path h initial g
      → Paced request target ca_cert_path h certified (read_file ca_cert_path ∷ g)
  dials :
      {g : History}
      → Paced request target ca_cert_path h certified g
      → Paced request target ca_cert_path h dialled (node_dial target "" ∷ g)
  opens :
      {g : History}
      → Paced request target ca_cert_path h dialled g
      → Paced request target ca_cert_path h ready (node_stream ∷ g)
  sends :
      {g : History}
      → Paced request target ca_cert_path h ready g
      → Paced request target ca_cert_path h sent (node_send request ∷ g)
  listens :
      {g : History}
      → Paced request target ca_cert_path h sent g
      → Paced request target ca_cert_path h listened (node_recv ∷ g)
  pauses :
      {g : History} {b : ℕ}
      → first_backoff ≤ b
      → b ≤ max_backoff
      → Paced request target ca_cert_path h listened g
      → Paced request target ca_cert_path h ready (node_wait b ∷ g)
  saves :
      {g : History} {project : String}
      → Paced request target ca_cert_path h listened g
      → Paced request target ca_cert_path h saved (write_file project_id_path project ∷ g)

module _ {E : Type 0} (request : OnboardNodeStreamRequest) (target ca : String) (h : History) where
  -- A node that waits for an answer has sent its request.
  abbrev pub TalkPaced : Outcome (Talk E) × History → Type 0
  TalkPaced (done waits, g) = Paced request target ca h listened g
  TalkPaced (done (ends s), g) = (p : Phase) × Paced request target ca h p g
  TalkPaced (panic, g) = (p : Phase) × Paced request target ca h p g

  -- before the next request the node has waited
  abbrev NextPaced : Outcome (Next E) × History → Type 0
  NextPaced (done (again b), g) = IsBackoff b × Paced request target ca h ready g
  NextPaced (done (over s), g) = (p : Phase) × Paced request target ca h p g
  NextPaced (panic, g) = (p : Phase) × Paced request target ca h p g

module _ {E : Type 0} (env : Env E) (request : OnboardNodeStreamRequest) (target ca : String)
    (h : History) where
  abbrev At : Phase → History → Type 0
  At = Paced request target ca h

  abbrev Goes : Outcome (Next E) × History → Type 0
  Goes = NextPaced request target ca h

  abbrev Talks : Outcome (Talk E) × History → Type 0
  Talks = TalkPaced request target ca h

  over_if :
      (b : Bool) (m : Act (Next E)) (message : String) (p : Phase) (g : History)
      → At p g
      → Goes (m g)
      → Goes ((if b then fails env message else m) g)
  over_if true m message p g a n = (p, a)
  over_if false m message p g a n = n

  saved-Paced :
      (r : OnboardNodeStreamResponse) (e : Option E) (g : History)
      → At saved g
      → Goes (on_saved env r e g)
  unfolding on_saved
  saved-Paced r (some e) g a = (saved, a)
  saved-Paced r none g a =
      over_if (r.client_id == "" || r.client_secret == "") (pure (over (session_of r)))
        "received empty clientID or clientSecret" saved g a (saved, a)

  state-Paced :
      (b : ℕ) (r : OnboardNodeStreamResponse) (n : NodeState) (g : History)
      → IsBackoff b
      → At listened g
      → Goes (on_node_state env b r n g)
  unfolding on_node_state on_onboarded
  state-Paced b r NodeState.registered g i a = (next-IsBackoff b i, pauses i.0 i.1 a)
  state-Paced b r NodeState.onboarded g i a =
      over_if (r.project_id == "")
        (save_to_file env project_id_path r.project_id >>= on_saved env r)
        "received empty Project ID" listened g a
        (saved-Paced r (env.outcome g (write_file project_id_path r.project_id)) _ (saves a))
  state-Paced b r NodeState.unspecified g i a = (listened, a)
  state-Paced b r (NodeState.unnamed n) g i a = (listened, a)

  status-Paced :
      (b : ℕ) (r : OnboardNodeStreamResponse) (c : Code) (g : History)
      → IsBackoff b
      → At listened g
      → Goes (on_status env b r c g)
  unfolding on_status
  status-Paced b r ok_code g i a = state-Paced b r r.node_state g i a
  status-Paced b r _ g i a = (listened, a)

  received-Paced :
      (t : Bool) (b : ℕ) (r : OnboardNodeStreamResponse) (g : History)
      → IsBackoff b
      → At listened g
      → Goes ((if t then on_status env b r r.status.code else panics) g)
  received-Paced true b r g i a = status-Paced b r r.status.code g i a
  received-Paced false b r g i a = (listened, a)

  answer-Paced :
      (b : ℕ) (x : Result E (Option Received)) (g : History)
      → IsBackoff b
      → At listened g
      → Goes (on_answer env b x g)
  unfolding on_answer
  answer-Paced b (err e) g i a =
      over_if (env.is_eof e) (fails env "error receiving response from server")
        "stream closed by server" listened g a (listened, a)
  answer-Paced b (ok none) g i a = (listened, a)
  answer-Paced b (ok (some x)) g i a = received-Paced x.has_status b x.response g i a

  sent-Paced :
      (k : Act (Talk E)) (e : Option E) (g : History)
      → At sent g
      → Talks (k g)
      → Talks (on_sent env k e g)
  sent-Paced k none g a t = t
  sent-Paced k (some e) g a t = (sent, a)

  continued-Paced :
      (k : ℕ → Act (Talk E)) (o : Outcome (Next E) × History)
      → ((b : ℕ) (g : History) → IsBackoff b → At ready g → Talks (k b g))
      → Goes o
      → Talks (continue (continued env k) o)
  continued-Paced k (done (again b), g) f n = f b g n.0 n.1
  continued-Paced k (done (over s), g) f n = n
  continued-Paced k (panic, g) f n = n

  converse-Paced :
      (answers : List (Result E (Option Received))) (b : ℕ) (g : History)
      → IsBackoff b
      → At ready g
      → Talks (converse env request answers b g)
  unfolding converse
  converse-Paced [] b g i a =
      sent-Paced (receive >> pure waits) (env.outcome g (node_send request)) _ (sends a)
        (listens (sends a))
  converse-Paced (x ∷ rest) b g i a =
      let k = converse env request rest in
      let m = receive >> on_answer env b x in
      let f = node_send request ∷ g in
      sent-Paced (m >>= continued env k) (env.outcome g (node_send request)) f (sends a) (
        continued-Paced k (m f) (converse-Paced rest)
          (answer-Paced b x (node_recv ∷ f) i (listens (sends a))))

  opened-Paced :
      (answers : List (Result E (Option Received))) (e : Option E) (g : History)
      → At ready g
      → Talks (on_stream env (converse env request answers first_backoff) e g)
  opened-Paced answers none g a =
      converse-Paced answers first_backoff g (omega arith, omega arith) a
  opened-Paced answers (some e) g a = (ready, a)

  module _ (answers : List (Result E (Option Received))) where
    abbrev session : Act (Talk E)
    session =
        call env.outcome node_stream >>= on_stream env (converse env request answers first_backoff)

    dialled-Paced :
        (e : Option E) (g : History) → At dialled g → Talks (on_connection env session e g)
    dialled-Paced none g a = opened-Paced answers (env.outcome g node_stream) _ (opens a)
    dialled-Paced (some e) g a = (dialled, a)

    certified-Paced :
        (e : Option E) (g : History)
        → At certified g
        → Talks (
            continue
              (on_connection env session)
              (stop_on (call env.outcome (node_dial target "")) e g))
    certified-Paced none g a = dialled-Paced (env.outcome g (node_dial target "")) _ (dials a)
    certified-Paced (some e) g a = (certified, a)

module _ {E : Type 0} (env : Env E) where
  -- However the manager answers, an edge node dials one address at most once and opens at most one
  -- stream on it, sends one and the same request, receives at most once after each request, and waits
  -- once, for 2 to 32 seconds, the random part left out, after the receiving and before the next
  -- request; it saves at most one project ID, as its last call. A node that is still waiting for an
  -- answer receives after its request.
  pub grpc_stream_client-Paced :
      (request : OnboardNodeStreamRequest) (address : String) (port : ℕ) (ca_cert_path : String)
      (answers : List (Result E (Option Received))) (h : History)
      → TalkPaced request
          (format (address ∷ ":" ∷ decimal port ∷ []))
          ca_cert_path
          h
          (grpc_stream_client env address port request ca_cert_path answers h)
  unfolding grpc_stream_client create_secure_connection
  grpc_stream_client-Paced request address port ca answers h =
      let target = format (address ∷ ":" ∷ decimal port ∷ []) in
      let pem =
        certs_added env "failed to read CA certificate"
          "failed to append CA certificate to cert pool" (env.file h (read_file ca)) in
      certified-Paced env request target ca h answers pem (read_file ca ∷ h) (reads starts)
