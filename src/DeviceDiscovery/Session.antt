-- ===== src/DeviceDiscovery/Session.antt =====
-- Which answers end the edge node's side of the stream, and how (onboarding-client.go).
use infra_onboarding.Prelude.{
  ℕ, ◌≡◌, subst, String, Bool, true, false, Option, none, some, List, [], ◌∷◌, format, decimal,
  string_has_eq, if◌then◌else◌,
}
use infra_onboarding.Api.Errors.{Result, ok, err}
use infra_onboarding.Api.Calls.{History, node_send, node_recv, node_stream}
use infra_onboarding.Api.Env.{Env}
use infra_onboarding.Act.{Outcome, done, panic, Act, pure, call, continue, ◌>>=◌, ◌>>◌}
use infra_onboarding.Onboardingmgr.{OnboardNodeStreamRequest}
use infra_onboarding.DeviceDiscovery.Stream.{
  Received, Session, Next, again, over, Talk, waits, ends, on_answer, on_sent, continued, converse,
  fails, receive, on_stream, on_connection, first_backoff, create_secure_connection,
  grpc_stream_client,
}
use infra_onboarding.DeviceDiscovery.Answers.{
  Explained, failed, Explained-later, Registers, NextTold, Told, received-Told,
}

module _ {E : Type 0} (env : Env E) (request : OnboardNodeStreamRequest) where
  closed-Told :
      (b : Bool) (e : E) (rest : List (Result E (Option Received))) (h : History)
      → NextTold (err e) rest (
          (if b
              then fails env "stream closed by server"
              else fails env "error receiving response from server")
            h)
  closed-Told true e rest h = failed
  closed-Told false e rest h = failed

  answer-Told :
      (backoff : ℕ) (a : Result E (Option Received)) (rest : List (Result E (Option Received)))
      (h : History)
      → NextTold a rest (on_answer env backoff a h)
  unfolding on_answer
  answer-Told backoff (err e) rest h = closed-Told (env.is_eof e) e rest h
  answer-Told backoff (ok none) rest h = failed
  answer-Told backoff (ok (some x)) rest h = received-Told env x rest backoff x.has_status h

  registered-Told :
      (a : Result E (Option Received)) (rest : List (Result E (Option Received)))
      (o : Outcome (Talk E) × History)
      → Registers a
      → Told rest o
      → Told (a ∷ rest) o
  registered-Told (err e) rest o n t = absurd n
  registered-Told (ok none) rest o n t = absurd n
  registered-Told (ok (some x)) rest (done waits, g) n t = tt
  registered-Told (ok (some x)) rest (done (ends s), g) n t = Explained-later x rest g s n.0 n.1 t
  registered-Told (ok (some x)) rest (panic, g) n t = tt

  continued-Told :
      (a : Result E (Option Received)) (rest : List (Result E (Option Received)))
      (k : ℕ → Act (Talk E)) (o : Outcome (Next E) × History)
      → ((b : ℕ) (g : History) → Told rest (k b g))
      → NextTold a rest o
      → Told (a ∷ rest) (continue (continued env k) o)
  continued-Told a rest k (done (again b), g) t n = registered-Told a rest (k b g) n (t b g)
  continued-Told a rest k (done (over s), g) t n = n
  continued-Told a rest k (panic, g) t n = tt

  sent-Told :
      (answers : List (Result E (Option Received))) (k : Act (Talk E)) (e : Option E) (h : History)
      → ((g : History) → Told answers (k g))
      → Told answers (on_sent env k e h)
  sent-Told answers k none h t = t h
  sent-Told answers k (some e) h t = failed

  conversation-Told :
      (answers : List (Result E (Option Received))) (backoff : ℕ) (h : History)
      → Told answers (converse env request answers backoff h)
  unfolding converse
  conversation-Told [] backoff h =
      sent-Told [] (receive >> pure waits) (env.outcome h (node_send request)) _ (λ g. tt)
  conversation-Told (a ∷ rest) backoff h =
      let k = converse env request rest in
      sent-Told (a ∷ rest) ((receive >> on_answer env backoff a) >>= continued env k)
        (env.outcome h (node_send request)) _
        λ g.
          continued-Told a rest k ((receive >> on_answer env backoff a) g)
            (λ b f. conversation-Told rest b f) (answer-Told backoff a rest (node_recv ∷ g))

  opened-Told :
      (answers : List (Result E (Option Received))) (e : Option E) (h : History)
      → Told answers (on_stream env (converse env request answers first_backoff) e h)
  opened-Told answers none h = conversation-Told answers first_backoff h
  opened-Told answers (some e) h = failed

  connected-Told :
      (answers : List (Result E (Option Received))) (o : Outcome (Option E)) (h : History)
      → Told answers (
          continue
            (on_connection env (
              call env.outcome node_stream
              >>= on_stream env (converse env request answers first_backoff)))
            (o, h))
  connected-Told answers panic h = tt
  connected-Told answers (done (some e)) h = failed
  connected-Told answers (done none) h =
      opened-Told answers (env.outcome h node_stream) (node_stream ∷ h)

  -- However the manager answers, where the edge node's side of the stream returns it has either the
  -- credentials of the first answer that does not say that the node is registered, which says that it is
  -- onboarded and has credentials and a project ID, and the last call has saved that ID; or it asks for
  -- the interactive login, and that answer has the status NotFound; or it has an error and no fallback.
  pub grpc_stream_client-Explained :
      (address : String) (port : ℕ) (ca_cert_path : String)
      (answers : List (Result E (Option Received))) (h g : History) (s : Session E)
      → grpc_stream_client env address port request ca_cert_path answers h ≡ (done (ends s), g)
      → Explained answers g s
  unfolding grpc_stream_client
  grpc_stream_client-Explained address port ca_cert_path answers h g s q =
      let c =
        create_secure_connection env (format (address ∷ ":" ∷ decimal port ∷ [])) ca_cert_path h in
      subst (Told answers) q (connected-Told answers c.0 c.1)
