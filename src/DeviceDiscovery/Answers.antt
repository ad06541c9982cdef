-- ===== src/DeviceDiscovery/Answers.antt =====
-- What one answer does to the edge node's side of the stream (onboarding-client.go).
use infra_onboarding.Prelude.{
  ℕ, ◌≡◌, ◌≢◌, refl, Bool, true, false, ◌||◌, Option, none, some, List, ◌∷◌, ◌==◌, distinct,
  both_set, string_has_eq, if◌then◌else◌,
}
use infra_onboarding.Api.Errors.{Result, ok, Code, ok_code, not_found}
use infra_onboarding.Api.Calls.{History, write_file}
use infra_onboarding.Api.Env.{Env}
use infra_onboarding.Act.{panics, Outcome, done, panic, pure, ◌>>=◌}
use infra_onboarding.Onboardingmgr.{OnboardNodeStreamResponse, NodeState}
use infra_onboarding.DeviceDiscovery.{project_id_path, save_to_file}
use infra_onboarding.DeviceDiscovery.Stream.{
  Received, Session, Next, again, over, Talk, waits, ends, failed_session, fallback_session,
  session_of, on_saved, on_onboarded, on_node_state, on_status, fails,
}

module _ {E : Type 0} where
  -- the first answer that does not say that the node is registered
  pub data Decides : List (Result E (Option Received)) → OnboardNodeStreamResponse → Type 0 where
    first :
        {x : Received} {rest : List (Result E (Option Received))}
        → Decides (ok (some x) ∷ rest) x.response
    later :
        {x : Received} {rest : List (Result E (Option Received))} {r : OnboardNodeStreamResponse}
        → x.response.status.code ≡ ok_code
        → x.response.node_state ≡ NodeState.registered
        → Decides rest r
        → Decides (ok (some x) ∷ rest) r

  -- How a session came about, by the answers, and by the calls made until then.
  pub data Explained (answers : List (Result E (Option Received)))
      : History → Session E → Type 0 where
    onboarded :
        {r : OnboardNodeStreamResponse} {before : History}
        → Decides answers r
        → r.status.code ≡ ok_code
        → r.node_state ≡ NodeState.onboarded
        → r.client_id ≢ ""
        → r.client_secret ≢ ""
        → r.project_id ≢ ""
        → Explained answers (write_file project_id_path r.project_id ∷ before) (session_of r)
    fell_back :
        {r : OnboardNodeStreamResponse} {g : History} {e : E}
        → Decides answers r
        → r.status.code ≡ not_found
        → Explained answers g (fallback_session e)
    failed : {g : History} {e : E} → Explained answers g (failed_session e)

  pub Explained-later :
      (x : Received) (rest : List (Result E (Option Received))) (g : History) (s : Session E)
      → x.response.status.code ≡ ok_code
      → x.response.node_state ≡ NodeState.registered
      → Explained rest g s
      → Explained (ok (some x) ∷ rest) g s
  Explained-later x rest g s c n (onboarded d a b i p q) = onboarded (later c n d) a b i p q
  Explained-later x rest g s c n (fell_back d a) = fell_back (later c n d) a
  Explained-later x rest g s c n failed = failed

  abbrev pub Registers : Result E (Option Received) → Type 0
  Registers (ok (some x)) =
      (x.response.status.code ≡ ok_code) × (x.response.node_state ≡ NodeState.registered)
  Registers _ = ⊥

  -- what is told of the loop after one answer, and of its result
  abbrev pub NextTold :
      Result E (Option Received)
      → List (Result E (Option Received))
      → Outcome (Next E) × History
      → Type 0
  NextTold a rest (done (again b), g) = Registers a
  NextTold a rest (done (over s), g) = Explained (a ∷ rest) g s
  NextTold a rest (panic, g) = Unit

  abbrev pub Told : List (Result E (Option Received)) → Outcome (Talk E) × History → Type 0
  Told answers (done waits, g) = Unit
  Told answers (done (ends s), g) = Explained answers g s
  Told answers (panic, g) = Unit

module _ {E : Type 0} (env : Env E) (x : Received) (rest : List (Result E (Option Received))) where
  credentials-Told :
      (b : Bool) (h : History)
      → (x.response.client_id == "" || x.response.client_secret == "") ≡ b
      → x.response.status.code ≡ ok_code
      → x.response.node_state ≡ NodeState.onboarded
      → x.response.project_id ≢ ""
      → NextTold (ok (some x)) rest (
          (if b
              then fails env "received empty clientID or clientSecret"
              else pure (over (session_of x.response)))
            (write_file project_id_path x.response.project_id ∷ h))
  credentials-Told true h e c n p = failed
  credentials-Told false h e c n p =
      let (i, s) = both_set x.response.client_id x.response.client_secret e in
      onboarded first c n i s p

  saved-Told :
      (e : Option E) (h : History)
      → x.response.status.code ≡ ok_code
      → x.response.node_state ≡ NodeState.onboarded
      → x.response.project_id ≢ ""
      → NextTold
          (ok (some x))
          rest
          (on_saved env x.response e (write_file project_id_path x.response.project_id ∷ h))
  unfolding on_saved
  saved-Told (some e) h c n p = failed
  saved-Told none h c n p = credentials-Told _ h refl c n p

  project-Told :
      (b : Bool) (h : History)
      → (x.response.project_id == "") ≡ b
      → x.response.status.code ≡ ok_code
      → x.response.node_state ≡ NodeState.onboarded
      → NextTold (ok (some x)) rest (
          (if b
              then fails env "received empty Project ID"
              else (save_to_file env project_id_path x.response.project_id
                  >>= on_saved env x.response))
            h)
  project-Told true h e c n = failed
  project-Told false h e c n =
      saved-Told (env.outcome h (write_file project_id_path x.response.project_id)) h c n
        (distinct x.response.project_id "" e)

  state-Told :
      (backoff : ℕ) (n : NodeState) (h : History)
      → x.response.status.code ≡ ok_code
      → x.response.node_state ≡ n
      → NextTold (ok (some x)) rest (on_node_state env backoff x.response n h)
  unfolding on_node_state on_onboarded
  state-Told backoff NodeState.registered h c e = (c, e)
  state-Told backoff NodeState.onboarded h c e = project-Told _ h refl c e
  state-Told backoff NodeState.unspecified h c e = failed
  state-Told backoff (NodeState.unnamed n) h c e = failed

  status-Told :
      (backoff : ℕ) (c : Code) (h : History)
      → x.response.status.code ≡ c
      → NextTold (ok (some x)) rest (on_status env backoff x.response c h)
  unfolding on_status
  status-Told backoff ok_code h e = state-Told backoff x.response.node_state h e refl
  status-Told backoff not_found h e = fell_back first e
  status-Told backoff _ h e = failed

  pub received-Told :
      (backoff : ℕ) (b : Bool) (h : History)
      → NextTold
          (ok (some x))
          rest
          ((if b then on_status env backoff x.response x.response.status.code else panics) h)
  received-Told backoff true h = status-Told backoff x.response.status.code h refl
  received-Told backoff false h = tt
