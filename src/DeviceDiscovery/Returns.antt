-- ===== src/DeviceDiscovery/Returns.antt =====
-- When the registration of an edge node returns (device-discovery.go).
use infra_onboarding.Prelude.{
  ℕ, ◌≡◌, ◌≢◌, refl, sym, ap, ◌∙◌, subst, String, Option, none, some, List, ◌∷◌, string_has_eq,
}
use infra_onboarding.Api.Errors.{Result, ok_code, not_found}
use infra_onboarding.Api.Calls.{History, write_file, client_auth_start, client_auth_wait}
use infra_onboarding.Api.Env.{Env}
use infra_onboarding.Act.{Outcome, done, panic, Act, pure, call, continue, ◌>>=◌, ◌and_then◌}
use infra_onboarding.Act.Past.{and_then-split, on_value-split, Passes}
use infra_onboarding.Onboardingmgr.{OnboardNodeStreamRequest, OnboardNodeStreamResponse, NodeState}
use infra_onboarding.DeviceDiscovery.{
  project_id_path, client_id_path, client_secret_path, access_token_file, release_token_file,
  save_to_file,
}
use infra_onboarding.DeviceDiscovery.Stream.{
  Received, Session, Talk, waits, ends, grpc_stream_client,
}
use infra_onboarding.DeviceDiscovery.Session.{grpc_stream_client-Explained}
use infra_onboarding.DeviceDiscovery.Auth.{client_auth}
use infra_onboarding.DeviceDiscovery.Onboard.{
  Ending, returned, grpc_infra_onboard_node_jwt, attempts, after_script, after_start, fall_back,
  ending_of, save_tokens, store_credentials, on_talk, grpc_client, authorize, max_retries,
}
use infra_onboarding.DeviceDiscovery.Answers.{Decides, Explained, onboarded, fell_back, failed}
use infra_onboarding.DeviceDiscovery.Registered.{Saved, jwt-Saved, attempts-Saved}

-- The response gives the node its credentials.
abbrev Onboards : OnboardNodeStreamResponse → Type 0
Onboards r =
    (r.status.code ≡ ok_code) × (r.node_state ≡ NodeState.onboarded) × (r.client_secret ≢ "")

module _ {E : Type 0} (env : Env E) where
  -- How the registration came to its end, by the answers and the calls made.
  pub data Returned (answers : List (Result E (Option Received))) : History → Type 0 where
    authorized :
        {r : OnboardNodeStreamResponse} {access release : String} {before : History}
        → Decides answers r
        → Onboards r
        → Returned answers
            (write_file release_token_file release ∷ write_file access_token_file access ∷ before)
    registered :
        {r : OnboardNodeStreamResponse} {project : String} {before : History}
        → Decides answers r
        → r.status.code ≡ not_found
        → project ≢ ""
        → Returned answers (write_file project_id_path project ∷ before)
    not_started :
        {r : OnboardNodeStreamResponse} {e : E} {before : History}
        → Decides answers r
        → r.status.code ≡ not_found
        → env.outcome before client_auth_start ≡ some e
        → Returned answers (client_auth_start ∷ before)

  module _ (answers : List (Result E (Option Received))) (r : OnboardNodeStreamResponse)
      (decided : Decides answers r) where
    script-Returned :
        (k : Act Ending) (e : Option E) (h g : History)
        → ((f : History) → k f ≡ (done returned, g) → Saved g)
        → after_script env k e h ≡ (done returned, g)
        → Saved g
    script-Returned k none h g s q = s h q
    script-Returned k (some e) h g s q = absurd (cc)

    saved-Returned : (g : History) → r.status.code ≡ not_found → Saved g → Returned answers g
    saved-Returned g c s =
        subst (Returned answers) (sym s.last_call) (registered decided c s.is_set)

    start-Returned :
        (k : Act Ending) (e : Option E) (h g : History)
        → env.outcome h client_auth_start ≡ e
        → r.status.code ≡ not_found
        → ((f : History) → k f ≡ (done returned, g) → Saved g)
        → after_start env k e (client_auth_start ∷ h) ≡ (done returned, g)
        → Returned answers g
    start-Returned k none h g o c s q = saved-Returned g c (s _ q)
    start-Returned k (some e) h g o c s q =
        subst (Returned answers) (ap (λ p. p.1) q) (not_started decided c o)

    fall_back-Returned :
        (svc : String) (port : ℕ) (node : OnboardNodeStreamRequest) (ca : String) (h g : History)
        → r.status.code ≡ not_found
        → fall_back env svc port node ca h ≡ (done returned, g)
        → Returned answers g
    unfolding fall_back
    fall_back-Returned svc port node ca h g c q =
        let update = grpc_infra_onboard_node_jwt env svc port node ca access_token_file in
        let tries = attempts env update max_retries in
        start-Returned (call env.outcome client_auth_wait >>= after_script env tries)
          (env.outcome h client_auth_start) h g refl c
          (λ f p.
            script-Returned tries (env.outcome f client_auth_wait) _ g
              (λ k. λ t.
                attempts-Saved env update max_retries k g
                  (jwt-Saved env svc port node ca access_token_file) t)
              p)
          q

    ended :
        (o : Outcome (Option E)) (h g : History)
        → continue (λ e. pure (ending_of env e)) (o, h) ≡ (done returned, g)
        → (o ≡ done none) × (h ≡ g)
    ended panic h g q = absurd (cc)
    ended (done none) h g q = (refl, ap (λ p. p.1) q)
    ended (done (some e)) h g q = absurd (cc)

    tokens-Returned :
        (tokens : String × String) (h g : History)
        → Onboards r
        → Passes (save_tokens env tokens) h g
        → Returned answers g
    tokens-Returned tokens h g c q =
        let (mid, p, t) =
          and_then-split (save_to_file env access_token_file tokens.0)
            (save_to_file env release_token_file tokens.1) h g q in
        subst (Returned answers)
          (ap (λ f. write_file release_token_file tokens.1 ∷ f) (ap (λ o. o.1) p) ∙ ap (λ o. o.1) t)
          (authorized {before = h} decided c)

    store-Returned :
        (url ca : String) (s : Session E) (h g : History)
        → Onboards r
        → Passes (store_credentials env url ca s) h g
        → Returned answers g
    unfolding store_credentials
    store-Returned url ca s h g c q =
        let (h1, p1, q1) =
          and_then-split (save_to_file env client_id_path s.client_id)
            (save_to_file env client_secret_path s.client_secret and_then authorize env url ca s) h
            g q in
        let (h2, p2, q2) =
          and_then-split (save_to_file env client_secret_path s.client_secret)
            (authorize env url ca s) h1 g q1 in
        let (tokens, h3, p3, q3) =
          on_value-split
            (client_auth env s.client_id s.client_secret url
              "/realms/master/protocol/openid-connect/token" "/token" ca)
            (save_tokens env) h2 g q2 in
        tokens-Returned tokens h3 g c q3

    stored-Returned :
        (url ca : String) (s : Session E) (h g : History)
        → Onboards r
        → (store_credentials env url ca s >>= λ e. pure (ending_of env e)) h ≡ (done returned, g)
        → Returned answers g
    stored-Returned url ca s h g c q =
        let o = store_credentials env url ca s h in
        let (e, f) = ended o.0 o.1 g q in store-Returned url ca s h g c (cc)

  session-Returned :
      (answers : List (Result E (Option Received))) (svc : String) (port : ℕ) (url : String)
      (node : OnboardNodeStreamRequest) (ca : String) (s : Session E) (h g : History)
      → Explained answers h s
      → on_talk env (fall_back env svc port node ca) url ca (ends s) h ≡ (done returned, g)
      → Returned answers g
  unfolding on_talk
  session-Returned answers svc port url node ca s h g (onboarded {r} d c n i k p) q =
      stored-Returned answers r d url ca s h g (c, n, k) q
  session-Returned answers svc port url node ca s h g (fell_back {r} d c) q =
      fall_back-Returned answers r d svc port node ca h g c q
  session-Returned answers svc port url node ca s h g failed q = absurd (cc)

  talk-Returned :
      (answers : List (Result E (Option Received))) (svc : String) (port : ℕ) (url : String)
      (node : OnboardNodeStreamRequest) (ca : String) (o : Outcome (Talk E)) (h g : History)
      → ((s : Session E) → o ≡ done (ends s) → Explained answers h s)
      → continue (on_talk env (fall_back env svc port node ca) url ca) (o, h) ≡ (done returned, g)
      → Returned answers g
  unfolding on_talk
  talk-Returned answers svc port url node ca panic h g t q = absurd (cc)
  talk-Returned answers svc port url node ca (done waits) h g t q = absurd (cc)
  talk-Returned answers svc port url node ca (done (ends s)) h g t q =
      session-Returned answers svc port url node ca s h g (t s refl) q

  -- Where the registration of an edge node returns, neither failing nor waiting, one of three things has
  -- happened: the first answer that does not say that the node is registered says that it is onboarded,
  -- with a secret, and the last two calls have saved an access token and a release token; or that answer
  -- has the status NotFound, and the last call has saved a project ID that is not empty; or it has the
  -- status NotFound, and the last call is the start of the interactive login, which failed.
  pub grpc_client-Returned :
      (obs_svc obm_svc : String) (port : ℕ) (url : String) (node : OnboardNodeStreamRequest)
      (ca : String) (answers : List (Result E (Option Received))) (h g : History)
      → grpc_client env obs_svc obm_svc port url node ca answers h ≡ (done returned, g)
      → Returned answers g
  unfolding grpc_client
  grpc_client-Returned obs_svc obm_svc port url node ca answers h g q =
      let o = grpc_stream_client env obs_svc port node ca answers h in
      talk-Returned answers obm_svc port url node ca o.0 o.1 g
        (λ s e. grpc_stream_client-Explained env node obs_svc port ca answers h o.1 s (cc)) q
