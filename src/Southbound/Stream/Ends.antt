-- ===== src/Southbound/Stream/Ends.antt =====
-- What the end of a stream does to its handler (grpc_server.go).
use infra_onboarding.Prelude.{
  ◌≡◌, ◌≢◌, refl, ap, ◌⊎◌, inl, inr, Bool, Option, none, some, List, [], ◌∷◌, ◌++◌,
}
use infra_onboarding.Api.Errors.{Result, ok, err}
use infra_onboarding.Api.Calls.{History, stream_recv}
use infra_onboarding.Api.Env.{Env}
use infra_onboarding.Act.{Outcome, done, panic, Act, pure, continue}
use infra_onboarding.Onboardingmgr.{OnboardNodeStreamRequest}
use infra_onboarding.Southbound.ZeroTouch.{start_zero_touch}
use infra_onboarding.Southbound.Stream.{
  receive_error, Next, again, closed, onboarded, handle_request, go_on, on_received, serve, finish,
  onboard_node_stream,
}

module _ {E : Type 0} (env : Env E) where
  go_on_waits :
      (rest longer : Act (Next E)) (o : Outcome (Next E)) (g m : History)
      (result : Outcome (Next E) × History)
      → ((f : History) → rest f ≡ (done again, m) → longer f ≡ result)
      → continue (go_on env rest) (o, g) ≡ (done again, m)
      → continue (go_on env longer) (o, g) ≡ result
  go_on_waits rest longer (done again) g m result k q = k g q
  go_on_waits rest longer (done (closed c)) g m result k q = absurd (cc)
  go_on_waits rest longer (done (onboarded x)) g m result k q = absurd (cc)
  go_on_waits rest longer panic g m result k q = absurd (cc)

  -- Where the loop waits after some answers, it goes on with the next ones.
  serve_waits :
      (before rest : List (Result E OnboardNodeStreamRequest)) (h m : History)
      → serve env before h ≡ (done again, m)
      → serve env (before ++ rest) h ≡ serve env rest m
  unfolding serve on_received
  serve_waits [] rest h m q = ap (λ o. serve env rest o.1) q
  serve_waits (err d ∷ before) rest h m q = absurd (cc)
  serve_waits (ok req ∷ before) rest h m q =
      let o = handle_request env req (stream_recv ∷ h) in
      go_on_waits (serve env before) (serve env (before ++ rest)) o.0 o.1 m (serve env rest m)
        (λ f. serve_waits before rest f m) q

  go_on_ended :
      (rest longer : Act (Next E)) (o : Outcome (Next E)) (g : History)
      → ((f : History) → (rest f).0 ≢ done again → longer f ≡ rest f)
      → (continue (go_on env rest) (o, g)).0 ≢ done again
      → continue (go_on env longer) (o, g) ≡ continue (go_on env rest) (o, g)
  go_on_ended rest longer (done again) g k n = k g n
  go_on_ended rest longer (done (closed c)) g k n = refl
  go_on_ended rest longer (done (onboarded x)) g k n = refl
  go_on_ended rest longer panic g k n = refl

  -- Where the loop has ended after some answers, the next ones are not read.
  serve_ended :
      (before rest : List (Result E OnboardNodeStreamRequest)) (h : History)
      → (serve env before h).0 ≢ done again
      → serve env (before ++ rest) h ≡ serve env before h
  unfolding serve on_received
  serve_ended [] rest h n = absurd (n refl)
  serve_ended (err d ∷ before) rest h n = refl
  serve_ended (ok req ∷ before) rest h n =
      let o = handle_request env req (stream_recv ∷ h) in
      go_on_ended (serve env before) (serve env (before ++ rest)) o.0 o.1
        (λ f. serve_ended before rest f) n

  again-cases : (o : Outcome (Next E)) → (o ≡ done again) ⊎ (o ≢ done again)
  again-cases (done again) = inl refl
  again-cases (done (closed e)) = inr (λ q. absurd (cc))
  again-cases (done (onboarded x)) = inr (λ q. absurd (cc))
  again-cases panic = inr (λ q. absurd (cc))

  abbrev no_failure : Act (Option (Option E))
  no_failure = pure (some none)

  touch_ends :
      (o : Outcome (Option E)) (m : History) → (continue (λ e. no_failure) (o, m)).0 ≢ done none
  touch_ends (done e) m = λ q. absurd (cc)
  touch_ends panic m = λ q. absurd (cc)

  finish_ends :
      (api : Bool) (o : Outcome (Next E)) (m : History)
      → o ≢ done again
      → (continue (finish env api) (o, m)).0 ≢ done none
  finish_ends api (done again) m n = absurd (n refl)
  finish_ends api (done (closed e)) m n = λ q. absurd (cc)
  finish_ends api (done (onboarded x)) m n =
      let o = start_zero_touch env api x.tenant_id x.resource_id m in touch_ends o.0 o.1
  finish_ends api panic m n = λ q. absurd (cc)

  module _ (has_api : Bool) (before after : List (Result E OnboardNodeStreamRequest)) (e : E)
      (h : History) where
    abbrev closing : List (Result E OnboardNodeStreamRequest)
    closing = before ++ err e ∷ after

    -- The handler was waiting, and returns the error; or it had ended before.
    abbrev pub Ends : Type 0
    Ends =
        ((g : History) × (onboard_node_stream env has_api before h ≡ (done none, g))
          × (onboard_node_stream env has_api closing h
              ≡ (done (some (some (receive_error env e))), stream_recv ∷ g)))
        ⊎ (((onboard_node_stream env has_api before h).0 ≢ done none)
            × (onboard_node_stream env has_api closing h
                ≡ onboard_node_stream env has_api before h))

    waiting_ends : (m : History) → serve env before h ≡ (done again, m) → Ends
    unfolding onboard_node_stream serve on_received
    waiting_ends m q = inl (
      m,
      ap (continue (finish env has_api)) q,
      ap (continue (finish env has_api)) (serve_waits before (err e ∷ after) h m q),
    )

    ended_stays : (serve env before h).0 ≢ done again → Ends
    unfolding onboard_node_stream
    ended_stays n =
        let o = serve env before h in
        inr (
          finish_ends has_api o.0 o.1 n,
          ap (continue (finish env has_api)) (serve_ended before (err e ∷ after) h n),
        )

    -- An error of `Recv`, which comes at the end of the stream too, ends the handler: where it waited for a
    -- message it returns that error, with no call but the `Recv`; otherwise it had ended before, by a
    -- return or a panic, and the end of the stream changes nothing. It does not read on after the error.
    pub closed_stream_returns : Ends
    closed_stream_returns =
        let o = serve env before h in
        elim (again-cases o.0) [
          | inl q ↦ waiting_ends o.1 (ap (λ x. (x, o.1)) q)
          | inr n ↦ ended_stays n
        ]
