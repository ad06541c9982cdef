-- ===== src/Southbound/Stream/Released.antt =====
-- To which hosts credentials are given (grpc_server.go).
use infra_onboarding.Prelude.{
  ◌≡◌, ◌≢◌, refl, subst, ◌⊎◌, inl, inr, String, Bool, true, false, ◌&&◌, ◌||◌, ==-true, Option,
  none, some, ◌==◌, string_has_eq, if◌then◌else◌,
}
use infra_onboarding.Api.Enums.{HostState, StatusIndication, host_state_eq, indication_eq}
use infra_onboarding.Api.Resources.{HostResource}
use infra_onboarding.Api.Errors.{Result, ok, err, Code}
use infra_onboarding.Api.Calls
use infra_onboarding.Api.Calls.{Call, History, stream_send}
use infra_onboarding.Api.Env.{Env}
use infra_onboarding.Act.{done, Act, ◌>>=◌}
use infra_onboarding.Act.Makes.{
  Extends, Extends-trans, Makes, Makes-pure, Makes-bind, Makes-call, Makes-if, Makes-and_then,
}
use infra_onboarding.Onboardingmgr.{OnboardNodeStreamRequest, OnboardNodeStreamResponse, NodeState}
use infra_onboarding.Inventory.Registration.Asks.{update_host_reg_state-Makes}
use infra_onboarding.Southbound.Lookup.{get_host_of_request}
use infra_onboarding.Southbound.Lookup.Asks.{get_host_of_request-Makes}
use infra_onboarding.Southbound.Stream
use infra_onboarding.Southbound.Stream.{
  error_response, registered_response, Next, again, closed, onboarded, send_onboard_stream_response,
  send_stream_error_response, unless_failed, handle_registered_state, on_desired_state, is_settled,
  on_host, on_lookup, look_up,
}

abbrev holds_no_secret : NodeState → OnboardNodeStreamResponse → Bool
holds_no_secret NodeState.onboarded r = false
holds_no_secret _ r = r.client_id == "" && r.client_secret == ""

-- The call neither asks for credentials nor sends any, nor tells the node that it is onboarded.
abbrev pub gives_nothing : Call → Bool
gives_nothing (Calls.get_credentials t uuid) = false
gives_nothing (Calls.create_credentials t uuid) = false
gives_nothing (stream_send r) = holds_no_secret r.node_state r
gives_nothing _ = true

abbrev pub GivesNothing : Call → Type 0
GivesNothing c = gives_nothing c ≡ true

module _ {E : Type 0} where
  -- No host, or one that is onboarded already, whose registration has failed, or that is not meant to
  -- be onboarded.
  abbrev pub Withheld : Result E HostResource → Type 0
  Withheld (err e) = Unit
  Withheld (ok host) =
      (host.current_state ≡ HostState.onboarded)
      ⊎ (host.registration_status_indicator ≡ StatusIndication.error)
      ⊎ (host.desired_state ≢ HostState.onboarded)

or_true : (a b : Bool) → b ≡ true → (a || b) ≡ true
or_true true b e = refl
or_true false b e = e

-- A host that is withheld is settled or not meant to be onboarded.
withheld_cases :
    (x : HostResource)
    → ((x.current_state ≡ HostState.onboarded)
        ⊎ (x.registration_status_indicator ≡ StatusIndication.error)
        ⊎ (x.desired_state ≢ HostState.onboarded))
    → (is_settled x ≡ true) ⊎ (x.desired_state ≢ HostState.onboarded)
unfolding is_settled
withheld_cases x (inl e) = inl (rw (==-true x.current_state HostState.onboarded e) refl)
withheld_cases x (inr (inl e)) = inl (
    or_true (x.current_state == HostState.onboarded) _
      (==-true x.registration_status_indicator StatusIndication.error e))
withheld_cases x (inr (inr n)) = inr n

module _ {E : Type 0} (env : Env E) where
  unless_failed-Makes :
      (next : Next E) (e : Option E) → Makes GivesNothing (unless_failed env next e)
  unless_failed-Makes next none = Makes-pure next
  unless_failed-Makes next (some e) = Makes-pure (closed (some e))

  refusal-Makes :
      (c : Code) (m : String)
      → Makes GivesNothing (send_stream_error_response env c m >>= Stream.return env)
  refusal-Makes c m =
      Makes-bind (send_stream_error_response env c m) _ (Makes-call env.outcome _ refl)
        λ e. Makes-pure (closed e)

  desired-Makes :
      (x : HostResource) (req : OnboardNodeStreamRequest) (s : HostState)
      → s ≢ HostState.onboarded
      → Makes GivesNothing (on_desired_state env x req s)
  unfolding on_desired_state handle_registered_state
  desired-Makes x req HostState.registered n =
      Makes-bind (handle_registered_state env x req) _
        (Makes-and_then (send_onboard_stream_response env (registered_response x)) _
          (Makes-call env.outcome _ refl)
          (update_host_reg_state-Makes env x.tenant_id x.resource_id (λ fs r. refl) _ _ _ _))
        (unless_failed-Makes again)
  desired-Makes x req HostState.onboarded n = absurd (n refl)
  desired-Makes x req HostState.unspecified n = refusal-Makes _ _
  desired-Makes x req HostState.deleted n = refusal-Makes _ _
  desired-Makes x req HostState.untrusted n = refusal-Makes _ _
  desired-Makes x req (HostState.unnamed k) n = refusal-Makes _ _

  settled-Makes :
      (x : HostResource) (req : OnboardNodeStreamRequest) (b : Bool)
      → ((b ≡ true) ⊎ (x.desired_state ≢ HostState.onboarded))
      → (k : Act (Next E)) → Makes GivesNothing k
      → Makes GivesNothing (if b then k else on_desired_state env x req x.desired_state)
  settled-Makes x req true w k p = p
  settled-Makes x req false (inl e) k p = absurd (cc)
  settled-Makes x req false (inr n) k p = desired-Makes x req x.desired_state n

  result-Makes :
      (req : OnboardNodeStreamRequest) (r : Result E HostResource)
      → Withheld r
      → Makes GivesNothing (on_lookup env req r)
  unfolding on_lookup on_host
  result-Makes req (ok x) w =
      settled-Makes x req (is_settled x) (withheld_cases x w) _ (refusal-Makes _ _)
  result-Makes req (err e) w =
      Makes-if (env.is_not_found (some e)) _ _
        (λ _.
          Makes-bind (send_stream_error_response env _ "Device not found") _
            (Makes-call env.outcome _ refl) (unless_failed-Makes again))
        λ _. refusal-Makes _ _

  -- For a request whose host is not found, is onboarded already, has failed its registration, or is not
  -- meant to be onboarded, no credentials are asked for or made, and none are sent.
  pub credentials-Withheld :
      (req : OnboardNodeStreamRequest) (r : Result E HostResource) (h g : History)
      → get_host_of_request env req h ≡ (done r, g)
      → Withheld r
      → Extends GivesNothing h (look_up env req h).1
  unfolding look_up
  credentials-Withheld req r h g q w =
      let found = (get_host_of_request-Makes env (λ f. refl) (λ t id fs x. refl) req).at h in
      let rest = (result-Makes req r w).at g in
      rw q (Extends-trans (subst (λ o. Extends GivesNothing h o.1) q found) rest)
