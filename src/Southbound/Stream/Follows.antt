-- ===== src/Southbound/Stream/Follows.antt =====
-- The handler of the stream keeps to its protocol (grpc_server.go).
use infra_onboarding.Prelude.{
  ◌≡◌, ◌≢◌, refl, sym, subst, String, Bool, true, false, Option, none, some, List, [], ◌∷◌, arith,
}
use infra_onboarding.Api.Enums.{HostState}
use infra_onboarding.Api.Resources.{HostResource}
use infra_onboarding.Api.Errors.{
  Result, ok, err, Code, not_found, internal, invalid_argument, failed_precondition,
}
use infra_onboarding.Api.Calls.{History, stream_send}
use infra_onboarding.Api.Env.{Env}
use infra_onboarding.Act.{Outcome, done, panic, Act, pure, call, continue, ◌>>=◌, ◌and_then◌}
use infra_onboarding.Act
use infra_onboarding.Act.Makes.{Makes}
use infra_onboarding.Onboarding.Secret.{fetch_client_secret}
use infra_onboarding.Onboarding.Secret.Asks.{fetch_client_secret-Makes}
use infra_onboarding.Inventory.Registration.Asks.{
  update_host_reg_state-Makes, update_onboarded-Makes,
}
use infra_onboarding.Southbound.Lookup.{get_host_of_request}
use infra_onboarding.Southbound.Lookup.Asks.{get_host_of_request-Makes}
use infra_onboarding.Southbound.ZeroTouch.{start_zero_touch}
use infra_onboarding.Southbound.ZeroTouch.Asks.{start_zero_touch-Makes}
use infra_onboarding.Southbound.Stream
use infra_onboarding.Southbound.Stream.{
  error_response, registered_response, onboarded_response, Next, again, closed, onboarded,
  send_onboard_stream_response, send_stream_error_response, unless_failed, handle_registered_state,
  handle_onboarded_state, handle_default_state, on_desired_state, is_settled, on_host, on_lookup,
  look_up, on_validation, handle_request, go_on, on_received, serve, finish, onboard_node_stream,
  serial_number_validation_error,
}
use infra_onboarding.Southbound.Stream.Protocol.{
  Phase, ready, busy, over, is_silent, Turn, receive, unknown, register, admit, refuse, Plays,
  start, turn, Keeps, Keeps-pure, Keeps-silent, Keeps-weaken, Keeps-bind, Keeps-if, Left,
}
use infra_onboarding.Onboardingmgr.{
  OnboardNodeStreamRequest, OnboardNodeStreamResponse, ValidationError,
}
use infra_onboarding.Onboardingmgr.Validate.{validate_onboard_node_stream_request}

abbrev Always {ℓ} : {A : Type ℓ} → Phase → A → Phase → Type 0
Always p a q = q ≡ p

-- The loop goes on where the stream is open, and an onboarding has answered for good.
module _ {E : Type 0} where
  abbrev Allowed : Next E → Phase → Type 0
  Allowed again q = q ≡ ready
  Allowed (closed e) q = Unit
  Allowed (onboarded host) q = q ≡ over

  -- Where there is no error, the phase is `q`.
  abbrev Reaches : Phase → Option E → Phase → Type 0
  Reaches q none p = p ≡ q
  Reaches q (some e) p = Unit

  -- The same for the result of the whole handler: none while it waits.
  abbrev pub Waits : Option (Option E) → Phase → Type 0
  Waits none q = q ≡ ready
  Waits (some e) q = Unit

module _ {E : Type 0} (env : Env E) where
  send-Keeps :
      (r : OnboardNodeStreamResponse) (q : Phase)
      → Turn busy (stream_send r) q
      → Keeps busy (send_onboard_stream_response env r) (Always q)
  send-Keeps r q t = record { at = λ h. (q, turn start t, refl) }

  -- an answer that ends the loop
  last-Keeps :
      (r : OnboardNodeStreamResponse) (q : Phase)
      → Turn busy (stream_send r) q
      → Keeps busy (send_onboard_stream_response env r >>= Stream.return env) Allowed
  last-Keeps r q t =
      Keeps-bind busy (send_onboard_stream_response env r) _ (Always q) _ (send-Keeps r q t)
        λ e p same. Keeps-pure p (closed e) Allowed tt

  refusal-Keeps :
      (c : Code) (m : String)
      → c ≢ not_found
      → Keeps busy (send_stream_error_response env c m >>= Stream.return env) Allowed
  refusal-Keeps c m n = last-Keeps (error_response c m) over (refuse c m n)

  unless_failed-Keeps :
      (p : Phase) (next : Next E)
      → Allowed next p
      → (e : Option E) (q : Phase) → Reaches p e q
      → Keeps q (unless_failed env next e) Allowed
  unless_failed-Keeps p next a none q l =
      subst (λ x. Keeps x (pure next) Allowed) (sym l) (Keeps-pure p next Allowed a)
  unless_failed-Keeps p next a (some e) q l = Keeps-pure q (closed (some e)) Allowed tt

  stop_on-Keeps :
      (q : Phase) (k : Act (Option E))
      → Keeps q k (Reaches q)
      → (e : Option E) (p : Phase) → p ≡ q
      → Keeps p (Act.stop_on k e) (Reaches q)
  stop_on-Keeps q k keeps none p same = subst (λ x. Keeps x k (Reaches q)) (sym same) keeps
  stop_on-Keeps q k keeps (some e) p same = Keeps-pure p (some e) (Reaches q) tt

  reaches : (q : Phase) (e : Option E) (p : Phase) → p ≡ q → Reaches q e p
  reaches q none p same = same
  reaches q (some e) p same = tt

  -- silent calls after an answer
  quiet-Keeps :
      (q : Phase) (m : Act (Option E)) → Makes (λ c. is_silent c ≡ true) m → Keeps q m (Reaches q)
  quiet-Keeps q m s = Keeps-weaken q m (Always q) (Reaches q) (reaches q) (Keeps-silent q m s)

  -- an answer, and a silent update if it could be sent
  answer-Keeps :
      (r : OnboardNodeStreamResponse) (q : Phase) (k : Act (Option E))
      → Turn busy (stream_send r) q
      → Makes (λ c. is_silent c ≡ true) k
      → Keeps busy (send_onboard_stream_response env r and_then k) (Reaches q)
  answer-Keeps r q k t s =
      Keeps-bind busy (send_onboard_stream_response env r) (Act.stop_on k) (Always q) (Reaches q)
        (send-Keeps r q t) (stop_on-Keeps q k (quiet-Keeps q k s))

  registered-Keeps :
      (x : HostResource) (req : OnboardNodeStreamRequest)
      → Keeps busy (handle_registered_state env x req) (Reaches ready)
  unfolding handle_registered_state
  registered-Keeps x req =
      answer-Keeps (registered_response x) ready _ (register x)
        (update_host_reg_state-Makes env x.tenant_id x.resource_id (λ fs r. refl) _ _ _ _)

  value_or-Keeps :
      (k : String × String → Act (Option E))
      → ((c : String × String) → Keeps busy (k c) (Reaches over))
      → (r : Result E (String × String)) (p : Phase) → p ≡ busy
      → Keeps p (Act.value_or k r) (Reaches over)
  value_or-Keeps k keeps (ok c) p same =
      subst (λ x. Keeps x (k c) (Reaches over)) (sym same) (keeps c)
  value_or-Keeps k keeps (err e) p same = Keeps-pure p (some e) (Reaches over) tt

  onboarded-Keeps :
      (x : HostResource) (req : OnboardNodeStreamRequest)
      → Keeps busy (handle_onboarded_state env x req) (Reaches over)
  unfolding handle_onboarded_state
  onboarded-Keeps x req =
      Keeps-bind busy (fetch_client_secret env x.tenant_id x.uuid) _ (Always busy) (Reaches over)
        (Keeps-silent busy (fetch_client_secret env x.tenant_id x.uuid)
          (fetch_client_secret-Makes env x.tenant_id x.uuid refl refl refl refl))
        (value_or-Keeps _ λ c.
          answer-Keeps (onboarded_response x c) over _ (admit x c)
            (update_onboarded-Makes env x.tenant_id x.resource_id (λ fs r. refl) _ _ _ _))

  desired-Keeps :
      (x : HostResource) (req : OnboardNodeStreamRequest) (s : HostState)
      → Keeps busy (on_desired_state env x req s) Allowed
  unfolding on_desired_state
  desired-Keeps x req HostState.registered =
      Keeps-bind busy (handle_registered_state env x req) _ (Reaches ready) Allowed
        (registered-Keeps x req) (unless_failed-Keeps ready again refl)
  desired-Keeps x req HostState.onboarded =
      Keeps-bind busy (handle_onboarded_state env x req) _ (Reaches over) Allowed
        (onboarded-Keeps x req) (unless_failed-Keeps over (onboarded x) refl)
  desired-Keeps x req HostState.unspecified = refusal-Keeps failed_precondition _ (ground arith)
  desired-Keeps x req HostState.deleted = refusal-Keeps failed_precondition _ (ground arith)
  desired-Keeps x req HostState.untrusted = refusal-Keeps failed_precondition _ (ground arith)
  desired-Keeps x req (HostState.unnamed n) = refusal-Keeps failed_precondition _ (ground arith)

  host-Keeps :
      (x : HostResource) (req : OnboardNodeStreamRequest) → Keeps busy (on_host env x req) Allowed
  unfolding on_host
  host-Keeps x req =
      Keeps-if busy (is_settled x) _ _ Allowed (refusal-Keeps failed_precondition _ (ground arith))
        (desired-Keeps x req x.desired_state)

  result-Keeps :
      (req : OnboardNodeStreamRequest) (r : Result E HostResource)
      → Keeps busy (on_lookup env req r) Allowed
  unfolding on_lookup
  result-Keeps req (ok x) = host-Keeps x req
  result-Keeps req (err e) =
      Keeps-if busy (env.is_not_found (some e)) _ _ Allowed
        (Keeps-bind busy (send_stream_error_response env not_found "Device not found") _
          (Always ready) Allowed (send-Keeps _ ready (unknown "Device not found"))
          λ f q s. unless_failed-Keeps ready again refl f q (reaches ready f q s))
        (refusal-Keeps internal _ (ground arith))

  lookup-Keeps :
      (req : OnboardNodeStreamRequest) (r : Result E HostResource) (p : Phase)
      → p ≡ busy
      → Keeps p (on_lookup env req r) Allowed
  lookup-Keeps req r p same =
      subst (λ x. Keeps x (on_lookup env req r) Allowed) (sym same) (result-Keeps req r)

  look_up-Keeps : (req : OnboardNodeStreamRequest) → Keeps busy (look_up env req) Allowed
  unfolding look_up
  look_up-Keeps req =
      Keeps-bind busy (get_host_of_request env req) _ (Always busy) Allowed
        (Keeps-silent busy (get_host_of_request env req)
          (get_host_of_request-Makes env (λ f. refl) (λ t id fs x. refl) req))
        (lookup-Keeps req)

  validation-Keeps :
      (req : OnboardNodeStreamRequest) (v : Option ValidationError)
      → Keeps busy (on_validation env req v) Allowed
  unfolding on_validation
  validation-Keeps req none = look_up-Keeps req
  validation-Keeps req (some v) =
      Keeps-if busy (serial_number_validation_error v) _ _ Allowed
        (look_up-Keeps (record req { serialnum = Stream.serial_num_not_available }))
        (refusal-Keeps invalid_argument _ (ground arith))

  request-Keeps : (req : OnboardNodeStreamRequest) → Keeps busy (handle_request env req) Allowed
  unfolding handle_request
  request-Keeps req = validation-Keeps req (validate_onboard_node_stream_request false req)

  go_on-Keeps :
      (rest : Act (Next E))
      → Keeps ready rest Allowed
      → (n : Next E) (p : Phase) → Allowed n p
      → Keeps p (go_on env rest n) Allowed
  go_on-Keeps rest k again p a = subst (λ x. Keeps x rest Allowed) (sym a) k
  go_on-Keeps rest k (closed e) p a = Keeps-pure p (closed e) Allowed tt
  go_on-Keeps rest k (onboarded x) p a = Keeps-pure p (onboarded x) Allowed a

  received-Keeps :
      (r : Result E OnboardNodeStreamRequest) (rest : Act (Next E))
      → Keeps ready rest Allowed
      → (u : Unit {0}) (p : Phase) → p ≡ busy
      → Keeps p (on_received env r rest) Allowed
  unfolding on_received
  received-Keeps (err e) rest k u p same = Keeps-pure p _ Allowed tt
  received-Keeps (ok req) rest k u p same =
      subst (λ x. Keeps x (handle_request env req >>= go_on env rest) Allowed) (sym same)
        (Keeps-bind busy (handle_request env req) (go_on env rest) Allowed Allowed
          (request-Keeps req) (go_on-Keeps rest k))

  receive-Keeps : Keeps ready Stream.stream_receive (Always busy)
  receive-Keeps = record { at = λ h. (busy, turn start receive, refl) }

  serve-Keeps :
      (received : List (Result E OnboardNodeStreamRequest))
      → Keeps ready (serve env received) Allowed
  unfolding serve
  serve-Keeps [] = Keeps-pure ready again Allowed refl
  serve-Keeps (r ∷ rs) =
      Keeps-bind ready Stream.stream_receive _ (Always busy) Allowed receive-Keeps
        (received-Keeps r (serve env rs) (serve-Keeps rs))

  finish-Keeps :
      (api : Bool) (n : Next E) (p : Phase) → Allowed n p → Keeps p (finish env api n) Waits
  finish-Keeps api again p a = Keeps-pure p none Waits a
  finish-Keeps api (closed e) p a = Keeps-pure p (some e) Waits tt
  finish-Keeps api (onboarded x) p a =
      Keeps-bind p (start_zero_touch env api x.tenant_id x.resource_id) _ (Always p) Waits
        (Keeps-silent p (start_zero_touch env api x.tenant_id x.resource_id) (
          start_zero_touch-Makes env api (λ f. refl) x.tenant_id x.resource_id (λ y. refl)
            (λ y. refl) (λ y. refl)))
        λ e q same. Keeps-pure q (some none) Waits tt

  -- Over any inventory, any failure and anything that an edge node sends, the handler of a stream makes
  -- its calls of the stream as the protocol has them: each request gets at most one answer, before the
  -- next is received; after `NotFound` or a registration the stream stays open, and after an
  -- onboarding or any other error nothing is received or sent. While it waits for a request, every
  -- request so far has been answered and the stream is open.
  pub stream_follows_protocol :
      (has_api : Bool) (received : List (Result E OnboardNodeStreamRequest)) (h : History)
      → (q : Phase) × Plays ready h q (onboard_node_stream env has_api received h).1
        × Left Waits (onboard_node_stream env has_api received h).0 q
  unfolding onboard_node_stream
  stream_follows_protocol api received h =
      (Keeps-bind ready (serve env received) (finish env api) Allowed Waits (serve-Keeps received)
          (finish-Keeps api)).at
        h
