-- ===== src/DeviceDiscovery/Registered.antt =====
-- What a registration by CreateNodes that succeeds has done (device-discovery.go).
use infra_onboarding.Prelude.{
  format, decimal, ℕ, zero, suc, ◌≡◌, ◌≢◌, refl, sym, ap, subst, String, Bool, true, false, Option,
  none, some, [], ◌∷◌, ◌==◌, distinct, string_has_eq, if◌then◌else◌,
}
use infra_onboarding.Api.Errors.{Result, ok, err}
use infra_onboarding.Api.Calls.{History, write_file, node_create}
use infra_onboarding.Api.Env.{Env}
use infra_onboarding.Act.{Outcome, done, panic, Act, pure, continue, ◌>>=◌, ◌and_then◌, ◌on_value◌}
use infra_onboarding.Act.Past.{and_then-split, on_value-split, Passes}
use infra_onboarding.Onboardingmgr.{CreateNodesResponse, OnboardNodeStreamRequest}
use infra_onboarding.DeviceDiscovery.{project_id_path, save_to_file}
use infra_onboarding.DeviceDiscovery.Onboard.{
  returned, wrapped_error, on_create, grpc_infra_onboard_node_jwt, after_attempt, attempts,
  load_certs, read_token, dial_server, call_create_nodes, create_request,
}

-- The last call has saved a project ID.
pub record Saved (g : History) : Type 0 where
  pub project : String
  pub before : History
  pub is_set : project ≢ ""
  pub last_call : g ≡ write_file project_id_path project ∷ before

module _ {E : Type 0} (env : Env E) where
  created-Saved :
      (r : CreateNodesResponse) (b : Bool) (h g : History)
      → (r.project_id == "") ≡ b
      → (if b
            then pure (some (env.fmt_errorf "received empty Project ID"))
            else (save_to_file env project_id_path r.project_id >>= λ e.
                pure (wrapped_error env "failed to save Project ID to file" e)))
          h
        ≡ (done none, g)
      → Saved g
  created-Saved r true h g e q = absurd (cc)
  created-Saved r false h g e q = record {
    project = r.project_id;
    before = h;
    is_set = distinct r.project_id "" e;
    last_call = sym (ap (λ p. p.1) q);
  }

  create-Saved :
      (r : Result E CreateNodesResponse) (h g : History)
      → on_create env r h ≡ (done none, g)
      → Saved g
  unfolding on_create
  create-Saved (err e) h g q = absurd (cc)
  create-Saved (ok r) h g q = created-Saved r _ h g refl q

  pub jwt-Saved :
      (address : String) (port : ℕ) (node : OnboardNodeStreamRequest) (ca path : String)
      (h g : History)
      → Passes (grpc_infra_onboard_node_jwt env address port node ca path) h g
      → Saved g
  unfolding grpc_infra_onboard_node_jwt
  jwt-Saved address port node ca path h g q =
      let dial = λ (token : String).
        dial_server env (format (address ∷ ":" ∷ decimal port ∷ [])) token
        and_then call_create_nodes env node in
      let (h1, p1, q1) =
        and_then-split (load_certs env ca) (read_token env path on_value dial) h g q in
      let (token, h2, p2, q2) = on_value-split (read_token env path) dial h1 g q1 in
      let (h3, p3, q3) =
        and_then-split (dial_server env (format (address ∷ ":" ∷ decimal port ∷ [])) token)
          (call_create_nodes env node) h2 g q2 in
      create-Saved (env.created h3 (node_create (create_request node))) _ g q3

  again-Saved :
      (update : Act (Option E)) (left : ℕ) (o : Outcome (Option E)) (h g : History)
      → ((f : History) → attempts env update left f ≡ (done returned, g) → Saved g)
      → (o ≡ done none → Saved h)
      → continue (after_attempt env left (attempts env update left)) (o, h) ≡ (done returned, g)
      → Saved g
  again-Saved update left panic h g again s q = absurd (cc)
  again-Saved update left (done none) h g again s q = subst Saved (ap (λ p. p.1) q) (s refl)
  again-Saved update zero (done (some e)) h g again s q = again h q
  again-Saved update (suc left) (done (some e)) h g again s q = again _ q

  pub attempts-Saved :
      (update : Act (Option E)) (n : ℕ) (h g : History)
      → ((f k : History) → Passes update f k → Saved k)
      → attempts env update n h ≡ (done returned, g)
      → Saved g
  unfolding attempts
  attempts-Saved update zero h g s q = absurd (cc)
  attempts-Saved update (suc left) h g s q =
      again-Saved update left (update h).0 (update h).1 g
        (λ f r. attempts-Saved update left f g s r) (λ e. s h (update h).1 (cc)) q
