-- ===== src/Southbound/ZeroTouch/Outcome.antt =====
-- What zero touch does with a host, by its instance (grpc_server.go).
use infra_onboarding.Prelude.{
  ◌≡◌, refl, ◌⊎◌, inl, inr, Bool-cases, String, Bool, true, false, Option, none, some, ◌∷◌, ◌==◌,
  string_has_eq, if◌then◌else◌,
}
use infra_onboarding.Api.Enums.{InstanceState, instance_state_eq}
use infra_onboarding.Api.Resources.{HostResource, InstanceEdge, ProviderConfig}
use infra_onboarding.Api.Errors.{Result, ok, err}
use infra_onboarding.Api.Calls.{History, internal_event}
use infra_onboarding.Api.Env.{Env}
use infra_onboarding.Act.{Outcome, done, panic, Act, pure, panics, continue, value_or, ◌>>◌}
use infra_onboarding.Act.Makes.{Extends, Extends-trans, Makes-bind, Makes-panics}
use infra_onboarding.Inventory.{get_host_resource_by_resource_id}
use infra_onboarding.Inventory.Lookups.{
  default_provider_name, get_provider_config, send_internal_event,
}
use infra_onboarding.Inventory.Lookups.Asks.{get_provider_config-Makes}
use infra_onboarding.Southbound.ZeroTouch.{
  instance_of, desired_security_feature, check_n_create_instance, with_provider_config, on_instance,
  unless_skipped, start_zero_touch,
}
use infra_onboarding.Southbound.ZeroTouch.Asks.{feature-Makes}
use infra_onboarding.Southbound.ZeroTouch.Grown.{IsRead, finds, gets, Grown, kept, check-Grown}

module _ {E : Type 0} where
  -- The calls after the read of the host at `g`, by what was read.
  pub data Touched (t : String) (g : History)
      : Outcome (Result E (Option HostResource)) → History → Type 0 where
    stuck : Touched t g panic g
    unread : {e : E} → Touched t g (done (err e)) g
    missing : {k : History} → Extends (IsRead t) g k → Touched t g (done (ok none)) k
    grown :
        {k : History} {host : HostResource}
        → host.instance ≡ none
        → Grown t host g k
        → Touched t g (done (ok (some host))) k
    runs :
        {host : HostResource} {i : InstanceEdge}
        → host.instance ≡ some i
        → (i.current_state == InstanceState.running) ≡ true
        → Touched t g (done (ok (some host))) g
    notified :
        {host : HostResource} {i : InstanceEdge}
        → host.instance ≡ some i
        → (i.current_state == InstanceState.running) ≡ false
        → Touched t g (done (ok (some host))) (internal_event t i.resource_id ∷ g)

module _ {E : Type 0} (env : Env E) (api : Bool) (t id : String) where
  nothing_created :
      (x : Option HostResource) (g k : History)
      → instance_of x ≡ none
      → Extends (IsRead t) g k
      → Touched {E = E} t g (done (ok x)) k
  nothing_created none g k n e = missing e
  nothing_created (some host) g k n e = grown n (kept e)

  abbrev no_error : Act (Option E)
  no_error = pure none

  abbrev fatal : Act (Option E)
  fatal = panics

  no_host :
      (b : Bool) (c : ProviderConfig) (g k : History)
      → Extends (IsRead t) g k
      → Touched {E = E} t g
          (done (ok none))
          ((if b then (desired_security_feature env api t c >> fatal) else no_error) k).1
  no_host true c g k e = missing (
      Extends-trans e (
        (Makes-bind (desired_security_feature env api t c) (λ x. fatal)
            (feature-Makes env api t (λ y. gets) c) λ x. Makes-panics).at
          k))
  no_host false c g k e = missing e

  config-Touched :
      (x : Option HostResource) (o : Outcome (Result E ProviderConfig)) (g k : History)
      → instance_of x ≡ none
      → Extends (IsRead t) g k
      → Touched {E = E} t g (done (ok x)) (continue (with_provider_config env api t x) (o, k)).1
  unfolding check_n_create_instance
  config-Touched none (done (ok c)) g k n e = no_host c.auto_provision c g k e
  config-Touched (some host) (done (ok c)) g k n e = grown n (check-Grown env api t host c g k e)
  config-Touched x (done (err f)) g k n e = nothing_created x g k n e
  config-Touched x panic g k n e = nothing_created x g k n e

  event-Touched :
      (b : Bool) (host : HostResource) (i : InstanceEdge) (g : History)
      → host.instance ≡ some i
      → (i.current_state == InstanceState.running) ≡ b
      → Touched {E = E} t g
          (done (ok (some host)))
          ((if b then no_error else (send_internal_event env t i.resource_id >> no_error)) g).1
  unfolding send_internal_event
  event-Touched true host i g n s = runs n s
  event-Touched false host i g n s = notified n s

  instance-Touched :
      (x : Option HostResource) (i : Option InstanceEdge) (g : History)
      → instance_of x ≡ i
      → Touched {E = E} t g (done (ok x)) (on_instance env api t x i g).1
  unfolding on_instance
  instance-Touched x none g n =
      let o = get_provider_config env t default_provider_name g in
      config-Touched x o.0 g o.1 n
        ((get_provider_config-Makes env (λ f. finds) t default_provider_name).at g)
  instance-Touched none (some i) g n = absurd (cc)
  instance-Touched (some host) (some i) g n = event-Touched _ host i g n refl

  host-Touched :
      (o : Outcome (Result E (Option HostResource))) (g : History)
      → Touched t g o (continue (value_or λ x. on_instance env api t x (instance_of x)) (o, g)).1
  host-Touched (done (ok x)) g = instance-Touched x (instance_of x) g refl
  host-Touched (done (err e)) g = unread
  host-Touched panic g = stuck

  -- Zero touch where OS provisioning is skipped, and where it is not.
  abbrev pub Touches : History → Type 0
  Touches h =
      (((env.infra_config h).skip_os_provisioning ≡ true)
        × (start_zero_touch env api t id h ≡ (done none, h)))
      ⊎ (((env.infra_config h).skip_os_provisioning ≡ false)
          × (let read = get_host_resource_by_resource_id env t id h in
              Touched t read.1 read.0 (start_zero_touch env api t id h).1))

  -- Zero touch makes no call where OS provisioning is skipped. Otherwise it reads the host first, and does
  -- nothing more where that fails. A host whose instance runs is left alone, and one whose instance does
  -- not run has the internal event sent that has this instance reconciled, and only that. For a host
  -- without an instance, or where no host comes back, nothing is done but reads and, for a host, as the
  -- last call, at most the creation of one instance, in this tenant, on this host, that is to run.
  pub start_zero_touch-Touches : (h : History) → Touches h
  unfolding start_zero_touch unless_skipped
  start_zero_touch-Touches h = elim (Bool-cases (env.infra_config h).skip_os_provisioning) [
    | inl s ↦ inl (s, rw s refl)
    | inr s ↦
        let read = get_host_resource_by_resource_id env t id h in
        inr (s, rw s (host-Touched read.0 read.1))
  ]
