-- ===== src/Reconcilers/Instance/Guards.antt =====
-- Which instances are acknowledged without a single call (instance.go).
use infra_onboarding.Prelude.{
  ◌≡◌, sym, ◌∙◌, ◌≢◌, ◌⊎◌, inl, inr, String, false, none, some, string_has_eq, ==-true, ==-false,
  arith, Option-cases,
}
use infra_onboarding.Api.Enums.{
  HostState, InstanceState, StatusIndication, host_state_eq, instance_state_eq, indication_eq,
}
use infra_onboarding.Api.Resources.{InstanceResource}
use infra_onboarding.Api.Calls.{History}
use infra_onboarding.Api.Env.{Env}
use infra_onboarding.Act.{done}
use infra_onboarding.Reconcilers.{ack, or_else}
use infra_onboarding.Reconcilers.Device.{host_provider, host_current_state, host_desired_state}
use infra_onboarding.Reconcilers.Provision.{reconcile_instance}
use infra_onboarding.Reconcilers.Instance.{
  is_host_deauthorized, is_provisioning_unfinished, handle_host_deauthorized,
  handle_matching_states, handle_provider_specific_rm, handle_error_state, handle_host_onboarded,
  after, reconcile_found,
}

-- Neither the current nor the desired state of the host is UNTRUSTED, or the instance is not to run.
abbrev pub IsAuthorized : InstanceResource → Type 0
IsAuthorized i =
    (host_current_state i.host ≢ HostState.untrusted)
      × (host_desired_state i.host ≢ HostState.untrusted)
    ⊎ (i.desired_state ≢ InstanceState.running)

abbrev pub IsProvisioned : InstanceResource → Type 0
IsProvisioned i =
    (i.current_state ≢ InstanceState.running)
    ⊎ (i.provisioning_status_indicator ≡ StatusIndication.idle)
    ⊎ (i.provisioning_status ≡ "Provisioned")

pub data IsSettled (i : InstanceResource) : Type 0 where
  -- another manager takes care of the host
  provided : {name : String} → host_provider i.host ≡ some name → IsSettled i
  -- provisioning has failed, and the instance is not to be deleted
  failed :
      i.provisioning_status_indicator ≡ StatusIndication.error
      → i.desired_state ≢ InstanceState.deleted
      → IsSettled i
  -- the desired state is reached, and provisioning is done if it is RUNNING
  reached : IsAuthorized i → i.desired_state ≡ i.current_state → IsProvisioned i → IsSettled i
  -- the instance is to run, but its host is not onboarded
  waiting :
      IsAuthorized i
      → i.desired_state ≡ InstanceState.running
      → i.current_state ≢ InstanceState.running
      → host_current_state i.host ≢ HostState.onboarded
      → IsSettled i

authorized : (i : InstanceResource) → IsAuthorized i → is_host_deauthorized i ≡ false
unfolding is_host_deauthorized
authorized i h = ground arith

finished : (i : InstanceResource) → IsProvisioned i → is_provisioning_unfinished i ≡ false
unfolding is_provisioning_unfinished
finished i h = ground (arith, string_has_eq.equals_iff i.provisioning_status "Provisioned")

module _ {E : Type 0} (env : Env E) where
  deauthorized_passes :
      (i : InstanceResource) (h : History)
      → IsAuthorized i
      → handle_host_deauthorized env i h ≡ (done none, h)
  unfolding handle_host_deauthorized
  deauthorized_passes i h a = rw (authorized i a)

  error_stops :
      (i : InstanceResource)
      → i.provisioning_status_indicator ≡ StatusIndication.error
      → i.desired_state ≢ InstanceState.deleted
      → handle_error_state env i ≡ some ack
  unfolding handle_error_state
  error_stops i e d = ground arith

  provider_stops :
      (i : InstanceResource) {name : String}
      → host_provider i.host ≡ some name
      → handle_provider_specific_rm env i ≡ some ack
  unfolding handle_provider_specific_rm
  provider_stops i e = rw (e, handle_provider_specific_rm)

  matching_stops :
      (i : InstanceResource) (h : History)
      → i.desired_state ≡ i.current_state
      → IsProvisioned i
      → handle_matching_states env i h ≡ (done (some ack), h)
  unfolding handle_matching_states
  matching_stops i h e p = rw (==-true i.desired_state i.current_state e, finished i p)

  matching_passes :
      (i : InstanceResource) (h : History)
      → i.desired_state ≢ i.current_state
      → handle_matching_states env i h ≡ (done none, h)
  unfolding handle_matching_states
  matching_passes i h e = rw (==-false i.desired_state i.current_state e)

  onboarded_stops :
      (i : InstanceResource)
      → i.desired_state ≡ InstanceState.running
      → host_current_state i.host ≢ HostState.onboarded
      → handle_host_onboarded env i ≡ some ack
  unfolding handle_host_onboarded
  onboarded_stops i e n = ground arith

  -- The first two checks make no call, and acknowledge or pass.
  provider_cases :
      (i : InstanceResource)
      → (handle_provider_specific_rm env i ≡ some ack) ⊎ (handle_provider_specific_rm env i ≡ none)
  unfolding handle_provider_specific_rm
  provider_cases i = elim (Option-cases (host_provider i.host)) [
    | inl n ↦ inr (rw (n, handle_provider_specific_rm))
    | inr (name, e) ↦ inl (rw (e, handle_provider_specific_rm))
  ]

  error_cases :
      (i : InstanceResource)
      → (handle_error_state env i ≡ some ack) ⊎ (handle_error_state env i ≡ none)
  unfolding handle_error_state
  error_cases i = ground arith

  -- What the last three checks acknowledge quietly, all five do.
  past_the_first :
      (i : InstanceResource) (h : History)
      → after env
          (handle_host_deauthorized env i)
          (after env
            (handle_matching_states env i)
            (or_else (handle_host_onboarded env i) (reconcile_instance env i)))
          h
        ≡ (done ack, h)
      → reconcile_found env i h ≡ (done ack, h)
  unfolding reconcile_found
  past_the_first i h q = elim (provider_cases i) [
    | inl e ↦ rw e
    | inr e ↦ elim (error_cases i) [ inl f ↦ rw (e, f) | inr f ↦ rw (e, f) q ]
  ]

  -- An instance is acknowledged and no call is made for it: if its host has a provider; if its
  -- provisioning has failed and it is not to be deleted; and, with a host that is not untrusted or
  -- with another desired state than RUNNING, if the desired state is reached and provisioning is
  -- done, or if RUNNING is desired and not reached and the host is not onboarded.
  pub settled_is_quiet :
      (i : InstanceResource) (h : History) → IsSettled i → reconcile_found env i h ≡ (done ack, h)
  unfolding reconcile_found
  settled_is_quiet i h (provided e) = rw (provider_stops i e)
  settled_is_quiet i h (failed e d) = elim (provider_cases i) [
    | inl p ↦ rw p
    | inr p ↦ rw (p, error_stops i e d)
  ]
  settled_is_quiet i h (reached a e p) =
      past_the_first i h (rw (deauthorized_passes i h a, matching_stops i h e p))
  settled_is_quiet i h (waiting a e n o) = past_the_first i h (
      rw (
        deauthorized_passes i h a,
        matching_passes i h (λ s. n (sym s ∙ e)),
        onboarded_stops i e o,
      ))
