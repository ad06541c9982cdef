-- ===== src/Reconcilers/Host/Invalidation.antt =====
-- When a host is marked untrusted (host.go).
use infra_onboarding.Prelude.{
  ◌≡◌, refl, sym, ◌∙◌, false, none, some, List, [], ◌∷◌, nat_eq, ℕ, arith, Option-cases, zero, suc,
  inl, inr,
}
use infra_onboarding.Api.Enums.{HostState}
use infra_onboarding.Api.Resources.{HostResource, zero_host}
use infra_onboarding.Api.Errors.{invalid_argument}
use infra_onboarding.Api.Calls.{Field, History, revoke_credentials}
use infra_onboarding.Api.Env.{Env}
use infra_onboarding.Act.{done}
use infra_onboarding.Act.Past.{Passes}
use infra_onboarding.Status.{
  authorization_status_invalidated, onboarding_status_unknown, host_registration_unknown,
}
use infra_onboarding.Inventory.{update_host}
use infra_onboarding.Inventory.Setters.{update_host_state_and_runtime_status}
use infra_onboarding.Inventory.Sent.{Sent, update_host-Sent}
use infra_onboarding.Reconcilers.Host.{invalidate_host}

-- the message that marks the host untrusted at a time
abbrev pub untrusted_host : HostResource → ℕ → HostResource
untrusted_host host time = record zero_host {
  resource_id = host.resource_id;
  current_state = HostState.untrusted;
  host_status = authorization_status_invalidated.status;
  host_status_indicator = authorization_status_invalidated.status_indicator;
  host_status_timestamp = time;
  onboarding_status = onboarding_status_unknown.status;
  onboarding_status_indicator = onboarding_status_unknown.status_indicator;
  registration_status = host_registration_unknown.status;
  registration_status_indicator = host_registration_unknown.status_indicator;
}

abbrev pub untrusted_fields : List Field
untrusted_fields =
    Field.current_state ∷ Field.host_status ∷ Field.host_status_indicator
    ∷ Field.host_status_timestamp ∷ Field.onboarding_status ∷ Field.onboarding_status_indicator
    ∷ Field.registration_status ∷ Field.registration_status_indicator ∷ []

module _ {E : Type 0} (env : Env E) (host : HostResource) where
  no_time :
      (h : History)
      → update_host_state_and_runtime_status env host.tenant_id (untrusted_host host 0) h ≡ (
        done (
            some (
              env.errorfc invalid_argument
                "Missing mandatory host status fields during host status update")),
        h,
      )
  unfolding update_host_state_and_runtime_status
  no_time h = refl

  some_time :
      (time : ℕ) (h : History)
      → nat_eq time 0 ≡ false
      → update_host_state_and_runtime_status env host.tenant_id (untrusted_host host time) h
        ≡ update_host env host.tenant_id (untrusted_host host time) untrusted_fields h
  unfolding update_host_state_and_runtime_status
  some_time time h e = rw e

  stamped :
      (time : ℕ) (h g : History)
      → Passes
          (update_host_state_and_runtime_status env host.tenant_id (untrusted_host host time))
          h
          g
      → Sent env host.tenant_id (untrusted_host host time) untrusted_fields h g
  stamped zero h g q = let p = sym (no_time h) ∙ q in absurd (cc)
  stamped (suc n) h g q =
      update_host-Sent env host.tenant_id (untrusted_host host (suc n)) Field.current_state _ h g
        (sym (some_time (suc n) h (ground arith)) ∙ q)

  not_revoked :
      (h : History) (e : E)
      → env.outcome h (revoke_credentials host.tenant_id host.uuid) ≡ some e
      → invalidate_host env host h
        ≡ (done (some e), revoke_credentials host.tenant_id host.uuid ∷ h)
  unfolding invalidate_host
  not_revoked h e r = rw r

  then_marked :
      (h : History)
      → env.outcome h (revoke_credentials host.tenant_id host.uuid) ≡ none
      → let g = revoke_credentials host.tenant_id host.uuid ∷ h in
        invalidate_host env host h
        ≡ update_host_state_and_runtime_status env host.tenant_id
            (untrusted_host host (env.now g))
            g
  unfolding invalidate_host
  then_marked h r = rw r

  -- If a host is invalidated with no error, then its credentials were revoked first, with no error, and
  -- the one other call marked the host untrusted, with the statuses that go with it, and was answered
  -- with no error.
  pub invalidate_host_completes :
      (h g : History)
      → Passes (invalidate_host env host) h g
      → let revocation = revoke_credentials host.tenant_id host.uuid in
        (env.outcome h revocation ≡ none)
        × Sent env host.tenant_id
            (untrusted_host host (env.now (revocation ∷ h)))
            untrusted_fields
            (revocation ∷ h)
            g
  invalidate_host_completes h g q =
      let revocation = revoke_credentials host.tenant_id host.uuid in
      elim (Option-cases (env.outcome h revocation)) [
        | inl r ↦
            (r, stamped (env.now (revocation ∷ h)) (revocation ∷ h) g (sym (then_marked h r) ∙ q))
        | inr (e, r) ↦ let p = sym (not_revoked h e r) ∙ q in absurd (cc)
      ]
