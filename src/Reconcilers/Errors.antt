-- ===== src/Reconcilers/Errors.antt =====
-- What the controller is told after an error (reconciler.go).
use infra_onboarding.Prelude.{◌≡◌, refl, ◌↔◌, ◌≢◌, true, false, Option, none, some, arith}
use infra_onboarding.Api.Errors.{IsLawful, aborted, code_eq}
use infra_onboarding.Api.Env.{Env}
use infra_onboarding.Reconcilers.{fail, handle_inventory_error, handle_provisioning_error}

module _ {E : Type 0} (env : Env E) (lawful : IsLawful env.errors) where
  inventory_nil : handle_inventory_error env none ≡ none
  unfolding handle_inventory_error
  inventory_nil = ground (arith, lawful)

  provisioning_nil : handle_provisioning_error env none ≡ none
  unfolding handle_provisioning_error
  provisioning_nil = ground (arith, lawful)

  inventory_some : (e : E) → handle_inventory_error env (some e) ≢ none
  unfolding handle_inventory_error
  inventory_some e = ground arith

  provisioning_some : (e : E) → handle_provisioning_error env (some e) ≢ none
  unfolding handle_provisioning_error
  provisioning_some e = ground arith

  -- After an inventory call reconciliation goes on exactly when the call gave no error.
  pub inventory_goes_on : (e : Option E) → (handle_inventory_error env e ≡ none) ↔ (e ≡ none)
  inventory_goes_on none = (λ _. refl, λ _. inventory_nil)
  inventory_goes_on (some e) = (λ h. absurd (inventory_some e h), λ h. cc)

  -- After provisioning reconciliation goes on exactly when there was no error.
  pub provisioning_goes_on : (e : Option E) → (handle_provisioning_error env e ≡ none) ↔ (e ≡ none)
  provisioning_goes_on none = (λ _. refl, λ _. provisioning_nil)
  provisioning_goes_on (some e) = (λ h. absurd (provisioning_some e h), λ h. cc)

module _ {E : Type 0} (env : Env E) where
  -- A request fails for good exactly on a status error that is not in progress and has the code
  -- ABORTED, and only provisioning can make it fail.
  pub fails_iff_aborted :
      (e d : E)
      → ((handle_provisioning_error env (some e) ≡ some (fail d)) ↔ (
          (e ≡ d)
          × (env.from_error (some e) ≡ true)
          × (env.is_operation_in_progress (some e) ≡ false)
          × (env.code (some e) ≡ aborted)))
        × (handle_inventory_error env (some e) ≢ some (fail d))
  unfolding handle_provisioning_error handle_inventory_error
  fails_iff_aborted e d = ((λ h. ground arith, λ h. ground arith), λ h. ground arith)
