-- ===== src/Inventory/Registration/Asks.antt =====
-- The updates of registration and onboarding write to the one host that they are given (invclient.go).
use infra_onboarding.Prelude.{String, List, string_has_eq}
use infra_onboarding.Api.Enums.{HostState, instance_state_eq}
use infra_onboarding.Api.Resources.{Resource}
use infra_onboarding.Api.Calls.{Call, Field, inv_update}
use infra_onboarding.Api.Env.{Env}
use infra_onboarding.Act.Makes.{Makes}
use infra_onboarding.Status.{ResourceStatus}
use infra_onboarding.Inventory.Updates.{update_host-Makes}
use infra_onboarding.Inventory.Registration.{
  update_host_reg_state, update_host_current_state_n_onboard_status,
}

module _ {ℓ} {E : Type 0} (env : Env E) {P : Call → Type ℓ} (t id : String)
    (updates : (fs : List Field) (x : Resource) → P (inv_update t id fs x)) where
  pub update_host_reg_state-Makes :
      (c : HostState) (ip mac : String) (s : ResourceStatus)
      → Makes P (update_host_reg_state env t id c ip mac s)
  unfolding update_host_reg_state
  update_host_reg_state-Makes c ip mac s = record {
    at = λ h. (update_host-Makes env t _ _ (updates _)).at h;
  }

  pub update_onboarded-Makes :
      (ip mac : String) (c : HostState) (s : ResourceStatus)
      → Makes P (update_host_current_state_n_onboard_status env t id ip mac c s)
  unfolding update_host_current_state_n_onboard_status
  update_onboarded-Makes ip mac c s = record {
    at = λ h. (update_host-Makes env t _ _ (updates _)).at h;
  }
