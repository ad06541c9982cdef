-- ===== src/Reconcilers/Host/Refusal.antt =====
-- A host that still has an instance is not deleted, unless OS provisioning is skipped (host.go).
use infra_onboarding.Prelude.{
  ◌≡◌, ◌≢◌, sym, ap, subst, ◌∙◌, String, false, Option, none, some, List, [], ◌∷◌, format, ==-true,
  ==-false,
}
use infra_onboarding.Api.Enums.{HostState, host_state_eq}
use infra_onboarding.Api.Resources.{Resource, InstanceEdge, HostResource, zero_host}
use infra_onboarding.Api.Errors.{IsLawful}
use infra_onboarding.Api.Calls.{Call, Field, History, inv_update}
use infra_onboarding.Api.Env.{Env}
use infra_onboarding.Act.{done}
use infra_onboarding.Act.Makes.{Makes, Extends, Makes-bind, Makes-pure}
use infra_onboarding.Status.{ResourceStatus, modern_host_status_deleting_with_details}
use infra_onboarding.Inventory.{update_host}
use infra_onboarding.Inventory.Setters.{set_host_status_detail}
use infra_onboarding.Inventory.Updates.{update_host-Makes, update-done}
use infra_onboarding.Reconcilers.{retry, min_delay, max_delay, handle_inventory_error}
use infra_onboarding.Reconcilers.Host.{
  refuse_deletion, check_if_instance_is_associated, delete_host, reconcile_host, reconcile_found,
}

abbrev pub still_assigned : String
still_assigned = "Instance is still assigned to host, waiting for Instance to be deleted first"

-- The three fields of the onboarding status.
abbrev pub onboarding_fields : List Field
onboarding_fields =
    Field.onboarding_status ∷ Field.onboarding_status_indicator ∷ Field.onboarding_status_timestamp
    ∷ []

-- An update of the host's onboarding status.
pub data IsDetail (host : HostResource) : Call → Type 0 where
  detail :
      {x : Resource}
      → IsDetail host (inv_update host.tenant_id host.resource_id onboarding_fields x)

module _ {E : Type 0} (env : Env E) where
  waiting-Makes :
      (host : HostResource) (i : InstanceEdge)
      → Makes (IsDetail host) (
          set_host_status_detail env host.tenant_id host.resource_id (
            modern_host_status_deleting_with_details
              (format ("waiting on " ∷ i.resource_id ∷ " deletion" ∷ []))))
  unfolding set_host_status_detail
  waiting-Makes host i = record {
    at = λ h. (update_host-Makes env host.tenant_id _ onboarding_fields (λ x. detail)).at h;
  }

  refusal-Makes :
      (host : HostResource) (i : InstanceEdge) → Makes (IsDetail host) (refuse_deletion env host i)
  unfolding refuse_deletion
  refusal-Makes host i = Makes-bind _ _ (waiting-Makes host i) λ e. Makes-pure _

  detail-done :
      (t id : String) (s : ResourceStatus) (h : History)
      → (e : Option E) × ((set_host_status_detail env t id s h).0 ≡ done e)
  unfolding set_host_status_detail update_host
  detail-done t id s h =
      update-done env t
        (Resource.host (record zero_host {
          resource_id = id;
          onboarding_status = s.status;
          onboarding_status_indicator = s.status_indicator;
          onboarding_status_timestamp = env.now h;
        }))
        onboarding_fields h

  refusal-done :
      (host : HostResource) (i : InstanceEdge) (h : History)
      → refuse_deletion env host i h
        ≡ (done (some (env.errorf still_assigned)), (refuse_deletion env host i h).1)
  unfolding refuse_deletion
  refusal-done host i h =
      let (e, q) =
        detail-done host.tenant_id host.resource_id
          (modern_host_status_deleting_with_details
            (format ("waiting on " ∷ i.resource_id ∷ " deletion" ∷ [])))
          h in
      rw q

  module _ (lawful : IsLawful env.errors) where
    refusal_retries :
        (m : String)
        → handle_inventory_error env (some (env.errorf m))
          ≡ some (retry (env.errorf m) min_delay max_delay)
    unfolding handle_inventory_error
    refusal_retries m = rw (
      lawful.from_error-errorf m,
      lawful.not_found-errorf m,
      lawful.already_exists-errorf m,
      lawful.unauthenticated-errorf m,
      lawful.permission_denied-errorf m,
    )

    -- the reconciliation is the refusal, and its error is handled
    refused :
        (host : HostResource) (i : InstanceEdge) (h : History)
        → host.provider ≡ none
        → host.desired_state ≡ HostState.deleted
        → host.current_state ≢ HostState.deleted
        → host.instance ≡ some i
        → reconcile_found env false host h ≡ (
          done (retry (env.errorf still_assigned) min_delay max_delay),
          (refuse_deletion env host i h).1,
        )
    unfolding reconcile_found reconcile_host delete_host check_if_instance_is_associated
    refused host i h p d c a = rw (
      p,
      ==-false host.desired_state host.current_state (λ e. c (sym e ∙ d)),
      ==-true host.desired_state HostState.deleted d,
      a,
      refusal-done host i h,
      refusal_retries still_assigned,
    )

    -- While OS provisioning is not skipped, a host that is to be deleted while an instance is assigned
    -- to it, and that is neither deleted nor left to a provider, is kept: nothing is called but updates
    -- of its onboarding status, and the request is retried with an error that says so.
    pub host_kept :
        (host : HostResource) (i : InstanceEdge) (h : History)
        → host.provider ≡ none
        → host.desired_state ≡ HostState.deleted
        → host.current_state ≢ HostState.deleted
        → host.instance ≡ some i
        → ((reconcile_found env false host h).0
            ≡ done (retry (env.errorf still_assigned) min_delay max_delay))
          × Extends (IsDetail host) h (reconcile_found env false host h).1
    host_kept host i h p d c a =
        let q = refused host i h p d c a in
        (
          ap (λ o. o.0) q,
          subst (λ o. Extends (IsDetail host) h o.1) (sym q) ((refusal-Makes host i).at h),
        )
