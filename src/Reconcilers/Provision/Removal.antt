-- ===== src/Reconcilers/Provision/Removal.antt =====
-- An instance is marked deleted only when its workflow is gone (instance.go).
use infra_onboarding.Prelude.{
  ◌≡◌, refl, ap, ◌∙◌, ◌⊎◌, inl, inr, String, true, false, none, some, [], ◌∷◌, arith,
}
use infra_onboarding.Api.Enums.{InstanceState, instance_state_eq}
use infra_onboarding.Api.Resources.{Resource, InstanceResource, zero_instance}
use infra_onboarding.Api.Errors.{ok, IsLawful}
use infra_onboarding.Api.Calls.{Field, Call, History, k8s_client, delete_workflow, inv_update}
use infra_onboarding.Api.Env.{Env}
use infra_onboarding.Act.{done}
use infra_onboarding.Onboarding.{generate_workflow_name, delete_tinkerbell_workflow_if_exists}
use infra_onboarding.Tinkerbell.{delete_workflow_if_exists}
use infra_onboarding.Inventory.{set_inventory_resource_and_id, update_instance_fields}
use infra_onboarding.Inventory.Setters.{update_instance_current_state}
use infra_onboarding.Inventory.Updates.{update_sent}
use infra_onboarding.Reconcilers.{ack, retry, min_delay, max_delay, handle_provisioning_error}
use infra_onboarding.Reconcilers.Errors.{inventory_goes_on, provisioning_goes_on}
use infra_onboarding.Reconcilers.Identity.{identity}
use infra_onboarding.Reconcilers.Provision.{
  cleanup_provisioning_resources, set_current_state, reconcile_instance,
}

module _ {E : Type 0} (env : Env E) (i : InstanceResource) where
  -- the call that deletes the workflow of the instance's host
  abbrev pub deletion : Call
  deletion = delete_workflow env.k8s_namespace (generate_workflow_name (identity i).host_uuid)

  -- The deletion of the workflow, asked for after `h`, succeeds or finds no workflow.
  abbrev pub IsGone : History → Type 0
  IsGone h =
      (env.outcome (k8s_client ∷ h) deletion ≡ none)
      ⊎ ((e : E) × (env.outcome (k8s_client ∷ h) deletion ≡ some e)
          × (env.k8s_is_not_found e ≡ true))

  -- the message that marks the instance deleted
  abbrev pub deleted_message : InstanceResource
  deleted_message = record zero_instance {
    resource_id = i.resource_id;
    current_state = InstanceState.deleted;
  }

  cleanup_gone :
      (h : History)
      → env.outcome h k8s_client ≡ none
      → IsGone h
      → cleanup_provisioning_resources env i h ≡ (done none, deletion ∷ k8s_client ∷ h)
  unfolding cleanup_provisioning_resources delete_tinkerbell_workflow_if_exists
      delete_workflow_if_exists
  cleanup_gone h c (inl g) = rw (c, g)
  cleanup_gone h c (inr (e, g, n)) = rw (c, g, n)

  cleanup_fails :
      (h : History) (e : E)
      → env.outcome h k8s_client ≡ none
      → env.outcome (k8s_client ∷ h) deletion ≡ some e
      → env.k8s_is_not_found e ≡ false
      → cleanup_provisioning_resources env i h ≡ (
        done (some (env.errorf "Failed to delete Tinkerbell Workflow")),
        deletion ∷ k8s_client ∷ h,
      )
  unfolding cleanup_provisioning_resources delete_tinkerbell_workflow_if_exists
      delete_workflow_if_exists
  cleanup_fails h e c g n = rw (c, g, n)

module _ {E : Type 0} (env : Env E) (lawful : IsLawful env.errors) where
  plain_error_retries :
      (m : String)
      → handle_provisioning_error env (some (env.errorf m))
        ≡ some (retry (env.errorf m) min_delay max_delay)
  unfolding handle_provisioning_error
  plain_error_retries m =
      ground (arith, lawful.from_error-errorf m, lawful.in_progress-errorf m, lawful.code-errorf m)

  -- If the workflow of an instance that is to be deleted cannot be deleted, the instance is not marked
  -- deleted: the two calls to Kubernetes are all that is done, and the request is retried.
  pub removal_waits :
      (i : InstanceResource) (h : History) (e : E)
      → i.desired_state ≡ InstanceState.deleted
      → env.outcome h k8s_client ≡ none
      → env.outcome (k8s_client ∷ h) (deletion env i) ≡ some e
      → env.k8s_is_not_found e ≡ false
      → reconcile_instance env i h ≡ (
        done (retry (env.errorf "Failed to delete Tinkerbell Workflow") min_delay max_delay),
        deletion env i ∷ k8s_client ∷ h,
      )
  unfolding reconcile_instance
  removal_waits i h e d c g n =
      rw (
        d,
        cleanup_fails env i h e c g n,
        plain_error_retries "Failed to delete Tinkerbell Workflow",
      )

  marked :
      (i : InstanceResource) (g : History) (sent : Resource)
      → env.mask_error (Resource.instance (deleted_message env i)) (Field.current_state ∷ []) ≡ none
      → env.filter_message (Resource.instance (deleted_message env i)) (Field.current_state ∷ [])
        ≡ ok sent
      → env.outcome g (inv_update i.tenant_id i.resource_id (Field.current_state ∷ []) sent) ≡ none
      → update_instance_current_state env i.tenant_id (deleted_message env i) g
        ≡ (done none, inv_update i.tenant_id i.resource_id (Field.current_state ∷ []) sent ∷ g)
  unfolding update_instance_current_state update_instance_fields set_inventory_resource_and_id
  marked i g sent m f o =
      update_sent env i.tenant_id (Resource.instance (deleted_message env i)) Field.current_state []
        g refl m f
      ∙ ap (λ r. (done r, inv_update i.tenant_id i.resource_id (Field.current_state ∷ []) sent ∷ g))
          o

  set_deleted :
      (i : InstanceResource) (g k : History)
      → update_instance_current_state env i.tenant_id (deleted_message env i) g ≡ (done none, k)
      → set_current_state env i InstanceState.deleted g ≡ (done ack, k)
  unfolding set_current_state
  set_deleted i g k q = rw (q, (inventory_goes_on env lawful none).1 refl)

  deleted_after :
      (i : InstanceResource) (h g k : History)
      → i.desired_state ≡ InstanceState.deleted
      → cleanup_provisioning_resources env i h ≡ (done none, g)
      → set_current_state env i InstanceState.deleted g ≡ (done ack, k)
      → reconcile_instance env i h ≡ (done ack, k)
  unfolding reconcile_instance
  deleted_after i h g k d c q = rw (d, c, (provisioning_goes_on env lawful none).1 refl) q

  -- Once the workflow of an instance that is to be deleted is gone, one update marks the instance
  -- deleted, writing no field but its current state, and the request is acknowledged if the update
  -- gives no error.
  pub removal_completes :
      (i : InstanceResource) (h : History) (sent : Resource)
      → i.desired_state ≡ InstanceState.deleted
      → env.outcome h k8s_client ≡ none
      → IsGone env i h
      → env.mask_error (Resource.instance (deleted_message env i)) (Field.current_state ∷ []) ≡ none
      → env.filter_message (Resource.instance (deleted_message env i)) (Field.current_state ∷ [])
        ≡ ok sent
      → let update = inv_update i.tenant_id i.resource_id (Field.current_state ∷ []) sent in
        let before = deletion env i ∷ k8s_client ∷ h in
        env.outcome before update ≡ none → reconcile_instance env i h ≡ (done ack, update ∷ before)
  removal_completes i h sent d c g m f o =
      deleted_after i h _ _ d (cleanup_gone env i h c g)
        (set_deleted i _ _ (marked i (deletion env i ∷ k8s_client ∷ h) sent m f o))
