-- ===== src/Reconcilers/Host/Deletion.antt =====
-- When a host may be marked deleted (host.go).
use infra_onboarding.Prelude.{
  ◌≡◌, refl, format, subst, ◌⊎◌, inl, inr, Bool, true, false, none, some, [], ◌∷◌, Option-cases,
}
use infra_onboarding.Api.Enums.{HostState, host_state_eq}
use infra_onboarding.Api.Resources.{InstanceEdge, HostResource, zero_host}
use infra_onboarding.Api.Calls.{Field, History}
use infra_onboarding.Api.Env.{Env}
use infra_onboarding.Act.{pure, ◌>>◌}
use infra_onboarding.Act.Past.{ignoring-split, Passes, and_then-split}
use infra_onboarding.Status.{modern_host_status_deleting_with_details, deleting_status}
use infra_onboarding.Inventory.Setters.{
  update_host_current_state, delete_host_resource, set_host_status_detail,
}
use infra_onboarding.Inventory.Sent.{Sent, update_host-Sent}
use infra_onboarding.Reconcilers.Host.Objects.{Deleted, delete_host_objects-Deleted}
use infra_onboarding.Reconcilers.Host.{
  refuse_deletion, check_if_instance_is_associated, unless, delete_host_objects, delete_host,
}

module _ {E : Type 0} (env : Env E) where
  refusal_fails :
      (host : HostResource) (i : InstanceEdge) (h g : History)
      → ¬ Passes (refuse_deletion env host i) h g
  unfolding refuse_deletion
  refusal_fails host i h g q =
      let r =
        ignoring-split
          (set_host_status_detail env host.tenant_id host.resource_id (
            modern_host_status_deleting_with_details
              (format ("waiting on " ∷ i.resource_id ∷ " deletion" ∷ []))))
          (pure (
            some (
              env.errorf
                "Instance is still assigned to host, waiting for Instance to be deleted first")))
          h g q in
      absurd (cc)

  check_some :
      (host : HostResource) (i : InstanceEdge)
      → host.instance ≡ some i
      → check_if_instance_is_associated env host ≡ refuse_deletion env host i
  unfolding check_if_instance_is_associated
  check_some host i e = rw e

  no_instance :
      (skip : Bool) (host : HostResource) (h g : History)
      → Passes (unless env skip (check_if_instance_is_associated env host)) h g
      → (skip ≡ true) ⊎ (host.instance ≡ none)
  unfolding check_if_instance_is_associated
  no_instance true host h g q = inl refl
  no_instance false host h g q = elim (Option-cases host.instance) [
    | inl e ↦ inr e
    | inr (i, e) ↦
        absurd (refusal_fails host i h g (subst (λ m. Passes m h g) (check_some host i e) q))
  ]

  -- Marking the host deleted was the last call, and it was answered with no error.
  abbrev pub Marked : HostResource → History → History → Type 0
  Marked host =
      Sent env host.tenant_id
        (record zero_host { resource_id = host.resource_id; current_state = HostState.deleted })
        (Field.current_state ∷ [])

  marking :
      (host : HostResource) (h g : History)
      → Passes (delete_host_resource env host.tenant_id host.resource_id) h g
      → Marked host h g
  unfolding delete_host_resource update_host_current_state
  marking host h g q = update_host-Sent env host.tenant_id _ Field.current_state [] h g q

  -- If deleting a host gives no error, then: no instance is assigned to it, unless OS provisioning is
  -- skipped; the last call marked the host deleted and was answered with no error; before that, its
  -- credentials had been revoked, unless it was untrusted, and for each of its NICs, disks, USB
  -- devices and GPUs a deletion had succeeded or had found nothing.
  pub delete_host_completes :
      (skip : Bool) (host : HostResource) (h g : History)
      → Passes (delete_host env skip host) h g
      → ((skip ≡ true) ⊎ (host.instance ≡ none))
        × ((before : History) × Deleted env host before × Marked host before g)
  unfolding delete_host
  delete_host_completes skip host h g q =
      let detail = set_host_status_detail env host.tenant_id host.resource_id deleting_status in
      let (a, free, qa) =
        and_then-split (unless env skip (check_if_instance_is_associated env host))
          (detail >> delete_host_objects env host) h g q in
      let (before, d, m) =
        delete_host_objects-Deleted env host (detail a).1 g
          (ignoring-split detail (delete_host_objects env host) a g qa) in
      (no_instance skip host h a free, (before, d, marking host before g m))
