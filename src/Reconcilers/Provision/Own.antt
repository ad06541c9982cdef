-- ===== src/Reconcilers/Provision/Own.antt =====
-- Provisioning and removal touch nothing but the instance, its host and their workflow (instance.go).
use infra_onboarding.Prelude.{
  ◌≡◌, refl, sym, ap, subst, ◌∙◌, String, Bool, true, false, not, Option, none, some, List, ◌==◌,
  inl, inr, Bool-cases,
}
use infra_onboarding.Api.Enums.{InstanceState, OsProviderKind, os_provider_eq, instance_state_eq}
use infra_onboarding.Api.Resources.{Resource, HostResource, InstanceResource, OsResource}
use infra_onboarding.Api.Errors.{Result, ok, err, code_eq, aborted}
use infra_onboarding.Api.Calls.{Call, Field, inv_update}
use infra_onboarding.Api.Env.{Env}
use infra_onboarding.DeviceInfo.{DeviceInfo}
use infra_onboarding.Act.{Act}
use infra_onboarding.Act.Makes.{
  Makes, Makes-pure, Makes-panics, Makes-bind, Makes-bind_result, Makes-if,
}
use infra_onboarding.Inventory.Targets.{
  set_host_status-Makes, set_host_onboarding_status-Makes, update_instance-Makes,
  update_instance_statuses-Makes, update_current-Makes,
}
use infra_onboarding.Inventory.Setters.{update_instance_current_state, update_instance_statuses}
use infra_onboarding.Onboarding.{check_status_or_run_prod_workflow}
use infra_onboarding.Onboarding.Own.{check-Own, delete-Own}
use infra_onboarding.Reconcilers.{
  Directive, or_else, ack, handle_provisioning_error, handle_inventory_error,
}
use infra_onboarding.Reconcilers.Identity.{Identity, identity, IsOwn, check-identity, convert-guid}
use infra_onboarding.Reconcilers.Device.{host_text, convert_instance_to_device_info}
use infra_onboarding.Util.{
  populate_instance_provisioning_status, populate_instance_status_and_current_state,
}
use infra_onboarding.Reconcilers.Provision.{
  cleanup_provisioning_resources, update_instance_statuses_of, when, report_host_status,
  report_onboarding_status, report_instance, update_with_hosts,
  update_host_instance_status_and_current_state, clone, deferred_update, provisioned,
  provision_device, provision_os, try_provision_instance, finish_running, set_current_state,
  reconcile_instance,
}

IsOwn-host :
    {a : Identity} {t r : String}
    → t ≡ a.host_tenant_id
    → r ≡ a.host_resource_id
    → (fs : List Field) (x : Resource) → IsOwn a (inv_update t r fs x)
IsOwn-host e f fs x = rw (e, f) IsOwn.write_host

pub or_else-Makes {ℓ} :
    {E : Type 0} {P : Call → Type ℓ} (d : Option (Directive E)) (k : Act (Directive E))
    → Makes P k
    → Makes P (or_else d k)
or_else-Makes none k p = p
or_else-Makes (some d) k p = Makes-pure d

module _ {E : Type 0} (env : Env E) where
  when-Makes {ℓ} :
      {P : Call → Type ℓ} (b : Bool) (m : Act (Option E)) → Makes P m → Makes P (when env b m)
  when-Makes true m p = p
  when-Makes false m p = Makes-pure none

  report_host-Own :
      (i : InstanceResource) (a b : HostResource)
      → i.host ≡ some b
      → Makes (IsOwn (identity i)) (report_host_status env a b)
  unfolding report_host_status
  report_host-Own i a b e = when-Makes _ _ (
      set_host_status-Makes env b.tenant_id b.resource_id
        (IsOwn-host (ap (host_text (λ h. h.tenant_id)) (sym e))
          (ap (host_text (λ h. h.resource_id)) (sym e)))
        _)

  report_onboarding-Own :
      (i : InstanceResource) (a b : HostResource)
      → i.host ≡ some b
      → Makes (IsOwn (identity i)) (report_onboarding_status env a b)
  unfolding report_onboarding_status
  report_onboarding-Own i a b e = when-Makes _ _ (
      set_host_onboarding_status-Makes env b.tenant_id b.resource_id
        (IsOwn-host (ap (host_text (λ h. h.tenant_id)) (sym e))
          (ap (host_text (λ h. h.resource_id)) (sym e)))
        _)

  report_instance-Own :
      (old i : InstanceResource) → Makes (IsOwn (identity i)) (report_instance env old i)
  unfolding report_instance
  report_instance-Own old i =
      when-Makes _ _
        (update_instance-Makes env i.tenant_id i.resource_id (λ fs x. IsOwn.write_instance) _ _ _)

  with_hosts-Own :
      (old i : InstanceResource) (a b : Option HostResource)
      → i.host ≡ b
      → Makes (IsOwn (identity i)) (update_with_hosts env old i a b)
  unfolding update_with_hosts
  with_hosts-Own old i none b e = Makes-panics
  with_hosts-Own old i (some oh) none e = Makes-panics
  with_hosts-Own old i (some oh) (some nh) e =
      Makes-bind (report_host_status env oh nh) _ (report_host-Own i oh nh e) λ _.
        Makes-bind (report_onboarding_status env oh nh) _ (report_onboarding-Own i oh nh e) λ _.
          Makes-bind (report_instance env old i) _ (report_instance-Own old i) λ _. Makes-pure tt

  update-Own :
      (old i : InstanceResource)
      → Makes (IsOwn (identity i)) (update_host_instance_status_and_current_state env old i)
  unfolding update_host_instance_status_and_current_state
  update-Own old i = with_hosts-Own old i old.host i.host refl

  deferred-Own :
      (e : Option E) (old i : InstanceResource)
      → Makes (IsOwn (identity i)) (deferred_update env e old i)
  unfolding deferred_update populate_instance_provisioning_status
  deferred-Own e old i = elim (Bool-cases (env.code e == aborted)) [
    | inl y ↦ rw y (update-Own old _)
    | inr n ↦ rw n (update-Own old i)
  ]

  provisioned-identity :
      (e : Option E) (i : InstanceResource) → identity (provisioned env e i) ≡ identity i
  unfolding populate_instance_status_and_current_state
  provisioned-identity none i = refl
  provisioned-identity (some e) i = refl

  provision_device-Own :
      (i : InstanceResource) (r : Result E DeviceInfo)
      → ((d : DeviceInfo) → r ≡ ok d → d.guid ≡ (identity i).host_uuid)
      → Makes (IsOwn (identity i)) (provision_device env i r)
  unfolding provision_device
  provision_device-Own i (err e) p = Makes-pure _
  provision_device-Own i (ok d) p =
      Makes-bind_result (check_status_or_run_prod_workflow env d i) _ (check-Own env i d (p d refl))
        λ h a q.
          let same : identity (provisioned env a.0 a.1) ≡ identity i =
            provisioned-identity a.0 a.1 ∙ check-identity env d i a.1 a.0 h q in
          Makes-bind (deferred_update env none _ _) _
            (subst
              (λ k.
                Makes (IsOwn k) (deferred_update env none (clone env i) (provisioned env a.0 a.1)))
              same (deferred-Own none (clone env i) (provisioned env a.0 a.1)))
            λ _. Makes-pure a.0

  provider_os-Own :
      (i : InstanceResource) (os : Option OsResource)
      → Makes (IsOwn (identity i)) (provision_os env i os)
  unfolding provision_os
  provider_os-Own i none = Makes-pure none
  provider_os-Own i (some os) =
      Makes-if (not (os.os_provider == OsProviderKind.infra)) _ _ (λ _. Makes-pure none)
        λ _. provision_device-Own i (convert_instance_to_device_info env i) (convert-guid env i)

  pub cleanup-Own :
      (i : InstanceResource) → Makes (IsOwn (identity i)) (cleanup_provisioning_resources env i)
  unfolding cleanup_provisioning_resources
  cleanup-Own i = delete-Own env i (identity i).host_uuid refl

  finish-Own :
      (i : InstanceResource) (e : Option E) → Makes (IsOwn (identity i)) (finish_running env i e)
  unfolding finish_running
  finish-Own i e =
      or_else-Makes (handle_provisioning_error env e) _
        (Makes-bind (cleanup_provisioning_resources env i) _ (cleanup-Own i) λ _. Makes-pure ack)

  set_state-Own :
      (i : InstanceResource) (s : InstanceState)
      → Makes (IsOwn (identity i)) (set_current_state env i s)
  unfolding set_current_state
  set_state-Own i s =
      Makes-bind (update_instance_current_state env i.tenant_id _) _
        (update_current-Makes env i.tenant_id i.resource_id (λ fs x. IsOwn.write_instance) s)
        λ failure. or_else-Makes (handle_inventory_error env failure) _ (Makes-pure ack)

  -- Whatever is answered, provisioning, removing or distrusting an instance updates no other resource
  -- than that instance and its host, and touches no other workflow and no other credentials than the
  -- host's.
  pub reconcile_instance-Own :
      (i : InstanceResource) → Makes (IsOwn (identity i)) (reconcile_instance env i)
  unfolding reconcile_instance try_provision_instance
  reconcile_instance-Own i =
      Makes-if (i.desired_state == InstanceState.running) _ _
        (λ _. Makes-bind (try_provision_instance env i) _ (provider_os-Own i i.os) (finish-Own i))
        λ _.
          Makes-if (i.desired_state == InstanceState.deleted) _ _
            (λ _. Makes-bind (cleanup_provisioning_resources env i) _ (cleanup-Own i) λ e.
              or_else-Makes (handle_provisioning_error env e) _
                (set_state-Own i InstanceState.deleted))
            λ _.
              Makes-if (i.desired_state == InstanceState.untrusted) _ _
                (λ _. set_state-Own i InstanceState.untrusted) λ _. Makes-pure ack

  pub statuses-Own :
      (i : InstanceResource) → Makes (IsOwn (identity i)) (update_instance_statuses_of env i)
  unfolding update_instance_statuses_of
  statuses-Own i =
      Makes-bind (update_instance_statuses env i.tenant_id i.resource_id _ _ _ _ _) _
        (update_instance_statuses-Makes env i.tenant_id i.resource_id (λ fs x. IsOwn.write_instance)
          _ _ _ _ _)
        λ _. Makes-pure tt
