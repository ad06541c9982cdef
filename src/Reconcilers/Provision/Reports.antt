-- ===== src/Reconcilers/Provision/Reports.antt =====
-- What provisioning reports to the inventory after the workflow was checked (instance.go).
use infra_onboarding.Prelude.{
  ℕ, suc, ◌≡◌, refl, ap, subst, ◌∙◌, Bool, true, false, not, ◌||◌, Option, none, some, List, [],
  ◌∷◌, String, nat_eq, Option-cases, inl, inr, arith,
}
use infra_onboarding.Api.Enums.{InstanceState}
use infra_onboarding.Api.Resources.{Resource, HostResource, InstanceResource, OsResource, zero_host}
use infra_onboarding.Api.Errors.{ok, IsLawful, code_eq}
use infra_onboarding.Api.Calls.{Call, Field, History, inv_update}
use infra_onboarding.Api.Env.{Env}
use infra_onboarding.DeviceInfo.{DeviceInfo}
use infra_onboarding.Act.{Outcome, done, panic, Act, pure, continue, ◌>>=◌}
use infra_onboarding.Act.Makes.{Makes, Extends, Extends-trans, Makes-pure}
use infra_onboarding.Status.{new, provisioning_status_done}
use infra_onboarding.Inventory.{update_host}
use infra_onboarding.Inventory.Setters.{
  update_instance, set_host_status, set_host_onboarding_status,
}
use infra_onboarding.Inventory.Updates.{update_host-Makes, update-done}
use infra_onboarding.Onboarding.{check_status_or_run_prod_workflow}
use infra_onboarding.Onboarding.Kept.{IsKept, check-kept}
use infra_onboarding.Util.{
  is_same_instance_status_and_state, is_same_host_status, is_same_onboarding_status,
  populate_host_status, populate_instance_provisioning_status,
  populate_instance_status_and_current_state,
}
use infra_onboarding.Reconcilers.Host.Refusal.{onboarding_fields}
use infra_onboarding.Reconcilers.Provision.{
  clone, clone_os, same_os, when, report_host_status, report_onboarding_status, report_instance,
  deferred_update, provisioned, provision_device, update_with_hosts,
  update_host_instance_status_and_current_state,
}

never_own_successor : (n : ℕ) → nat_eq (suc n) n ≡ false
never_own_successor n = ground arith

or_true : (b : Bool) → (b || true) ≡ true
or_true true = refl
or_true false = refl

-- the tenant and the ID of the host of an instance, and the OS it has
abbrev placement : InstanceResource → Option (String × String) × Option OsResource
placement i =
    (elim i.host [ none ↦ none | some host ↦ some (host.tenant_id, host.resource_id) ], i.os)

placement-IsKept : IsKept placement
unfolding populate_host_status populate_instance_provisioning_status
    populate_instance_status_and_current_state
placement-IsKept = record {
  state = λ i c s. refl;
  provisioning = λ i s. refl;
  host = λ i j s q. ground arith;
}

placed :
    (i j : InstanceResource) (host : HostResource)
    → i.host ≡ some host
    → placement j ≡ placement i
    → (b : HostResource) × (j.host ≡ some b)
      × (b.tenant_id ≡ host.tenant_id)
      × (b.resource_id ≡ host.resource_id)
placed i j host q p = elim (Option-cases j.host) [
  | inl n ↦ absurd (ground arith)
  | inr (b, n) ↦ (b, n, ground arith, ground arith)
]

abbrev host_fields : List Field
host_fields = Field.host_status ∷ Field.host_status_indicator ∷ Field.host_status_timestamp ∷ []

-- An update of the statuses of a host.
pub data WritesHost (t id : String) : Call → Type 0 where
  of_host : {x : Resource} → WritesHost t id (inv_update t id host_fields x)
  of_onboarding : {x : Resource} → WritesHost t id (inv_update t id onboarding_fields x)

of_same_host :
    {s t x y : String} {g k : History}
    → s ≡ t
    → x ≡ y
    → Extends (WritesHost s x) g k
    → Extends (WritesHost t y) g k
of_same_host {t = t} {x = x} {g = g} {k = k} p q e =
    subst (λ z. Extends (WritesHost t z) g k) q (subst (λ z. Extends (WritesHost z x) g k) p e)

module _ {E : Type 0} (env : Env E) where
  when-done :
      (b : Bool) (m : Act (Option E)) (h : History)
      → (e : Option E) × ((m h).0 ≡ done e)
      → (e : Option E) × ((when env b m h).0 ≡ done e)
  when-done true m h q = q
  when-done false m h q = (none, refl)

  when-Makes :
      (t id : String) (b : Bool) (m : Act (Option E))
      → Makes (WritesHost t id) m
      → Makes (WritesHost t id) (when env b m)
  when-Makes t id true m p = p
  when-Makes t id false m p = Makes-pure none

  host-done :
      (a b : HostResource) (h : History)
      → (e : Option E) × ((report_host_status env a b h).0 ≡ done e)
  unfolding report_host_status set_host_status update_host
  host-done a b h = when-done (not (is_same_host_status a b)) _ h (
      update-done env b.tenant_id
        (Resource.host (record zero_host {
          resource_id = b.resource_id;
          host_status = b.host_status;
          host_status_indicator = b.host_status_indicator;
          host_status_timestamp = env.now h;
        }))
        host_fields h)

  onboarding-done :
      (a b : HostResource) (h : History)
      → (e : Option E) × ((report_onboarding_status env a b h).0 ≡ done e)
  unfolding report_onboarding_status set_host_onboarding_status update_host
  onboarding-done a b h = when-done (not (is_same_onboarding_status a b)) _ h (
      update-done env b.tenant_id
        (Resource.host (record zero_host {
          resource_id = b.resource_id;
          onboarding_status = b.onboarding_status;
          onboarding_status_indicator = b.onboarding_status_indicator;
          onboarding_status_timestamp = env.now h;
        }))
        onboarding_fields h)

  host-WritesHost :
      (a b : HostResource)
      → Makes (WritesHost b.tenant_id b.resource_id) (report_host_status env a b)
  unfolding report_host_status set_host_status
  host-WritesHost a b =
      when-Makes b.tenant_id b.resource_id (not (is_same_host_status a b)) _
        (record { at = λ h. (update_host-Makes env b.tenant_id _ host_fields (λ x. of_host)).at h })

  onboarding-WritesHost :
      (a b : HostResource)
      → Makes (WritesHost b.tenant_id b.resource_id) (report_onboarding_status env a b)
  unfolding report_onboarding_status set_host_onboarding_status
  onboarding-WritesHost a b =
      when-Makes b.tenant_id b.resource_id (not (is_same_onboarding_status a b)) _ (record {
        at = λ h. (update_host-Makes env b.tenant_id _ onboarding_fields (λ x. of_onboarding)).at h;
      })

  -- The comparison of the OS pointers of the instance and its earlier copy always finds them
  -- different.
  instance_always_sent :
      (i j : InstanceResource) (os : OsResource) (h : History)
      → i.os ≡ some os
      → j.os ≡ i.os
      → report_instance env (clone env i) j h
        ≡ update_instance env j.tenant_id j.resource_id j.current_state
            (new j.provisioning_status j.provisioning_status_indicator)
            j.os
            h
  unfolding report_instance clone
  instance_always_sent i j os h e f =
      let other : same_os env (clone_os env i.os) j.os ≡ false =
        rw (f, e) (never_own_successor os.address) in
      rw (
        other,
        or_true (not (is_same_instance_status_and_state (record i { os = clone_os env i.os }) j)),
      )

  provisioned-placement :
      (e : Option E) (j : InstanceResource) → placement (provisioned env e j) ≡ placement j
  provisioned-placement (some e) j = refl
  provisioned-placement none j =
      placement-IsKept.state j InstanceState.running provisioning_status_done

  -- the instance as it is sent
  abbrev pub sends : InstanceResource → Act (Option E)
  sends i =
      update_instance env i.tenant_id i.resource_id i.current_state
        (new i.provisioning_status i.provisioning_status_indicator) i.os

  after_hosts :
      (i j : InstanceResource) (a b : HostResource) (os : OsResource) (g : History)
      → i.os ≡ some os
      → j.os ≡ i.os
      → (mid : History) × Extends (WritesHost b.tenant_id b.resource_id) g mid
        × (update_with_hosts env (clone env i) j (some a) (some b) g
            ≡ (sends j >>= λ x. pure tt) mid)
  unfolding update_with_hosts
  after_hosts i j a b os g q p =
      let g1 = (report_host_status env a b g).1 in
      let g2 = (report_onboarding_status env a b g1).1 in
      let (e1, d1) = host-done a b g in
      let (e2, d2) = onboarding-done a b g1 in
      (
        g2,
        Extends-trans ((host-WritesHost a b).at g) ((onboarding-WritesHost a b).at g1),
        rw (d1, d2, instance_always_sent i j os g2 q p) refl,
      )

  then_error :
      (e : Option E) (o : Outcome (Option E) × History)
      → continue (λ x. pure e) (continue (λ y. pure {A = Unit {0}} tt) o) ≡ continue (λ x. pure e) o
  then_error e (done x, g) = refl
  then_error e (panic, g) = refl

  reports_unchanged :
      (old j : InstanceResource)
      → IsLawful env.errors
      → deferred_update env none old j ≡ update_host_instance_status_and_current_state env old j
  unfolding deferred_update
  reports_unchanged old j lawful = rw lawful.code-none refl

  with_both_hosts :
      (old j : InstanceResource) (a b : HostResource)
      → old.host ≡ some a
      → j.host ≡ some b
      → update_host_instance_status_and_current_state env old j
        ≡ update_with_hosts env old j (some a) (some b)
  unfolding update_host_instance_status_and_current_state
  with_both_hosts old j a b p q = rw (p, q) refl

  clone-host : (i : InstanceResource) → (clone env i).host ≡ i.host
  unfolding clone
  clone-host i = refl

  checked :
      (i j : InstanceResource) (d : DeviceInfo) (e : Option E) (h g : History)
      → check_status_or_run_prod_workflow env d i h ≡ (done (e, j), g)
      → provision_device env i (ok d) h
        ≡ (deferred_update env none (clone env i) (provisioned env e j) >>= λ x. pure e) g
  unfolding provision_device
  checked i j d e h g c = rw c refl

  -- A provisioning cycle of an instance with an OS and a host, whatever the check of its workflow returns,
  -- goes on with at most updates of the statuses of its host and ends with UpdateInstance for it, also
  -- where no status and no state has changed. The instance is updated as the check left it, or,
  -- where that gave no error, as running and provisioned; an error with the code ABORTED does not
  -- set the status "Provisioning Failed". The cycle gives the error of the check, whatever the update
  -- gives.
  pub cycle_sends_instance :
      (lawful : IsLawful env.errors) (i j : InstanceResource) (host : HostResource)
      (os : OsResource) (d : DeviceInfo) (e : Option E) (h g : History)
      → i.host ≡ some host
      → i.os ≡ some os
      → check_status_or_run_prod_workflow env d i h ≡ (done (e, j), g)
      → (mid : History) × Extends (WritesHost host.tenant_id host.resource_id) g mid
        × (provision_device env i (ok d) h ≡ (sends (provisioned env e j) >>= λ x. pure e) mid)
  cycle_sends_instance lawful i j host os d e h g p q c =
      let x = provisioned env e j in
      let kept =
        provisioned-placement e j
        ∙ check-kept placement placement-IsKept env d i j e h (ap (λ o. o.0) c) in
      let (b, at, t, id) = placed i x host p kept in
      let (mid, before, r) = after_hosts i x host b os g q (ap (λ y. y.1) kept) in
      let both = with_both_hosts (clone env i) x host b (clone-host i ∙ p) at in
      (
        mid,
        of_same_host t id before,
        checked i j d e h g c
            ∙ ap (λ m. continue (λ y. pure e) (m g))
                (reports_unchanged (clone env i) x lawful ∙ both)
            ∙ ap (continue (λ y. pure e)) r
            ∙ then_error e (sends x mid),
      )
