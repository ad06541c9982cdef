-- ===== src/Controller/Swept.antt =====
-- What a reconciliation of all resources has done, by the answers to its searches (controller.go).
use infra_onboarding.Prelude.{
  ◌≡◌, refl, ap, true, false, String, Bool, none, some, List, ◌∷◌, ◌++◌, All, sym, ◌∙◌,
  if◌then◌else◌,
}
use infra_onboarding.Api.Enums.{ResourceKind}
use infra_onboarding.Api.Errors.{Result, ok, err}
use infra_onboarding.Api.Calls.{History, inv_find_all}
use infra_onboarding.Api.Env.{Env}
use infra_onboarding.Act.{pure}
use infra_onboarding.Act.Past.{Passes}
use infra_onboarding.Controller.{new, reconcile_found, reconcile_all, then_find, find_all_resources}
use infra_onboarding.Controller.Sweep.{Requested, kind_answered, reconcile_all-Requested}

module _ {E : Type 0} (env : Env E) (skip : Bool) where
  -- What a reconciliation of all resources without an error has done between `h` and `g`.
  pub data Swept (h g : History) : Type 0 where
    swept :
        {hosts instances : List (String × String)}
        → env.found h (inv_find_all ResourceKind.host) ≡ ok hosts
        → env.found (inv_find_all ResourceKind.host ∷ h) (inv_find_all ResourceKind.instance)
          ≡ ok instances
        → All (Requested env skip g) (hosts ++ instances)
        → Swept h g
    no_hosts :
        {e : E}
        → env.found h (inv_find_all ResourceKind.host) ≡ err e
        → env.is_not_found (some e) ≡ true
        → g ≡ inv_find_all ResourceKind.host ∷ h
        → Swept h g
    no_instances :
        {e : E} {hosts : List (String × String)}
        → env.found h (inv_find_all ResourceKind.host) ≡ ok hosts
        → env.found (inv_find_all ResourceKind.host ∷ h) (inv_find_all ResourceKind.instance)
          ≡ err e
        → env.is_not_found (some e) ≡ true
        → g ≡ inv_find_all ResourceKind.instance ∷ inv_find_all ResourceKind.host ∷ h
        → Swept h g

  ignored :
      (e : E) (b : Bool) (k g : History)
      → env.is_not_found (some e) ≡ b
      → Passes (if b then pure none else pure (some e)) k g
      → (env.is_not_found (some e) ≡ true) × (g ≡ k)
  ignored e true k g n q = (n, sym (ap (λ o. o.1) q))
  ignored e false k g n q = absurd (cc)

  hosts_failed :
      (e : E) (h : History)
      → env.resource_from_kind ResourceKind.host ≡ none
      → env.found h (inv_find_all ResourceKind.host) ≡ err e
      → reconcile_all env (new skip) h
        ≡ (if env.is_not_found (some e) then pure none else pure (some e))
            (inv_find_all ResourceKind.host ∷ h)
  unfolding reconcile_all find_all_resources then_find reconcile_found
  hosts_failed e h a f = rw (kind_answered env skip ResourceKind.host h (err e) a f) refl

  instances_failed :
      (e : E) (hosts : List (String × String)) (h : History)
      → env.resource_from_kind ResourceKind.host ≡ none
      → env.resource_from_kind ResourceKind.instance ≡ none
      → env.found h (inv_find_all ResourceKind.host) ≡ ok hosts
      → env.found (inv_find_all ResourceKind.host ∷ h) (inv_find_all ResourceKind.instance) ≡ err e
      → reconcile_all env (new skip) h
        ≡ (if env.is_not_found (some e) then pure none else pure (some e))
            (inv_find_all ResourceKind.instance ∷ inv_find_all ResourceKind.host ∷ h)
  unfolding reconcile_all find_all_resources then_find reconcile_found
  instances_failed e hosts h a b f i =
      rw
        (
          kind_answered env skip ResourceKind.host h (ok hosts) a f,
          kind_answered env skip ResourceKind.instance (inv_find_all ResourceKind.host ∷ h) (err e)
              b i,
        )
        refl

  by_answers :
      (r s : Result E (List (String × String))) (h g : History)
      → env.resource_from_kind ResourceKind.host ≡ none
      → env.resource_from_kind ResourceKind.instance ≡ none
      → env.found h (inv_find_all ResourceKind.host) ≡ r
      → env.found (inv_find_all ResourceKind.host ∷ h) (inv_find_all ResourceKind.instance) ≡ s
      → Passes (reconcile_all env (new skip)) h g
      → Swept h g
  by_answers (ok hosts) (ok instances) h g a b f i q =
      swept f i (reconcile_all-Requested env skip h g hosts instances a b f i q)
  by_answers (ok hosts) (err e) h g a b f i q =
      let (n, p) = ignored e _ _ g refl (sym (instances_failed e hosts h a b f i) ∙ q) in
      no_instances f i n p
  by_answers (err e) s h g a b f i q =
      let (n, p) = ignored e _ _ g refl (sym (hosts_failed e h a f) ∙ q) in no_hosts f n p

  -- Where there is a resource for the kind of hosts and for that of instances, a reconciliation of all resources without an error has given each
  -- host and each instance that the two searches found to the reconciler of its kind, with no error;
  -- or the search for hosts, or after it that for instances, has answered NotFound, and then nothing
  -- was done but the search, also not for the hosts that were found before.
  pub reconcile_all-Swept :
      (h g : History)
      → env.resource_from_kind ResourceKind.host ≡ none
      → env.resource_from_kind ResourceKind.instance ≡ none
      → Passes (reconcile_all env (new skip)) h g
      → Swept h g
  reconcile_all-Swept h g a b q =
      by_answers (env.found h (inv_find_all ResourceKind.host))
        (env.found (inv_find_all ResourceKind.host ∷ h) (inv_find_all ResourceKind.instance)) h g a
        b refl refl q
