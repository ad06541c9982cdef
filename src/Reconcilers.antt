-- ===== src/Reconcilers.antt =====
-- onboarding-manager/internal/handlers/controller/reconcilers/reconciler.go: the IDs of what is to
-- be reconciled, and what the controller is told to do after an error.
pub mod Reads
pub mod Id
pub mod Errors
pub mod Host
pub mod Identity
pub mod Device
pub mod Provision
pub mod Instance
use Prim.Native.Char.{Char, code}
use Prim.Native.String
use infra_onboarding.Prelude.{
  ℕ, ◌*◌, String, Bool, true, false, not, ◌||◌, Option, none, some, List, [], ◌∷◌, format, nat_eq,
  get_elem?, ◌==◌, if◌then◌else◌,
}
use infra_onboarding.Api.Errors.{aborted, code_eq}
use infra_onboarding.Api.Env.{Env}
use infra_onboarding.Act.{Act, pure}

abbrev pub cons_head : Char → List String → List String
cons_head c [] = String.◌∷◌ c "" ∷ []
cons_head c (s ∷ rest) = String.◌∷◌ c s ∷ rest

-- strings.Split(s, "_")
pub split_underscore : String → List String
split_underscore String.[] = "" ∷ []
split_underscore (String.◌∷◌ c s) =
    let rest = split_underscore s in if nat_eq (code c) b'_' then "" ∷ rest else cons_head c rest

-- The text of an ID; `none` of a getter is the panic of an index out of range.
abbrev pub ReconcilerId : Type 0
ReconcilerId = String

unfoldable pub new_reconciler_id : String → String → ReconcilerId
new_reconciler_id tenant_id resource_id = format (tenant_id ∷ "_" ∷ resource_id ∷ [])

unfoldable pub get_tenant_id : ReconcilerId → Option String
unfolding split_underscore
get_tenant_id id = get_elem? (split_underscore id) 0

unfoldable pub get_resource_id : ReconcilerId → Option String
unfolding split_underscore
get_resource_id id = get_elem? (split_underscore id) 1

-- In nanoseconds.
abbrev pub second : ℕ
second = 1_000_000_000

abbrev pub min_delay : ℕ
min_delay = 1 * second

abbrev pub max_delay : ℕ
max_delay = 60 * second

-- request.Ack(), request.Retry(err).With(ExponentialBackoff(min, max)), request.Fail(err)
pub data Directive (E : Type 0) : Type 0 where
  ack : Directive E
  retry : E → ℕ → ℕ → Directive E
  fail : E → Directive E

-- `if directive := d; directive != nil { return directive }` and then `k`
abbrev pub or_else : {E : Type 0} → Option (Directive E) → Act (Directive E) → Act (Directive E)
or_else none k = k
or_else (some d) k = pure d

module _ {E : Type 0} (env : Env E) where
  abbrev retry_on : Option E → Option (Directive E)
  retry_on none = none
  retry_on (some e) = some (retry e min_delay max_delay)

  abbrev fail_on : Option E → Option (Directive E)
  fail_on none = none
  fail_on (some e) = some (fail e)

  unfoldable pub handle_inventory_error : Option E → Option (Directive E)
  handle_inventory_error e =
      if not (env.from_error e)
      then some ack
      else if env.is_not_found e
          || (env.is_already_exists e || (env.is_unauthenticated e || env.is_permission_denied e))
      then some ack
      else retry_on e

  -- An error that is in progress or aborted is never nil, so `retry_on` and `fail_on` take it whole.
  unfoldable pub handle_provisioning_error : Option E → Option (Directive E)
  handle_provisioning_error e =
      if not (env.from_error e)
      then some ack
      else if env.is_operation_in_progress e
      then retry_on e
      else if env.code e == aborted
      then fail_on e
      else retry_on e
