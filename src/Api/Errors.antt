-- ===== src/Api/Errors.antt =====
-- Go errors as the repository sees them: made by the inventory's error package, and asked by it, by
-- gRPC's status package and by Kubernetes' errors package. `none` is the nil error.
use infra_onboarding.Prelude.{
  ℕ, ◌+◌, ◌≡◌, refl, ◌≢◌, ◌⊎◌, inl, inr, String, Bool, true, false, Option, none, some, arith, Eq,
}
use infra_onboarding.Api.Enums.{eq_by}

pub data Code : Type 0 where
  ok_code invalid_argument not_found aborted internal failed_precondition : Code
  permission_denied unauthenticated unavailable : Code
  unnamed : ℕ → Code

abbrev code_tag : Code → ℕ
code_tag ok_code = 0
code_tag invalid_argument = 1
code_tag not_found = 2
code_tag aborted = 3
code_tag internal = 4
code_tag failed_precondition = 5
code_tag permission_denied = 6
code_tag unauthenticated = 7
code_tag unavailable = 8
code_tag (unnamed n) = n + 9

pub code_sound : (a b : Code) → code_tag a ≡ code_tag b → a ≡ b
code_sound a b h = ground arith

instance abbrev pub code_eq : Eq Code
code_eq = eq_by code_tag code_sound

pub data Reason : Type 0 where
  operation_in_progress : Reason

-- A value or an error.
pub data Result {ℓ} (E : Type 0) (A : Type ℓ) : Type ℓ where
  ok : A → Result E A
  err : E → Result E A

pub Result-cases {ℓ} :
    {E : Type 0} {A : Type ℓ} (r : Result E A) → ((a : A) × (r ≡ ok a)) ⊎ ((e : E) × (r ≡ err e))
Result-cases (ok a) = inl (a, refl)
Result-cases (err e) = inr (e, refl)

pub record Errors (E : Type 0) : Type 0 where
  -- inv_errors.Errorf, Errorfc, Errorfr, Wrap
  pub errorf : String → E
  pub errorfc : Code → String → E
  pub errorfr : Reason → String → E
  pub wrap : E → E
  -- fmt.Errorf, and Wrap of github.com/pkg/errors
  pub fmt_errorf : String → E
  pub wrap_message : E → String → E
  -- the second result of grpc_status.FromError; grpc_status.Convert(err).Code()
  pub from_error : Option E → Bool
  pub code : Option E → Code
  -- inv_errors.IsNotFound and so on
  pub is_not_found : Option E → Bool
  pub is_already_exists : Option E → Bool
  pub is_unauthenticated : Option E → Bool
  pub is_permission_denied : Option E → Bool
  pub is_operation_in_progress : Option E → Bool
  -- k8s.io/apimachinery/pkg/api/errors
  pub k8s_is_not_found : E → Bool
  pub k8s_is_already_exists : E → Bool

-- What the packages document: the nil error is a status with code OK and is none of the kinds of
-- failure; an error made with a code or a reason is a status and is read back by it.
pub record IsLawful {E : Type 0} (e : Errors E) : Type 0 where
  pub from_error-none : e.from_error none ≡ true
  pub code-none : e.code none ≡ ok_code
  pub is_not_found-none : e.is_not_found none ≡ false
  pub is_already_exists-none : e.is_already_exists none ≡ false
  pub is_unauthenticated-none : e.is_unauthenticated none ≡ false
  pub is_permission_denied-none : e.is_permission_denied none ≡ false
  pub is_operation_in_progress-none : e.is_operation_in_progress none ≡ false
  pub from_error-errorfc : (c : Code) (m : String) → e.from_error (some (e.errorfc c m)) ≡ true
  pub code-errorfc : (c : Code) (m : String) → e.code (some (e.errorfc c m)) ≡ c
  pub in_progress-errorfc :
      (c : Code) (m : String) → e.is_operation_in_progress (some (e.errorfc c m)) ≡ false
  pub not_found-errorfc : (m : String) → e.is_not_found (some (e.errorfc not_found m)) ≡ true
  pub not_found-other_code :
      (c : Code) (m : String) → c ≢ not_found → e.is_not_found (some (e.errorfc c m)) ≡ false
  pub from_error-errorfr : (r : Reason) (m : String) → e.from_error (some (e.errorfr r m)) ≡ true
  pub in_progress-errorfr :
      (m : String) → e.is_operation_in_progress (some (e.errorfr operation_in_progress m)) ≡ true
  pub from_error-errorf : (m : String) → e.from_error (some (e.errorf m)) ≡ true
  pub in_progress-errorf : (m : String) → e.is_operation_in_progress (some (e.errorf m)) ≡ false
  pub not_found-errorf : (m : String) → e.is_not_found (some (e.errorf m)) ≡ false
  pub code-errorf : (m : String) → e.code (some (e.errorf m)) ≢ aborted
  pub already_exists-errorf : (m : String) → e.is_already_exists (some (e.errorf m)) ≡ false
  pub unauthenticated-errorf : (m : String) → e.is_unauthenticated (some (e.errorf m)) ≡ false
  pub permission_denied-errorf : (m : String) → e.is_permission_denied (some (e.errorf m)) ≡ false
