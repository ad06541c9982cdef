-- ===== src/Prelude/Tests.antt =====
-- Boolean tests, and Go's `==` as an interface with one instance for each compared type.
use Prim.Native.Nat.{ℕ, compare, Ordering}
use Prim.Native.String.{String}
use mathlib.Core.Path.{◌≡◌, refl}
use mathlib.Core.Logic.{◌≢◌, ◌↔◌, ◌⊎◌, inl, inr}
use mathlib.Core.Bool.{Bool, true, false, ◌||◌}
use mathlib.Core.Option.{Option, none, some}
use native.Mathlib.Omega.{arith}
use text.Mathlib.Text.{◌==◌ as str_eq}
use text.Mathlib.TextEquality.{eq_iff}

abbrev pub ltb : ℕ → ℕ → Bool
ltb a b = elim (compare a b) [ Ordering.lt ↦ true | _ ↦ false ]

abbrev pub leb : ℕ → ℕ → Bool
leb a b = elim (compare a b) [ Ordering.gt ↦ false | _ ↦ true ]

abbrev pub nat_eq : ℕ → ℕ → Bool
nat_eq a b = elim (compare a b) [ Ordering.eq ↦ true | _ ↦ false ]

infix 1 if◌then◌else◌
abbrev pub if◌then◌else◌ {ℓ} : {A : Type ℓ} → Bool → A → A → A
if true then x else y = x
if false then x else y = y

pub Bool-cases : (b : Bool) → (b ≡ true) ⊎ (b ≡ false)
Bool-cases true = inl refl
Bool-cases false = inr refl

pub Option-cases {ℓ} : {A : Type ℓ} (o : Option A) → (o ≡ none) ⊎ ((a : A) × (o ≡ some a))
Option-cases none = inl refl
Option-cases (some a) = inr (a, refl)

nat_eq_sound : (a b : ℕ) → nat_eq a b ≡ true → a ≡ b
nat_eq_sound a b h = ground arith

nat_eq_complete : (a b : ℕ) → a ≡ b → nat_eq a b ≡ true
nat_eq_complete a b h = ground arith

pub nat_eq_iff : (a b : ℕ) → (nat_eq a b ≡ true) ↔ (a ≡ b)
nat_eq_iff a b = (nat_eq_sound a b, nat_eq_complete a b)

pub record Eq {ℓ} (A : Type ℓ) : Type ℓ where
  -- Go's `==` on the type
  pub equals : A → A → Bool
  -- it compares values
  pub equals_iff : (a b : A) → equals a b ≡ true ↔ a ≡ b

instance abbrev pub nat_has_eq : Eq ℕ
nat_has_eq = record { equals = nat_eq; equals_iff = nat_eq_iff }

instance abbrev pub string_has_eq : Eq String
string_has_eq = record { equals = str_eq; equals_iff = eq_iff }

module _ {ℓ} {A : Type ℓ} ⦃e : Eq A⦄ where
  infix 50 ◌==◌
  abbrev pub ◌==◌ : A → A → Bool
  a == b = e.equals a b

  pub ==-true : (a b : A) → a ≡ b → (a == b) ≡ true
  ==-true a b h = (e.equals_iff a b).1 h

  pub ==-false : (a b : A) → ¬ (a ≡ b) → (a == b) ≡ false
  ==-false a b h = elim (Bool-cases (a == b)) [
    | inl y ↦ absurd (h ((e.equals_iff a b).0 y))
    | inr n ↦ n
  ]

  pub distinct : (a b : A) → (a == b) ≡ false → a ≢ b
  distinct a b n q = let t = ==-true a b q in cc

pub both_false : (a b : Bool) → (a || b) ≡ false → (a ≡ false) × (b ≡ false)
both_false true b n = absurd (cc)
both_false false b n = (refl, n)

-- neither text is empty
pub both_set : (a b : String) → (a == "" || b == "") ≡ false → (a ≢ "") × (b ≢ "")
both_set a b n = let (x, y) = both_false (a == "") (b == "") n in (distinct a "" x, distinct b "" y)
