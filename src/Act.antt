-- ===== src/Act.antt =====
-- Code that makes calls: it takes the calls made before it, and gives its result, or that it
-- panicked, with the calls made by then. An `error` that Go returns is an `Option E`.
pub mod Makes
pub mod Past
use infra_onboarding.Prelude.{Option, none, some, List, [], ◌∷◌}
use infra_onboarding.Api.Errors.{Result, ok, err}
use infra_onboarding.Api.Calls.{Call, History}

pub data Outcome {ℓ} (A : Type ℓ) : Type ℓ where
  done : A → Outcome A
  panic : Outcome A

abbrev pub Act {ℓ} : Type ℓ → Type ℓ
Act A = History → Outcome A × History

module _ {ℓ} {A : Type ℓ} where
  abbrev pub pure : A → Act A
  pure a h = (done a, h)

  -- a nil pointer is dereferenced
  abbrev pub panics : Act A
  panics h = (panic, h)

  -- one call and its answer
  abbrev pub call : (History → Call → A) → Call → Act A
  call answer c h = (done (answer h c), c ∷ h)

  -- a value that the surroundings give without a call
  abbrev pub ask : (History → A) → Act A
  ask f h = (done (f h), h)

module _ {ℓ κ} {A : Type ℓ} {B : Type κ} where
  abbrev pub continue : (A → Act B) → Outcome A × History → Outcome B × History
  continue f (done a, h) = f a h
  continue f (panic, h) = (panic, h)

  infixl 3 ◌>>=◌
  abbrev pub ◌>>=◌ : Act A → (A → Act B) → Act B
  ◌>>=◌ m f h = continue f (m h)

module _ {ℓ} {B : Type ℓ} where
  infixl 3 ◌>>◌
  abbrev pub ◌>>◌ {κ} : {A : Type κ} → Act A → Act B → Act B
  m >> k = m >>= λ _. k

module _ {E : Type 0} where
  abbrev pub stop_on : Act (Option E) → Option E → Act (Option E)
  stop_on k none = k
  stop_on k (some e) = pure (some e)

  -- `if err := m; err != nil { return err }` and then `k`
  infixr 3 ◌and_then◌
  abbrev pub ◌and_then◌ : Act (Option E) → Act (Option E) → Act (Option E)
  m and_then k = m >>= stop_on k

  -- `for _, x := range xs { if err := f(x); err != nil { return err } }`
  unfoldable pub for_each {ℓ} : {A : Type ℓ} → (A → Act (Option E)) → List A → Act (Option E)
  for_each f [] = pure none
  for_each f (x ∷ xs) = let rest = for_each f xs in f x and_then rest

  abbrev pub value_or {ℓ} : {A : Type ℓ} → (A → Act (Option E)) → Result E A → Act (Option E)
  value_or k (ok a) = k a
  value_or k (err e) = pure (some e)

  -- `a, err := m; if err != nil { return err }` and then `k` on `a`
  infixl 3 ◌on_value◌
  abbrev pub ◌on_value◌ {ℓ} :
      {A : Type ℓ} → Act (Result E A) → (A → Act (Option E)) → Act (Option E)
  m on_value k = m >>= value_or k

module _ {ℓ κ} {E : Type 0} {A : Type ℓ} {B : Type κ} where
  abbrev pub ok_or_stop : (A → Act (Result E B)) → Result E A → Act (Result E B)
  ok_or_stop k (ok a) = k a
  ok_or_stop k (err e) = pure (err e)

  -- the same, where `k` gives a value or an error
  infixl 3 ◌on_ok◌
  abbrev pub ◌on_ok◌ : Act (Result E A) → (A → Act (Result E B)) → Act (Result E B)
  m on_ok k = m >>= ok_or_stop k
