-- ===== src/Act/Makes.antt =====
-- Which calls an action makes, whatever they are answered: one rule for each way to build an action.
use infra_onboarding.Prelude.{
  ◌≡◌, refl, Bool, true, false, Option, none, some, List, [], ◌∷◌, if◌then◌else◌,
}
use infra_onboarding.Api.Calls.{Call, History}
use infra_onboarding.Api.Errors.{Result, ok, err}
use infra_onboarding.Act
use infra_onboarding.Act.{
  Outcome, done, panic, Act, pure, panics, call, ask, continue, ◌>>=◌, for_each, ◌and_then◌,
  ◌on_value◌, ◌on_ok◌,
}

-- The second history is the first and calls that satisfy `P`, one after the other.
pub data Extends {ℓ} (P : Call → Type ℓ) (h : History) : History → Type ℓ where
  same : Extends P h h
  more : {g : History} {c : Call} → P c → Extends P h g → Extends P h (c ∷ g)

pub Extends-trans {ℓ} :
    {P : Call → Type ℓ} {a b c : History} → Extends P a b → Extends P b c → Extends P a c
Extends-trans p same = p
Extends-trans p (more q r) = more q (Extends-trans p r)

Extends-weaken {ℓ κ} :
    {P : Call → Type ℓ} {Q : Call → Type κ} {h g : History}
    → ((c : Call) → P c → Q c)
    → Extends P h g
    → Extends Q h g
Extends-weaken f same = same
Extends-weaken f (more {c = c} p r) = more (f c p) (Extends-weaken f r)

-- Every call that `m` makes satisfies `P`, also where it panics.
pub record Makes {ℓ κ} {A : Type κ} (P : Call → Type ℓ) (m : Act A) : Type ℓ where
  pub at : (h : History) → Extends P h (m h).1

module _ {ℓ κ} {P : Call → Type ℓ} {A : Type κ} where
  pub Makes-pure : (a : A) → Makes P (pure a)
  Makes-pure a = record { at = λ h. same }

  pub Makes-panics : Makes P (panics {A = A})
  Makes-panics = record { at = λ h. same }

  pub Makes-ask : (f : History → A) → Makes P (ask f)
  Makes-ask f = record { at = λ h. same }

  pub Makes-call : (answer : History → Call → A) (c : Call) → P c → Makes P (call answer c)
  Makes-call answer c p = record { at = λ h. more p same }

  pub Makes-if :
      (b : Bool) (m n : Act A)
      → (b ≡ true → Makes P m)
      → (b ≡ false → Makes P n)
      → Makes P (if b then m else n)
  Makes-if true m n pm pn = pm refl
  Makes-if false m n pm pn = pn refl

pub Makes-weaken {ℓ κ μ} :
    {P : Call → Type ℓ} {Q : Call → Type κ} {A : Type μ} (m : Act A)
    → ((c : Call) → P c → Q c)
    → Makes P m
    → Makes Q m
Makes-weaken m f p = record { at = λ h. Extends-weaken f (p.at h) }

module _ {ℓ κ μ} {P : Call → Type ℓ} {A : Type κ} {B : Type μ} where
  Extends-continue :
      (f : A → Act B) (h : History) (o : Outcome A) (g : History)
      → Extends P h g
      → ((a : A) → Makes P (f a))
      → Extends P h (continue f (o, g)).1
  Extends-continue f h (done a) g p q = Extends-trans p ((q a).at g)
  Extends-continue f h panic g p q = p

  pub Makes-bind :
      (m : Act A) (f : A → Act B) → Makes P m → ((a : A) → Makes P (f a)) → Makes P (m >>= f)
  Makes-bind m f p q = record { at = λ h. Extends-continue f h (m h).0 (m h).1 (p.at h) q }

module _ {ℓ κ μ} {P : Call → Type ℓ} {A : Type κ} {B : Type μ} where
  continue_result :
      (f : A → Act B) (h : History) (o : Outcome A) (g : History)
      → Extends P h g
      → ((a : A) → o ≡ done a → Makes P (f a))
      → Extends P h (continue f (o, g)).1
  continue_result f h (done a) g p q = Extends-trans p ((q a refl).at g)
  continue_result f h panic g p q = p

  -- The same, where what comes after may use how its argument came about.
  pub Makes-bind_result :
      (m : Act A) (f : A → Act B)
      → Makes P m
      → ((h : History) (a : A) → (m h).0 ≡ done a → Makes P (f a))
      → Makes P (m >>= f)
  Makes-bind_result m f p q = record {
    at = λ h. continue_result f h (m h).0 (m h).1 (p.at h) (q h);
  }

module _ {ℓ} {P : Call → Type ℓ} {E : Type 0} where
  stop_on-Makes : (k : Act (Option E)) → Makes P k → (e : Option E) → Makes P (Act.stop_on k e)
  stop_on-Makes k p none = p
  stop_on-Makes k p (some e) = Makes-pure (some e)

  pub Makes-and_then : (m k : Act (Option E)) → Makes P m → Makes P k → Makes P (m and_then k)
  Makes-and_then m k p q = Makes-bind m (Act.stop_on k) p (stop_on-Makes k q)

  value_or-Makes {κ} :
      {A : Type κ} (k : A → Act (Option E))
      → ((a : A) → Makes P (k a))
      → (r : Result E A) → Makes P (Act.value_or k r)
  value_or-Makes k p (ok a) = p a
  value_or-Makes k p (err e) = Makes-pure (some e)

  pub Makes-on_value {κ} :
      {A : Type κ} (m : Act (Result E A)) (k : A → Act (Option E))
      → Makes P m
      → ((a : A) → Makes P (k a))
      → Makes P (m on_value k)
  Makes-on_value m k p q = Makes-bind m (Act.value_or k) p (value_or-Makes k q)

  pub Makes-for_each {κ} :
      {A : Type κ} (f : A → Act (Option E)) (xs : List A)
      → ((a : A) → Makes P (f a))
      → Makes P (for_each f xs)
  unfolding for_each
  Makes-for_each f [] p = Makes-pure none
  Makes-for_each f (x ∷ xs) p = Makes-and_then (f x) (for_each f xs) (p x) (Makes-for_each f xs p)

module _ {ℓ κ μ} {P : Call → Type ℓ} {E : Type 0} {A : Type κ} {B : Type μ} where
  ok_or_stop-Makes :
      (k : A → Act (Result E B))
      → ((a : A) → Makes P (k a))
      → (r : Result E A) → Makes P (Act.ok_or_stop k r)
  ok_or_stop-Makes k p (ok a) = p a
  ok_or_stop-Makes k p (err e) = Makes-pure (err e)

  pub Makes-on_ok :
      (m : Act (Result E A)) (k : A → Act (Result E B))
      → Makes P m
      → ((a : A) → Makes P (k a))
      → Makes P (m on_ok k)
  Makes-on_ok m k p q = Makes-bind m (Act.ok_or_stop k) p (ok_or_stop-Makes k q)

pub ruleset makes_rules = (
  Makes-pure, Makes-panics, Makes-ask, Makes-call, Makes-if, Makes-bind, Makes-and_then,
  Makes-on_value, Makes-on_ok, Makes-for_each,
)
