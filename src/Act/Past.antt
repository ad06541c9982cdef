-- ===== src/Act/Past.antt =====
-- What has happened when a chain of actions has come through without an error.
use infra_onboarding.Prelude.{◌≡◌, refl, subst, Option, none, some, List, [], ◌∷◌, All}
use infra_onboarding.Api.Errors.{Result, ok, err}
use infra_onboarding.Api.Calls.{Call, History}
use infra_onboarding.Act
use infra_onboarding.Act.{
  Outcome, done, panic, Act, pure, call, ask, continue, ◌>>=◌, for_each, ◌and_then◌, ◌on_ok◌,
  ◌on_value◌,
}
use infra_onboarding.Act.Makes.{Extends, same, more, Makes, Makes-for_each}

-- Some call of the history satisfies `P`, with the calls before it.
pub data Past {ℓ} (P : History → Call → Type ℓ) : History → Type ℓ where
  here : {h : History} {c : Call} → P h c → Past P (c ∷ h)
  earlier : {h : History} {c : Call} → Past P h → Past P (c ∷ h)

abbrev pub AnyCall : Call → Type 0
AnyCall c = Unit

pub done-injective {ℓ} : {A : Type ℓ} {a b : A} → done a ≡ done b → a ≡ b
done-injective q = cc

pub Extends-Past {ℓ κ} :
    {P : History → Call → Type ℓ} {Q : Call → Type κ} {h g : History}
    → Extends Q h g
    → Past P h
    → Past P g
Extends-Past same p = p
Extends-Past (more q e) p = earlier (Extends-Past e p)

module _ {E : Type 0} where
  -- The action comes through from `h` to `g` with no error.
  abbrev pub Passes : Act (Option E) → History → History → Type 0
  Passes m h g = m h ≡ (done none, g)

  continue_split :
      (k : Act (Option E)) (o : Outcome (Option E)) (mid g : History)
      → continue (Act.stop_on k) (o, mid) ≡ (done none, g)
      → (o ≡ done none) × Passes k mid g
  continue_split k (done none) mid g q = (refl, q)
  continue_split k (done (some e)) mid g q = absurd (cc)
  continue_split k panic mid g q = absurd (cc)

  pub and_then-split :
      (m k : Act (Option E)) (h g : History)
      → Passes (m and_then k) h g
      → (mid : History) × Passes m h mid × Passes k mid g
  and_then-split m k h g q = let (e, r) = continue_split k (m h).0 (m h).1 g q in ((m h).1, cc, r)

  pub Passes-Extends :
      (m : Act (Option E)) (h g : History) → Makes AnyCall m → Passes m h g → Extends AnyCall h g
  Passes-Extends m h g p q = subst (λ o. Extends AnyCall h o.1) q (p.at h)

  -- What a passing loop did for each element, if what is done for one lasts.
  pub for_each-All {ℓ κ} :
      {A : Type ℓ} (f : A → Act (Option E)) (R : A → History → Type κ)
      → ((a : A) (h g : History) → Extends AnyCall h g → R a h → R a g)
      → ((a : A) → Makes AnyCall (f a))
      → ((a : A) (h g : History) → Passes (f a) h g → R a g)
      → (xs : List A) (h g : History) → Passes (for_each f xs) h g
      → All (λ a. R a g) xs
  unfolding for_each
  for_each-All f R lasts grows each [] h g q = tt
  for_each-All f R lasts grows each (x ∷ xs) h g q =
      let (mid, first, rest) = and_then-split (f x) (for_each f xs) h g q in
      (
        lasts x mid g (Passes-Extends (for_each f xs) mid g (Makes-for_each f xs grows) rest)
            (each x h mid first),
        for_each-All f R lasts grows each xs mid g rest,
      )

module _ {ℓ} {A : Type ℓ} {E : Type 0} where
  ignored :
      (k : Act (Option E)) (o : Outcome A) (mid g : History)
      → continue (λ _. k) (o, mid) ≡ (done none, g)
      → Passes k mid g
  ignored k (done a) mid g q = q
  ignored k panic mid g q = absurd (cc)

  -- What comes after an action whose result is ignored has passed.
  pub ignoring-split :
      (m : Act A) (k : Act (Option E)) (h g : History)
      → Passes (m >>= λ _. k) h g
      → Passes k (m h).1 g
  ignoring-split m k h g q = ignored k (m h).0 (m h).1 g q

module _ {ℓ κ} {E : Type 0} {A : Type ℓ} {B : Type κ} where
  continue_ok :
      (k : A → Act (Result E B)) (o : Outcome (Result E A)) (mid g : History) (b : B)
      → continue (Act.ok_or_stop k) (o, mid) ≡ (done (ok b), g)
      → (a : A) × (o ≡ done (ok a)) × (k a mid ≡ (done (ok b), g))
  continue_ok k (done (ok a)) mid g b q = (a, refl, q)
  continue_ok k (done (err e)) mid g b q = absurd (cc)
  continue_ok k panic mid g b q = absurd (cc)

  -- A chain that gives a value has its parts give one.
  pub on_ok-split :
      (m : Act (Result E A)) (k : A → Act (Result E B)) (h g : History) (b : B)
      → (m on_ok k) h ≡ (done (ok b), g)
      → (a : A) × (mid : History) × (m h ≡ (done (ok a), mid)) × (k a mid ≡ (done (ok b), g))
  on_ok-split m k h g b q =
      let (a, e, r) = continue_ok k (m h).0 (m h).1 g b q in (a, (m h).1, cc, r)

module _ {ℓ} {E : Type 0} {A : Type ℓ} where
  continue_value :
      (k : A → Act (Option E)) (o : Outcome (Result E A)) (mid g : History)
      → continue (Act.value_or k) (o, mid) ≡ (done none, g)
      → (a : A) × (o ≡ done (ok a)) × Passes (k a) mid g
  continue_value k (done (ok a)) mid g q = (a, refl, q)
  continue_value k (done (err e)) mid g q = absurd (cc)
  continue_value k panic mid g q = absurd (cc)

  pub on_value-split :
      (m : Act (Result E A)) (k : A → Act (Option E)) (h g : History)
      → Passes (m on_value k) h g
      → (a : A) × (mid : History) × (m h ≡ (done (ok a), mid)) × Passes (k a) mid g
  on_value-split m k h g q =
      let (a, e, r) = continue_value k (m h).0 (m h).1 g q in (a, (m h).1, cc, r)
