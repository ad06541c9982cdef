-- ===== src/Onboardingmgr/Spans.antt =====
-- How much text the patterns of the validation match (onboarding.pb.validate.go).
use Prim.Native.Char.{Char, code}
use infra_onboarding.Prelude.{
  ℕ, zero, suc, ◌+◌, ◌<◌, ◌≡◌, refl, subst, String, Bool, true, false, List, [], ◌∷◌, ◌++◌, All,
  arith, byte_length, ascii_width,
}
use infra_onboarding.Onboardingmgr.Patterns.{
  Regex, empty, class, followed_by, flat_map, has_empty, remainders, match_string, times, is_hex,
  hyphen, onboarding_uuid_pattern,
}

-- Every match of the pattern takes `n` bytes.
record Spans (n : ℕ) (r : Regex) : Type 0 where
  takes : (s : String) → All (λ t. n + byte_length t ≡ byte_length s) (remainders r s)

All-append {ℓ} :
    (P : String → Type ℓ) (xs ys : List String) → All P xs → All P ys → All P (xs ++ ys)
All-append P [] ys p q = q
All-append P (x ∷ xs) ys (a, p) q = (a, All-append P xs ys p q)

flat_map-All {ℓ κ} :
    (P : String → Type ℓ) (Q : String → Type κ) (f : String → List String) (xs : List String)
    → All P xs
    → ((x : String) → P x → All Q (f x))
    → All Q (flat_map f xs)
flat_map-All P Q f [] a g = tt
flat_map-All P Q f (x ∷ xs) (p, a) g =
    All-append Q (f x) (flat_map f xs) (g x p) (flat_map-All P Q f xs a g)

widen :
    (n m k l : ℕ) (xs : List String)
    → n + k ≡ l
    → All (λ t. m + byte_length t ≡ k) xs
    → All (λ t. n + m + byte_length t ≡ l) xs
widen n m k l [] e a = tt
widen n m k l (x ∷ xs) e (p, a) = (omega arith, widen n m k l xs e a)

empty-Spans : Spans 0 empty
unfolding remainders
empty-Spans = record { takes = λ s. (omega arith, tt) }

class_takes_char :
    (p : Char → Bool) (c : Char) (s : String) (b : Bool)
    → (b ≡ true → code c < 128)
    → All
        (λ t. 1 + byte_length t ≡ byte_length (String.◌∷◌ c s))
        (elim b [ true ↦ s ∷ [] | false ↦ [] ])
unfolding byte_length
class_takes_char p c s true ascii = (rw (ascii_width c (ascii refl)) refl, tt)
class_takes_char p c s false ascii = tt

class_takes :
    (p : Char → Bool) (ascii : (c : Char) → p c ≡ true → code c < 128) (s : String)
    → All (λ t. 1 + byte_length t ≡ byte_length s) (remainders (class p) s)
unfolding remainders
class_takes p ascii String.[] = tt
class_takes p ascii (String.◌∷◌ c s) = class_takes_char p c s (p c) (ascii c)

class-Spans : (p : Char → Bool) → ((c : Char) → p c ≡ true → code c < 128) → Spans 1 (class p)
class-Spans p ascii = record { takes = class_takes p ascii }

followed_by-Spans :
    (n m : ℕ) (r q : Regex) → Spans n r → Spans m q → Spans (n + m) (followed_by r q)
unfolding remainders
followed_by-Spans n m r q a b = record {
  takes = λ s.
      flat_map-All (λ t. n + byte_length t ≡ byte_length s) _ (remainders q) (remainders r s)
        (a.takes s) λ t e. widen n m (byte_length t) (byte_length s) (remainders q t) e (b.takes t);
}

times-Spans : (n : ℕ) (r : Regex) → Spans 1 r → Spans n (times n r)
times-Spans zero r a = empty-Spans
times-Spans (suc n) r a =
    subst (λ k. Spans k (followed_by r (times n r))) (omega arith)
      (followed_by-Spans 1 n r (times n r) a (times-Spans n r a))

hex-Spans : Spans 1 (class is_hex)
hex-Spans = class-Spans is_hex λ c y. ground arith

hyphen-Spans : Spans 1 hyphen
hyphen-Spans = class-Spans _ λ c y. ground arith

group-Spans :
    (n k : ℕ) (r : Regex)
    → Spans k r
    → Spans (n + (1 + k)) (followed_by (times n (class is_hex)) (followed_by hyphen r))
group-Spans n k r a =
    followed_by-Spans n (1 + k) (times n (class is_hex)) (followed_by hyphen r)
      (times-Spans n (class is_hex) hex-Spans) (followed_by-Spans 1 k hyphen r hyphen-Spans a)

uuid-Spans : Spans 36 onboarding_uuid_pattern
unfolding onboarding_uuid_pattern
uuid-Spans = group-Spans 8 27 _ (
    group-Spans 4 22 _
      (group-Spans 4 17 _ (group-Spans 4 12 _ (times-Spans 12 (class is_hex) hex-Spans))))

has_empty-All :
    (n k : ℕ) (xs : List String) → All (λ t. n + byte_length t ≡ k) xs → has_empty xs ≡ true → k ≡ n
unfolding byte_length
has_empty-All n k [] a e = absurd (cc)
has_empty-All n k (String.[] ∷ xs) (p, a) e = omega (arith, p)
has_empty-All n k (String.◌∷◌ c s ∷ xs) (p, a) e = has_empty-All n k xs a e

-- A text that the pattern matches has as many bytes as the pattern takes.
Spans-match :
    (n : ℕ) (r : Regex) → Spans n r → (s : String) → match_string r s ≡ true → byte_length s ≡ n
unfolding match_string
Spans-match n r a s e = has_empty-All n (byte_length s) (remainders r s) (a.takes s) e

pub uuid_has_36_bytes :
    (s : String) → match_string onboarding_uuid_pattern s ≡ true → byte_length s ≡ 36
uuid_has_36_bytes = Spans-match 36 onboarding_uuid_pattern uuid-Spans
