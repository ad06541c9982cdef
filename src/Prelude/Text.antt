-- ===== src/Prelude/Text.antt =====
-- Text: `fmt.Sprintf` as the concatenation of its parts, and maps keyed by text.
use Prim.Native.Nat.{ℕ, zero, suc, ◌+◌, ◌/◌, ◌%◌, ◌<◌, ◌≤◌}
use Prim.Native.Char.{Char, code}
use Prim.Native.String.{String}
use Prim.Native.String
use mathlib.Core.Bool.{Bool, true, false, ◌&&◌, ◌||◌}
use mathlib.Core.List.{List, [], ◌∷◌}
use mathlib.Core.Option.{Option, none, some}
use text.Mathlib.Text.{starts_with, ◌==◌ as str_eq}
use mathlib.Core.Path.{◌≡◌, refl, ap, ◌∙◌}
use mathlib.Core.Logic.{inl, inr}
use native.Mathlib.Omega.{arith}
use infra_onboarding.Prelude.Tests.{ltb, leb, nat_eq, Bool-cases, if◌then◌else◌}
use infra_onboarding.Prelude.Lists.{get_elem?}

-- The parts of a format, in order.
abbrev pub format : List String → String
format [] = ""
format (s ∷ []) = s
format (s ∷ t ∷ rest) = String.◌++◌ s (format (t ∷ rest))

module _ {ℓ} {V : Type ℓ} where
  -- `v, ok := m[k]`
  unfoldable pub lookup : String → List (String × V) → Option V
  lookup k [] = none
  lookup k ((j, v) ∷ m) = elim (str_eq j k) [ true ↦ some v | false ↦ lookup k m ]

-- The decimal digits of a number (`%d`).
digit_texts : List String
digit_texts = "0" ∷ "1" ∷ "2" ∷ "3" ∷ "4" ∷ "5" ∷ "6" ∷ "7" ∷ "8" ∷ "9" ∷ []

digit : ℕ → String
unfolding digit_texts
digit n = elim (get_elem? digit_texts n) [ none ↦ "" | some s ↦ s ]

pub decimal_fuel : ℕ → ℕ → String
unfolding digit
decimal_fuel zero n = ""
decimal_fuel (suc f) n =
    let rest = String.◌++◌ (decimal_fuel f (n / 10)) (digit (n % 10)) in
    if ltb n 10 then digit n else rest

-- A number has at most as many digits as it counts, so this fuel is enough.
unfoldable pub decimal : ℕ → String
unfolding decimal_fuel
decimal n = decimal_fuel (suc n) n

decimal_fuel_enough : (f g n : ℕ) → n < f → n < g → decimal_fuel f n ≡ decimal_fuel g n
unfolding decimal_fuel
decimal_fuel_enough zero g n p q = elim p [ ]
decimal_fuel_enough (suc f) zero n p q = elim q [ ]
decimal_fuel_enough (suc f) (suc g) n p q = elim (Bool-cases (ltb n 10)) [
  | inl small ↦ rw small
  | inr big ↦ rw big (rw (decimal_fuel_enough f g (n / 10) (ground arith) (ground arith)))
]

decimal-digit : (n : ℕ) → n < 10 → decimal n ≡ digit n
unfolding decimal_fuel decimal
decimal-digit n h = let small : ltb n 10 ≡ true = ground arith in rw small

decimal_fuel-big :
    (f n : ℕ)
    → 10 ≤ n
    → decimal_fuel (suc f) n ≡ String.◌++◌ (decimal_fuel f (n / 10)) (digit (n % 10))
unfolding decimal_fuel
decimal_fuel-big f n h = let big : ltb n 10 ≡ false = ground arith in rw big

-- The digits of a number of two digits or more are those of its tenth and one more.
pub decimal_step : (n : ℕ) → 10 ≤ n → decimal n ≡ String.◌++◌ (decimal (n / 10)) (decimal (n % 10))
unfolding decimal
decimal_step n h = rw (decimal-digit (n % 10) (omega arith)) (
    decimal_fuel-big n n h
    ∙ ap (λ s. String.◌++◌ s (digit (n % 10)))
        (decimal_fuel_enough n (suc (n / 10)) (n / 10) (omega arith) (omega arith)))

decimal_test : decimal 1207 ≡ "1207"
unfolding decimal
decimal_test = refl

module _ {ℓ} {V : Type ℓ} where
  -- `m[k] = v`
  unfoldable pub insert : String → V → List (String × V) → List (String × V)
  insert k v [] = (k, v) ∷ []
  insert k v ((j, w) ∷ m) =
      let rest = insert k v m in elim (str_eq j k) [ true ↦ (k, v) ∷ m | false ↦ (j, w) ∷ rest ]

same_end : String → String → Bool
same_end suffix s = str_eq s suffix

-- strings.HasSuffix(s, suffix)
pub ends_with : String → String → Bool
unfolding same_end
ends_with String.[] suffix = same_end suffix ""
ends_with (String.◌∷◌ c s) suffix = same_end suffix (String.◌∷◌ c s) || ends_with s suffix

is_one_of : List ℕ → ℕ → Bool
is_one_of [] n = false
is_one_of (m ∷ ms) n = nat_eq n m || is_one_of ms n

-- unicode.IsSpace
is_space : Char → Bool
unfolding is_one_of
is_space c =
    (leb 9 (code c) && leb (code c) 13)
    || ((leb 8192 (code c) && leb (code c) 8202)
        || is_one_of (32 ∷ 133 ∷ 160 ∷ 5760 ∷ 8232 ∷ 8233 ∷ 8239 ∷ 8287 ∷ 12288 ∷ []) (code c))

trim_left : String → String
unfolding is_space
trim_left String.[] = ""
trim_left (String.◌∷◌ c s) = let rest = trim_left s in if is_space c then rest else String.◌∷◌ c s

trim_right : String → String
unfolding is_space
trim_right String.[] = ""
trim_right (String.◌∷◌ c s) =
    let rest = trim_right s in if is_space c && str_eq rest "" then "" else String.◌∷◌ c rest

-- strings.TrimSpace(s)
unfoldable pub trim_space : String → String
unfolding trim_left trim_right
trim_space s = trim_right (trim_left s)

-- strings.Contains(s, part), where the part is not empty
unfoldable pub contains : String → String → Bool
contains String.[] part = false
contains (String.◌∷◌ c s) part = starts_with (String.◌∷◌ c s) part || contains s part

trim_space_test : trim_space " a b\n" ≡ "a b"
unfolding trim_space
trim_space_test = refl

contains_test : contains "disk.img.gz" ".img" ≡ true
unfolding contains
contains_test = refl

-- the number of characters
unfoldable pub char_count : String → ℕ
char_count String.[] = 0
char_count (String.◌∷◌ c s) = suc (char_count s)

-- `len(s)`, the number of bytes in UTF-8
pub utf8_width : Char → ℕ
utf8_width c =
    if ltb (code c) 128
    then 1
    else if ltb (code c) 2048
    then 2
    else if ltb (code c) 65536
    then 3
    else 4

unfoldable pub byte_length : String → ℕ
byte_length String.[] = 0
byte_length (String.◌∷◌ c s) = utf8_width c + byte_length s

unfoldable pub all_chars : (Char → Bool) → String → Bool
all_chars p String.[] = true
all_chars p (String.◌∷◌ c s) = p c && all_chars p s

pub ascii_width : (c : Char) → code c < 128 → utf8_width c ≡ 1
unfolding utf8_width
ascii_width c h = let small : ltb (code c) 128 ≡ true = ground arith in rw small
