-- ===== src/Onboardingmgr/Patterns.antt =====
-- onboarding-manager/pkg/api/onboardingmgr/v1/onboarding.pb.validate.go: the regular expressions of the
-- validation, with Go's matching of them (package regexp) for the constructs that they use. Each of
-- them is anchored at both ends.
use Prim.Native.Char.{Char, code}
use infra_onboarding.Prelude.{
  ℕ, zero, suc, ◌≡◌, refl, String, Bool, true, false, ◌||◌, ◌&&◌, List, [], ◌∷◌, ◌++◌, leb, nat_eq,
}

-- A class of characters, a sequence, and a choice.
pub data Regex : Type 0 where
  empty : Regex
  class : (Char → Bool) → Regex
  followed_by : Regex → Regex → Regex
  or_else : Regex → Regex → Regex

-- what is left of the text after each way to match a prefix of it
abbrev pub after_class : (Char → Bool) → String → List String
after_class p String.[] = []
after_class p (String.◌∷◌ c s) = elim (p c) [ true ↦ s ∷ [] | false ↦ [] ]

abbrev pub flat_map : (String → List String) → List String → List String
flat_map f [] = []
flat_map f (s ∷ rest) = f s ++ flat_map f rest

unfoldable pub remainders : Regex → String → List String
remainders empty s = s ∷ []
remainders (class p) s = after_class p s
remainders (followed_by r q) s = flat_map (remainders q) (remainders r s)
remainders (or_else r q) s = remainders r s ++ remainders q s

abbrev pub has_empty : List String → Bool
has_empty [] = false
has_empty (String.[] ∷ rest) = true
has_empty (String.◌∷◌ c s ∷ rest) = has_empty rest

-- `MatchString` of `^r$`
unfoldable pub match_string : Regex → String → Bool
unfolding remainders
match_string r s = has_empty (remainders r s)

-- `r{n}` and `r?`
abbrev pub times : ℕ → Regex → Regex
times zero r = empty
times (suc n) r = followed_by r (times n r)

abbrev pub optional : Regex → Regex
optional r = or_else r empty

-- `r{n,n+m}`
abbrev pub between : ℕ → ℕ → Regex → Regex
between n zero r = times n r
between n (suc m) r = or_else (times n r) (between (suc n) m r)

-- `[a-b]`, by the codes of the characters, and a single character
abbrev pub in_range : ℕ → ℕ → Char → Bool
in_range a b c = leb a (code c) && leb (code c) b

abbrev pub char : ℕ → Regex
char a = class λ c. nat_eq (code c) a

-- `[0-9a-fA-F]` and `[A-Za-z0-9]`
abbrev pub is_hex : Char → Bool
is_hex c = in_range 48 57 c || (in_range 97 102 c || in_range 65 70 c)

abbrev pub is_alphanumeric : Char → Bool
is_alphanumeric c = in_range 65 90 c || (in_range 97 122 c || in_range 48 57 c)

abbrev pub hyphen : Regex
hyphen = char 45

-- ^[0-9a-fA-F]{8}-[0-9a-fA-F]{4}-[0-9a-fA-F]{4}-[0-9a-fA-F]{4}-[0-9a-fA-F]{12}$
unfoldable pub onboarding_uuid_pattern : Regex
onboarding_uuid_pattern = followed_by (times 8 (class is_hex)) (
    followed_by hyphen (
      followed_by (times 4 (class is_hex)) (
        followed_by hyphen (
          followed_by (times 4 (class is_hex)) (
            followed_by hyphen (
              followed_by (times 4 (class is_hex))
                (followed_by hyphen (times 12 (class is_hex)))))))))

-- ^[A-Za-z0-9]{5,20}$
unfoldable pub serialnum_pattern : Regex
serialnum_pattern = between 5 15 (class is_alphanumeric)

-- ^([0-9a-fA-F]{2}([-:])){5}[0-9a-fA-F]{2}$
unfoldable pub mac_id_pattern : Regex
mac_id_pattern =
    followed_by (times 5 (followed_by (times 2 (class is_hex)) (or_else hyphen (char 58))))
      (times 2 (class is_hex))

-- (?:25[0-5]|2[0-4][0-9]|[01]?[0-9][0-9]?)
abbrev pub digit_class : Regex
digit_class = class (in_range 48 57)

abbrev pub octet : Regex
octet = or_else (followed_by (char 50) (followed_by (char 53) (class (in_range 48 53)))) (
    or_else (followed_by (char 50) (followed_by (class (in_range 48 52)) digit_class)) (
      followed_by (optional (class (in_range 48 49)))
        (followed_by digit_class (optional digit_class))))

-- ^(?:(?:25[0-5]|2[0-4][0-9]|[01]?[0-9][0-9]?)\\.){3}(?:25[0-5]|2[0-4][0-9]|[01]?[0-9][0-9]?)$
unfoldable pub ip_pattern : Regex
ip_pattern = followed_by (times 3 (followed_by octet (char 46))) octet

uuid_test : match_string onboarding_uuid_pattern "12345678-aBcd-1234-1234-123456789abc" ≡ true
unfolding match_string onboarding_uuid_pattern
uuid_test = refl

serialnum_test : match_string serialnum_pattern "AB12z" ≡ true
unfolding match_string serialnum_pattern
serialnum_test = refl

serialnum_short_test : match_string serialnum_pattern "AB12" ≡ false
unfolding match_string serialnum_pattern
serialnum_short_test = refl

mac_id_test : match_string mac_id_pattern "aa:bb-cc:dd:ee:0F" ≡ true
unfolding match_string mac_id_pattern
mac_id_test = refl

ip_test : match_string ip_pattern "10.250.1.99" ≡ true
unfolding match_string ip_pattern
ip_test = refl

ip_large_test : match_string ip_pattern "10.256.1.99" ≡ false
unfolding match_string ip_pattern
ip_large_test = refl
