-- ===== src/Prelude/Split.antt =====
-- Text in parts: `strings.Split` and `strings.Join`, and maps printed in the order of their keys.
use Prim.Native.Nat.{ℕ}
use Prim.Native.Char.{Char, code}
use Prim.Native.String.{String}
use mathlib.Core.Path.{◌≡◌, refl}
use mathlib.Core.Bool.{Bool, true, false}
use mathlib.Core.Option.{Option, none, some}
use mathlib.Core.List.{List, [], ◌∷◌, map}
use infra_onboarding.Prelude.Tests.{ltb, nat_eq, if◌then◌else◌}
use infra_onboarding.Prelude.Text.{format}

-- a character before the first part
abbrev pub prepend : Char → List String → List String
prepend c [] = String.◌∷◌ c "" ∷ []
prepend c (s ∷ rest) = String.◌∷◌ c s ∷ rest

-- strings.Split(s, sep), where the separator is one character, by its code
unfoldable pub split_on : ℕ → String → List String
split_on sep String.[] = "" ∷ []
split_on sep (String.◌∷◌ c s) =
    let rest = split_on sep s in if nat_eq (code c) sep then "" ∷ rest else prepend c rest

-- `strings.Split(s, sep)[0]` and `strings.Split(s, sep)[1]`, the second of which may be out of range
abbrev pub head_or_empty : List String → String
head_or_empty [] = ""
head_or_empty (s ∷ rest) = s

-- strings.Join(parts, sep)
unfoldable pub join : String → List String → String
join sep [] = ""
join sep (s ∷ []) = s
join sep (s ∷ t ∷ rest) = format (s ∷ sep ∷ join sep (t ∷ rest) ∷ [])

-- `a < b` on text
abbrev pub text_before : String → String → Bool
text_before String.[] String.[] = false
text_before String.[] (String.◌∷◌ d t) = true
text_before (String.◌∷◌ c s) String.[] = false
text_before (String.◌∷◌ c s) (String.◌∷◌ d t) =
    let rest = text_before s t in
    if ltb (code c) (code d) then true else if nat_eq (code c) (code d) then rest else false

abbrev pub insert_sorted : String × String → List (String × String) → List (String × String)
insert_sorted e [] = e ∷ []
insert_sorted e (f ∷ rest) =
    let later = insert_sorted e rest in if text_before e.0 f.0 then e ∷ f ∷ rest else f ∷ later

abbrev pub sorted_by_key : List (String × String) → List (String × String)
sorted_by_key [] = []
sorted_by_key (e ∷ rest) = insert_sorted e (sorted_by_key rest)

abbrev pub entry_text : String × String → String
entry_text e = format (e.0 ∷ ":" ∷ e.1 ∷ [])

-- `fmt.Sprintf("%v", m)` of a map from text to text
unfoldable pub map_text : List (String × String) → String
unfolding join
map_text m = format ("map[" ∷ join " " (map entry_text (sorted_by_key m)) ∷ "]" ∷ [])

-- what follows a prefix, if the text has it
abbrev pub after_prefix : String → String → Option String
after_prefix String.[] s = some s
after_prefix (String.◌∷◌ c p) String.[] = none
after_prefix (String.◌∷◌ c p) (String.◌∷◌ d s) =
    let rest = after_prefix p s in if nat_eq (code c) (code d) then rest else none

-- strings.Replace(s, old, new, 1), where the old text is not empty
unfoldable pub replace_first : String → String → String → String
replace_first old new String.[] = ""
replace_first old new (String.◌∷◌ c s) =
    let later = String.◌∷◌ c (replace_first old new s) in
    elim (after_prefix old (String.◌∷◌ c s)) [ some rest ↦ format (new ∷ rest ∷ []) | none ↦ later ]

replace_first_test : replace_first "keycloak" "release" "a.keycloak.b" ≡ "a.release.b"
unfolding replace_first
replace_first_test = refl

split_on_test : split_on 58 "host:443" ≡ "host" ∷ "443" ∷ []
unfolding split_on
split_on_test = refl

map_text_test : map_text (("b", "2") ∷ ("a", "1") ∷ []) ≡ "map[a:1 b:2]"
unfolding map_text join
map_text_test = refl
