-- ===== src/Onboardingmgr/Accepted.antt =====
-- Which texts and messages the validation accepts (onboarding.pb.validate.go).
use Prim.Native.Char.{Char}
use infra_onboarding.Prelude.{
  ℕ, zero, suc, ◌+◌, ◌≡◌, refl, sym, ◌∙◌, String, Bool, true, false, ◌&&◌, ◌||◌, Option, none, some,
  List, [], ◌∷◌, ◌++◌, ◌≤◌, leb, nat_eq, arith, char_count, byte_length, all_chars,
}
use infra_onboarding.Onboardingmgr.{
  HwData, OnboardNodeStreamRequest, ValidationError, multi, ValidationErrors, nil, cons,
}
use infra_onboarding.Onboardingmgr.Patterns.{
  Regex, class, flat_map, has_empty, remainders, match_string, times, between, is_alphanumeric,
  serialnum_pattern, onboarding_uuid_pattern,
}
use infra_onboarding.Onboardingmgr.Spans.{uuid_has_36_bytes}
use infra_onboarding.Onboardingmgr.Validate.{
  validate_uuid, append_error, errors_found, check, is_valid, uuid_error, serialnum_error,
  mac_id_error, ip_error, validate_fields, validate_hw_data, validate_onboard_node_stream_request,
}

has_empty-append : (xs ys : List String) → has_empty (xs ++ ys) ≡ (has_empty xs || has_empty ys)
has_empty-append [] ys = refl
has_empty-append (String.[] ∷ xs) ys = refl
has_empty-append (String.◌∷◌ c s ∷ xs) ys = has_empty-append xs ys

or_false : (b : Bool) → (b || false) ≡ b
or_false true = refl
or_false false = refl

has_empty-class :
    (r : Regex) (s : String) (b : Bool)
    → has_empty (flat_map (remainders r) (elim b [ true ↦ s ∷ [] | false ↦ [] ]))
      ≡ (b && match_string r s)
unfolding match_string
has_empty-class r s true =
    has_empty-append (remainders r s) [] ∙ or_false (has_empty (remainders r s))
has_empty-class r s false = refl

match-times :
    (p : Char → Bool) (n : ℕ) (s : String)
    → match_string (times n (class p)) s ≡ (all_chars p s && nat_eq (char_count s) n)
unfolding match_string remainders all_chars char_count
match-times p zero String.[] = refl
match-times p zero (String.◌∷◌ c s) = ground arith
match-times p (suc n) String.[] = ground arith
match-times p (suc n) (String.◌∷◌ c s) =
    has_empty-class (times n (class p)) s (p c) ∙ (rw (match-times p n s) (ground arith))

match-between :
    (p : Char → Bool) (n m : ℕ) (s : String)
    → match_string (between n m (class p)) s
      ≡ (all_chars p s && (leb n (char_count s) && leb (char_count s) (n + m)))
unfolding match_string remainders
match-between p n zero s = match-times p n s ∙ ground arith
match-between p n (suc m) s =
    has_empty-append (remainders (times n (class p)) s) (remainders (between (suc n) m (class p)) s)
    ∙ (rw (match-times p n s, match-between p (suc n) m s) (ground arith))

-- The serial numbers that the pattern of the validation matches are the texts of 5 to 20 characters
-- that are letters and digits.
pub serialnum_matches :
    (s : String)
    → match_string serialnum_pattern s
      ≡ (all_chars is_alphanumeric s && (leb 5 (char_count s) && leb (char_count s) 20))
unfolding serialnum_pattern
serialnum_matches s = match-between is_alphanumeric 5 15 s

pub first_error : Option ValidationError → Option ValidationError
first_error (some (multi (cons e es))) = some e
first_error _ = none

-- The checks that follow an error leave it the first one.
abbrev KeepsFirst : (ValidationErrors → Option ValidationError) → Type 0
KeepsFirst rest =
    (d : ValidationError) (ds : ValidationErrors) → first_error (rest (cons d ds)) ≡ some d

found-KeepsFirst : KeepsFirst errors_found
unfolding first_error
found-KeepsFirst d ds = refl

check-KeepsFirst :
    (b : Bool) (e : ValidationError) (rest : ValidationErrors → Option ValidationError)
    → KeepsFirst rest
    → KeepsFirst (check true b e rest)
check-KeepsFirst true e rest k d ds = k d ds
check-KeepsFirst false e rest k d ds = k d (append_error ds e)

-- Where all checks before it hold, a check finds the same first error either way.
check-first :
    (b : Bool) (e : ValidationError) (rest once : ValidationErrors → Option ValidationError)
    → KeepsFirst rest
    → first_error (rest nil) ≡ once nil
    → first_error (check true b e rest nil) ≡ check false b e once nil
check-first true e rest once k same = same
check-first false e rest once k same = k e nil

validate_fields-first :
    (message field : String) (uuid_cause : Option ValidationError) (serial mac ip : Bool)
    → first_error (validate_fields true message field uuid_cause serial mac ip)
      ≡ validate_fields false message field uuid_cause serial mac ip
unfolding validate_fields first_error
validate_fields-first message field uuid_cause serial mac ip =
    let k1 = check-KeepsFirst ip (ip_error message field) errors_found found-KeepsFirst in
    let k2 = check-KeepsFirst mac (mac_id_error message) _ k1 in
    let k3 = check-KeepsFirst serial (serialnum_error message) _ k2 in
    check-first (is_valid uuid_cause) (uuid_error message uuid_cause) _ _ k3 (
      check-first serial (serialnum_error message) _ _ k2 (
        check-first mac (mac_id_error message) _ _ k1
          (check-first ip (ip_error message field) _ _ found-KeepsFirst refl)))

-- For the two messages with rules of their own, `Validate` gives the first of the errors that
-- `ValidateAll` collects, and none where it collects none.
pub validate_gives_first :
    (request : OnboardNodeStreamRequest) (hw : HwData)
    → (first_error (validate_onboard_node_stream_request true request)
        ≡ validate_onboard_node_stream_request false request)
      × (first_error (validate_hw_data true hw) ≡ validate_hw_data false hw)
unfolding validate_onboard_node_stream_request validate_hw_data
validate_gives_first request hw = (
  validate_fields-first "OnboardNodeStreamRequest" "HostIp" _ _ _ _,
  validate_fields-first "HwData" "SutIp" _ _ _ _,
)

-- what a request has that passes all checks
passed :
    (message field : String) (uuid_cause : Option ValidationError) (serial mac ip : Bool)
    → validate_fields false message field uuid_cause serial mac ip ≡ none
    → (uuid_cause ≡ none) × (serial ≡ true) × (mac ≡ true) × (ip ≡ true)
unfolding validate_fields
passed message field (some e) serial mac ip q = absurd (cc)
passed message field none false mac ip q = absurd (cc)
passed message field none true false ip q = absurd (cc)
passed message field none true true false q = absurd (cc)
passed message field none true true true q = (refl, refl, refl, refl)

uuid_matched :
    (u : String) (b : Bool)
    → match_string onboarding_uuid_pattern u ≡ b
    → validate_uuid u ≡ none
    → b ≡ true
unfolding validate_uuid
uuid_matched u true e q = refl
uuid_matched u false e q = let p = rw e at q in absurd (cc)

within :
    (s : String)
    → (all_chars is_alphanumeric s && (leb 5 (char_count s) && leb (char_count s) 20)) ≡ true
    → (5 ≤ char_count s) × (char_count s ≤ 20)
within s q = ground arith

-- A stream request that passes validation has a UUID of 36 bytes, the length that the client of the
-- inventory asks for besides, and a serial number of 5 to 20 characters, so that neither is empty.
pub valid_request_bounds :
    (request : OnboardNodeStreamRequest)
    → validate_onboard_node_stream_request false request ≡ none
    → (byte_length request.uuid ≡ 36)
      × (5 ≤ char_count request.serialnum)
      × (char_count request.serialnum ≤ 20)
unfolding validate_onboard_node_stream_request
valid_request_bounds request q =
    let (u, s, m, i) = passed "OnboardNodeStreamRequest" "HostIp" _ _ _ _ q in
    let (low, high) = within request.serialnum (sym (serialnum_matches request.serialnum) ∙ s) in
    (uuid_has_36_bytes request.uuid (uuid_matched request.uuid _ refl u), low, high)
