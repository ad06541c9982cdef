-- ===== src/Onboardingmgr/Validate.antt =====
-- onboarding-manager/pkg/api/onboardingmgr/v1/onboarding.pb.validate.go: the generated `validate(all)`
-- of the messages, and the text of its errors. `Validate` is `validate` of `false`, `ValidateAll` of
-- `true`; the messages are not nil.
use infra_onboarding.Prelude.{
  ℕ, suc, String, Bool, true, false, Option, none, some, List, [], ◌∷◌, format, decimal,
  if◌then◌else◌,
}
use infra_onboarding.Onboardingmgr.{
  HwData, NodeData, CreateNodesRequest, CreateNodesResponse, OnboardNodeStreamRequest,
  ValidationError, plain, violation, caused, multi, ValidationErrors, nil, cons,
}
use infra_onboarding.Onboardingmgr.Patterns.{
  match_string, onboarding_uuid_pattern, serialnum_pattern, mac_id_pattern, ip_pattern,
}

-- `errors = append(errors, err)`
abbrev pub append_error : ValidationErrors → ValidationError → ValidationErrors
append_error nil e = cons e nil
append_error (cons d ds) e = cons d (append_error ds e)

abbrev pub errors_found : ValidationErrors → Option ValidationError
errors_found nil = none
errors_found (cons e es) = some (multi (cons e es))

-- A failed check returns its error, or appends it if all of them are wanted.
abbrev pub check :
    Bool
    → Bool
    → ValidationError
    → (ValidationErrors → Option ValidationError)
    → ValidationErrors
    → Option ValidationError
check all true e rest errors = rest errors
check true false e rest errors = rest (append_error errors e)
check false false e rest errors = some e

unfoldable pub validate_uuid : String → Option ValidationError
unfolding match_string
validate_uuid uuid =
    if match_string onboarding_uuid_pattern uuid then none else some (plain "invalid uuid format")

abbrev pub is_valid : Option ValidationError → Bool
is_valid none = true
is_valid (some e) = false

abbrev pub uuid_error : String → Option ValidationError → ValidationError
uuid_error message none = violation message "Uuid" "value must be a valid UUID"
uuid_error message (some cause) = caused message "Uuid" "value must be a valid UUID" cause

abbrev pub serialnum_error : String → ValidationError
serialnum_error message =
    violation message "Serialnum" "value does not match regex pattern \"^[A-Za-z0-9]{5,20}$\""

abbrev pub mac_id_error : String → ValidationError
mac_id_error message =
    violation message "MacId"
      "value does not match regex pattern \"^([0-9a-fA-F]{2}([-:])){5}[0-9a-fA-F]{2}$\""

abbrev pub ip_error : String → String → ValidationError
ip_error message field =
    violation message field
      "value does not match regex pattern \"^(?:(?:25[0-5]|2[0-4][0-9]|[01]?[0-9][0-9]?)\\\\.){3}(?:25[0-5]|2[0-4][0-9]|[01]?[0-9][0-9]?)$\""

-- the four checks of the two messages that have them, by which of them hold
unfoldable pub validate_fields :
    Bool → String → String → Option ValidationError → Bool → Bool → Bool → Option ValidationError
validate_fields all message ip_field uuid_cause serialnum_matches mac_matches ip_matches =
    check all (is_valid uuid_cause) (uuid_error message uuid_cause)
      (check all serialnum_matches (serialnum_error message) (
        check all mac_matches (mac_id_error message)
          (check all ip_matches (ip_error message ip_field) errors_found)))
      nil

unfoldable pub validate_hw_data : Bool → HwData → Option ValidationError
unfolding validate_fields validate_uuid match_string
validate_hw_data all m =
    validate_fields all "HwData" "SutIp" (validate_uuid m.uuid)
      (match_string serialnum_pattern m.serialnum) (match_string mac_id_pattern m.mac_id)
      (match_string ip_pattern m.sut_ip)

unfoldable pub validate_onboard_node_stream_request :
    Bool → OnboardNodeStreamRequest → Option ValidationError
unfolding validate_fields validate_uuid match_string
validate_onboard_node_stream_request all m =
    validate_fields all "OnboardNodeStreamRequest" "HostIp" (validate_uuid m.uuid)
      (match_string serialnum_pattern m.serialnum) (match_string mac_id_pattern m.mac_id)
      (match_string ip_pattern m.host_ip)

abbrev embedded : String → String → ℕ → ValidationError → ValidationError
embedded message field idx cause =
    caused message (format (field ∷ "[" ∷ decimal idx ∷ "]" ∷ []))
      "embedded message failed validation" cause

-- the loop over the messages of a repeated field
unfoldable pub validate_each {ℓ} :
    {A : Type ℓ}
    → (Bool → A → Option ValidationError)
    → Bool
    → String
    → String
    → ℕ
    → List A
    → ValidationErrors
    → Option ValidationError
validate_each validate all message field idx [] errors = errors_found errors
validate_each validate all message field idx (item ∷ items) errors =
    let rest = validate_each validate all message field (suc idx) items in
    elim (validate all item) [
      | none ↦ rest errors
      | some cause ↦ check all false (embedded message field idx cause) rest errors
    ]

unfoldable pub validate_node_data : Bool → NodeData → Option ValidationError
unfolding validate_each validate_hw_data
validate_node_data all m = validate_each validate_hw_data all "NodeData" "Hwdata" 0 m.hwdata nil

unfoldable pub validate_create_nodes_request : Bool → CreateNodesRequest → Option ValidationError
unfolding validate_each validate_node_data
validate_create_nodes_request all m =
    validate_each validate_node_data all "CreateNodesRequest" "Payload" 0 m.payload nil

unfoldable pub validate_create_nodes_response : Bool → CreateNodesResponse → Option ValidationError
unfolding validate_each validate_node_data
validate_create_nodes_response all m =
    validate_each validate_node_data all "CreateNodesResponse" "Payload" 0 m.payload nil

-- `Field` and `Cause`, for the errors that have them
abbrev pub field_of : ValidationError → Option String
field_of (violation message field reason) = some field
field_of (caused message field reason cause) = some field
field_of _ = none

-- `Error`
unfoldable mutual
  pub error_text : ValidationError → String
  error_text (plain s) = s
  error_text (violation message field reason) =
      format ("invalid " ∷ message ∷ "." ∷ field ∷ ": " ∷ reason ∷ [])
  error_text (caused message field reason cause) = format (
      "invalid " ∷ message ∷ "." ∷ field ∷ ": " ∷ reason ∷ " | caused by: " ∷ error_text cause ∷ [])
  error_text (multi es) = joined es

  -- `strings.Join(msgs, "; ")`
  pub joined : ValidationErrors → String
  joined nil = ""
  joined (cons e nil) = error_text e
  joined (cons e (cons d ds)) = format (error_text e ∷ "; " ∷ joined (cons d ds) ∷ [])
