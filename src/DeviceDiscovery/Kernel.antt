-- ===== src/DeviceDiscovery/Kernel.antt =====
-- hook-os/device_discovery: the arguments of the kernel (parse-kernel-arguments.go), the variables of the
-- environment (device-discovery.go), and the IP address (system_info_by_mac.go).
use infra_onboarding.Prelude.{
  String, Bool, not, ◌&&◌, Option, none, some, List, [], ◌∷◌, insert, split_on, join, head_or_empty,
  ◌==◌, string_has_eq, if◌then◌else◌,
}
use infra_onboarding.Api.Errors.{Result, ok, err}
use infra_onboarding.Api.Calls.{read_file, write_file}
use infra_onboarding.Api.Env.{Env}
use infra_onboarding.Act.{Act, pure, panics, call, ask, ◌>>=◌}

pub record TinkConfig : Type 0 where
  pub worker_id : String
  pub debug : String
  pub timeout : String

-- An argument that has no value is read out of range.
abbrev pub value_of : List String → Option String
value_of (key ∷ value ∷ rest) = some value
value_of _ = none

unfoldable pub parse_argument : List String → TinkConfig → Option TinkConfig
parse_argument parts config =
    if head_or_empty parts == "worker_id"
    then elim (value_of parts) [ none ↦ none | some v ↦ some (record config { worker_id = v }) ]
    else if head_or_empty parts == "DEBUG"
    then elim (value_of parts) [ none ↦ none | some v ↦ some (record config { debug = v }) ]
    else if head_or_empty parts == "TIMEOUT"
    then elim (value_of parts) [ none ↦ none | some v ↦ some (record config { timeout = v }) ]
    else some config

-- none where the code panics
unfoldable pub parse_cmd_line : List String → Option TinkConfig → Option TinkConfig
unfolding parse_argument split_on
parse_cmd_line [] config = config
parse_cmd_line (line ∷ lines) none = none
parse_cmd_line (line ∷ lines) (some config) =
    parse_cmd_line lines (parse_argument (split_on 61 line) config)

abbrev pub no_config : TinkConfig
no_config = record { worker_id = ""; debug = ""; timeout = "" }

-- an address of an interface: whether it is a loopback, and whether it is one of IPv4
pub record Address : Type 0 where
  pub is_loopback : Bool
  pub is_ipv4 : Bool
  pub text : String

unfoldable pub first_address : List Address → Option String
first_address [] = none
first_address (a ∷ rest) =
    let later = first_address rest in if not a.is_loopback && a.is_ipv4 then some a.text else later

module _ {E : Type 0} (env : Env E) where
  abbrev pub config_or_panic : Option TinkConfig → Act (Result E TinkConfig)
  config_or_panic none = panics
  config_or_panic (some c) = pure (ok c)

  abbrev pub parse_content : Result E String → Act (Result E TinkConfig)
  parse_content (err e) = pure (err e)
  parse_content (ok content) =
      config_or_panic (parse_cmd_line (split_on 32 content) (some no_config))

  unfoldable pub parse_kernel_arguments : String → Act (Result E TinkConfig)
  unfolding parse_cmd_line split_on
  parse_kernel_arguments path = call env.file (read_file path) >>= parse_content

  -- The addresses of an interface are read once its MAC address is the one looked for.
  abbrev pub address_of_interface : Result E String → Result E (List Address) → Result E String
  address_of_interface later (err e) = err (env.fmt_errorf "failed to get addresses for interface")
  address_of_interface later (ok addresses) = elim (first_address addresses) [
    | none ↦ later
    | some a ↦ ok a
  ]

  unfoldable pub find_address : String → List (String × Result E (List Address)) → Result E String
  unfolding first_address
  find_address mac [] = err (env.fmt_errorf "no IP address found for MAC address")
  find_address mac ((hardware, addresses) ∷ rest) =
      let later = find_address mac rest in
      if hardware == mac then address_of_interface later addresses else later

  unfoldable pub get_ip_address :
      String → Result E (List (String × Result E (List Address))) → Result E String
  unfolding find_address
  get_ip_address mac (err e) = err (env.fmt_errorf "failed to get network interfaces")
  get_ip_address mac (ok interfaces) = find_address mac interfaces

  -- `os.LookupEnv`, where an empty value counts as none
  abbrev pub set_value : Option String → Option String
  set_value none = none
  set_value (some v) = if v == "" then none else some v

  abbrev pub with_required :
      (List (String × String) → Act (Result E (List (String × String))))
      → String
      → List (String × String)
      → Option String
      → Act (Result E (List (String × String)))
  with_required k key vars none = pure (err (env.fmt_errorf "environment variable is missing"))
  with_required k key vars (some v) = k (insert key v vars)

  abbrev pub with_optional :
      String → List (String × String) → Option String → List (String × String)
  with_optional key vars none = vars
  with_optional key vars (some v) = insert key v vars

  unfoldable pub read_optional :
      List String → List (String × String) → Act (Result E (List (String × String)))
  read_optional [] vars = pure (ok vars)
  read_optional (key ∷ keys) vars =
      let later = read_optional keys in
      ask (λ h. env.lookup_env h key) >>= λ v. later (with_optional key vars (set_value v))

  unfoldable pub read_required :
      List String → List String → List (String × String) → Act (Result E (List (String × String)))
  unfolding read_optional
  read_required [] optional vars = read_optional optional vars
  read_required (key ∷ keys) optional vars =
      let later = read_required keys optional in
      ask (λ h. env.lookup_env h key) >>= λ v. with_required later key vars (set_value v)

  unfoldable pub read_env_vars : List String → List String → Act (Result E (List (String × String)))
  unfolding read_required
  read_env_vars required optional = read_required required optional []

  abbrev pub hosts_error : Option E → Option E
  hosts_error none = none
  hosts_error (some e) = some (env.fmt_errorf "error updating /etc/hosts")

  -- The file is written as a whole: the mode given to os.WriteFile does not make it append.
  unfoldable pub update_hosts : String → Act (Option E)
  unfolding split_on join
  update_hosts extra_hosts =
      if extra_hosts == ""
      then pure none
      else (call env.outcome
            (write_file "/etc/hosts" (join "" (split_on 34 (join "\n" (split_on 44 extra_hosts)))))
          >>= λ failure. pure (hosts_error failure))
