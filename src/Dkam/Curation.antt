-- ===== src/Dkam/Curation.antt =====
-- dkam/pkg/curation/curation.go: what the variables need from files and rules, and the rendering.
use infra_onboarding.Prelude.{
  String, Bool, true, false, Option, none, some, List, [], ◌∷◌, ◌++◌, format, insert, ◌==◌,
  string_has_eq, if◌then◌else◌,
}
use infra_onboarding.Api.Enums.{OsType, os_type_eq}
use infra_onboarding.Api.Errors.{Result, ok, err}
use infra_onboarding.Api.Calls.{stat, read_file}
use infra_onboarding.Api.Env.{Env}
use infra_onboarding.Act.{Act, pure, panics, call, ask, ◌>>=◌, ◌on_ok◌}
use infra_onboarding.Dkam.{InfraConfig, FirewallRule, text}
use infra_onboarding.Dkam.Firewall.{generate_ufw_commands, generate_iptables_commands}
use infra_onboarding.Dkam.Variables.{
  Variables, ports_of, set_os_specific_variables, common_variables,
}

abbrev pub orch_ca_certificate_file : String
orch_ca_certificate_file = "/etc/ssl/orch-ca-cert/ca.crt"

abbrev pub boots_ca_certificate_file : String
boots_ca_certificate_file = "/etc/ssl/boots-ca-cert/ca.crt"

-- `firewallRules`, in the order of the rules
abbrev pub commands_of : (FirewallRule → List String) → List FirewallRule → List String
commands_of generate [] = []
commands_of generate (rule ∷ rules) = generate rule ++ commands_of generate rules

module _ {E : Type 0} (env : Env E) where
  abbrev pub exists_unless : Option E → Result E Bool
  exists_unless none = ok true
  exists_unless (some e) = if env.is_not_exist e then ok false else err e

  abbrev pub path_exists : String → Act (Result E Bool)
  path_exists path = do failure ← call env.outcome (stat path); pure (exists_unless failure)

  abbrev pub content_or : String → Result E String → Result E String
  content_or message (ok content) = ok content
  content_or message (err e) = err (env.errorf message)

  -- from the check of the path on
  unfoldable pub read_ca_cert : Result E Bool → Act (Result E String)
  read_ca_cert (err e) = pure (err (env.errorf "Failed to check if CA certificate path exists"))
  read_ca_cert (ok false) = pure (err (env.errorf "Cannot find CA certificate under given path"))
  read_ca_cert (ok true) = do
    content ← call env.file (read_file orch_ca_certificate_file)
    pure (content_or "Failed to read CA certificate file" content)

  unfoldable pub get_ca_cert : Act (Result E String)
  unfolding read_ca_cert
  get_ca_cert = path_exists orch_ca_certificate_file >>= read_ca_cert

  abbrev pub read_or : String → String → Act (Result E String)
  read_or path message = do
    content ← call env.file (read_file path)
    pure (elim content [ ok c ↦ ok c | err e ↦ err (env.fmt_errorf message) ])

  unfoldable pub get_combined_ca_pem : Act (Result E String)
  get_combined_ca_pem = read_or orch_ca_certificate_file "failed to read orch-ca-cert" on_ok λ orch.
      read_or boots_ca_certificate_file "failed to read boots-ca-cert" on_ok λ boots.
      pure (ok (format (orch ∷ "\n" ∷ boots ∷ [])))

  unfoldable pub parse_json_firewall_rules : String → Result E (List FirewallRule)
  parse_json_firewall_rules rules = if rules == "" then ok [] else env.unmarshal_rules rules

  abbrev pub rules_of :
      Bool → Result E (List FirewallRule) → Result E (List FirewallRule) → Result E (List String)
  rules_of ufw (err e) cfg = err e
  rules_of ufw (ok req) (err e) = err e
  rules_of true (ok req) (ok cfg) = ok (commands_of (generate_ufw_commands env.is_ip) (req ++ cfg))
  rules_of false (ok req) (ok cfg) =
      ok (commands_of (generate_iptables_commands env.is_ip) (req ++ cfg))

  -- The two texts of rules are those of the current configuration.
  unfoldable pub get_custom_firewall_rules : InfraConfig → Bool → Result E (List String)
  unfolding parse_json_firewall_rules
  get_custom_firewall_rules current ufw =
      rules_of ufw (parse_json_firewall_rules current.firewall_req_allow)
        (parse_json_firewall_rules current.firewall_cfg_allow)

  abbrev pub with_ca_pem : InfraConfig → Variables → Act (Result E Variables)
  with_ca_pem current vars =
      if current.skip_os_provisioning
      then (get_combined_ca_pem on_ok λ pem. pure (ok (insert "CA_PEM" (text pem) vars)))
      else pure (ok vars)

  -- the addresses whose ports are taken
  abbrev pub addresses_with_port : InfraConfig → List String
  addresses_with_port c =
      c.logs_observability_url ∷ c.metrics_observability_url ∷ c.telemetry_url ∷ c.file_server_url
      ∷ c.registry_url ∷ c.manageability_url ∷ []

  -- An address without a port panics.
  unfoldable pub fill_variables :
      InfraConfig
      → InfraConfig
      → OsType
      → String
      → List String
      → Option (List String)
      → Act (Result E Variables)
  unfolding get_combined_ca_pem common_variables set_os_specific_variables
  fill_variables current config os_type ca_cert rules none = panics
  fill_variables current config os_type ca_cert rules (some ports) =
      with_ca_pem current (common_variables config os_type (env.getenv "MODE") ca_cert rules ports)
      on_ok λ vars. pure (ok (set_os_specific_variables current.en_manifest os_type vars))

  -- The configuration is read again while the one given is used: `current` and `config`.
  unfoldable pub get_common_infra_template_variables :
      InfraConfig → OsType → Act (Result E Variables)
  unfolding get_ca_cert get_custom_firewall_rules fill_variables ports_of
  get_common_infra_template_variables config os_type = get_ca_cert on_ok λ ca_cert. do
    current ← ask env.infra_config
    pure (get_custom_firewall_rules current (os_type == OsType.mutable)) on_ok λ rules.
        fill_variables current config os_type ca_cert rules (ports_of (addresses_with_port config))

  abbrev pub rendered : Option String → Result E String
  rendered none = err (env.errorf "Failed to render installation script")
  rendered (some s) = ok s

  unfoldable pub curate_from_template : String → Variables → Result E String
  curate_from_template template vars =
      if env.parses_template template
      then rendered (env.execute_template template vars)
      else err (env.errorf "Failed to parse installation script template")
