-- ===== src/Dkam/Variables.antt =====
-- dkam/pkg/curation/curation.go: the variables that templates are rendered with, computed from the
-- configuration.
use infra_onboarding.Prelude.{
  String, Option, none, some, List, [], ◌∷◌, format, insert, split_on, join, head_or_empty, ◌==◌,
  string_has_eq, if◌then◌else◌,
}
use infra_onboarding.Api.Enums.{OsType, os_type_eq}
use infra_onboarding.Dkam.{AgentsVersion, EnManifest, InfraConfig, Value, text, number, flag, texts}

abbrev pub Variables : Type 0
Variables = List (String × Value)

-- Every entry of the second map is written into the first.
unfoldable pub merge : Variables → Variables → Variables
merge m [] = m
merge m ((k, v) ∷ rest) = merge (insert k v m) rest

abbrev pub port_of : List String → Option String
port_of (host ∷ port ∷ rest) = some port
port_of _ = none

abbrev pub add_port : Option String → Option (List String) → Option (List String)
add_port (some p) (some ps) = some (p ∷ ps)
add_port _ _ = none

-- `strings.Split(url, ":")[1]` of each, none where one has no colon: the index is out of range
unfoldable pub ports_of : List String → Option (List String)
unfolding split_on
ports_of [] = some []
ports_of (url ∷ urls) = add_port (port_of (split_on 58 url)) (ports_of urls)

abbrev pub host_of : String → Value
host_of url = text (head_or_empty (split_on 58 url))

-- a version of each agent, the last one of a name
abbrev pub agent_variables : List AgentsVersion → Variables → Variables
agent_variables [] vars = vars
agent_variables (a ∷ rest) vars =
    agent_variables rest (insert (format (a.name ∷ "-VERSION" ∷ [])) (text a.version) vars)

-- The error that comes with an empty list is nil, so that nothing is added then.
unfoldable pub get_agents_list_template_variables : EnManifest → Variables
get_agents_list_template_variables m = elim m.packages [
  | [] ↦ []
  | a ∷ rest ↦ insert "APT_DISTRO" (text m.codename) (agent_variables (a ∷ rest) [])
]

abbrev pub with_firewall_provider : OsType → Variables → Variables
with_firewall_provider OsType.mutable vars = insert "FIREWALL_PROVIDER" (text "ufw") vars
with_firewall_provider OsType.immutable vars = insert "FIREWALL_PROVIDER" (text "iptables") vars
with_firewall_provider _ vars = vars

unfoldable pub set_os_specific_variables : EnManifest → OsType → Variables → Variables
unfolding get_agents_list_template_variables merge
set_os_specific_variables manifest os_type vars =
    if os_type == OsType.mutable
    then merge (with_firewall_provider os_type vars) (get_agents_list_template_variables manifest)
    else with_firewall_provider os_type vars

-- the map of `GetCommonInfraTemplateVariables`, from the ports of its addresses
unfoldable pub common_variables :
    InfraConfig → OsType → String → String → List String → List String → Variables
unfolding split_on join
common_variables c os_type mode ca_cert rules
      (logs ∷ metrics ∷ telemetry ∷ apt ∷ img ∷ manage ∷ []) =
    ("MODE", text mode)
    ∷ ("CA_CERT", text ca_cert)
    ∷ ("ORCH_CLUSTER", text c.cluster_url)
    ∷ ("ORCH_INFRA", text c.infra_url)
    ∷ ("ORCH_UPDATE", text c.update_url)
    ∷ ("ORCH_PLATFORM_OBS_HOST", host_of c.logs_observability_url)
    ∷ ("ORCH_PLATFORM_OBS_PORT", text logs)
    ∷ ("ORCH_PLATFORM_OBS_METRICS_HOST", host_of c.metrics_observability_url)
    ∷ ("ORCH_PLATFORM_OBS_METRICS_PORT", text metrics)
    ∷ ("ORCH_TELEMETRY_HOST", host_of c.telemetry_url)
    ∷ ("ORCH_TELEMETRY_PORT", text telemetry)
    ∷ ("KEYCLOAK_URL", text c.keycloak_url)
    ∷ ("KEYCLOAK_FQDN", host_of c.keycloak_url)
    ∷ ("RELEASE_FQDN", host_of c.release_service_url)
    ∷ ("RELEASE_TOKEN_URL", text c.release_service_url)
    ∷ ("ORCH_APT_PORT", text apt)
    ∷ ("ORCH_IMG_PORT", text img)
    ∷ ("FILE_SERVER", host_of c.file_server_url)
    ∷ ("IMG_REGISTRY_URL", host_of c.registry_url)
    ∷ ("NTP_SERVERS", text (join "," c.ntp_servers))
    ∷ ("DEB_PACKAGES_REPO", text c.en_debian_packages_repo)
    ∷ ("FILE_RS_ROOT", text c.en_files_rs_root)
    ∷ ("RS_TYPE", text c.rs_type)
    ∷ ("ORCH_PLATFORM_MANAGEABILITY_HOST", host_of c.manageability_url)
    ∷ ("ORCH_PLATFORM_MANAGEABILITY_PORT", text manage)
    ∷ ("RPS_ADDRESS", host_of c.rps_address)
    ∷ ("SERVICE_CLIENTS", text (join "," c.en_service_clients))
    ∷ ("OUTBOUND_CLIENTS", text (join "," c.en_outbound_clients))
    ∷ ("METRICS_ENABLED", text c.en_metrics_enabled)
    ∷ ("TOKEN_CLIENTS", text (join "," c.en_token_clients))
    ∷ ("EN_HTTP_PROXY", text c.en_proxy_http)
    ∷ ("EN_HTTPS_PROXY", text c.en_proxy_https)
    ∷ ("EN_NO_PROXY", text c.en_proxy_no_proxy)
    ∷ ("EN_FTP_PROXY", text c.en_proxy_ftp)
    ∷ ("EN_SOCKS_PROXY", text c.en_proxy_socks)
    ∷ ("KERNEL_CONFIG_OVER_COMMIT_MEMORY", number c.system_config_vm_over_commit_memory)
    ∷ ("KERNEL_CONFIG_PANIC_ON_OOPS", number c.system_config_kernel_panic_on_oops)
    ∷ ("KERNEL_CONFIG_KERNEL_PANIC", number c.system_config_kernel_panic)
    ∷ ("KERNEL_CONFIG_MAX_USER_INSTANCE", number c.system_config_fs_inotify_max_user_instances)
    ∷ ("NETIP", text c.net_ip)
    ∷ ("FIREWALL_RULES", texts rules)
    ∷ ("IS_MICROVISOR", flag (os_type == OsType.immutable))
    ∷ ("DISABLE_CO_PROFILE", flag c.disable_co_profile)
    ∷ ("DISABLE_O11Y_PROFILE", flag c.disable_o11y_profile)
    ∷ ("SKIP_OS_PROVISIONING", flag c.skip_os_provisioning)
    ∷ ("ONBOARDING_SVC_URL", text c.onboarding_url)
    ∷ ("ONBOARDING_STREAM_SVC_URL", text c.onboarding_stream_url)
    ∷ []
common_variables c os_type mode ca_cert rules _ = []
