-- ===== src/Dkam.antt =====
-- dkam/pkg: the configuration of the infrastructure (config/config.go), and the values and firewall rules
-- that the curation of scripts takes (curation/curation.go).
pub mod Firewall
pub mod Variables
pub mod Curation
use infra_onboarding.Prelude.{ℕ, String, Bool, List}

pub record AgentsVersion : Type 0 where
  pub name : String
  pub version : String

-- ENManifest with its Repository, of which only the codename is read
pub record EnManifest : Type 0 where
  pub codename : String
  pub packages : List AgentsVersion

pub record InfraConfig : Type 0 where
  pub en_debian_packages_repo : String
  pub en_files_rs_root : String
  pub en_manifest_repo : String
  pub en_agent_manifest_tag : String
  pub infra_url : String
  pub cluster_url : String
  pub update_url : String
  pub release_service_url : String
  pub logs_observability_url : String
  pub metrics_observability_url : String
  pub manageability_url : String
  pub rps_address : String
  pub keycloak_url : String
  pub telemetry_url : String
  pub registry_url : String
  pub file_server_url : String
  pub rs_type : String
  pub en_service_clients : List String
  pub en_outbound_clients : List String
  pub en_metrics_enabled : String
  pub en_token_clients : List String
  pub provisioning_service : String
  pub provisioning_server_url : String
  pub tink_server_url : String
  pub onboarding_url : String
  pub onboarding_stream_url : String
  pub cdn : String
  pub system_config_fs_inotify_max_user_instances : ℕ
  pub system_config_vm_over_commit_memory : ℕ
  pub system_config_kernel_panic_on_oops : ℕ
  pub system_config_kernel_panic : ℕ
  pub en_proxy_http : String
  pub en_proxy_https : String
  pub en_proxy_ftp : String
  pub en_proxy_no_proxy : String
  pub en_proxy_socks : String
  pub net_ip : String
  pub ntp_servers : List String
  pub dns_servers : List String
  pub firewall_req_allow : String
  pub firewall_cfg_allow : String
  pub en_manifest : EnManifest
  pub emb_image_url : String
  pub disable_co_profile : Bool
  pub disable_o11y_profile : Bool
  pub skip_os_provisioning : Bool

pub record FirewallRule : Type 0 where
  pub source_ip : String
  pub ports : String
  pub ip_ver : String
  pub protocol : String

-- A value of a template variable (`interface{}`).
pub data Value : Type 0 where
  text : String → Value
  number : ℕ → Value
  flag : Bool → Value
  texts : List String → Value
