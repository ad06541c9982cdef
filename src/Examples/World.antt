-- ===== src/Examples/World.antt =====
-- Surroundings in which every call succeeds, with errors as plain data, and one instance to provision.
use infra_onboarding.Prelude.{
  ◌∷◌, ◌==◌, if◌then◌else◌, string_has_eq, ◌≡◌, ◌≢◌, refl, length, nat_eq, Bool, true, false,
  Option, none, some, String, [], arith,
}
use infra_onboarding.Api.Enums.{HostState, InstanceState, OsType, OsProviderKind, ResourceKind}
use infra_onboarding.Api.Resources.{
  HostResource, InstanceResource, OsResource, ProviderConfig, Resource, zero_host, zero_instance,
}
use infra_onboarding.Api.Tink.{WorkflowState, Workflow}
use infra_onboarding.Api.Errors.{
  Errors, IsLawful, Code, ok_code, invalid_argument, not_found, aborted, internal,
  failed_precondition, permission_denied, unauthenticated, unavailable, unnamed, Reason,
  operation_in_progress, ok,
}
use infra_onboarding.Api.Env.{Env}
use infra_onboarding.Dkam.{InfraConfig}
use infra_onboarding.DeviceInfo.{DeviceInfo}

-- an error: one with a code, or one that something is in progress
pub data Failure : Type 0 where
  coded : Code → String → Failure
  in_progress : String → Failure

abbrev code_of : Option Failure → Code
code_of none = ok_code
code_of (some (coded c m)) = c
code_of (some (in_progress m)) = internal

abbrev has_code_not_found : Option Failure → Bool
has_code_not_found (some (coded not_found m)) = true
has_code_not_found _ = false

abbrev is_in_progress : Option Failure → Bool
is_in_progress (some (in_progress m)) = true
is_in_progress _ = false

abbrev of_reason : Reason → String → Failure
of_reason operation_in_progress m = in_progress m

abbrev pub failures : Errors Failure
failures = record {
  errorf = coded (unnamed 0);
  errorfc = coded;
  errorfr = of_reason;
  wrap = λ e. e;
  fmt_errorf = coded (unnamed 1);
  wrap_message = λ e m. e;
  from_error = λ _. true;
  code = code_of;
  is_not_found = has_code_not_found;
  is_already_exists = λ _. false;
  is_unauthenticated = λ _. false;
  is_permission_denied = λ _. false;
  is_operation_in_progress = is_in_progress;
  k8s_is_not_found = λ e. has_code_not_found (some e);
  k8s_is_already_exists = λ _. false;
}

code_is_read : (r : Reason) (m : String) → is_in_progress (some (of_reason r m)) ≡ true
code_is_read operation_in_progress m = refl

not_found_only :
    (c : Code) (m : String) → c ≢ not_found → has_code_not_found (some (coded c m)) ≡ false
not_found_only ok_code m p = refl
not_found_only invalid_argument m p = refl
not_found_only not_found m p = absurd (p refl)
not_found_only aborted m p = refl
not_found_only internal m p = refl
not_found_only failed_precondition m p = refl
not_found_only permission_denied m p = refl
not_found_only unauthenticated m p = refl
not_found_only unavailable m p = refl
not_found_only (unnamed n) m p = refl

pub failures-IsLawful : IsLawful failures
failures-IsLawful = record {
  from_error-none = refl;
  code-none = refl;
  is_not_found-none = refl;
  is_already_exists-none = refl;
  is_unauthenticated-none = refl;
  is_permission_denied-none = refl;
  is_operation_in_progress-none = refl;
  from_error-errorfc = λ c m. refl;
  code-errorfc = λ c m. refl;
  in_progress-errorfc = λ c m. refl;
  not_found-errorfc = λ m. refl;
  not_found-other_code = not_found_only;
  from_error-errorfr = λ r m. refl;
  in_progress-errorfr = λ m. refl;
  from_error-errorf = λ m. refl;
  in_progress-errorf = λ m. refl;
  not_found-errorf = λ m. refl;
  already_exists-errorf = λ m. refl;
  unauthenticated-errorf = λ m. refl;
  permission_denied-errorf = λ m. refl;
  code-errorf = λ m e. ground arith;
}

abbrev pub finished_workflow : Workflow
finished_workflow = record {
  name = "workflow-u1";
  namespace = "orch";
  hardware_map = [];
  hardware_ref = "";
  template_ref = "ubuntu";
  state = WorkflowState.success;
  tasks = [];
}

-- an address of a host and a port
abbrev address : String
address = "orch:443"

abbrev pub config : InfraConfig
config = record {
  en_debian_packages_repo = "";
  en_files_rs_root = "";
  en_manifest_repo = "";
  en_agent_manifest_tag = "";
  infra_url = address;
  cluster_url = address;
  update_url = address;
  release_service_url = address;
  logs_observability_url = address;
  metrics_observability_url = address;
  manageability_url = address;
  rps_address = address;
  keycloak_url = address;
  telemetry_url = address;
  registry_url = address;
  file_server_url = address;
  rs_type = "";
  en_service_clients = [];
  en_outbound_clients = [];
  en_metrics_enabled = "";
  en_token_clients = [];
  provisioning_service = "";
  provisioning_server_url = "";
  tink_server_url = "";
  onboarding_url = "";
  onboarding_stream_url = "";
  cdn = "";
  system_config_fs_inotify_max_user_instances = 0;
  system_config_vm_over_commit_memory = 0;
  system_config_kernel_panic_on_oops = 0;
  system_config_kernel_panic = 0;
  en_proxy_http = "";
  en_proxy_https = "";
  en_proxy_ftp = "";
  en_proxy_no_proxy = "";
  en_proxy_socks = "";
  net_ip = "";
  ntp_servers = [];
  dns_servers = [];
  firewall_req_allow = "";
  firewall_cfg_allow = "";
  en_manifest = record { codename = "jammy"; packages = [] };
  emb_image_url = "";
  disable_co_profile = false;
  disable_o11y_profile = false;
  skip_os_provisioning = false;
}

abbrev pub zero_touch : ProviderConfig
zero_touch = record {
  auto_provision = true;
  os_security_feature_enable = false;
  default_os = "os-1";
  default_local_account = "";
}

abbrev pub world : Env Failure
world = record {
  errors = failures;
  outcome = λ h c. none;
  got = λ h c. ok none;
  listed = λ h c. (some [], none);
  found = λ h c. ok (("t1", "host-1") ∷ []);
  validate_event = λ e. none;
  resource_from_kind = λ k. none;
  kind_of_resource_id =
      λ id. if id == "host-1" then ok ResourceKind.host else ok ResourceKind.instance;
  key_of_resource = λ r. ok ("t1", "host-1");
  workflow = λ h c. ok finished_workflow;
  credentials = λ h c. ok ("id", "secret");
  now = λ h. 1700;
  validate = λ r. none;
  mask_error = λ r fs. none;
  filter_message = λ r fs. ok r;
  ip_addresses = λ rs. ok [];
  unmarshal = λ s. ok [];
  is_request_uri = λ s. true;
  check_singular = λ rs. if nat_eq (length rs) 1 then none else some (coded not_found "no host");
  unmarshal_provider = λ s. ok zero_touch;
  parse_uuid = λ u. none;
  inserted = λ h c. ok (Resource.host zero_host);
  is_eof = λ e. false;
  eof = coded (unnamed 2) "EOF";
  invalid = λ e. coded invalid_argument "";
  host_state_text = λ s. "";
  field_text = λ f. "uuid";
  security_feature_none = 1;
  infra_config = λ h. config;
  file = λ h c. ok "cert";
  is_not_exist = λ e. true;
  artifacts = λ h c. ok (some ("script" ∷ []));
  is_ip = λ s. true;
  unmarshal_rules = λ s. ok [];
  unmarshal_bundle = λ s. ok ("repo:1", "");
  parses_template = λ s. true;
  execute_template = λ s v. some s;
  quote = λ s. s;
  concat_map_values_sorted = λ m d. "";
  os_type_text = λ t. "";
  security_feature_text = λ n. "";
  cloud_init_template = "#cloud-config";
  default_installer = "#!/bin/bash";
  en_dkam_mode = "";
  en_user_name = "";
  en_pass_word = "";
  appends_certs = λ s. true;
  lookup_env = λ h v. none;
  created = λ h c. ok (record { payload = []; project_id = "t1" });
  token = λ h c. ok (200, ok (some "token"));
  body = λ h c. ok (200, ok "release");
  k8s_namespace = "orch";
  fetched = λ h c. ok (206, b'Q' ∷ b'F' ∷ b'I' ∷ 251 ∷ []);
  url_error = λ u. none;
  request_error = λ u. none;
  getenv = λ v. "";
  tinker_artifact_name = "edge";
  tinker_action_version = "1.0";
}

abbrev pub ubuntu : OsResource
ubuntu = record {
  address = 7;
  resource_id = "os-1";
  os_type = OsType.mutable;
  os_provider = OsProviderKind.infra;
  image_url = "https://images/ubuntu.img";
  sha256 = "00";
  metadata = "";
  platform_bundle = "";
  tls_ca_cert = "";
  security_feature = 0;
}

abbrev pub server : HostResource
server = record zero_host {
  resource_id = "host-1";
  tenant_id = "t1";
  uuid = "u1";
  current_state = HostState.onboarded;
  desired_state = HostState.onboarded;
}

abbrev pub machine : InstanceResource
machine = record zero_instance {
  resource_id = "inst-1";
  tenant_id = "t1";
  desired_state = InstanceState.running;
  host = some server;
  os = some ubuntu;
}

abbrev pub device : DeviceInfo
device = record {
  hw_serial_id = "s1";
  hw_mac_id = "aa:bb";
  hw_ip = "10.0.0.1";
  os_image_url = "https://images/ubuntu.img";
  gateway = "";
  img_type = "";
  guid = "u1";
  security_feature = 0;
  auth_client_id = "";
  auth_client_secret = "";
  tinker_version = "1.0";
  hostname = "host-1";
  os_image_sha256 = "00";
  os_type = OsType.mutable;
  tenant_id = "t1";
  platform_bundle = "";
  local_account_user_name = "";
  ssh_key = "";
  os_resource_id = "os-1";
  custom_configs = [];
  is_standalone_node = false;
  user_lvm_size = 0;
  os_tls_ca_cert = "";
  kernel_version = "";
  skip_kernel_upgrade = false;
  os_image_compressed = false;
}
