-- ===== src/CloudInit.antt =====
-- onboarding-manager/pkg/cloudinit (config.go, generate.go): the options of a cloud-init, their validation,
-- and its text.
pub mod Complete
use infra_onboarding.Prelude.{
  String, Bool, true, false, not, ◌&&◌, ◌||◌, Option, none, some, List, [], ◌∷◌, insert, join, ◌==◌,
  string_has_eq, if◌then◌else◌,
}
use infra_onboarding.Api.Enums.{OsType, os_type_eq}
use infra_onboarding.Api.Errors.{Result, ok, err, invalid_argument}
use infra_onboarding.Api.Env.{Env}
use infra_onboarding.Act.{Act, pure, ◌>>=◌, ◌on_ok◌}
use infra_onboarding.Dkam.{InfraConfig, Value, text, flag}
use infra_onboarding.Dkam.Variables.{Variables, merge}
use infra_onboarding.Dkam.Curation.{get_common_infra_template_variables, curate_from_template}

pub record CloudInitOptions : Type 0 where
  pub os_type : OsType
  pub run_as_standalone : Bool
  pub use_dev_mode : Bool
  pub dev_username : String
  pub dev_user_passwd : String
  pub tenant_id : String
  pub hostname : String
  pub client_id : String
  pub client_secret : String
  pub host_mac : String
  pub preserve_ip : Bool
  pub static_host_ip : String
  pub static_dns : List String
  pub use_local_account : Bool
  pub local_account_user_name : String
  pub ssh_key : String

abbrev pub default_cloud_init_options : CloudInitOptions
default_cloud_init_options = record {
  os_type = OsType.unspecified;
  run_as_standalone = false;
  use_dev_mode = false;
  dev_username = "";
  dev_user_passwd = "";
  tenant_id = "";
  hostname = "";
  client_id = "";
  client_secret = "";
  host_mac = "";
  preserve_ip = false;
  static_host_ip = "";
  static_dns = [];
  use_local_account = false;
  local_account_user_name = "";
  ssh_key = "";
}

-- an option, as a change of the options
abbrev pub CloudInitOption : Type 0
CloudInitOption = CloudInitOptions → CloudInitOptions

abbrev pub with_run_as_standalone : CloudInitOption
with_run_as_standalone o = record o { run_as_standalone = true }

abbrev pub with_dev_mode : String → String → CloudInitOption
with_dev_mode username password o = record o {
  use_dev_mode = true;
  dev_username = username;
  dev_user_passwd = password;
}

abbrev pub with_os_type : OsType → CloudInitOption
with_os_type t o = record o { os_type = t }

abbrev pub with_tenant_id : String → CloudInitOption
with_tenant_id t o = record o { tenant_id = t }

abbrev pub with_hostname : String → CloudInitOption
with_hostname h o = record o { hostname = h }

abbrev pub with_client_credentials : String → String → CloudInitOption
with_client_credentials id secret o = record o { client_id = id; client_secret = secret }

abbrev pub with_local_account : String → String → CloudInitOption
with_local_account name key o = record o {
  use_local_account = true;
  local_account_user_name = name;
  ssh_key = key;
}

abbrev pub with_host_mac_address : String → CloudInitOption
with_host_mac_address mac o = record o { host_mac = mac }

abbrev pub with_preserve_ip : String → List String → CloudInitOption
with_preserve_ip ip dns o = record o { preserve_ip = true; static_host_ip = ip; static_dns = dns }

-- `for _, opt := range opts { opt(&options) }`
unfoldable pub apply_options : List CloudInitOption → CloudInitOptions → CloudInitOptions
apply_options [] o = o
apply_options (f ∷ fs) o = apply_options fs (f o)

abbrev pub is_empty {ℓ} : {A : Type ℓ} → List A → Bool
is_empty [] = true
is_empty (x ∷ xs) = false

unfoldable pub template_variables_from_options : CloudInitOptions → Variables
template_variables_from_options o =
    let v1 =
      ("RUN_AS_STANDALONE", flag o.run_as_standalone)
      ∷ ("DEV_MODE", flag false)
      ∷ ("LOCAL_ACCOUNT_ENABLED", flag false)
      ∷ [] in
    let v2 =
      if o.use_dev_mode
      then insert "DEV_USER_PASSWD" (text o.dev_user_passwd)
          (insert "DEV_USER" (text o.dev_username) (insert "DEV_MODE" (flag true) v1))
      else v1 in
    let v3 =
      if o.use_local_account
      then insert "LOCAL_USER_SSH_KEY" (text o.ssh_key) (
          insert "LOCAL_ACCOUNT_USERNAME" (text o.local_account_user_name)
            (insert "LOCAL_ACCOUNT_ENABLED" (flag true) v2))
      else v2 in
    let v4 = insert "WITH_PRESERVE_IP" (flag false) v3 in
    let v5 =
      if o.preserve_ip
      then insert "HOST_IP" (text o.static_host_ip) (insert "WITH_PRESERVE_IP" (flag true) v4)
      else v4 in
    insert "CLIENT_SECRET" (text o.client_secret) (
      insert "CLIENT_ID" (text o.client_id) (
        insert "HOST_MAC" (text o.host_mac)
          (insert "HOSTNAME" (text o.hostname) (insert "TENANT_ID" (text o.tenant_id) v5))))

module _ {E : Type 0} (env : Env E) where
  abbrev pub invalid_option : String → Option E
  invalid_option message = some (env.errorfc invalid_argument message)

  abbrev pub refuse_if : Bool → String → Option E → Option E
  refuse_if b message rest = if b then invalid_option message else rest

  unfoldable pub validate_non_standalone_options : CloudInitOptions → Option E
  validate_non_standalone_options o = refuse_if (o.tenant_id == "") "Tenant ID must be provided" (
      refuse_if (o.client_id == "" || o.client_secret == "") "Client credentials must be provided"
        none)

  unfoldable pub validate_options : CloudInitOptions → Option E
  unfolding validate_non_standalone_options
  validate_options o = refuse_if (o.os_type == OsType.unspecified) "Unsupported OS type" (
      refuse_if (o.hostname == "") "Hostname must be provided" (
        refuse_if (o.host_mac == "") "Host's MAC address must be provided" (
          refuse_if (o.use_dev_mode && (o.dev_username == "" || o.dev_user_passwd == ""))
            "Username and password must be provided if dev mode is enabled"
            (refuse_if (o.use_local_account && (o.local_account_user_name == "" || o.ssh_key == ""))
              "Username and SSH key must be provided if local account is enabled is there for an instance"
              (refuse_if (o.preserve_ip && (o.static_host_ip == "" || is_empty o.static_dns))
                "IP address to set must be provided if static IP enabled"
                (if o.run_as_standalone then none else validate_non_standalone_options o))))))

  abbrev pub template_or_default : String → String
  template_or_default template = if template == "" then env.cloud_init_template else template

  -- the variables of a cloud-init: those of the options replace the common ones
  unfoldable pub cloud_init_variables : InfraConfig → CloudInitOptions → Variables → Variables
  unfolding merge template_variables_from_options join
  cloud_init_variables config o common =
      merge (insert "DNS_SERVERS" (text (join " " config.dns_servers)) common)
        (template_variables_from_options o)

  unfoldable pub generate_valid :
      String → InfraConfig → CloudInitOptions → Option E → Act (Result E String)
  unfolding cloud_init_variables
  generate_valid template config o (some e) = pure (err e)
  generate_valid template config o none =
      get_common_infra_template_variables env config o.os_type on_ok λ common. pure (
        curate_from_template env (template_or_default template)
          (cloud_init_variables config o common))

  unfoldable pub generate_from_infra_config :
      String → InfraConfig → List CloudInitOption → Act (Result E String)
  unfolding generate_valid apply_options validate_options
  generate_from_infra_config template config opts =
      let o = apply_options opts default_cloud_init_options in
      generate_valid template config o (validate_options o)
