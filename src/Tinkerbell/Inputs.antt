-- ===== src/Tinkerbell/Inputs.antt =====
-- onboarding-manager/internal/tinkerbell/template_data.go: `GenerateWorkflowInputs`, the hardware map of a
-- workflow as text by key.
pub mod Keys
pub mod Asks
use infra_onboarding.Prelude.{
  ℕ, String, Bool, true, false, not, ◌&&◌, Option, none, some, List, [], ◌∷◌, ◌++◌, format, insert,
  decimal, map_text, ◌==◌, string_has_eq, if◌then◌else◌,
}
use infra_onboarding.Api.Enums.{OsType, os_type_eq}
use infra_onboarding.Api.Errors.{Result, ok, err}
use infra_onboarding.Api.Env.{Env}
use infra_onboarding.DeviceInfo.{DeviceInfo}
use infra_onboarding.Act.{Act, pure, ask, ◌>>=◌, ◌on_ok◌}
use infra_onboarding.Dkam.{InfraConfig}
use infra_onboarding.CloudInit
use infra_onboarding.CloudInit.{CloudInitOption, generate_from_infra_config}
use infra_onboarding.PlatformBundle.{PlatformBundleData, fetch_platform_bundle_scripts}
use infra_onboarding.Tinkerbell.Images.{
  tink_action_erase_non_removable_disk, tink_action_secureboot_flag_read_image,
  tink_action_write_file_image, tink_action_cexec_image, tink_action_efiboot_image,
  tink_action_fde_dmv_image, tink_action_kernelupgrade_image,
  get_stream_os_to_disk_tinker_action_image,
}

pub record TinkerActionImages : Type 0 where
  pub erase_non_removable_disk : String
  pub write_file : String
  pub secure_boot_flag_read : String
  pub cexec : String
  pub efibootset : String
  pub kernel_upgrade : String
  pub fde_dmv : String
  pub stream_os_image_to_disk : String

-- the type `Env` of the file
pub record ProxyEnv : Type 0 where
  pub en_proxy_http : String
  pub en_proxy_https : String
  pub en_proxy_no_proxy : String

pub record WorkflowInputs : Type 0 where
  pub proxies : ProxyEnv
  pub device_info : DeviceInfo
  pub tinker_action_image : TinkerActionImages
  pub cloud_init_data : String
  pub custom_configs : String
  pub installer_script : String
  pub os_resource_id : String

-- A struct as reflection sees it: names of fields, whether they are exported, and values, which are
-- structs again or have their text (`%v`).
mutual
  pub data GoValue : Type 0 where
    leaf : String → GoValue
    struct_of : GoFields → GoValue

  pub data GoFields : Type 0 where
    end : GoFields
    field : String → Bool → GoValue → GoFields → GoFields

abbrev pub key_under : String → String → String
key_under prefix name = if prefix == "" then name else format (prefix ∷ name ∷ [])

unfoldable mutual
  pub flatten_struct : String → GoFields → List (String × String) → List (String × String)
  flatten_struct prefix end result = result
  flatten_struct prefix (field name false v rest) result = flatten_struct prefix rest result
  flatten_struct prefix (field name true v rest) result =
      flatten_struct prefix rest (flatten_value (key_under prefix name) v result)

  pub flatten_value : String → GoValue → List (String × String) → List (String × String)
  flatten_value key (leaf s) result = insert key s result
  flatten_value key (struct_of fields) result = flatten_struct key fields result

abbrev pub bool_text : Bool → String
bool_text true = "true"
bool_text false = "false"

-- exported fields, in the order of the type
abbrev pub exported : List (String × GoValue) → GoFields
exported [] = end
exported ((name, v) ∷ rest) = field name true v (exported rest)

abbrev pub option_if : Bool → CloudInitOption → List CloudInitOption
option_if b o = if b then o ∷ [] else []

module _ {E : Type 0} (env : Env E) where
  unfoldable pub fields_of_device : DeviceInfo → GoFields
  unfolding decimal map_text
  fields_of_device d = exported (
      ("HwSerialID", leaf d.hw_serial_id)
      ∷ ("HwMacID", leaf d.hw_mac_id)
      ∷ ("HwIP", leaf d.hw_ip)
      ∷ ("OSImageURL", leaf d.os_image_url)
      ∷ ("Gateway", leaf d.gateway)
      ∷ ("ImgType", leaf d.img_type)
      ∷ ("GUID", leaf d.guid)
      ∷ ("SecurityFeature", leaf (env.security_feature_text d.security_feature))
      ∷ ("AuthClientID", leaf d.auth_client_id)
      ∷ ("AuthClientSecret", leaf d.auth_client_secret)
      ∷ ("TinkerVersion", leaf d.tinker_version)
      ∷ ("Hostname", leaf d.hostname)
      ∷ ("OsImageSHA256", leaf d.os_image_sha256)
      ∷ ("OsType", leaf (env.os_type_text d.os_type))
      ∷ ("TenantID", leaf d.tenant_id)
      ∷ ("PlatformBundle", leaf d.platform_bundle)
      ∷ ("LocalAccountUserName", leaf d.local_account_user_name)
      ∷ ("SSHKey", leaf d.ssh_key)
      ∷ ("OSResourceID", leaf d.os_resource_id)
      ∷ ("CustomConfigs", leaf (map_text d.custom_configs))
      ∷ ("IsStandaloneNode", leaf (bool_text d.is_standalone_node))
      ∷ ("UserLVMSize", leaf (decimal d.user_lvm_size))
      ∷ ("OSTLSCACert", leaf d.os_tls_ca_cert)
      ∷ ("KernelVersion", leaf d.kernel_version)
      ∷ ("SkipKernelUpgrade", leaf (bool_text d.skip_kernel_upgrade))
      ∷ ("OSImageCompressed", leaf (bool_text d.os_image_compressed))
      ∷ [])

  unfoldable pub fields_of_images : TinkerActionImages → GoFields
  fields_of_images i = exported (
      ("EraseNonRemovableDisk", leaf i.erase_non_removable_disk)
      ∷ ("WriteFile", leaf i.write_file)
      ∷ ("SecureBootFlagRead", leaf i.secure_boot_flag_read)
      ∷ ("Cexec", leaf i.cexec)
      ∷ ("Efibootset", leaf i.efibootset)
      ∷ ("KernelUpgrade", leaf i.kernel_upgrade)
      ∷ ("FdeDmv", leaf i.fde_dmv)
      ∷ ("StreamOSImageToDisk", leaf i.stream_os_image_to_disk)
      ∷ [])

  unfoldable pub fields_of_proxies : ProxyEnv → GoFields
  fields_of_proxies p = exported (
      ("ENProxyHTTP", leaf p.en_proxy_http)
      ∷ ("ENProxyHTTPS", leaf p.en_proxy_https)
      ∷ ("ENProxyNoProxy", leaf p.en_proxy_no_proxy)
      ∷ [])

  unfoldable pub fields_of_inputs : WorkflowInputs → GoFields
  unfolding fields_of_device fields_of_images fields_of_proxies
  fields_of_inputs w = exported (
      ("Env", struct_of (fields_of_proxies w.proxies))
      ∷ ("DeviceInfo", struct_of (fields_of_device w.device_info))
      ∷ ("TinkerActionImage", struct_of (fields_of_images w.tinker_action_image))
      ∷ ("CloudInitData", leaf w.cloud_init_data)
      ∷ ("CustomConfigs", leaf w.custom_configs)
      ∷ ("InstallerScript", leaf w.installer_script)
      ∷ ("OsResourceID", leaf w.os_resource_id)
      ∷ [])

  unfoldable pub struct_to_map_string_string : WorkflowInputs → List (String × String)
  unfolding fields_of_inputs flatten_struct
  struct_to_map_string_string w = flatten_struct "" (fields_of_inputs w) []

  unfoldable pub images_of : DeviceInfo → String → TinkerActionImages
  unfolding tink_action_erase_non_removable_disk tink_action_write_file_image
      tink_action_secureboot_flag_read_image tink_action_cexec_image tink_action_efiboot_image
      tink_action_kernelupgrade_image tink_action_fde_dmv_image
  images_of d stream = record {
    erase_non_removable_disk = tink_action_erase_non_removable_disk env d.tinker_version;
    write_file = tink_action_write_file_image env d.tinker_version;
    secure_boot_flag_read = tink_action_secureboot_flag_read_image env d.tinker_version;
    cexec = tink_action_cexec_image env d.tinker_version;
    efibootset = tink_action_efiboot_image env d.tinker_version;
    kernel_upgrade = tink_action_kernelupgrade_image env d.tinker_version;
    fde_dmv = tink_action_fde_dmv_image env d.tinker_version;
    stream_os_image_to_disk = stream;
  }

  -- the options, in the order in which they are appended
  unfoldable pub cloud_init_options : InfraConfig → DeviceInfo → List CloudInitOption
  cloud_init_options config d =
      (CloudInit.with_os_type d.os_type
        ∷ CloudInit.with_tenant_id d.tenant_id
        ∷ CloudInit.with_hostname d.hostname
        ∷ CloudInit.with_client_credentials d.auth_client_id d.auth_client_secret
        ∷ CloudInit.with_host_mac_address d.hw_mac_id
        ∷ [])
      ++ (option_if d.is_standalone_node CloudInit.with_run_as_standalone
          ++ (option_if (env.en_dkam_mode == "dev")
                (CloudInit.with_dev_mode env.en_user_name env.en_pass_word)
              ++ (option_if (not (d.local_account_user_name == "") && not (d.ssh_key == ""))
                    (CloudInit.with_local_account d.local_account_user_name d.ssh_key)
                  ++ option_if (config.net_ip == "static")
                      (CloudInit.with_preserve_ip d.hw_ip config.dns_servers))))

  unfoldable pub installer_for : DeviceInfo → PlatformBundleData → String
  installer_for d bundle =
      if d.os_type == OsType.mutable
      then if not (bundle.installer_script == "")
        then bundle.installer_script
        else env.default_installer
      else ""

  abbrev pub quoted_unless_empty : String → String
  quoted_unless_empty s = if not (s == "") then env.quote s else ""

  -- values joined by the ASCII unit separator
  unfoldable pub get_custom_configs : DeviceInfo → String
  get_custom_configs d =
      quoted_unless_empty (env.concat_map_values_sorted d.custom_configs "\u{1f}")

  unfoldable pub inputs_of :
      InfraConfig → DeviceInfo → String → PlatformBundleData → String → WorkflowInputs
  unfolding images_of installer_for get_custom_configs
  inputs_of config d stream bundle cloud_init = record {
    proxies = record {
      en_proxy_http = config.en_proxy_http;
      en_proxy_https = config.en_proxy_https;
      en_proxy_no_proxy = config.en_proxy_no_proxy;
    };
    device_info = d;
    tinker_action_image = images_of d stream;
    cloud_init_data = env.quote cloud_init;
    custom_configs = get_custom_configs d;
    installer_script = env.quote (installer_for d bundle);
    os_resource_id = "";
  }

  -- from the platform bundle on
  unfoldable pub inputs_from_bundle :
      InfraConfig
      → DeviceInfo
      → String
      → PlatformBundleData
      → Act (Result E (List (String × String)))
  unfolding cloud_init_options struct_to_map_string_string inputs_of
  inputs_from_bundle config d stream bundle =
      generate_from_infra_config env bundle.cloud_init_template config (cloud_init_options config d)
      on_ok λ cloud_init.
          pure (ok (struct_to_map_string_string (inputs_of config d stream bundle cloud_init)))

  unfoldable pub generate_workflow_inputs : DeviceInfo → Act (Result E (List (String × String)))
  unfolding inputs_from_bundle
  generate_workflow_inputs d = do
    config ← ask env.infra_config
    stream ←
        get_stream_os_to_disk_tinker_action_image env d.os_image_url config.en_proxy_http
          d.tinker_version
    fetch_platform_bundle_scripts env d.platform_bundle on_ok inputs_from_bundle config d stream
