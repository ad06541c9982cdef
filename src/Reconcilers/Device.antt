-- ===== src/Reconcilers/Device.antt =====
-- onboarding-manager/internal/handlers/controller/reconcilers/instance.go: what provisioning needs to
-- know of an instance's host and operating system.
use infra_onboarding.Prelude.{
  ℕ, String, Bool, false, not, ◌&&◌, ◌||◌, Option, none, some, List, [], ◌∷◌, format, lookup,
  ends_with, ◌==◌, string_has_eq, if◌then◌else◌,
}
use infra_onboarding.Api.Enums.{
  HostState, OsType, host_state_eq, instance_state_eq, indication_eq, os_type_eq, os_provider_eq,
}
use infra_onboarding.Api.Resources.{HostResource, InstanceResource, OsResource}
use infra_onboarding.Api.Errors.{Result, ok, err, invalid_argument, code_eq}
use infra_onboarding.Api.Env.{Env}
use infra_onboarding.DeviceInfo.{DeviceInfo}
use infra_onboarding.Util.{is_standalone}

abbrev pub compression_extensions : List String
compression_extensions = ".bz2" ∷ ".bzip2" ∷ ".gz" ∷ ".xz" ∷ ".zs" ∷ ".zst" ∷ []

-- the getters, which read a nil message as the zero value
abbrev pub host_current_state : Option HostResource → HostState
host_current_state none = HostState.unspecified
host_current_state (some h) = h.current_state

abbrev pub host_desired_state : Option HostResource → HostState
host_desired_state none = HostState.unspecified
host_desired_state (some h) = h.desired_state

abbrev pub host_provider : Option HostResource → Option String
host_provider none = none
host_provider (some h) = h.provider

abbrev pub host_text : (HostResource → String) → Option HostResource → String
host_text field none = ""
host_text field (some h) = field h

abbrev pub host_lvm_size : Option HostResource → ℕ
host_lvm_size none = 0
host_lvm_size (some h) = h.user_lvm_size

unfoldable pub has_compressed_suffix : List String → String → Bool
has_compressed_suffix [] url = false
has_compressed_suffix (ext ∷ rest) url = ends_with url ext || has_compressed_suffix rest url

kernel_flags_of : List (String × String) → String × Bool
kernel_flags_of metadata = (
  elim (lookup "kernelversion" metadata) [ none ↦ "" | some kv ↦ kv ],
  elim (lookup "skipkernelupgrade" metadata) [ none ↦ false | some sku ↦ sku == "true" ],
)

module _ {E : Type 0} (env : Env E) where
  unfoldable pub os_location_url : OsResource → Result E String
  os_location_url os =
      if os.os_type == OsType.mutable
      then ok os.image_url
      else if os.os_type == OsType.immutable
      then (if env.is_request_uri os.image_url
          then ok os.image_url
          else ok (format ("http://" ∷ "127.0.0.1" ∷ "/" ∷ os.image_url ∷ [])))
      else err (env.errorf "Unsupported OS type, may result in wrong installation artifacts path")

  kernel_flags_or_default : Result E (List (String × String)) → String × Bool
  unfolding kernel_flags_of
  kernel_flags_or_default (ok metadata) = kernel_flags_of metadata
  kernel_flags_or_default (err e) = ("", false)

  -- the kernel version, and whether to skip its upgrade
  kernel_flags : OsResource → String × Bool
  unfolding kernel_flags_or_default
  kernel_flags os =
      if os.os_type == OsType.immutable && not (os.metadata == "")
      then kernel_flags_or_default (env.unmarshal os.metadata)
      else ("", false)

  unfoldable pub device_info_of :
      InstanceResource → OsResource → Result E String → Result E Bool → Result E DeviceInfo
  unfolding kernel_flags has_compressed_suffix
  device_info_of instance os (err e) standalone = err e
  device_info_of instance os (ok url) (err e) = err e
  device_info_of instance os (ok url) (ok standalone) =
      let host = instance.host in
      ok (record {
        hw_serial_id = host_text (λ h. h.serial_number) host;
        hw_mac_id = host_text (λ h. h.pxe_mac) host;
        hw_ip = host_text (λ h. h.bmc_ip) host;
        os_image_url = url;
        gateway = "";
        img_type = "";
        guid = host_text (λ h. h.uuid) host;
        security_feature = instance.security_feature;
        auth_client_id = "";
        auth_client_secret = "";
        tinker_version = env.tinker_action_version;
        hostname = host_text (λ h. h.resource_id) host;
        os_image_sha256 = os.sha256;
        os_type = os.os_type;
        tenant_id = "";
        platform_bundle = os.platform_bundle;
        local_account_user_name = "";
        ssh_key = "";
        os_resource_id = os.resource_id;
        custom_configs = [];
        is_standalone_node = standalone;
        user_lvm_size = host_lvm_size host;
        os_tls_ca_cert = "";
        kernel_version = (kernel_flags os).0;
        skip_kernel_upgrade = (kernel_flags os).1;
        os_image_compressed = has_compressed_suffix compression_extensions url;
      })

  unfoldable pub convert_instance_to_device_info : InstanceResource → Result E DeviceInfo
  unfolding os_location_url device_info_of
  convert_instance_to_device_info instance = elim instance.os [
    | none ↦ err (env.errorfc invalid_argument "Instance doesn't have any OS associated")
    | some os ↦ device_info_of instance os (os_location_url os) (is_standalone env instance)
  ]
