-- ===== src/DeviceInfo.antt =====
-- onboarding-manager/internal/onboarding/types/types.go: what provisioning needs to know of a host.
use infra_onboarding.Prelude.{ℕ, String, Bool, List}
use infra_onboarding.Api.Enums.{OsType}

pub record DeviceInfo : Type 0 where
  pub hw_serial_id : String
  pub hw_mac_id : String
  pub hw_ip : String
  pub os_image_url : String
  pub gateway : String
  pub img_type : String
  pub guid : String
  pub security_feature : ℕ
  pub auth_client_id : String
  pub auth_client_secret : String
  pub tinker_version : String
  pub hostname : String
  pub os_image_sha256 : String
  pub os_type : OsType
  pub tenant_id : String
  pub platform_bundle : String
  pub local_account_user_name : String
  pub ssh_key : String
  pub os_resource_id : String
  -- A map from name to config; a later entry of one name replaces the earlier one.
  pub custom_configs : List (String × String)
  pub is_standalone_node : Bool
  pub user_lvm_size : ℕ
  pub os_tls_ca_cert : String
  pub kernel_version : String
  pub skip_kernel_upgrade : Bool
  pub os_image_compressed : Bool
