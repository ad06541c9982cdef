-- ===== src/Api/Resources.antt =====
-- The inventory's messages, with the fields that this repository reads or writes. An unset message
-- field is `none`; the `zero_` values are those of a Go composite literal that names no field.
use infra_onboarding.Prelude.{ℕ, String, Bool, Option, none, List, []}
use infra_onboarding.Api.Enums.{
  HostState, InstanceState, InstanceKind, StatusIndication, BmcKind, OsType, OsProviderKind,
  EventKind,
}

-- A NIC, a disk, a USB device, a GPU, or an IP address.
pub record SubResource : Type 0 where
  pub resource_id : String
  pub tenant_id : String

-- The edge from a host to its instance, with what is read of the instance there.
pub record InstanceEdge : Type 0 where
  pub resource_id : String
  pub tenant_id : String
  pub current_state : InstanceState

pub record OsResource : Type 0 where
  -- The address of the object, which is what `==` compares on pointers.
  pub address : ℕ
  pub resource_id : String
  pub os_type : OsType
  pub os_provider : OsProviderKind
  pub image_url : String
  pub sha256 : String
  pub metadata : String
  pub platform_bundle : String
  pub tls_ca_cert : String
  pub security_feature : ℕ

pub record HostResource : Type 0 where
  pub resource_id : String
  pub tenant_id : String
  pub uuid : String
  pub serial_number : String
  pub pxe_mac : String
  pub bmc_kind : BmcKind
  pub bmc_ip : String
  pub user_lvm_size : ℕ
  pub desired_state : HostState
  pub current_state : HostState
  pub host_status : String
  pub host_status_indicator : StatusIndication
  pub host_status_timestamp : ℕ
  pub onboarding_status : String
  pub onboarding_status_indicator : StatusIndication
  pub onboarding_status_timestamp : ℕ
  pub registration_status : String
  pub registration_status_indicator : StatusIndication
  pub registration_status_timestamp : ℕ
  -- The provider's name, if there is a provider.
  pub provider : Option String
  pub instance : Option InstanceEdge
  pub host_nics : List SubResource
  pub host_storages : List SubResource
  pub host_usbs : List SubResource
  pub host_gpus : List SubResource

pub record LocalAccount : Type 0 where
  pub resource_id : String
  pub username : String
  pub ssh_key : String

pub record CustomConfig : Type 0 where
  pub name : String
  pub config : String

pub record ProviderResource : Type 0 where
  pub resource_id : String
  pub config : String

-- providerconfiguration.ProviderConfig
pub record ProviderConfig : Type 0 where
  pub auto_provision : Bool
  pub os_security_feature_enable : Bool
  pub default_os : String
  pub default_local_account : String

pub record InstanceResource : Type 0 where
  pub resource_id : String
  pub tenant_id : String
  pub kind : InstanceKind
  pub desired_state : InstanceState
  pub current_state : InstanceState
  pub host : Option HostResource
  pub os : Option OsResource
  pub security_feature : ℕ
  pub localaccount : Option LocalAccount
  pub custom_config : List CustomConfig
  pub instance_status : String
  pub instance_status_indicator : StatusIndication
  pub instance_status_timestamp : ℕ
  pub instance_status_detail : String
  pub provisioning_status : String
  pub provisioning_status_indicator : StatusIndication
  pub provisioning_status_timestamp : ℕ
  pub update_status : String
  pub update_status_indicator : StatusIndication
  pub update_status_timestamp : ℕ
  pub trusted_attestation_status : String
  pub trusted_attestation_status_indicator : StatusIndication
  pub trusted_attestation_status_timestamp : ℕ

-- An IP address, in an update: `deleted` tells whether its current state is DELETED.
pub data Resource : Type 0 where
  host : HostResource → Resource
  hoststorage hostnic hostusb hostgpu : SubResource → Resource
  deleted_ipaddress : SubResource → Resource
  ipaddress : SubResource → Resource
  instance : InstanceResource → Resource
  os : OsResource → Resource
  provider : ProviderResource → Resource
  localaccount : LocalAccount → Resource
  -- All other kinds.
  unsupported : SubResource → Resource

-- An event that the inventory's stream delivers.
pub record Event : Type 0 where
  pub event_kind : EventKind
  pub resource_id : String
  pub resource : Option Resource

abbrev pub zero_host : HostResource
zero_host = record {
  resource_id = "";
  tenant_id = "";
  uuid = "";
  serial_number = "";
  pxe_mac = "";
  bmc_kind = BmcKind.unspecified;
  bmc_ip = "";
  user_lvm_size = 0;
  desired_state = HostState.unspecified;
  current_state = HostState.unspecified;
  host_status = "";
  host_status_indicator = StatusIndication.unspecified;
  host_status_timestamp = 0;
  onboarding_status = "";
  onboarding_status_indicator = StatusIndication.unspecified;
  onboarding_status_timestamp = 0;
  registration_status = "";
  registration_status_indicator = StatusIndication.unspecified;
  registration_status_timestamp = 0;
  provider = none;
  instance = none;
  host_nics = [];
  host_storages = [];
  host_usbs = [];
  host_gpus = [];
}

abbrev pub zero_instance : InstanceResource
zero_instance = record {
  resource_id = "";
  tenant_id = "";
  kind = InstanceKind.unspecified;
  desired_state = InstanceState.unspecified;
  current_state = InstanceState.unspecified;
  host = none;
  os = none;
  security_feature = 0;
  localaccount = none;
  custom_config = [];
  instance_status = "";
  instance_status_indicator = StatusIndication.unspecified;
  instance_status_timestamp = 0;
  instance_status_detail = "";
  provisioning_status = "";
  provisioning_status_indicator = StatusIndication.unspecified;
  provisioning_status_timestamp = 0;
  update_status = "";
  update_status_indicator = StatusIndication.unspecified;
  update_status_timestamp = 0;
  trusted_attestation_status = "";
  trusted_attestation_status_indicator = StatusIndication.unspecified;
  trusted_attestation_status_timestamp = 0;
}

abbrev pub zero_os : OsResource
zero_os = record {
  address = 0;
  resource_id = "";
  os_type = OsType.unspecified;
  os_provider = OsProviderKind.unspecified;
  image_url = "";
  sha256 = "";
  metadata = "";
  platform_bundle = "";
  tls_ca_cert = "";
  security_feature = 0;
}

abbrev pub zero_local_account : LocalAccount
zero_local_account = record { resource_id = ""; username = ""; ssh_key = "" }
