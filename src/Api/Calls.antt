-- ===== src/Api/Calls.antt =====
-- Every call that leaves the program, as a value. A run of the program is judged by the calls that
-- it makes, in order.
use infra_onboarding.Prelude.{ℕ, String, List}
use infra_onboarding.Api.Enums.{ResourceKind}
use infra_onboarding.Api.Resources.{Resource}
use infra_onboarding.Onboardingmgr.{
  OnboardNodeStreamRequest, OnboardNodeStreamResponse, CreateNodesRequest,
}
use infra_onboarding.Api.Tink.{Workflow, Template, Hardware, Kind}

-- The paths of a field mask, by the constants of the generated code.
pub data Field : Type 0 where
  kind name serial_number current_state mgmt_ip bmc_kind bmc_ip : Field
  bmc_username bmc_password pxe_mac hostname uuid : Field
  host_status host_status_indicator host_status_timestamp : Field
  onboarding_status onboarding_status_indicator onboarding_status_timestamp : Field
  registration_status registration_status_indicator registration_status_timestamp : Field
  instance_status instance_status_indicator instance_status_timestamp : Field
  instance_status_detail edge_os : Field
  provisioning_status provisioning_status_indicator provisioning_status_timestamp : Field
  update_status update_status_indicator update_status_timestamp : Field
  trusted_attestation_status trusted_attestation_status_indicator : Field
  trusted_attestation_status_timestamp : Field

-- What a list call asks for: a kind of resource, and the condition of its filter text.
pub data Filter : Type 0 where
  all_hosts all_instances all_oses all_providers : Filter
  ip_addresses_of_nic bmc_nics_of_host : String → Filter
  hosts_with_uuid hosts_with_serial_number : String → Filter
  -- a tenant before the text
  tenant_hosts_with_uuid tenant_providers_with_name : String → String → Filter

-- The proxy of a request over HTTP: none, that of the environment, or the given one.
pub data Proxy : Type 0 where
  direct from_environment : Proxy
  via : String → Proxy

pub data Call : Type 0 where
  -- The inventory: tenant and resource ID first.
  inv_get : String → String → Call
  inv_update : String → String → List Field → Resource → Call
  inv_delete : String → String → Call
  inv_create : String → Resource → Call
  inv_list : Filter → Call
  inv_find_all : ResourceKind → Call
  -- The work queue of one kind of resource is given an ID to reconcile.
  enqueue : ResourceKind → String → Call
  -- The client's channel of internal events, which drops an event that nobody listens for.
  internal_event : String → String → Call
  -- The stream to an edge node.
  stream_recv : Call
  stream_send : OnboardNodeStreamResponse → Call
  -- Kubernetes: a namespace before a name.
  k8s_client : Call
  get_workflow : String → String → Call
  create_workflow : Workflow → Call
  delete_workflow : String → String → Call
  create_template : Template → Call
  create_hardware : Hardware → Call
  delete_all_of : Kind → String → Call
  -- A GET of the first four bytes.
  http_get : String → Proxy → Call
  -- os.Stat and os.ReadFile; DownloadArtifacts of a repository and a tag
  stat : String → Call
  read_file : String → Call
  download_artifacts : String → String → Call
  -- a store of a content in the cache of platform bundles
  cache_store : String → String → Call
  -- The authorization service: tenant and host UUID.
  auth_service : Call
  get_credentials : String → String → Call
  create_credentials : String → String → Call
  logout : Call
  revoke_credentials : String → String → Call
  -- The side of the edge node: a connection to an address with a token, if it has one, the stream, an answer awaited on it, a
  -- wait of some seconds and a random part of one more, a file that is written, the start
  -- and the end of the script for an interactive login, a registration by the operator, and the two tokens.
  node_dial : String → String → Call
  node_stream node_recv : Call
  node_send : OnboardNodeStreamRequest → Call
  node_wait : ℕ → Call
  write_file : String → String → Call
  client_auth_start client_auth_wait : Call
  node_create : CreateNodesRequest → Call
  access_token : String → String → String → Call
  release_token : String → String → Call

-- The calls made so far, the last one first.
abbrev pub History : Type 0
History = List Call
