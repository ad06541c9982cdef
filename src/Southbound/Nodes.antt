-- ===== src/Southbound/Nodes.antt =====
-- grpc_server.go: `CreateNodes`, the onboarding of a host in one call, as an operator asks for it.
pub mod Refused
use infra_onboarding.Prelude.{
  String, Bool, true, false, not, ◌&&◌, Option, none, some, List, [], ◌∷◌, ◌++◌, map, ◌==◌,
  string_has_eq, if◌then◌else◌,
}
use infra_onboarding.Api.Enums.{HostState, BmcKind}
use infra_onboarding.Api.Resources.{HostResource, zero_host}
use infra_onboarding.Api.Errors.{Result, ok, err, permission_denied, unauthenticated}
use infra_onboarding.Api.Env.{Env}
use infra_onboarding.Act.{Act, pure, panics, ask, ◌>>=◌, ◌on_ok◌}
use infra_onboarding.Onboardingmgr.{
  HwData, NodeData, CreateNodesRequest, CreateNodesResponse, ValidationError, plain, violation,
  caused, multi,
}
use infra_onboarding.Onboardingmgr.Validate.{validate_create_nodes_request}
use infra_onboarding.Status.{onboarding_status_done, host_registration_unknown}
use infra_onboarding.Inventory.Lookups.{get_host_resource_by_uuid, create_host_resource}
use infra_onboarding.Inventory.Registration.{update_host_resource_status}
use infra_onboarding.Southbound.Stream.{serial_num_not_available}
use infra_onboarding.Southbound.ZeroTouch.{start_zero_touch}

abbrev pub host_of_hw_data : String → HwData → HostResource
host_of_hw_data tenant_id hw = record zero_host {
  bmc_kind = BmcKind.pdu;
  bmc_ip = hw.sut_ip;
  serial_number = hw.serialnum;
  uuid = hw.uuid;
  pxe_mac = hw.mac_id;
  tenant_id = tenant_id;
}

unfoldable pub copy_node_req_to_node_data : List NodeData → String → List HostResource
copy_node_req_to_node_data [] tenant_id = []
copy_node_req_to_node_data (s ∷ rest) tenant_id =
    map (host_of_hw_data tenant_id) s.hwdata ++ copy_node_req_to_node_data rest tenant_id

-- The errors with a `Field` and a `Cause` are those of a message; the others end the search.
unfoldable pub serial_number_validation_error_io : ValidationError → Bool
serial_number_validation_error_io (violation message field reason) = field == "Serialnum"
serial_number_validation_error_io (caused message field reason cause) =
    let rest = serial_number_validation_error_io cause in
    if field == "Serialnum" then true else rest
serial_number_validation_error_io _ = false

abbrev pub no_serial : HwData → HwData
no_serial hw = record hw { serialnum = serial_num_not_available }

abbrev pub no_serials : NodeData → NodeData
no_serials s = record { hwdata = map no_serial s.hwdata }

abbrev pub without_serials : CreateNodesRequest → CreateNodesRequest
without_serials req = record { payload = map no_serials req.payload }

-- What the context of a call tells: whether the policy lets it create, and its tenant.
pub record Context : Type 0 where
  pub authorized : Bool
  pub tenant_id : Option String

-- the host as it is created
abbrev pub onboarded_host : HostResource → HostResource
onboarded_host host = record host {
  current_state = HostState.onboarded;
  onboarding_status = onboarding_status_done.status;
  onboarding_status_indicator = onboarding_status_done.status_indicator;
}

module _ {E : Type 0} (env : Env E) (has_api : Bool) where
  abbrev pub respond : CreateNodesRequest → String → Option E → Act (Result E CreateNodesResponse)
  respond req project none = pure (ok (record { payload = req.payload; project_id = project }))
  respond req project (some e) = pure (err e)

  abbrev pub zero_touch_and_respond :
      CreateNodesRequest → String → String → String → Act (Result E CreateNodesResponse)
  zero_touch_and_respond req tenant_id host_id project =
      start_zero_touch env has_api tenant_id host_id >>= respond req project

  -- The host found by its UUID is nil here, and so the project in the response is empty.
  unfoldable pub create_new_host :
      CreateNodesRequest → String → HostResource → Act (Result E CreateNodesResponse)
  create_new_host req tenant_id host = create_host_resource env tenant_id host on_ok λ host_id.
      zero_touch_and_respond req tenant_id host_id ""

  -- what is taken over from the request
  abbrev pub renewed : HostResource → HostResource → HostResource
  renewed found host = record found {
    serial_number = host.serial_number;
    bmc_ip = host.bmc_ip;
    pxe_mac = host.pxe_mac;
    current_state = HostState.onboarded;
  }

  abbrev pub unless_renewal_failed :
      Act (Result E CreateNodesResponse) → Option E → Act (Result E CreateNodesResponse)
  unless_renewal_failed k none = k
  unless_renewal_failed k (some e) = pure (err e)

  unfoldable pub renew_host :
      CreateNodesRequest → String → HostResource → HostResource → Act (Result E CreateNodesResponse)
  renew_host req tenant_id host found =
      let rest = zero_touch_and_respond req tenant_id found.resource_id found.tenant_id in
      if found.serial_number == host.serial_number
      then rest
      else update_host_resource_status env found.tenant_id found.resource_id (renewed found host)
          onboarding_status_done host_registration_unknown
        >>= unless_renewal_failed rest

  unfoldable pub on_existing :
      CreateNodesRequest
      → String
      → HostResource
      → Result E HostResource
      → Act (Result E CreateNodesResponse)
  unfolding create_new_host renew_host
  on_existing req tenant_id host (ok found) = renew_host req tenant_id host found
  on_existing req tenant_id host (err e) =
      if env.is_not_found (some e) then create_new_host req tenant_id host else pure (err e)

  -- `hostresdata[0]`: only the first host counts, and an empty list panics.
  unfoldable pub onboard_first :
      CreateNodesRequest → String → List HostResource → Act (Result E CreateNodesResponse)
  unfolding on_existing
  onboard_first req tenant_id [] = panics
  onboard_first req tenant_id (host ∷ rest) = do
    time ← ask env.now
    get_host_resource_by_uuid env tenant_id host.uuid
        >>= on_existing req tenant_id
            (record (onboarded_host host) { onboarding_status_timestamp = time })

  unfoldable pub for_tenant :
      CreateNodesRequest → Option String → Act (Result E CreateNodesResponse)
  unfolding onboard_first copy_node_req_to_node_data
  for_tenant req none =
      pure (err (env.errorfc unauthenticated "Tenant ID is not present in context"))
  for_tenant req (some tenant_id) =
      onboard_first req tenant_id (copy_node_req_to_node_data req.payload tenant_id)

  unfoldable pub if_authorized :
      Bool → Context → CreateNodesRequest → Act (Result E CreateNodesResponse)
  unfolding for_tenant
  if_authorized auth_enabled ctx req =
      if auth_enabled && not ctx.authorized
      then pure (err (env.errorfc permission_denied "Request is blocked by RBAC"))
      else for_tenant req ctx.tenant_id

  unfoldable pub on_node_validation :
      Bool
      → Context
      → CreateNodesRequest
      → Option ValidationError
      → Act (Result E CreateNodesResponse)
  unfolding if_authorized serial_number_validation_error_io
  on_node_validation auth_enabled ctx req none = if_authorized auth_enabled ctx req
  on_node_validation auth_enabled ctx req (some v) =
      if serial_number_validation_error_io v
      then if_authorized auth_enabled ctx (without_serials req)
      else pure (err (env.invalid v))

  unfoldable pub create_nodes :
      Bool → Context → CreateNodesRequest → Act (Result E CreateNodesResponse)
  unfolding on_node_validation
  create_nodes auth_enabled ctx req =
      on_node_validation auth_enabled ctx req (validate_create_nodes_request false req)
