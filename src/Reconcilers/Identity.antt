-- ===== src/Reconcilers/Identity.antt =====
-- Which instance, host and workflow a reconciliation is about, and that it stays about them while
-- the instance's statuses are rewritten (instance.go, workflow.go, util.go).
use infra_onboarding.Prelude.{
  ◌≡◌, refl, String, Bool, Option, some, List, inl, inr, arith, Option-cases,
}
use infra_onboarding.Api.Enums.{InstanceState}
use infra_onboarding.Api.Resources.{InstanceResource, OsResource, Resource}
use infra_onboarding.Api.Tink.{Workflow}
use infra_onboarding.Api.Errors.{Result, ok, err}
use infra_onboarding.Api.Calls
use infra_onboarding.Api.Calls.{Call, History, Field, inv_update, k8s_client, auth_service, logout}
use infra_onboarding.Api.Env.{Env}
use infra_onboarding.DeviceInfo.{DeviceInfo}
use infra_onboarding.Act.{done}
use infra_onboarding.Status.{ResourceStatus}
use infra_onboarding.Util.{
  populate_host_status, populate_instance_status_and_current_state,
  populate_instance_provisioning_status, populate_instance_idle_status, is_standalone,
}
use infra_onboarding.Onboarding.Kept.{IsKept, check-kept}
use infra_onboarding.Onboarding.{generate_workflow_name, check_status_or_run_prod_workflow}
use infra_onboarding.Reconcilers.Device.{
  host_text, convert_instance_to_device_info, device_info_of, os_location_url,
}

pub record Identity : Type 0 where
  pub tenant_id : String
  pub resource_id : String
  pub host_tenant_id : String
  pub host_resource_id : String
  pub host_uuid : String

abbrev pub identity : InstanceResource → Identity
identity i = record {
  tenant_id = i.tenant_id;
  resource_id = i.resource_id;
  host_tenant_id = host_text (λ h. h.tenant_id) i.host;
  host_resource_id = host_text (λ h. h.resource_id) i.host;
  host_uuid = host_text (λ h. h.uuid) i.host;
}

-- The calls about one instance: updates of it and of its host, and what concerns the workflow and
-- the credentials of its host; and what the inputs of a workflow need, which changes nothing outside.
pub data IsOwn (a : Identity) : Call → Type 0 where
  client : IsOwn a k8s_client
  login : IsOwn a auth_service
  leave : IsOwn a logout
  get_credentials : IsOwn a (Calls.get_credentials a.tenant_id a.host_uuid)
  create_credentials : IsOwn a (Calls.create_credentials a.tenant_id a.host_uuid)
  read_workflow :
      {ns : String} → IsOwn a (Calls.get_workflow ns (generate_workflow_name a.host_uuid))
  delete_workflow :
      {ns : String} → IsOwn a (Calls.delete_workflow ns (generate_workflow_name a.host_uuid))
  create_workflow :
      {w : Workflow}
      → w.name ≡ generate_workflow_name a.host_uuid
      → IsOwn a (Calls.create_workflow w)
  probe_image : {url : String} {proxy : Calls.Proxy} → IsOwn a (Calls.http_get url proxy)
  look_for_file : {path : String} → IsOwn a (Calls.stat path)
  read_file : {path : String} → IsOwn a (Calls.read_file path)
  download : {repo tag : String} → IsOwn a (Calls.download_artifacts repo tag)
  store : {key content : String} → IsOwn a (Calls.cache_store key content)
  write_instance :
      {fs : List Field} {x : Resource} → IsOwn a (inv_update a.tenant_id a.resource_id fs x)
  write_host :
      {fs : List Field} {x : Resource}
      → IsOwn a (inv_update a.host_tenant_id a.host_resource_id fs x)

populate_host-identity :
    (i j : InstanceResource) (s : ResourceStatus)
    → populate_host_status i s ≡ some j
    → identity j ≡ identity i
unfolding populate_host_status
populate_host-identity i j s q = ground arith

pub populate_state-identity :
    (i : InstanceResource) (c : InstanceState) (s : ResourceStatus)
    → identity (populate_instance_status_and_current_state i c s) ≡ identity i
unfolding populate_instance_status_and_current_state
populate_state-identity i c s = refl

populate_provisioning-identity :
    (i : InstanceResource) (s : ResourceStatus)
    → identity (populate_instance_provisioning_status i s) ≡ identity i
unfolding populate_instance_provisioning_status
populate_provisioning-identity i s = refl

pub populate_idle-identity :
    (i : InstanceResource) → identity (populate_instance_idle_status i) ≡ identity i
unfolding populate_instance_idle_status
populate_idle-identity i = refl

identity-IsKept : IsKept identity
identity-IsKept = record {
  state = populate_state-identity;
  provisioning = populate_provisioning-identity;
  host = populate_host-identity;
}

module _ {E : Type 0} (env : Env E) where
  -- Checking or starting the workflow leaves the instance about what it was about.
  pub check-identity :
      (d : DeviceInfo) (i j : InstanceResource) (e : Option E) (h : History)
      → (check_status_or_run_prod_workflow env d i h).0 ≡ done (e, j)
      → identity j ≡ identity i
  check-identity = check-kept identity identity-IsKept env

  device_info-guid :
      (i : InstanceResource) (os : OsResource) (u : Result E String) (b : Result E Bool)
      (d : DeviceInfo)
      → device_info_of env i os u b ≡ ok d
      → d.guid ≡ (identity i).host_uuid
  unfolding device_info_of
  device_info-guid i os (err x) b d q = absurd (cc)
  device_info-guid i os (ok u) (err x) d q = absurd (cc)
  device_info-guid i os (ok u) (ok b) d q = ground arith

  -- The workflow of the device info is that of the instance's host.
  pub convert-guid :
      (i : InstanceResource) (d : DeviceInfo)
      → convert_instance_to_device_info env i ≡ ok d
      → d.guid ≡ (identity i).host_uuid
  unfolding convert_instance_to_device_info
  convert-guid i d q = elim (Option-cases i.os) [
    | inl n ↦ ground arith
    | inr (os, s) ↦
        device_info-guid i os (os_location_url env os) (is_standalone env i) d
          (rw (s, convert_instance_to_device_info) at q)
  ]
