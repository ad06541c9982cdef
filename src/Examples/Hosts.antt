-- ===== src/Examples/Hosts.antt =====
-- The deletion of hosts at work.
use infra_onboarding.Prelude.{◌≡◌, ◌⊎◌, refl, true, false, none, some, [], ◌∷◌, arith}
use infra_onboarding.Api.Enums.{HostState, InstanceState}
use infra_onboarding.Api.Resources.{HostResource, InstanceEdge, SubResource}
use infra_onboarding.Api.Calls.{History}
use infra_onboarding.Act.{done, for_each}
use infra_onboarding.Act.Makes.{Extends}
use infra_onboarding.Act.Past.{Passes}
use infra_onboarding.Inventory.{update_host, delete_resource, drop_not_found}
use infra_onboarding.Inventory.Setters.{
  set_host_status_detail, delete_host_resource, update_host_current_state,
}
use infra_onboarding.Reconcilers.{retry, min_delay, max_delay}
use infra_onboarding.Reconcilers.Host.{
  delete_host, delete_host_objects, reconcile_found, revoke_unless_untrusted,
  delete_host_nic_by_host, delete_host_storage_by_host, delete_host_usb_by_host,
  delete_host_gpu_by_host, delete_sub_resource, check_if_instance_is_associated,
}
use infra_onboarding.Reconcilers.Host.Objects.{Deleted}
use infra_onboarding.Reconcilers.Host.Deletion.{Marked, delete_host_completes}
use infra_onboarding.Reconcilers.Host.Refusal.{IsDetail, still_assigned, host_kept}
use infra_onboarding.Api.Calls.{revoke_credentials}
use infra_onboarding.Inventory.Setters.{update_host_state_and_runtime_status}
use infra_onboarding.Inventory.Sent.{Sent}
use infra_onboarding.Reconcilers.Host.{invalidate_host}
use infra_onboarding.Reconcilers.Host.Invalidation.{
  untrusted_host, untrusted_fields, invalidate_host_completes,
}
use infra_onboarding.Examples.World.{world, failures-IsLawful, server}

abbrev disk : SubResource
disk = record { resource_id = "disk-1"; tenant_id = "t1" }

abbrev gpu : SubResource
gpu = record { resource_id = "gpu-1"; tenant_id = "t1" }

abbrev retired_server : HostResource
retired_server = record server {
  desired_state = HostState.deleted;
  host_storages = disk ∷ [];
  host_gpus = gpu ∷ [];
}

abbrev deletion_calls : History
deletion_calls = (delete_host world false retired_server []).1

deletes : Passes (delete_host world false retired_server) [] deletion_calls
unfolding delete_host delete_host_objects set_host_status_detail revoke_unless_untrusted
    delete_host_nic_by_host delete_host_storage_by_host delete_host_usb_by_host
    delete_host_gpu_by_host delete_sub_resource check_if_instance_is_associated for_each
    delete_resource drop_not_found delete_host_resource update_host update_host_current_state
deletes = refl

delete_host_completes_example :
    ((false ≡ true) ⊎ (retired_server.instance ≡ none))
    × ((before : History) × Deleted world retired_server before
        × Marked world retired_server before deletion_calls)
delete_host_completes_example =
    delete_host_completes world false retired_server [] deletion_calls deletes

abbrev assigned : InstanceEdge
assigned = record {
  resource_id = "inst-1";
  tenant_id = "t1";
  current_state = InstanceState.running;
}

abbrev busy_server : HostResource
busy_server = record retired_server { instance = some assigned }

host_kept_example :
    ((reconcile_found world false busy_server []).0
      ≡ done (retry (world.errorf still_assigned) min_delay max_delay))
    × Extends (IsDetail busy_server) [] (reconcile_found world false busy_server []).1
host_kept_example =
    host_kept world failures-IsLawful busy_server assigned [] refl refl (λ e. ground arith) refl

abbrev invalidation_calls : History
invalidation_calls = (invalidate_host world server []).1

invalidates : Passes (invalidate_host world server) [] invalidation_calls
unfolding invalidate_host update_host_state_and_runtime_status update_host
invalidates = refl

invalidate_host_completes_example :
    (world.outcome [] (revoke_credentials "t1" "u1") ≡ none)
    × Sent world "t1"
        (untrusted_host server 1700)
        untrusted_fields
        (revoke_credentials "t1" "u1" ∷ [])
        invalidation_calls
invalidate_host_completes_example =
    invalidate_host_completes world server [] invalidation_calls invalidates
