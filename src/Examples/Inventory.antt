-- ===== src/Examples/Inventory.antt =====
-- The inventory's client, the errors and the IDs at work.
use infra_onboarding.Prelude.{
  ◌≡◌, refl, ◌⊎◌, ◌↔◌, ◌≢◌, true, false, none, some, String, List, [], ◌∷◌,
}
use infra_onboarding.Api.Resources.{Resource}
use infra_onboarding.Api.Errors.{aborted, internal, ok}
use infra_onboarding.Api.Calls.{History, Field, inv_update}
use infra_onboarding.Act.{done}
use infra_onboarding.Inventory.{set_inventory_resource_and_id, update_inv_resource_fields}
use infra_onboarding.Inventory.Updates.{update_sends_masked}
use infra_onboarding.Reconcilers.{
  get_tenant_id, get_resource_id, new_reconciler_id, handle_inventory_error,
  handle_provisioning_error, fail,
}
use infra_onboarding.Reconcilers.Id.{HasNoUnderscore, none_left, other_first, get-new_reconciler_id}
use infra_onboarding.Reconcilers.Errors.{inventory_goes_on, provisioning_goes_on, fails_iff_aborted}
use infra_onboarding.Api.Env.{Env}
use infra_onboarding.Api.Calls.{inv_get}
use infra_onboarding.Reconcilers.Host
use infra_onboarding.Reconcilers.Instance
use infra_onboarding.Reconcilers.Reads.{reconcile-Reads}
use infra_onboarding.Examples.World.{machine, Failure, coded, world, failures-IsLawful, server}

abbrev mask : List Field
mask = Field.current_state ∷ []

abbrev written : Resource
written = Resource.host server

update_sends_masked_example :
    ((e : Failure) × (update_inv_resource_fields world "t1" (some written) mask []
        ≡ (done (some e), [])))
    ⊎ ((mask ≡ [])
        × (update_inv_resource_fields world "t1" (some written) mask [] ≡ (done none, [])))
    ⊎ ((id : String) × (sent : Resource) × (set_inventory_resource_and_id world written ≡ ok id)
        × (world.filter_message written mask ≡ ok sent)
        × (update_inv_resource_fields world "t1" (some written) mask []
            ≡ (done none, inv_update "t1" id mask sent ∷ [])))
update_sends_masked_example = update_sends_masked world "t1" written mask []

t1_HasNoUnderscore : HasNoUnderscore "t1"
t1_HasNoUnderscore = other_first {c = "t"} refl (other_first {c = "1"} refl none_left)

h1_HasNoUnderscore : HasNoUnderscore "h1"
h1_HasNoUnderscore = other_first {c = "h"} refl (other_first {c = "1"} refl none_left)

get-new_reconciler_id_example :
    (get_tenant_id (new_reconciler_id "t1" "h1") ≡ some "t1")
    × (get_resource_id (new_reconciler_id "t1" "h1") ≡ some "h1")
get-new_reconciler_id_example = get-new_reconciler_id t1_HasNoUnderscore h1_HasNoUnderscore

inventory_goes_on_example :
    (handle_inventory_error world (some (coded internal "down")) ≡ none)
    ↔ (some (coded internal "down") ≡ none)
inventory_goes_on_example = inventory_goes_on world failures-IsLawful (some (coded internal "down"))

provisioning_goes_on_example :
    (handle_provisioning_error world (some (coded internal "down")) ≡ none)
    ↔ (some (coded internal "down") ≡ none)
provisioning_goes_on_example =
    provisioning_goes_on world failures-IsLawful (some (coded internal "down"))

abbrev stopped : Failure
stopped = coded aborted "workflow failed"

fails_iff_aborted_example :
    ((handle_provisioning_error world (some stopped) ≡ some (fail stopped))
      ↔ ((stopped ≡ stopped) × (true ≡ true) × (false ≡ false) × (aborted ≡ aborted)))
    × (handle_inventory_error world (some stopped) ≢ some (fail stopped))
fails_iff_aborted_example = fails_iff_aborted world stopped stopped

-- surroundings in which the first read gives the machine, and every later one its server
abbrev read_from : History → Resource
read_from [] = Resource.instance machine
read_from _ = Resource.host server

abbrev reading_world : Env Failure
reading_world = record world { got = λ h c. ok (some (read_from h)) }

abbrev one_read : History
one_read = inv_get "t1" "h1" ∷ []

reconcile-Reads_example :
    (Instance.reconcile reading_world (new_reconciler_id "t1" "h1") []
      ≡ Instance.reconcile_found reading_world machine one_read)
    × (Host.reconcile reading_world false (new_reconciler_id "t1" "h1") one_read
        ≡ Host.reconcile_found reading_world false server (inv_get "t1" "h1" ∷ one_read))
reconcile-Reads_example =
    reconcile-Reads reading_world failures-IsLawful t1_HasNoUnderscore h1_HasNoUnderscore machine
      false server [] one_read refl refl refl refl
