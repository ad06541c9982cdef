-- ===== src/Southbound/Lookup/Asks.antt =====
-- Which calls the lookup of the host of a request makes (grpc_server.go).
use infra_onboarding.Prelude.{String, Option, none, some, List, ◌==◌, string_has_eq}
use infra_onboarding.Api.Enums.{instance_state_eq}
use infra_onboarding.Api.Resources.{Resource, HostResource}
use infra_onboarding.Api.Errors.{Result, ok, err}
use infra_onboarding.Api.Calls.{Call, Field, Filter, inv_list, inv_update}
use infra_onboarding.Api.Env.{Env}
use infra_onboarding.Act.Makes.{Makes, Makes-pure, Makes-bind, Makes-if, makes_rules}
use infra_onboarding.Onboardingmgr.{OnboardNodeStreamRequest}
use infra_onboarding.Status.{ResourceStatus}
use infra_onboarding.Inventory.Updates.{update_host-Makes}
use infra_onboarding.Inventory.Lookups.{get_host_resource}
use infra_onboarding.Inventory.Lookups.Asks.{get_host_resource-Makes}
use infra_onboarding.Inventory.Registration.{update_host_resource, update_host_reg_state}
use infra_onboarding.Southbound.Lookup.{
  fail_registration, resolve_matches, adopt_uuid, after_serial_lookup, without_serial,
  look_up_serial, after_uuid_lookup, get_host_of_request, first_found,
}
use infra_onboarding.Inventory.Registration.Asks.{update_host_reg_state-Makes}

module _ {ℓ} {E : Type 0} (env : Env E) {P : Call → Type ℓ} (lists : (f : Filter) → P (inv_list f))
    (updates : (t id : String) (fs : List Field) (x : Resource) → P (inv_update t id fs x)) where
  fail-Makes :
      (x : HostResource) (f : Field) (detail : String) (s : ResourceStatus)
      → Makes P (fail_registration env x f detail s)
  unfolding fail_registration
  fail-Makes x f detail s =
      Makes-bind (update_host_reg_state env x.tenant_id x.resource_id x.current_state "" "" s) _
        (update_host_reg_state-Makes env x.tenant_id x.resource_id (updates _ _) _ _ _ _)
        λ e. Makes-pure _

  resolve-Makes :
      (req : OnboardNodeStreamRequest) (u s : Option HostResource)
      → Makes P (resolve_matches env req u s)
  unfolding resolve_matches
  resolve-Makes req (some u) (some s) = search makes_rules
  resolve-Makes req (some u) none = fail-Makes u _ _ _
  resolve-Makes req none (some s) = fail-Makes s _ _ _
  resolve-Makes req none none = Makes-pure _

  after_serial-Makes :
      (req : OnboardNodeStreamRequest) (u : Option HostResource) (r : Result E HostResource)
      → Makes P (after_serial_lookup env req u r)
  unfolding after_serial_lookup adopt_uuid update_host_resource
  after_serial-Makes req u (err e) =
      Makes-if (env.is_not_found (some e)) _ _ (λ _. resolve-Makes req u none) λ _. Makes-pure _
  after_serial-Makes req u (ok s) =
      let found = first_found env u s in
      Makes-if (found.uuid == "") _ _
        (λ _.
          Makes-bind (update_host_resource env found.tenant_id (record found { uuid = req.uuid })) _
            (update_host-Makes env found.tenant_id (record found { uuid = req.uuid }) _
              (updates _ _ _))
            λ e. Makes-pure _)
        λ _. resolve-Makes req u (some s)

  without-Makes :
      (req : OnboardNodeStreamRequest) (u : Option HostResource)
      → Makes P (without_serial env req u)
  without-Makes req none = resolve-Makes req none none
  without-Makes req (some u) = Makes-pure (ok u)

  serial-Makes :
      (req : OnboardNodeStreamRequest) (u : Option HostResource)
      → Makes P (look_up_serial env req u)
  unfolding look_up_serial
  serial-Makes req u =
      Makes-if (req.serialnum == "") _ _ (λ _. without-Makes req u)
        λ _.
          Makes-bind (get_host_resource env Field.serial_number req.serialnum) _
            (get_host_resource-Makes env lists Field.serial_number req.serialnum)
            (after_serial-Makes req u)

  after_uuid-Makes :
      (req : OnboardNodeStreamRequest) (r : Result E HostResource)
      → Makes P (after_uuid_lookup env req r)
  unfolding after_uuid_lookup
  after_uuid-Makes req (err e) =
      Makes-if (env.is_not_found (some e)) _ _ (λ _. serial-Makes req none) λ _. Makes-pure _
  after_uuid-Makes req (ok u) =
      Makes-if (u.serial_number == "") _ _ (λ _. Makes-pure _) λ _. serial-Makes req (some u)

  pub get_host_of_request-Makes :
      (req : OnboardNodeStreamRequest) → Makes P (get_host_of_request env req)
  unfolding get_host_of_request
  get_host_of_request-Makes req =
      Makes-if (req.uuid == "") _ _ (λ _. serial-Makes req none)
        λ _.
          Makes-bind (get_host_resource env Field.uuid req.uuid) _
            (get_host_resource-Makes env lists Field.uuid req.uuid) (after_uuid-Makes req)
