-- ===== src/Onboarding/Runs.antt =====
-- How a provisioning workflow is started (workflow.go).
use infra_onboarding.Prelude.{
  ◌≡◌, refl, sym, ap, ◌∙◌, Bool, true, false, if◌then◌else◌, String, Option, none, some, List, [],
  ◌∷◌,
}
use infra_onboarding.Api.Resources.{InstanceResource, LocalAccount, CustomConfig}
use infra_onboarding.Api.Tink.{Workflow}
use infra_onboarding.Api.Errors.{Result, ok, err}
use infra_onboarding.Api.Calls.{
  Call, History, create_workflow, auth_service, logout, get_credentials, create_credentials,
}
use infra_onboarding.Api.Env.{Env}
use infra_onboarding.DeviceInfo.{DeviceInfo}
use infra_onboarding.Act.{Outcome, done, panic, continue, value_or}
use infra_onboarding.Act.Makes.{Makes, makes_rules}
use infra_onboarding.Act.Past.{done-injective}
use infra_onboarding.Tinkerbell.{
  new_workflow, dummy_hardware_name, create_workflow_if_not_exists, unless_exists,
}
use infra_onboarding.Tinkerbell.Inputs.{generate_workflow_inputs}
use infra_onboarding.Onboarding.{
  generate_workflow_name, os_type_to_template_name, with_local_account, with_custom_configs,
  complete_device_info, run_prod_workflow, create_from_template,
  create_en_credentials_if_not_exists, with_auth_service, credentials_or_create, then_logout,
}

local_account-guid :
    (a : Option LocalAccount) (d : DeviceInfo) → (with_local_account a d).guid ≡ d.guid
local_account-guid none d = refl
local_account-guid (some a) d = refl

custom_configs-guid :
    (cs : List CustomConfig) (d : DeviceInfo) → (with_custom_configs cs d).guid ≡ d.guid
custom_configs-guid [] d = refl
custom_configs-guid (c ∷ cs) d = refl

-- Completing the device info leaves the host's UUID alone.
pub complete-guid :
    (c : String × String) (i : InstanceResource) (d : DeviceInfo)
    → (complete_device_info c i d).guid ≡ d.guid
unfolding complete_device_info
complete-guid c i d = custom_configs-guid i.custom_config _ ∙ local_account-guid i.localaccount _

-- The calls that ask the authorization service for the credentials of one host of one tenant.
pub data AsksAuth (tenant_id uuid : String) : Call → Type 0 where
  login : AsksAuth tenant_id uuid auth_service
  get : AsksAuth tenant_id uuid (get_credentials tenant_id uuid)
  create : AsksAuth tenant_id uuid (create_credentials tenant_id uuid)
  leave : AsksAuth tenant_id uuid logout

ruleset auth_calls = (makes_rules, login, get, create, leave)

module _ {E : Type 0} (env : Env E) where
  -- no error, or that the workflow is there already
  abbrev pub IsAccepted : Option E → Type 0
  IsAccepted none = Unit
  IsAccepted (some e) = env.k8s_is_already_exists e ≡ true

  -- The last call was the creation of the host's workflow, of the template for its kind of OS, and it
  -- was answered with no error, or with the one that the workflow exists already.
  pub record Created (d : DeviceInfo) (g : History) : Type 0 where
    pub workflow : Workflow
    pub before : History
    pub last_call : g ≡ create_workflow workflow ∷ before
    pub answered : IsAccepted (env.outcome before (create_workflow workflow))
    pub named : workflow.name ≡ generate_workflow_name d.guid
    pub from_template : os_type_to_template_name d.os_type ≡ some workflow.template_ref

  accepted_if :
      (b : Bool) (message : String)
      → (if b then none else some (env.errorf message)) ≡ none
      → b ≡ true
  accepted_if true message q = refl
  accepted_if false message q = absurd (cc)

  accepted : (o : Option E) (message : String) → unless_exists env message o ≡ none → IsAccepted o
  accepted none message q = tt
  accepted (some e) message q = accepted_if (env.k8s_is_already_exists e) message q

  inputs-Created :
      (d full : DeviceInfo) (name : String) (o : Outcome (Result E (List (String × String))))
      (h g : History)
      → full.guid ≡ d.guid
      → os_type_to_template_name d.os_type ≡ some name
      → continue
          (value_or (λ inputs. create_workflow_if_not_exists env (
            new_workflow
              (generate_workflow_name full.guid)
              env.k8s_namespace
              dummy_hardware_name
              name
              inputs)))
          (o, h)
        ≡ (done none, g)
      → Created d g
  unfolding create_workflow_if_not_exists new_workflow
  inputs-Created d full name panic h g e t q = absurd (cc)
  inputs-Created d full name (done (err x)) h g e t q = absurd (cc)
  inputs-Created d full name (done (ok m)) h g e t q = record {
    workflow =
        new_workflow (generate_workflow_name full.guid) env.k8s_namespace dummy_hardware_name name
          m;
    before = h;
    last_call = sym (ap (λ p. p.1) q);
    answered = accepted (env.outcome h _) _ (done-injective (ap (λ p. p.0) q));
    named = ap generate_workflow_name e;
    from_template = t;
  }

  create_from_template-Created :
      (d full : DeviceInfo) (t : Option String) (h g : History)
      → full.guid ≡ d.guid
      → os_type_to_template_name d.os_type ≡ t
      → create_from_template env full t h ≡ (done none, g)
      → Created d g
  unfolding create_from_template
  create_from_template-Created d full none h g e t q = absurd (cc)
  create_from_template-Created d full (some name) h g e t q =
      let inputs = generate_workflow_inputs env full h in
      inputs-Created d full name inputs.0 inputs.1 g e t q

  -- Without credentials no workflow is created, and the login is always followed by a logout.
  run-Created :
      (d : DeviceInfo) (i : InstanceResource) (r : Outcome (Result E (String × String)))
      (h g : History)
      → continue
          (value_or (λ c.
            create_from_template env
              (complete_device_info c i d)
              (os_type_to_template_name d.os_type)))
          (r, h)
        ≡ (done none, g)
      → Created d g
  run-Created d i (done (ok c)) h g q =
      create_from_template-Created d (complete_device_info c i d) _ h g (complete-guid c i d) refl q
  run-Created d i (done (err e)) h g q = absurd (cc)
  run-Created d i panic h g q = absurd (cc)

  -- Starting the workflow of a host gives no error only if the last call asked for its creation, under
  -- the name that belongs to the host's UUID and from the template for the kind of the OS, and was
  -- answered with no error, or with the one that the workflow exists already.
  pub run_prod_workflow-Created :
      (d : DeviceInfo) (i : InstanceResource) (h g : History)
      → run_prod_workflow env d i h ≡ (done none, g)
      → Created d g
  unfolding run_prod_workflow
  run_prod_workflow-Created d i h g q =
      let (r, h') = create_en_credentials_if_not_exists env i.tenant_id d.guid h in
      run-Created d i r h' g q

  create_credentials-Makes :
      (t u : String) (r : Result E (String × String))
      → Makes (AsksAuth t u) (credentials_or_create env t u r)
  unfolding credentials_or_create
  create_credentials-Makes t u (ok c) = search auth_calls
  create_credentials-Makes t u (err e) = search auth_calls

  with_auth-Makes :
      (t u : String) (e : Option E) → Makes (AsksAuth t u) (with_auth_service env t u e)
  unfolding with_auth_service then_logout
  with_auth-Makes t u (some e) = search auth_calls
  with_auth-Makes t u none = search (auth_calls, create_credentials-Makes)

  -- Only the credentials of the given host of the given tenant are asked for.
  pub credentials-Makes :
      (t u : String) → Makes (AsksAuth t u) (create_en_credentials_if_not_exists env t u)
  unfolding create_en_credentials_if_not_exists
  credentials-Makes t u = search (auth_calls, with_auth-Makes)
