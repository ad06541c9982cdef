-- ===== src/Tinkerbell/Inputs/Keys.antt =====
-- What a workflow's inputs say of the device that they were generated for (template_data.go).
use infra_onboarding.Prelude.{
  ◌⊎◌, inl, inr, Bool-cases, ◌≡◌, ◌≢◌, refl, String, Bool, true, false, some, List, ◌++◌, lookup,
  insert, not, ◌&&◌, ◌==◌, string_has_eq, subst, ap, ◌∙◌,
}
use infra_onboarding.Api.Enums.{OsType}
use infra_onboarding.Api.Errors.{Result, ok}
use infra_onboarding.Api.Calls.{History}
use infra_onboarding.Api.Env.{Env}
use infra_onboarding.DeviceInfo.{DeviceInfo}
use infra_onboarding.Act.{Outcome, done, panic, continue, pure, ◌on_ok◌}
use infra_onboarding.Act.Past.{on_ok-split}
use infra_onboarding.Dkam.{InfraConfig}
use infra_onboarding.CloudInit
use infra_onboarding.CloudInit.{
  CloudInitOption, CloudInitOptions, apply_options, default_cloud_init_options,
  generate_from_infra_config,
}
use infra_onboarding.CloudInit.Complete.{IsComplete, generated-IsComplete}
use infra_onboarding.PlatformBundle.{PlatformBundleData, fetch_platform_bundle_scripts}
use infra_onboarding.Tinkerbell.Images.{get_stream_os_to_disk_tinker_action_image}
use infra_onboarding.Tinkerbell.Inputs.{
  option_if, cloud_init_options, WorkflowInputs, struct_to_map_string_string, inputs_of,
  inputs_from_bundle, generate_workflow_inputs,
}

done_ok {ℓ} :
    {E : Type 0} {A : Type ℓ} {a b : A} {h g : History}
    → pure {A = Result E A} (ok a) h ≡ (done (ok b), g)
    → a ≡ b
done_ok q = cc

module _ (Q : CloudInitOptions → Type 0) where
  kept_if :
      (b : Bool) (f : CloudInitOption) (rest : List CloudInitOption) (o : CloudInitOptions)
      → ((p : CloudInitOptions) → Q p → Q (f p))
      → ((p : CloudInitOptions) → Q p → Q (apply_options rest p))
      → Q o
      → Q (apply_options (option_if b f ++ rest) o)
  unfolding apply_options
  kept_if true f rest o k r q = r (f o) (k o q)
  kept_if false f rest o k r q = r o q

  kept_last :
      (b : Bool) (f : CloudInitOption) (o : CloudInitOptions)
      → ((p : CloudInitOptions) → Q p → Q (f p))
      → Q o
      → Q (apply_options (option_if b f) o)
  unfolding apply_options
  kept_last true f o k q = k o q
  kept_last false f o k q = q

-- what the options and a device have in common
abbrev Parts : Type 0
Parts = OsType × String × String × String × String × String

abbrev parts : CloudInitOptions → Parts
parts o = (o.os_type, o.tenant_id, o.hostname, o.client_id, o.client_secret, o.host_mac)

abbrev device_parts : DeviceInfo → Parts
device_parts d =
    (d.os_type, d.tenant_id, d.hostname, d.auth_client_id, d.auth_client_secret, d.hw_mac_id)

-- The options are about the device, for a standalone node or not.
abbrev Matches : DeviceInfo → Bool → CloudInitOptions → Type 0
Matches d alone o = (parts o ≡ device_parts d) × (o.run_as_standalone ≡ alone)

-- What a workflow is given of a device that it can bring up: the cloud-init has what it needs, and the
-- map has the device's values.
pub record Describes (d : DeviceInfo) (m : List (String × String)) : Type 0 where
  pub known_os : d.os_type ≢ OsType.unspecified
  pub has_hostname : d.hostname ≢ ""
  pub has_mac : d.hw_mac_id ≢ ""
  -- a standalone node, or one with a tenant and credentials
  pub managed :
      (d.is_standalone_node ≡ true)
      ⊎ ((d.tenant_id ≢ "") × (d.auth_client_id ≢ "") × (d.auth_client_secret ≢ ""))
  pub image : lookup "DeviceInfoOSImageURL" m ≡ some d.os_image_url
  pub digest : lookup "DeviceInfoOsImageSHA256" m ≡ some d.os_image_sha256
  pub mac : lookup "DeviceInfoHwMacID" m ≡ some d.hw_mac_id
  pub uuid : lookup "DeviceInfoGUID" m ≡ some d.guid
  pub tenant : lookup "DeviceInfoTenantID" m ≡ some d.tenant_id

module _ (d : DeviceInfo) where
  matched_alone :
      (b : Bool) (rest : List CloudInitOption) (o : CloudInitOptions)
      → ((p : CloudInitOptions) → Matches d b p → Matches d b (apply_options rest p))
      → Matches d false o
      → Matches d b (apply_options (option_if b CloudInit.with_run_as_standalone ++ rest) o)
  unfolding apply_options
  matched_alone true rest o r m = r (CloudInit.with_run_as_standalone o) (m.0, refl)
  matched_alone false rest o r m = r o m

module _ {E : Type 0} (env : Env E) (config : InfraConfig) (d : DeviceInfo) where
  options-Matches :
      Matches d d.is_standalone_node
        (apply_options (cloud_init_options env config d) default_cloud_init_options)
  unfolding cloud_init_options apply_options
  options-Matches =
      let alone = d.is_standalone_node in
      let dev = CloudInit.with_dev_mode env.en_user_name env.en_pass_word in
      let account = CloudInit.with_local_account d.local_account_user_name d.ssh_key in
      let address = CloudInit.with_preserve_ip d.hw_ip config.dns_servers in
      let has_account = not (d.local_account_user_name == "") && not (d.ssh_key == "") in
      matched_alone d alone _ _
        (λ p.
          kept_if (Matches d alone) (env.en_dkam_mode == "dev") dev _ p (λ o m. m)
            λ q.
              kept_if (Matches d alone) has_account account _ q (λ o m. m)
                λ r. kept_last (Matches d alone) (config.net_ip == "static") address r (λ o m. m))
        (refl, refl)

  describes :
      (o : CloudInitOptions) (w : WorkflowInputs)
      → Matches d d.is_standalone_node o
      → IsComplete o
      → w.device_info ≡ d
      → Describes d (struct_to_map_string_string env w)
  unfolding struct_to_map_string_string insert lookup
  describes o w m c e =
      let p = m.0 in
      record {
        known_os = subst (λ x. x ≢ OsType.unspecified) (ap (λ x. x.0) p) c.known_os;
        has_hostname = subst (λ x. x ≢ "") (ap (λ x. x.2) p) c.has_hostname;
        has_mac = subst (λ x. x ≢ "") (ap (λ x. x.5) p) c.has_mac;
        managed = elim (Bool-cases d.is_standalone_node) [
          | inl t ↦ inl t
          | inr n ↦
              let (id, secret) = c.has_client (m.1 ∙ n) in
              inr (
                subst (λ x. x ≢ "") (ap (λ x. x.1) p) (c.has_tenant (m.1 ∙ n)),
                subst (λ x. x ≢ "") (ap (λ x. x.3) p) id,
                subst (λ x. x ≢ "") (ap (λ x. x.4) p) secret,
              )
        ];
        image = ap (λ x. some x.os_image_url) e;
        digest = ap (λ x. some x.os_image_sha256) e;
        mac = ap (λ x. some x.hw_mac_id) e;
        uuid = ap (λ x. some x.guid) e;
        tenant = ap (λ x. some x.tenant_id) e;
      }

  bundle-Describes :
      (stream : String) (bundle : PlatformBundleData) (h g : History) (m : List (String × String))
      → inputs_from_bundle env config d stream bundle h ≡ (done (ok m), g)
      → Describes d m
  unfolding inputs_from_bundle inputs_of
  bundle-Describes stream bundle h g m q =
      let options = cloud_init_options env config d in
      let template = bundle.cloud_init_template in
      let (text, mid, generated, last) =
        on_ok-split (generate_from_infra_config env template config options) _ h g m q in
      let w = inputs_of env config d stream bundle text in
      subst (Describes d) (done_ok last) (
        describes (apply_options options default_cloud_init_options) w options-Matches
          (generated-IsComplete env template config options h mid text generated) refl)

module _ {E : Type 0} (env : Env E) where
  streamed :
      (config : InfraConfig) (d : DeviceInfo) (o : Outcome String) (mid g : History)
      (m : List (String × String))
      → continue
          (λ stream.
            fetch_platform_bundle_scripts env d.platform_bundle
            on_ok inputs_from_bundle env config d stream)
          (o, mid)
        ≡ (done (ok m), g)
      → Describes d m
  streamed config d panic mid g m q = absurd (cc)
  streamed config d (done stream) mid g m q =
      let (bundle, next, e, r) =
        on_ok-split (fetch_platform_bundle_scripts env d.platform_bundle)
          (inputs_from_bundle env config d stream) mid g m q in
      bundle-Describes env config d stream bundle next g m r

  -- Where the inputs of a workflow are generated without an error, the device has a known kind of OS, a
  -- host name and a MAC address, and, unless it is a standalone node, a tenant and client credentials;
  -- and the inputs have the device's OS image and its digest, its MAC address, its UUID and its tenant,
  -- each under its own key.
  pub generate_workflow_inputs-Describes :
      (d : DeviceInfo) (h g : History) (m : List (String × String))
      → generate_workflow_inputs env d h ≡ (done (ok m), g)
      → Describes d m
  unfolding generate_workflow_inputs
  generate_workflow_inputs-Describes d h g m q =
      let config = env.infra_config h in
      let s =
        get_stream_os_to_disk_tinker_action_image env d.os_image_url config.en_proxy_http
          d.tinker_version h in
      streamed config d s.0 s.1 g m q
