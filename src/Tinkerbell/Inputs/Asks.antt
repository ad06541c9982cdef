-- ===== src/Tinkerbell/Inputs/Asks.antt =====
-- Which calls the computation of a workflow's inputs makes (template_data.go, cloudinit, platformbundle,
-- curation.go).
use infra_onboarding.Prelude.{
  String, Bool, true, false, Option, none, some, List, ◌||◌, ◌==◌, string_has_eq, trim_space,
  contains,
}
use infra_onboarding.Api.Enums.{OsType, os_type_eq}
use infra_onboarding.Api.Errors.{Result, ok, err}
use infra_onboarding.Api.Calls.{
  Call, Proxy, http_get, stat, read_file, download_artifacts, cache_store,
}
use infra_onboarding.Api.Env.{Env}
use infra_onboarding.DeviceInfo.{DeviceInfo}
use infra_onboarding.Act.{pure, ask}
use infra_onboarding.Act.Makes.{
  Makes, Makes-pure, Makes-panics, Makes-ask, Makes-bind, Makes-if, Makes-on_ok, makes_rules,
}
use infra_onboarding.Dkam.{InfraConfig}
use infra_onboarding.Dkam.Variables.{Variables, ports_of}
use infra_onboarding.Dkam.Curation.{
  read_ca_cert, get_ca_cert, read_or, get_combined_ca_pem, with_ca_pem, fill_variables, path_exists,
  get_custom_firewall_rules, addresses_with_port, get_common_infra_template_variables,
  orch_ca_certificate_file, boots_ca_certificate_file,
}
use infra_onboarding.CloudInit.{
  CloudInitOption, CloudInitOptions, apply_options, default_cloud_init_options, validate_options,
  generate_valid, generate_from_infra_config,
}
use infra_onboarding.PlatformBundle.{
  PlatformBundleManifest, PlatformBundleData, validate_and_parse_artifact_url, cached,
  download_platform_bundle, load_or_download, fetch_platform_bundle_data, fetch_if_named,
  fetch_scripts, parse_platform_bundle, fetch_platform_bundle_scripts,
}
use infra_onboarding.Tinkerbell.Images.{
  probe, detect_image_format, get_stream_os_to_disk_tinker_action_image,
}
use infra_onboarding.Tinkerbell.Inputs.{
  cloud_init_options, inputs_from_bundle, generate_workflow_inputs, struct_to_map_string_string,
  inputs_of,
}

module _ {ℓ} {E : Type 0} (env : Env E) {P : Call → Type ℓ}
    (gets : (url : String) (proxy : Proxy) → P (http_get url proxy)) where
  probe-Makes : (url : String) (proxy : Proxy) (e : Option E) → Makes P (probe env url proxy e)
  unfolding probe
  probe-Makes url proxy (some e) = Makes-pure _
  probe-Makes url proxy none = search (makes_rules, gets)

  stream_image-Makes :
      (url proxy version : String)
      → Makes P (get_stream_os_to_disk_tinker_action_image env url proxy version)
  unfolding get_stream_os_to_disk_tinker_action_image detect_image_format
  stream_image-Makes url proxy version =
      Makes-bind (detect_image_format env url proxy) _
        (Makes-if (contains (trim_space url) ".img") _ _ (λ _. probe-Makes _ _ _) λ _. Makes-pure _)
        λ f. Makes-pure _

module _ {ℓ} {E : Type 0} (env : Env E) {P : Call → Type ℓ}
    (downloads : (repo tag : String) → P (download_artifacts repo tag))
    (stores : (key content : String) → P (cache_store key content)) where
  download-Makes : (repo tag : String) → Makes P (download_platform_bundle env repo tag)
  unfolding download_platform_bundle
  download-Makes repo tag =
      Makes-if (repo == "" || tag == "") _ _ (λ _. Makes-pure _)
        λ _. search (makes_rules, downloads)

  load-Makes :
      (artifact : String) (r : String × String) (found : Option String)
      → Makes P (load_or_download env artifact r found)
  unfolding load_or_download
  load-Makes artifact r (some content) = Makes-pure _
  load-Makes artifact r none =
      Makes-on_ok (download_platform_bundle env r.0 r.1) _ (download-Makes r.0 r.1)
        λ content. search (makes_rules, stores)

  pub fetch-Makes : (artifact : String) → Makes P (fetch_platform_bundle_data env artifact)
  unfolding fetch_platform_bundle_data
  fetch-Makes artifact =
      Makes-on_ok (pure (validate_and_parse_artifact_url env artifact)) _ (Makes-pure _)
        λ r. Makes-bind (ask (cached artifact)) _ (Makes-ask _) (load-Makes artifact r)

  named-Makes : (artifact : String) → Makes P (fetch_if_named env artifact)
  unfolding fetch_if_named
  named-Makes artifact =
      Makes-if (artifact == "") _ _ (λ _. Makes-pure _) (λ _. fetch-Makes artifact)

  scripts-Makes : (m : PlatformBundleManifest) → Makes P (fetch_scripts env m)
  unfolding fetch_scripts
  scripts-Makes m =
      Makes-on_ok (fetch_if_named env m.cloud_init_script) _ (named-Makes m.cloud_init_script) λ c.
        Makes-on_ok (fetch_if_named env m.installer_script) _ (named-Makes m.installer_script)
          λ i. Makes-pure _

  pub bundle-Makes : (bundle : String) → Makes P (fetch_platform_bundle_scripts env bundle)
  unfolding fetch_platform_bundle_scripts
  bundle-Makes bundle =
      Makes-if (bundle == "null" || bundle == "") _ _ (λ _. Makes-pure _)
        λ _. Makes-on_ok (pure (parse_platform_bundle env bundle)) _ (Makes-pure _) scripts-Makes

module _ {ℓ} {E : Type 0} (env : Env E) {P : Call → Type ℓ}
    (stats : (path : String) → P (stat path)) (reads : (path : String) → P (read_file path)) where
  read_cert-Makes : (r : Result E Bool) → Makes P (read_ca_cert env r)
  unfolding read_ca_cert
  read_cert-Makes (err e) = Makes-pure _
  read_cert-Makes (ok false) = Makes-pure _
  read_cert-Makes (ok true) = search (makes_rules, reads)

  cert-Makes : Makes P (get_ca_cert env)
  unfolding get_ca_cert
  cert-Makes =
      Makes-bind (path_exists env orch_ca_certificate_file) _ (search (makes_rules, stats))
        read_cert-Makes

  read_or-Makes : (path message : String) → Makes P (read_or env path message)
  read_or-Makes path message = search (makes_rules, reads)

  pem-Makes : Makes P (get_combined_ca_pem env)
  unfolding get_combined_ca_pem
  pem-Makes =
      Makes-on_ok (read_or env orch_ca_certificate_file "failed to read orch-ca-cert") _
        (read_or-Makes _ _)
        λ orch.
          Makes-on_ok (read_or env boots_ca_certificate_file "failed to read boots-ca-cert") _
            (read_or-Makes _ _) λ boots. Makes-pure _

  with_pem-Makes : (c : InfraConfig) (vars : Variables) → Makes P (with_ca_pem env c vars)
  with_pem-Makes c vars =
      Makes-if c.skip_os_provisioning _ _
        (λ _. Makes-on_ok (get_combined_ca_pem env) _ pem-Makes λ pem. Makes-pure _)
        λ _. Makes-pure _

  fill-Makes :
      (now c : InfraConfig) (t : OsType) (cert : String) (rules : List String)
      (ports : Option (List String))
      → Makes P (fill_variables env now c t cert rules ports)
  unfolding fill_variables
  fill-Makes now c t cert rules none = Makes-panics
  fill-Makes now c t cert rules (some ports) =
      Makes-on_ok (with_ca_pem env now _) _ (with_pem-Makes now _) λ vars. Makes-pure _

  pub variables-Makes :
      (c : InfraConfig) (t : OsType) → Makes P (get_common_infra_template_variables env c t)
  unfolding get_common_infra_template_variables
  variables-Makes c t = Makes-on_ok (get_ca_cert env) _ cert-Makes λ cert.
      Makes-bind (ask env.infra_config) _ (Makes-ask _) λ now.
        Makes-on_ok (pure (get_custom_firewall_rules env now (t == OsType.mutable))) _
          (Makes-pure _)
          λ rules. fill-Makes now c t cert rules (ports_of (addresses_with_port env c))

  generate_valid-Makes :
      (template : String) (c : InfraConfig) (o : CloudInitOptions) (e : Option E)
      → Makes P (generate_valid env template c o e)
  unfolding generate_valid
  generate_valid-Makes template c o (some e) = Makes-pure _
  generate_valid-Makes template c o none =
      Makes-on_ok (get_common_infra_template_variables env c o.os_type) _
        (variables-Makes c o.os_type) λ common. Makes-pure _

  pub cloud_init-Makes :
      (template : String) (c : InfraConfig) (opts : List CloudInitOption)
      → Makes P (generate_from_infra_config env template c opts)
  unfolding generate_from_infra_config
  cloud_init-Makes template c opts =
      let o = apply_options opts default_cloud_init_options in
      generate_valid-Makes template c o (validate_options env o)

-- Computing the inputs probes the image, reads certificates, and downloads and stores artifacts.
pub data AsksInputs : Call → Type 0 where
  image : {url : String} {proxy : Proxy} → AsksInputs (http_get url proxy)
  looks : {path : String} → AsksInputs (stat path)
  reads : {path : String} → AsksInputs (read_file path)
  downloads : {repo tag : String} → AsksInputs (download_artifacts repo tag)
  stores : {key content : String} → AsksInputs (cache_store key content)

module _ {E : Type 0} (env : Env E) where
  from_bundle-Makes :
      (config : InfraConfig) (d : DeviceInfo) (stream : String) (bundle : PlatformBundleData)
      → Makes AsksInputs (inputs_from_bundle env config d stream bundle)
  unfolding inputs_from_bundle
  from_bundle-Makes config d stream bundle =
      let options = cloud_init_options env config d in
      Makes-on_ok (generate_from_infra_config env bundle.cloud_init_template config options) _
        (cloud_init-Makes env (λ path. looks) (λ path. reads) bundle.cloud_init_template config
          options)
        λ c.
          Makes-pure (ok (struct_to_map_string_string env (inputs_of env config d stream bundle c)))

  pub inputs-Makes : (d : DeviceInfo) → Makes AsksInputs (generate_workflow_inputs env d)
  unfolding generate_workflow_inputs
  inputs-Makes d = Makes-bind (ask env.infra_config) _ (Makes-ask env.infra_config) λ config.
      Makes-bind
        (get_stream_os_to_disk_tinker_action_image env d.os_image_url config.en_proxy_http
          d.tinker_version)
        _
        (stream_image-Makes env (λ url proxy. image) d.os_image_url config.en_proxy_http
          d.tinker_version)
        λ stream.
          Makes-on_ok (fetch_platform_bundle_scripts env d.platform_bundle) _
            (bundle-Makes env (λ repo tag. downloads) (λ key content. stores) d.platform_bundle)
            (from_bundle-Makes config d stream)
