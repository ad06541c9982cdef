-- ===== src/PlatformBundle.antt =====
-- onboarding-manager/pkg/platformbundle/platformbundle.go: the scripts of a platform bundle, which are
-- downloaded once. The cache of the package is what the calls have stored in it.
pub mod Cached
use infra_onboarding.Prelude.{
  String, Bool, true, false, not, ◌&&◌, ◌||◌, Option, none, some, List, [], ◌∷◌, split_on, ◌==◌,
  string_has_eq, if◌then◌else◌,
}
use infra_onboarding.Api.Errors.{Result, ok, err, invalid_argument, unavailable}
use infra_onboarding.Api.Calls.{Call, History, download_artifacts, cache_store}
use infra_onboarding.Api.Env.{Env}
use infra_onboarding.Act.{Act, pure, call, ask, ◌>>=◌, ◌>>◌, ◌on_ok◌}

pub record PlatformBundleManifest : Type 0 where
  pub cloud_init_script : String
  pub installer_script : String

pub record PlatformBundleData : Type 0 where
  pub cloud_init_template : String
  pub installer_script : String

-- the content that was stored last under a key (sync.Map)
abbrev pub cached_by : String → Call → Option String → Option String
cached_by key (cache_store k content) before = if k == key then some content else before
cached_by key _ before = before

unfoldable pub cached : String → History → Option String
cached key [] = none
cached key (c ∷ h) = cached_by key c (cached key h)

-- the cache is written
abbrev pub store : String → String → Act {0} Unit
store key content = call (λ h c. tt) (cache_store key content)

module _ {E : Type 0} (env : Env E) where
  abbrev pub manifest_of : Result E (String × String) → Result E PlatformBundleManifest
  manifest_of (ok m) = ok (record { cloud_init_script = m.0; installer_script = m.1 })
  manifest_of (err e) = err e

  unfoldable pub parse_platform_bundle : String → Result E PlatformBundleManifest
  parse_platform_bundle bundle = manifest_of (env.unmarshal_bundle bundle)

  abbrev pub invalid_artifact : Result E (String × String)
  invalid_artifact =
      err (env.errorfc invalid_argument "Invalid artifact format. Expected 'repo:tag'")

  abbrev pub repo_and_tag : List String → Result E (String × String)
  repo_and_tag (repo ∷ tag ∷ []) =
      if repo == "" || tag == "" then invalid_artifact else ok (repo, tag)
  repo_and_tag _ = invalid_artifact

  unfoldable pub validate_and_parse_artifact_url : String → Result E (String × String)
  unfolding split_on
  validate_and_parse_artifact_url artifact = repo_and_tag (split_on 58 artifact)

  abbrev pub first_data : Result E (Option (List String)) → Result E String
  first_data (err e) = err (env.errorfc unavailable "PlatfromBundle not found")
  first_data (ok none) = err (env.errorfc unavailable "Empty artifact data")
  first_data (ok (some [])) = err (env.errorfc unavailable "Empty artifact data")
  first_data (ok (some (d ∷ rest))) = ok d

  unfoldable pub download_platform_bundle : String → String → Act (Result E String)
  download_platform_bundle repo tag =
      if repo == "" || tag == ""
      then pure (err (env.errorfc invalid_argument "Repo or tag is empty"))
      else call env.artifacts (download_artifacts repo tag) >>= λ r. pure (first_data r)

  abbrev pub store_and_return : String → String → Act (Result E String)
  store_and_return key content = store key content >> pure (ok content)

  unfoldable pub load_or_download : String → String × String → Option String → Act (Result E String)
  unfolding download_platform_bundle
  load_or_download artifact r (some content) = pure (ok content)
  load_or_download artifact r none =
      download_platform_bundle r.0 r.1 on_ok store_and_return artifact

  unfoldable pub fetch_platform_bundle_data : String → Act (Result E String)
  unfolding validate_and_parse_artifact_url load_or_download cached
  fetch_platform_bundle_data artifact = pure (validate_and_parse_artifact_url artifact) on_ok λ r.
      ask (cached artifact) >>= load_or_download artifact r

  -- an empty artifact gives an empty script
  unfoldable pub fetch_if_named : String → Act (Result E String)
  unfolding fetch_platform_bundle_data
  fetch_if_named artifact =
      if artifact == "" then pure (ok "") else fetch_platform_bundle_data artifact

  unfoldable pub fetch_scripts : PlatformBundleManifest → Act (Result E PlatformBundleData)
  unfolding fetch_if_named
  fetch_scripts m = fetch_if_named m.cloud_init_script on_ok λ cloud_init.
      fetch_if_named m.installer_script on_ok λ installer.
      pure (ok (record { cloud_init_template = cloud_init; installer_script = installer }))

  unfoldable pub fetch_platform_bundle_scripts : String → Act (Result E PlatformBundleData)
  unfolding fetch_scripts parse_platform_bundle
  fetch_platform_bundle_scripts bundle =
      if bundle == "null" || bundle == ""
      then pure (ok (record { cloud_init_template = ""; installer_script = "" }))
      else (pure (parse_platform_bundle bundle) on_ok fetch_scripts)
