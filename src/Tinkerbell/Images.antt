-- ===== src/Tinkerbell/Images.antt =====
-- onboarding-manager/internal/tinkerbell/template_data.go: the container images of a workflow's
-- actions, and the probe that tells a qcow2 image from a raw one.
pub mod Format
use infra_onboarding.Prelude.{
  ℕ, String, Bool, true, false, not, ◌&&◌, ◌||◌, Option, none, some, List, [], ◌∷◌, format,
  trim_space, contains, nat_eq, ◌==◌, string_has_eq, if◌then◌else◌,
}
use infra_onboarding.Api.Errors.{Result, ok, err}
use infra_onboarding.Api.Calls.{Proxy, http_get}
use infra_onboarding.Api.Env.{Env}
use infra_onboarding.Act.{Act, pure, call, ◌>>=◌}

abbrev pub raw_image_format : String
raw_image_format = "raw"

abbrev pub qcow2_image_format : String
qcow2_image_format = "qcow2"

unfoldable pub is_magic : ℕ → ℕ → ℕ → ℕ → Bool
is_magic a b c d = nat_eq a b'Q' && (nat_eq b b'F' && (nat_eq c b'I' && nat_eq d 251))

-- io.ReadFull fails on a body of less than four bytes
unfoldable pub read_magic : List ℕ → String
unfolding is_magic
read_magic (a ∷ b ∷ c ∷ d ∷ rest) =
    if is_magic a b c d then qcow2_image_format else raw_image_format
read_magic _ = raw_image_format

module _ {E : Type 0} (env : Env E) where
  unfoldable pub format_of_response : Result E (ℕ × List ℕ) → String
  unfolding read_magic
  format_of_response (err e) = raw_image_format
  format_of_response (ok (status, body)) =
      if nat_eq status 206 || nat_eq status 200 then read_magic body else raw_image_format

  unfoldable pub probe : String → Proxy → Option E → Act String
  unfolding format_of_response
  probe url proxy (some e) = pure raw_image_format
  probe url proxy none = do
    response ← call env.fetched (http_get url proxy)
    pure (format_of_response response)

  unfoldable pub proxy_of : String → Proxy
  proxy_of http_proxy =
      if trim_space http_proxy == ""
      then Proxy.from_environment
      else elim (env.url_error http_proxy) [ none ↦ Proxy.via http_proxy | some e ↦ Proxy.direct ]

  unfoldable pub detect_image_format : String → String → Act String
  unfolding probe proxy_of
  detect_image_format image_url http_proxy =
      if contains (trim_space image_url) ".img"
      then probe (trim_space image_url) (proxy_of http_proxy)
          (env.request_error (trim_space image_url))
      else pure raw_image_format

  unfoldable pub get_tinker_image_version : String → String
  get_tinker_image_version tinker_image_version =
      if not (tinker_image_version == "")
      then tinker_image_version
      else if not (env.getenv "TINKER_IMAGE_VERSION" == "")
      then env.getenv "TINKER_IMAGE_VERSION"
      else "v1.0.0"

  unfoldable pub get_tinker_action_image : String → String
  get_tinker_action_image image_name =
      format ("localhost:7443/" ∷ env.tinker_artifact_name ∷ "/" ∷ image_name ∷ [])

  -- the body that the functions for the actions share
  unfoldable pub action_image : String → String → String → String
  unfolding get_tinker_image_version get_tinker_action_image
  action_image variable image_name tinker_image_version =
      if not (env.getenv variable == "")
      then env.getenv variable
      else format (
          get_tinker_action_image image_name
          ∷ ":"
          ∷ get_tinker_image_version tinker_image_version
          ∷ [])

  unfoldable pub tink_action_erase_non_removable_disk : String → String
  unfolding action_image
  tink_action_erase_non_removable_disk =
      action_image "TINKER_ERASE_NON_REMOVABLE_DISK_IMAGE" "erase_non_removable_disks"

  unfoldable pub tink_action_secureboot_flag_read_image : String → String
  unfolding action_image
  tink_action_secureboot_flag_read_image =
      action_image "TINKER_SECUREBOOTFLAGREAD_IMAGE" "securebootflag"

  unfoldable pub tink_action_write_file_image : String → String
  unfolding action_image
  tink_action_write_file_image = action_image "TINKER_WRITEFILE_IMAGE" "writefile"

  unfoldable pub tink_action_cexec_image : String → String
  unfolding action_image
  tink_action_cexec_image = action_image "TINKER_CEXEC_IMAGE" "cexec"

  unfoldable pub tink_action_disk_image : String → String
  unfolding action_image
  tink_action_disk_image = action_image "TINKER_DISK_IMAGE" "image2disk"

  unfoldable pub tink_action_efiboot_image : String → String
  unfolding action_image
  tink_action_efiboot_image = action_image "TINKER_EFIBOOT_IMAGE" "efibootset"

  unfoldable pub tink_action_fde_dmv_image : String → String
  unfolding action_image
  tink_action_fde_dmv_image = action_image "TINKER_FDE_DMV_IMAGE" "fde_dmv"

  unfoldable pub tink_action_kernelupgrade_image : String → String
  unfolding action_image
  tink_action_kernelupgrade_image = action_image "TINKER_KERNELUPGRD_IMAGE" "kernelupgrd"

  unfoldable pub tink_action_qemu_nbd_image2disk_image : String → String
  unfolding action_image
  tink_action_qemu_nbd_image2disk_image =
      action_image "TINKER_QEMU_NBD_IMAGE2DISK_IMAGE" "qemu_nbd_image2disk"

  unfoldable pub get_stream_os_to_disk_tinker_action_image : String → String → String → Act String
  unfolding detect_image_format tink_action_disk_image tink_action_qemu_nbd_image2disk_image
  get_stream_os_to_disk_tinker_action_image image_url http_proxy tinker_image_version = do
    image_format ← detect_image_format image_url http_proxy
    pure (
        if image_format == qcow2_image_format
        then tink_action_qemu_nbd_image2disk_image tinker_image_version
        else tink_action_disk_image tinker_image_version)
