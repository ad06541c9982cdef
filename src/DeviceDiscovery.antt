-- ===== src/DeviceDiscovery.antt =====
-- hook-os/device_discovery: the program that registers an edge node with the onboarding manager.
pub mod Kernel
pub mod Stream
pub mod Answers
pub mod Session
pub mod Waits
pub mod Auth
pub mod Onboard
pub mod Registered
pub mod Returns
use infra_onboarding.Prelude.{String, Bool, Option, none, some, if◌then◌else◌}
use infra_onboarding.Api.Errors.{Result, ok, err}
use infra_onboarding.Api.Calls.{write_file, read_file}
use infra_onboarding.Api.Env.{Env}
use infra_onboarding.Act.{Act, call}

abbrev pub project_id_path : String
project_id_path = "/dev/shm//project_id"

abbrev pub client_id_path : String
client_id_path = "/dev/shm//client_id"

abbrev pub client_secret_path : String
client_secret_path = "/dev/shm//client_secret"

abbrev pub access_token_file : String
access_token_file = "/dev/shm/idp_access_token"

abbrev pub release_token_file : String
release_token_file = "/dev/shm/release_token"

module _ {E : Type 0} (env : Env E) where
  abbrev pub save_to_file : String → String → Act (Option E)
  save_to_file path data_text = call env.outcome (write_file path data_text)

  abbrev pub certs_added : String → String → Result E String → Option E
  certs_added unread unused (err e) = some (env.fmt_errorf unread)
  certs_added unread unused (ok pem) =
      if env.appends_certs pem then none else some (env.fmt_errorf unused)
