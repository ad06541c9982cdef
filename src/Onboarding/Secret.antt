-- ===== src/Onboarding/Secret.antt =====
-- onboarding-manager/internal/onboarding/common.go: the credentials of an edge node, which are made if
-- there are none.
pub mod Asks
use infra_onboarding.Prelude.{String, Option, none, some, if◌then◌else◌}
use infra_onboarding.Api.Errors.{Result, ok, err}
use infra_onboarding.Api.Calls.{auth_service, get_credentials, create_credentials}
use infra_onboarding.Api.Env.{Env}
use infra_onboarding.Act.{Act, pure, call, ◌>>=◌}
use infra_onboarding.Onboarding.{then_logout}

module _ {E : Type 0} (env : Env E) where
  unfoldable pub secret_or_create :
      String → String → Result E (String × String) → Act (Result E (String × String))
  secret_or_create tenant_id uuid (ok c) = pure (ok c)
  secret_or_create tenant_id uuid (err e) =
      if env.is_not_found (some e)
      then call env.credentials (create_credentials tenant_id uuid)
      else pure (err (env.errorf "Failed to check if EN credentials for host exist."))

  unfoldable pub secret_of_service : String → String → Option E → Act (Result E (String × String))
  unfolding secret_or_create then_logout
  secret_of_service tenant_id uuid (some e) = pure (err e)
  secret_of_service tenant_id uuid none = do
    found ← call env.credentials (get_credentials tenant_id uuid)
    result ← secret_or_create tenant_id uuid found
    then_logout env result

  unfoldable pub fetch_client_secret : String → String → Act (Result E (String × String))
  unfolding secret_of_service
  fetch_client_secret tenant_id uuid = do
    failure ← call env.outcome auth_service
    secret_of_service tenant_id uuid failure
