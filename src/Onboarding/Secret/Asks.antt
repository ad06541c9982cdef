-- ===== src/Onboarding/Secret/Asks.antt =====
-- Which calls the fetch of the credentials makes (onboarding/common.go).
use infra_onboarding.Prelude.{String, Option, none, some, string_has_eq}
use infra_onboarding.Api.Enums.{instance_state_eq}
use infra_onboarding.Api.Errors.{Result, ok, err}
use infra_onboarding.Api.Calls
use infra_onboarding.Api.Calls.{
  Call, Field, Filter, inv_list, inv_get, inv_create, inv_update, internal_event, auth_service,
  logout,
}
use infra_onboarding.Api.Env.{Env}
use infra_onboarding.Act.{call}
use infra_onboarding.Act.Makes.{Makes, Makes-pure, Makes-bind, Makes-call, makes_rules}
use infra_onboarding.Onboarding.{then_logout}
use infra_onboarding.Onboarding.Secret.{secret_or_create, secret_of_service, fetch_client_secret}

module _ {ℓ} {E : Type 0} (env : Env E) {P : Call → Type ℓ} (t uuid : String)
    (login : P auth_service) (get : P (Calls.get_credentials t uuid))
    (create : P (Calls.create_credentials t uuid)) (leave : P logout) where
  or_create-Makes : (r : Result E (String × String)) → Makes P (secret_or_create env t uuid r)
  unfolding secret_or_create
  or_create-Makes (ok c) = Makes-pure (ok c)
  or_create-Makes (err e) = search (makes_rules, create)

  logout-Makes : (c : Result E (String × String)) → Makes P (then_logout env c)
  unfolding then_logout
  logout-Makes c = search (makes_rules, leave)

  of_service-Makes : (e : Option E) → Makes P (secret_of_service env t uuid e)
  unfolding secret_of_service
  of_service-Makes (some e) = Makes-pure (err e)
  of_service-Makes none =
      Makes-bind (call env.credentials (Calls.get_credentials t uuid)) _
        (Makes-call env.credentials _ get)
        λ r. Makes-bind (secret_or_create env t uuid r) _ (or_create-Makes r) logout-Makes

  pub fetch_client_secret-Makes : Makes P (fetch_client_secret env t uuid)
  unfolding fetch_client_secret
  fetch_client_secret-Makes =
      Makes-bind (call env.outcome auth_service) _ (Makes-call env.outcome _ login) of_service-Makes
