-- ===== src/DeviceDiscovery/Auth.antt =====
-- hook-os/device_discovery/client-secret-auth.go: the tokens that an edge node fetches with its credentials.
use infra_onboarding.Prelude.{
  ℕ, String, ◌||◌, not, Option, none, some, [], ◌∷◌, format, nat_eq, replace_first, ◌==◌,
  string_has_eq, if◌then◌else◌,
}
use infra_onboarding.Api.Errors.{Result, ok, err}
use infra_onboarding.Api.Calls.{read_file, access_token, release_token}
use infra_onboarding.Api.Env.{Env}
use infra_onboarding.Act.{Act, pure, call, ◌>>=◌, ◌on_ok◌}
use infra_onboarding.DeviceDiscovery.{certs_added}

module _ {E : Type 0} (env : Env E) where
  unfoldable pub load_ca_cert_pool : String → Act (Option E)
  load_ca_cert_pool path = call env.file (read_file path) >>= λ pem.
      pure (certs_added env "failed to read CA certificate" "failed to append CA certificate" pem)

  abbrev pub token_of : Option String → Result E String
  token_of none = err (env.fmt_errorf "access token not found in response")
  token_of (some t) =
      if t == "" then err (env.fmt_errorf "access token not found in response") else ok t

  abbrev pub decoded_token : Result E (Option String) → Result E String
  decoded_token (err e) = err e
  decoded_token (ok t) = token_of t

  abbrev pub on_token_response : Result E (ℕ × Result E (Option String)) → Result E String
  on_token_response (err e) = err e
  on_token_response (ok (status, body)) =
      if not (nat_eq status 200)
      then err (env.fmt_errorf "failed to get access token")
      else decoded_token body

  -- once the certificates are loaded, or not
  abbrev pub with_pool {ℓ} : {A : Type ℓ} → Act (Result E A) → Option E → Act (Result E A)
  with_pool k none = k
  with_pool k (some e) = pure (err (env.fmt_errorf "error loading CA certificate"))

  unfoldable pub fetch_access_token : String → String → String → String → Act (Result E String)
  unfolding load_ca_cert_pool
  fetch_access_token url client_id client_secret ca_cert_path =
      elim (env.request_error (format ("https://" ∷ url ∷ []))) [
        | some e ↦ pure (err e)
        | none ↦
            load_ca_cert_pool ca_cert_path
            >>= with_pool (
                call env.token (access_token url client_id client_secret) >>= λ r.
                pure (on_token_response r))
      ]

  abbrev pub valid_token : Result E String → Result E String
  valid_token (err e) = err (env.fmt_errorf "error reading response body")
  valid_token (ok t) =
      if t == "null" || t == "" then err (env.fmt_errorf "invalid token received") else ok t

  abbrev pub on_release_response : Result E (ℕ × Result E String) → Result E String
  on_release_response (err e) = err (env.fmt_errorf "error sending request")
  on_release_response (ok (status, body)) =
      if not (nat_eq status 200)
      then err (env.fmt_errorf "failed to get release token")
      else valid_token body

  unfoldable pub send_release_request : String → String → Option E → Act (Result E String)
  send_release_request url token (some e) = pure (err (env.fmt_errorf "error creating request"))
  send_release_request url token none =
      call env.body (release_token url token) >>= λ r. pure (on_release_response r)

  unfoldable pub fetch_release_token : String → String → String → Act (Result E String)
  unfolding load_ca_cert_pool send_release_request
  fetch_release_token url token ca_cert_path =
      if token == ""
      then pure (err (env.fmt_errorf "access token is required"))
      else (load_ca_cert_pool ca_cert_path
          >>= with_pool
              (send_release_request url token (env.request_error (format ("https://" ∷ url ∷ [])))))

  abbrev pub wrapped : String → Result E String → Result E String
  wrapped message (ok t) = ok t
  wrapped message (err e) = err (env.fmt_errorf message)

  unfoldable pub client_auth :
      String → String → String → String → String → String → Act (Result E (String × String))
  unfolding fetch_access_token fetch_release_token replace_first
  client_auth client_id client_secret keycloak_url access_path release_path ca_cert_path =
      (fetch_access_token (format (keycloak_url ∷ access_path ∷ [])) client_id client_secret
          ca_cert_path
        >>= λ r. pure (wrapped "failed to get JWT access token from Keycloak" r))
      on_ok λ token.
          (fetch_release_token
              (format (replace_first "keycloak" "release" keycloak_url ∷ release_path ∷ [])) token
              ca_cert_path
            >>= λ r. pure (wrapped "failed to get release service token" r))
          on_ok λ release. pure (ok (token, release))
