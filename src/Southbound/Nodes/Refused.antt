-- ===== src/Southbound/Nodes/Refused.antt =====
-- Where `CreateNodes` makes no call (grpc_server.go).
use infra_onboarding.Prelude.{
  ◌≡◌, refl, ◌⊎◌, inl, inr, String, Bool, true, false, not, ◌&&◌, Option, none, some, [],
  if◌then◌else◌,
}
use infra_onboarding.Api.Errors.{Result, err, permission_denied}
use infra_onboarding.Api.Calls.{History}
use infra_onboarding.Api.Env.{Env}
use infra_onboarding.Act.{done, panic, Act, pure}
use infra_onboarding.Onboardingmgr.{CreateNodesRequest, CreateNodesResponse, ValidationError}
use infra_onboarding.Onboardingmgr.Validate.{validate_create_nodes_request}
use infra_onboarding.Southbound.Nodes.{
  Context, serial_number_validation_error_io, without_serials, copy_node_req_to_node_data,
  onboard_first, for_tenant, if_authorized, on_node_validation, create_nodes,
}

module _ {E : Type 0} (env : Env E) (has_api : Bool) where
  -- The action gives an error and makes no call.
  abbrev pub Refuses : Act (Result E CreateNodesResponse) → History → Type 0
  Refuses m h = (e : E) × (m h ≡ (done (err e), h))

  no_tenant :
      (t : Option String) (req : CreateNodesRequest) (h : History)
      → t ≡ none
      → Refuses (for_tenant env has_api req t) h
  unfolding for_tenant
  no_tenant none req h e = (_, refl)
  no_tenant (some t) req h e = absurd (cc)

  not_let :
      (b authorized : Bool) (t : Option String) (req : CreateNodesRequest) (h : History)
      → (((b ≡ true) × (authorized ≡ false)) ⊎ (t ≡ none))
      → Refuses
          (if b && not authorized
            then pure (err (env.errorfc permission_denied "Request is blocked by RBAC"))
            else for_tenant env has_api req t)
          h
  not_let true false t req h w = (_, refl)
  not_let true true t req h (inl w) = absurd (cc)
  not_let true true t req h (inr w) = no_tenant t req h w
  not_let false a t req h (inl w) = absurd (cc)
  not_let false a t req h (inr w) = no_tenant t req h w

  unauthorized :
      (b : Bool) (ctx : Context) (req : CreateNodesRequest) (h : History)
      → (((b ≡ true) × (ctx.authorized ≡ false)) ⊎ (ctx.tenant_id ≡ none))
      → Refuses (if_authorized env has_api b ctx req) h
  unfolding if_authorized
  unauthorized b ctx req h w = not_let b ctx.authorized ctx.tenant_id req h w

  validated-Refuses :
      (b : Bool) (ctx : Context) (req : CreateNodesRequest) (v : Option ValidationError)
      (h : History)
      → (((b ≡ true) × (ctx.authorized ≡ false)) ⊎ (ctx.tenant_id ≡ none))
      → Refuses (on_node_validation env has_api b ctx req v) h
  unfolding on_node_validation
  validated-Refuses b ctx req none h w = unauthorized b ctx req h w
  validated-Refuses b ctx req (some v) h w =
      elim (serial_number_validation_error_io v)
        as (λ x.
          Refuses
            (if x
              then if_authorized env has_api b ctx (without_serials req)
              else pure (err (env.invalid v)))
            h) [
              | true ↦ unauthorized b ctx (without_serials req) h w
              | false ↦ (env.invalid v, refl)
            ]

  -- A caller that the policy does not let create, where authentication is on, or whose tenant is not
  -- known, gets an error whatever the request is, and no call is made for it.
  pub unauthorized_makes_no_call :
      (auth_enabled : Bool) (ctx : Context) (req : CreateNodesRequest) (h : History)
      → (((auth_enabled ≡ true) × (ctx.authorized ≡ false)) ⊎ (ctx.tenant_id ≡ none))
      → Refuses (create_nodes env has_api auth_enabled ctx req) h
  unfolding create_nodes
  unauthorized_makes_no_call b ctx req h w =
      validated-Refuses b ctx req (validate_create_nodes_request false req) h w

  -- A request that holds no node passes validation, and then the handler panics.
  empty_request_panics :
      (ctx : Context) (tenant_id : String) (h : History)
      → ctx.authorized ≡ true
      → ctx.tenant_id ≡ some tenant_id
      → create_nodes env has_api true ctx (record { payload = [] }) h ≡ (panic, h)
  unfolding create_nodes on_node_validation if_authorized for_tenant onboard_first
      copy_node_req_to_node_data validate_create_nodes_request
  empty_request_panics ctx tenant_id h a t = rw (a, t) refl
