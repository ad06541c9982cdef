-- ===== src/Onboardingmgr.antt =====
-- onboarding-manager/pkg/api/onboardingmgr/v1 (onboarding.pb.go, onboarding.pb.validate.go): the
-- messages between an edge node and the manager, and what their validation finds.
pub mod Patterns
pub mod Validate
pub mod Spans
pub mod Accepted
use infra_onboarding.Prelude.{ℕ, String, List}
use infra_onboarding.Api.Errors.{Code}

pub record HwData : Type 0 where
  pub uuid : String
  pub serialnum : String
  pub mac_id : String
  pub sut_ip : String

pub record NodeData : Type 0 where
  pub hwdata : List HwData

pub record CreateNodesRequest : Type 0 where
  pub payload : List NodeData

pub record CreateNodesResponse : Type 0 where
  pub payload : List NodeData
  pub project_id : String

pub record OnboardNodeStreamRequest : Type 0 where
  pub uuid : String
  pub serialnum : String
  pub mac_id : String
  pub host_ip : String

-- OnboardNodeStreamResponse_NodeState
pub data NodeState : Type 0 where
  unspecified registered onboarded : NodeState
  unnamed : ℕ → NodeState

-- google.rpc.Status
pub record RpcStatus : Type 0 where
  pub code : Code
  pub message : String

pub record OnboardNodeStreamResponse : Type 0 where
  pub status : RpcStatus
  pub node_state : NodeState
  pub client_id : String
  pub client_secret : String
  pub project_id : String

-- An error of the generated validation: a plain one, one of a message (by its name) at a field, for
-- a reason, perhaps with a cause, or all errors of a message.
mutual
  pub data ValidationError : Type 0 where
    plain : String → ValidationError
    violation : String → String → String → ValidationError
    caused : String → String → String → ValidationError → ValidationError
    multi : ValidationErrors → ValidationError

  pub data ValidationErrors : Type 0 where
    nil : ValidationErrors
    cons : ValidationError → ValidationErrors → ValidationErrors
