-- ===== src/Api/Tink.antt =====
-- Tinkerbell's Kubernetes resources, with the fields that this repository reads or writes.
use infra_onboarding.Prelude.{ℕ, ◌+◌, ◌≡◌, String, List, arith}
use infra_onboarding.Prelude.{Eq}
use infra_onboarding.Api.Enums.{eq_by}

-- A named text type; the empty text is the state of a workflow that has not been picked up.
pub data WorkflowState : Type 0 where
  empty success failed timeout running pending : WorkflowState
  unnamed : ℕ → WorkflowState

abbrev workflow_state_tag : WorkflowState → ℕ
workflow_state_tag WorkflowState.empty = 0
workflow_state_tag WorkflowState.success = 1
workflow_state_tag WorkflowState.failed = 2
workflow_state_tag WorkflowState.timeout = 3
workflow_state_tag WorkflowState.running = 4
workflow_state_tag WorkflowState.pending = 5
workflow_state_tag (WorkflowState.unnamed n) = n + 6

pub workflow_state_sound :
    (a b : WorkflowState) → workflow_state_tag a ≡ workflow_state_tag b → a ≡ b
workflow_state_sound a b h = ground arith

instance abbrev pub workflow_state_eq : Eq WorkflowState
workflow_state_eq = eq_by workflow_state_tag workflow_state_sound

pub record Action : Type 0 where
  pub name : String
  pub status : WorkflowState
  pub message : String

pub record Task : Type 0 where
  pub actions : List Action

pub record Workflow : Type 0 where
  pub name : String
  pub namespace : String
  pub hardware_map : List (String × String)
  pub hardware_ref : String
  pub template_ref : String
  pub state : WorkflowState
  pub tasks : List Task

pub record Template : Type 0 where
  pub name : String
  pub namespace : String
  pub template_data : String

pub record Hardware : Type 0 where
  pub name : String
  pub namespace : String

pub data Kind : Type 0 where
  template hardware : Kind
