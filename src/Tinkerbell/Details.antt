-- ===== src/Tinkerbell/Details.antt =====
-- The progress that is told of a workflow (status.go): it points at the first action that has not
-- succeeded, or at the last one.
use infra_onboarding.Prelude.{
  ℕ, suc, ◌+◌, ◌<◌, ◌≡◌, ◌≢◌, ◌⊎◌, inl, inr, refl, ap, ◌∙◌, String, false, some, List, [], ◌∷◌,
  ◌++◌, format, length, length-append, nat_eq, decimal, ◌==◌, string_has_eq, All, Bool-cases, arith,
}
use infra_onboarding.Api.Tink.{WorkflowState, workflow_state_eq, Action, Task, Workflow}
use infra_onboarding.Tinkerbell.{
  action_message, scan_actions, prepare_status_details, details_of_tasks,
  generate_status_detail_from_workflow_state,
}

-- The loop goes past the action unless it is the last one.
pub record IsPassed (a : Action) : Type 0 where
  pub named : a.name ≢ ""
  pub succeeded : a.status ≡ WorkflowState.success

not_empty : (s : String) → s ≢ "" → (s == "") ≡ false
not_empty s h = elim (Bool-cases (s == "")) [
  | inl e ↦ absurd (h ((string_has_eq.equals_iff s "").0 e))
  | inr e ↦ e
]

-- The loop stops at `a`: it has a name, and it has not succeeded or none comes after it.
pub record StopsAt (a : Action) (after : List Action) : Type 0 where
  pub named : a.name ≢ ""
  pub stops : (a.status ≢ WorkflowState.success) ⊎ (after ≡ [])

scan_stop :
    (total i : ℕ) (a : Action) (after : List Action)
    → total ≡ i + length (a ∷ after)
    → StopsAt a after
    → scan_actions total i (a ∷ after) ≡ some (i + 1, action_message a)
unfolding scan_actions
scan_stop total i a after e h = elim h.stops [
  | inl unfinished ↦ rw (not_empty a.name h.named) (ground (arith, unfinished))
  | inr last ↦
      let at_end : total ≡ i + 1 = omega (arith, ap length last) in
      rw (not_empty a.name h.named) (ground (arith, at_end))
]

scan_passed :
    (total i : ℕ) (a : Action) (rest : List Action)
    → suc i < total
    → IsPassed a
    → scan_actions total i (a ∷ rest) ≡ scan_actions total (i + 1) rest
unfolding scan_actions
scan_passed total i a rest lt h = rw (not_empty a.name h.named) (ground (arith, h))

scan-append :
    (total i : ℕ) (before : List Action) (a : Action) (after : List Action)
    → total ≡ i + length (before ++ a ∷ after)
    → All IsPassed before
    → StopsAt a after
    → scan_actions total i (before ++ a ∷ after) ≡ some (i + length before + 1, action_message a)
scan-append total i [] a after e p h =
    scan_stop total i a after e h ∙ ap (λ n. some (n + 1, action_message a)) (omega arith)
scan-append total i (b ∷ before) a after e (p, ps) h =
    let len = length-append before (a ∷ after) in
    scan_passed total i b (before ++ a ∷ after) (omega (arith, len)) p
    ∙ scan-append total (i + 1) before a after (omega (arith, len)) ps h
    ∙ ap (λ n. some (n + 1, action_message a)) (omega arith)

-- Where the loop stops in a list of actions.
pub record Progress (actions : List Action) : Type 0 where
  pub before : List Action
  pub current : Action
  pub after : List Action
  pub split : actions ≡ before ++ current ∷ after
  pub passed : All IsPassed before
  pub stops_at : StopsAt current after

past : (a : Action) {rest : List Action} → IsPassed a → Progress rest → Progress (a ∷ rest)
past a p g = record {
  before = a ∷ g.before;
  current = g.current;
  after = g.after;
  split = ap (λ l. a ∷ l) g.split;
  passed = (p, g.passed);
  stops_at = g.stops_at;
}

-- It stops somewhere.
find-Progress :
    (a : Action) (rest : List Action) → All (λ b. b.name ≢ "") (a ∷ rest) → Progress (a ∷ rest)
find-Progress a [] named = record {
  before = [];
  current = a;
  after = [];
  split = refl;
  passed = tt;
  stops_at = record { named = named.0; stops = inr refl };
}
find-Progress a (b ∷ rest) named = elim (Bool-cases (a.status == WorkflowState.success)) [
  | inl e ↦
      past a (record { named = named.0; succeeded = (workflow_state_eq.equals_iff _ _).0 e })
        (find-Progress b rest named.1)
  | inr e ↦ record {
    before = [];
    current = a;
    after = b ∷ rest;
    split = refl;
    passed = tt;
    stops_at = record {
      named = named.0;
      stops = inl (λ q. cc (e, (workflow_state_eq.equals_iff _ _).1 q));
    };
  }
]

-- What is told at a stop.
abbrev pub told : {actions : List Action} → Progress actions → String
told {actions} g = format (
    decimal (length g.before + 1)
    ∷ "/"
    ∷ decimal (length actions)
    ∷ ": "
    ∷ action_message g.current
    ∷ [])

prepare_told :
    (actions : List Action) (g : Progress actions)
    → prepare_status_details (length actions) actions ≡ told g
unfolding prepare_status_details
prepare_told actions g =
    let found : scan_actions (length actions) 0 actions
        ≡ some (length g.before + 1, action_message g.current) =
      ap (scan_actions (length actions) 0) g.split
      ∙ scan-append (length actions) 0 g.before g.current g.after (omega (arith, ap length g.split))
          g.passed g.stops_at
      ∙ ap (λ n. some (n + 1, action_message g.current)) (omega arith) in
    rw (found, prepare_status_details)

details_told :
    (task : Task) (rest : List Task) (a : Action) (more : List Action)
    → task.actions ≡ a ∷ more
    → (g : Progress (a ∷ more)) → details_of_tasks (task ∷ rest) ≡ told g
unfolding details_of_tasks
details_told task rest a more e g =
    let some_left : nat_eq (suc (length more)) 0 ≡ false = ground arith in
    rw (e, some_left) (prepare_told (a ∷ more) g)

-- The detail of a workflow that has not succeeded, and whose first task has actions, all of them
-- with names, numbers the first action that has not succeeded, or the last one, out of all, and
-- gives that action's message. All actions before it have succeeded.
pub status_detail-Progress :
    (w : Workflow) (task : Task) (rest : List Task) (a : Action) (more : List Action)
    → w.state ≢ WorkflowState.success
    → w.tasks ≡ task ∷ rest
    → task.actions ≡ a ∷ more
    → All (λ b. b.name ≢ "") (a ∷ more)
    → (g : Progress (a ∷ more)) × (generate_status_detail_from_workflow_state (some w) ≡ told g)
unfolding generate_status_detail_from_workflow_state
status_detail-Progress w task rest a more unfinished tasks actions named =
    let g = find-Progress a more named in
    let going : (w.state == WorkflowState.success) ≡ false = ground (arith, unfinished) in
    (g, rw (going, tasks) (details_told task rest a more actions g))
