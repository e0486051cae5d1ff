-- ===== src/Goal/Fold.antt =====
-- The strict replay fold: 04-code-samples/packages/goal/goal/src/fold.ts.
use agent_runtime_notes.Base.{
  ℕ, ◌+◌, String, Bool, true, false, not, ◌&&◌, Option, none, some, List, [], ◌∷◌, leb, ltb, ◌==◌,
  if◌then◌else◌, str_eq, JsNumber, safe_index, has, Result, ok, err, ◌>>=◌, ◌>>◌, throw_unless,
}
use agent_runtime_notes.Goal.{
  GoalPhase, active, paused, blocked, complete, is_phase, GoalRef, GoalBlockReason, GoalSnapshot,
  GoalOperation, to_create, to_edit, to_pause, to_resume, to_complete, to_block, SnapshotChange,
  GoalChange, snapshot_change, clear_change, MessageSource, goal_source, other_source, GoalEvent,
  goal_change, user_message, other_event,
}
use agent_runtime_notes.Goal.Decode.{
  FoldError, invalid_payload, no_current_goal, not_next_revision, counters_changed,
  definition_changed, bad_transition, bad_create, bad_source, bad_round, lacks_updated_at,
  decode_goal_change,
}

pub record GoalFoldState : Type 0 where
  pub goal : Option GoalSnapshot
  pub rounds_started : ℕ
  pub created_at : Option ℕ
  pub updated_at : Option ℕ
  pub last_ref : Option GoalRef
  pub seen_goal_ids : List String

abbrev pub empty_goal_fold_state : GoalFoldState
empty_goal_fold_state = record {
  goal = none;
  rounds_started = 0;
  created_at = none;
  updated_at = none;
  last_ref = none;
  seen_goal_ids = [];
}

abbrev pub snapshot_ref : GoalSnapshot → GoalRef
snapshot_ref goal = record { id = goal.id; revision = goal.revision }

abbrev pub goal_change_ref : GoalChange → GoalRef
goal_change_ref (snapshot_change c) = snapshot_ref c.goal
goal_change_ref (clear_change ref at) = ref

abbrev pub is_number : Option ℕ → ℕ → Bool
is_number none n = false
is_number (some k) n = k == n

-- Equality of two optional reasons, as of their JSON texts.
abbrev pub same_reason : Option GoalBlockReason → Option GoalBlockReason → Bool
same_reason none none = true
same_reason (some a) (some b) = str_eq a.code b.code && str_eq a.message b.message
same_reason _ _ = false

unfoldable pub require_next_revision : GoalSnapshot → GoalRef → Result FoldError (Unit {0})
require_next_revision current next =
    throw_unless (str_eq next.id current.id && next.revision == current.revision + 1)
      not_next_revision

unfoldable pub require_same_definition : GoalSnapshot → GoalSnapshot → Result FoldError (Unit {0})
require_same_definition current next =
    throw_unless
      (str_eq next.objective current.objective && next.max_goal_rounds == current.max_goal_rounds)
      definition_changed

-- The phases between which an operation leads; `edit` and `create` are not asked here.
abbrev pub leads : GoalOperation → GoalPhase → GoalPhase → Bool
leads to_pause from to = is_phase from active && is_phase to paused
leads to_resume from to = not (is_phase from complete) && is_phase to active
leads to_complete from to = not (is_phase from complete) && is_phase to complete
leads to_block from to = is_phase from active && is_phase to blocked
leads to_edit from to = is_phase from to
leads to_create from to = false

-- The `switch` of `validateSnapshotTransition`.
unfoldable pub validate_operation :
    GoalFoldState → GoalOperation → GoalSnapshot → GoalSnapshot → Result FoldError (Unit {0})
validate_operation state to_edit current next =
    throw_unless
      (leads to_edit next.phase current.phase
        && same_reason next.blocked_reason current.blocked_reason)
      bad_transition
validate_operation state to_resume current next = do
  require_same_definition current next
  throw_unless
      (leads to_resume current.phase next.phase && ltb state.rounds_started next.max_goal_rounds)
      bad_transition
validate_operation state to_create current next = err bad_transition
validate_operation state operation current next = do
  require_same_definition current next
  throw_unless (leads operation current.phase next.phase) bad_transition

unfoldable pub require_updated_at : Option ℕ → Result FoldError ℕ
require_updated_at none = err lacks_updated_at
require_updated_at (some at) = ok at

unfoldable pub validate_snapshot_transition :
    GoalFoldState → SnapshotChange → GoalSnapshot → Result FoldError (Unit {0})
validate_snapshot_transition state change current = do
  require_next_revision current (snapshot_ref change.goal)
  at ← require_updated_at state.updated_at
  throw_unless
      (is_number state.created_at change.created_at
        && leb at change.updated_at
        && state.rounds_started == change.rounds_started)
      counters_changed
  validate_operation state change.operation current change.goal

abbrev pub is_absent_or_complete : Option GoalSnapshot → Bool
is_absent_or_complete none = true
is_absent_or_complete (some goal) = is_phase goal.phase complete

-- The guard of a create.
abbrev pub may_create : GoalFoldState → SnapshotChange → Bool
may_create state change =
    change.goal.revision == 1
    && is_phase change.goal.phase active
    && change.rounds_started == 0
    && is_absent_or_complete state.goal
    && not (has state.seen_goal_ids change.goal.id)

-- The identities seen after a change that is let through.
unfoldable pub admit_change :
    GoalFoldState → SnapshotChange → GoalOperation → Result FoldError (List String)
admit_change state change to_create = do
  throw_unless (may_create state change) bad_create
  ok (change.goal.id ∷ state.seen_goal_ids)
admit_change state change operation = elim state.goal [
  | none ↦ err no_current_goal
  | some current ↦ validate_snapshot_transition state change current >> ok state.seen_goal_ids
]

unfoldable pub apply_clear :
    GoalFoldState → GoalRef → ℕ → GoalSnapshot → Result FoldError GoalFoldState
apply_clear state ref cleared_at current = do
  require_next_revision current ref
  at ← require_updated_at state.updated_at
  throw_unless (leb at cleared_at) counters_changed
  ok (record {
    goal = none;
    rounds_started = 0;
    created_at = none;
    updated_at = none;
    last_ref = some ref;
    seen_goal_ids = state.seen_goal_ids;
  })

unfoldable pub apply_goal_change : GoalFoldState → GoalChange → Result FoldError GoalFoldState
apply_goal_change state (clear_change ref cleared_at) = elim state.goal [
  | none ↦ err no_current_goal
  | some current ↦ apply_clear state ref cleared_at current
]
apply_goal_change state (snapshot_change change) = do
  seen ← admit_change state change change.operation
  ok (record {
    goal = some change.goal;
    rounds_started = change.rounds_started;
    created_at = some change.created_at;
    updated_at = some change.updated_at;
    last_ref = some (snapshot_ref change.goal);
    seen_goal_ids = seen;
  })

-- A positive safe integer.
abbrev pub positive_index : JsNumber → Option ℕ
positive_index n = elim (safe_index n) [ none ↦ none | some k ↦ if leb 1 k then some k else none ]

-- The guard of an admitted round.
abbrev pub is_next_round : GoalFoldState → GoalSnapshot → String → ℕ → ℕ → Bool
is_next_round state current id revision round =
    is_phase current.phase active
    && str_eq id current.id
    && revision == current.revision
    && round == state.rounds_started + 1
    && leb round current.max_goal_rounds

unfoldable pub apply_round : GoalFoldState → String → ℕ → ℕ → Result FoldError GoalFoldState
apply_round state id revision round = elim state.goal [
  | none ↦ err bad_round
  | some current ↦
      if is_next_round state current id revision round
      then ok (record state { rounds_started = round })
      else err bad_round
]

unfoldable pub apply_source : GoalFoldState → MessageSource → Result FoldError GoalFoldState
apply_source state other_source = ok state
apply_source state (goal_source id revision round) =
    if str_eq id "" then err bad_source else elim (positive_index revision) [
      | none ↦ err bad_source
      | some n ↦ elim (positive_index round) [
        | none ↦ err bad_source
        | some r ↦ apply_round state id n r
      ]
    ]

module _ (trim : String → String) where
  unfoldable pub apply_goal_event : GoalFoldState → GoalEvent → Result FoldError GoalFoldState
  apply_goal_event state other_event = ok state
  apply_goal_event state (user_message source) = apply_source state source
  apply_goal_event state (goal_change raw) = elim (decode_goal_change trim raw) [
    | err e ↦ err e
    | ok none ↦ err invalid_payload
    | ok (some change) ↦ apply_goal_change state change
  ]

  -- The loop of `foldGoal`.
  unfoldable pub fold_from : GoalFoldState → List GoalEvent → Result FoldError GoalFoldState
  fold_from state [] = ok state
  fold_from state (event ∷ events) = elim (apply_goal_event state event) [
    | ok next ↦ fold_from next events
    | err e ↦ err e
  ]

  unfoldable pub fold_goal : List GoalEvent → Result FoldError GoalFoldState
  fold_goal events = fold_from empty_goal_fold_state events
