-- ===== src/Goal.antt =====
-- The goal domain: 04-code-samples/packages/goal/goal/src/types.ts and domain.ts.
-- A durable payload is raw until it is decoded: its numbers are JavaScript numbers, and a payload
-- that lacks a field, has another one, or holds a value of another type there is `malformed`.
use agent_runtime_notes.Base.{
  ℕ, String, Bool, true, false, Option, none, some, List, JsNumber, of_ℕ, str_eq,
}
pub mod Decode
pub mod Fold
pub mod Cache
pub mod Service
pub mod Soundness
pub mod Standing
pub mod Commits
pub mod Changes
pub mod Calls
pub mod Requests
pub mod Operations
pub mod Upkeep
pub mod Syncing
pub mod Lagging
pub mod Runs
pub mod Renewals
pub mod References
pub mod Projection
pub mod Tests

pub data GoalPhase : Type 0 where
  active paused blocked complete : GoalPhase

pub record GoalRef : Type 0 where
  pub id : String
  pub revision : ℕ

pub record GoalBlockReason : Type 0 where
  pub code : String
  pub message : String

pub record GoalSnapshot : Type 0 where
  pub id : String
  pub revision : ℕ
  pub objective : String
  pub phase : GoalPhase
  pub blocked_reason : Option GoalBlockReason
  pub max_goal_rounds : ℕ

-- The operations of a snapshot change; `clear` has a change of its own.
pub data GoalOperation : Type 0 where
  to_create to_edit to_pause to_resume to_complete to_block : GoalOperation

pub record SnapshotChange : Type 0 where
  pub operation : GoalOperation
  pub goal : GoalSnapshot
  pub rounds_started : ℕ
  pub created_at : ℕ
  pub updated_at : ℕ

pub data GoalChange : Type 0 where
  snapshot_change : SnapshotChange → GoalChange
  clear_change : GoalRef → ℕ → GoalChange

pub record RawSnapshot : Type 0 where
  pub id : String
  pub revision : JsNumber
  pub objective : String
  pub phase : GoalPhase
  pub blocked_reason : Option GoalBlockReason
  pub max_goal_rounds : JsNumber

pub data RawChange : Type 0 where
  other_kind malformed : RawChange
  raw_clear : String → JsNumber → JsNumber → RawChange
  raw_snapshot :
      GoalOperation → RawSnapshot → (rounds_started created_at updated_at : JsNumber) → RawChange

-- The attribution of a user message.
pub data MessageSource : Type 0 where
  goal_source : String → JsNumber → JsNumber → MessageSource
  other_source : MessageSource

pub data GoalEvent : Type 0 where
  goal_change : RawChange → GoalEvent
  user_message : MessageSource → GoalEvent
  other_event : GoalEvent

-- The object that the service appends, as the log holds it.
abbrev pub to_raw : GoalSnapshot → RawSnapshot
to_raw goal = record {
  id = goal.id;
  revision = of_ℕ goal.revision;
  objective = goal.objective;
  phase = goal.phase;
  blocked_reason = goal.blocked_reason;
  max_goal_rounds = of_ℕ goal.max_goal_rounds;
}

abbrev pub encode : GoalChange → RawChange
encode (clear_change ref cleared_at) = raw_clear ref.id (of_ℕ ref.revision) (of_ℕ cleared_at)
encode (snapshot_change c) =
    raw_snapshot c.operation (to_raw c.goal) (of_ℕ c.rounds_started) (of_ℕ c.created_at)
      (of_ℕ c.updated_at)

abbrev pub is_phase : GoalPhase → GoalPhase → Bool
is_phase active active = true
is_phase paused paused = true
is_phase blocked blocked = true
is_phase complete complete = true
is_phase _ _ = false
