-- ===== src/Goal/Cache.antt =====
-- The cache of the goal service and what it reads from requests: goal/goal/src/index.ts below
-- 04-code-samples/packages, with one session's cache.
-- `trim` is `String.prototype.trim`.
use agent_runtime_notes.Base.{
  ℕ, ◌+◌, String, Bool, true, false, not, ◌&&◌, ◌||◌, Option, none, some, List, [], ◌∷◌, ◌==◌,
  if◌then◌else◌, str_eq, JsNumber, drop, Result, ok, err, ◌>>◌, throw_unless,
}
use agent_runtime_notes.Goal.{
  GoalPhase, is_phase, GoalRef, GoalBlockReason, GoalSnapshot, GoalEvent, goal_change, user_message,
  other_event,
}
use agent_runtime_notes.Goal.Decode.{FoldError, is_kebab}
use agent_runtime_notes.Goal.Fold.{GoalFoldState, apply_goal_event, positive_index}

pub data GoalActivation : Type 0 where
  armed disarmed : GoalActivation

-- `GoalErrorCode`, and what else a method throws.
pub data GoalError : Type 0 where
  agent_not_live not_found already_exists stale_revision invalid_objective : GoalError
  invalid_max_rounds invalid_block_reason invalid_edit invalid_transition : GoalError
  append_rejected lacks_timestamps cleared_unexpectedly : GoalError
  replay : FoldError → GoalError

pub record PendingActivation : Type 0 where
  pub seq : ℕ
  pub activation : GoalActivation

pub record GoalCache : Type 0 where
  pub state : GoalFoldState
  pub activation : GoalActivation
  pub observed_seq : ℕ
  pub pending_activation : Option PendingActivation

-- The session's log and the service's cache of it.
pub record Hub : Type 0 where
  pub log : List GoalEvent
  pub cache : GoalCache

pub record GoalView : Type 0 where
  pub goal : GoalSnapshot
  pub rounds_started : ℕ
  pub created_at : ℕ
  pub updated_at : ℕ
  pub activation : GoalActivation

abbrev pub Outcome : Type 0 → Type 0
Outcome A = Result GoalError A × Hub

-- A step that throws leaves the state as it is then.
infixl 8 ◌then_do◌
abbrev pub ◌then_do◌ : {A B : Type 0} → Outcome A → (A → Hub → Outcome B) → Outcome B
(ok a, s) then_do f = f a s
(err e, s) then_do f = (err e, s)

abbrev pub check : {B : Type 0} → Bool → GoalError → Hub → (Hub → Outcome B) → Outcome B
check true e s f = f s
check false e s f = (err e, s)

abbrev pub is_seq : Option PendingActivation → ℕ → Bool
is_seq none seq = false
is_seq (some p) seq = p.seq == seq

abbrev pub pending_or_disarmed : Option PendingActivation → ℕ → GoalActivation
pending_or_disarmed none seq = disarmed
pending_or_disarmed (some p) seq = if p.seq == seq then p.activation else disarmed

-- The activation after an event with the sequence number `seq`.
abbrev pub reconcile : GoalCache → ℕ → GoalEvent → GoalActivation
reconcile cache seq (goal_change raw) = pending_or_disarmed cache.pending_activation seq
reconcile cache seq (user_message source) = cache.activation
reconcile cache seq other_event = cache.activation

unfoldable pub resolve_max_goal_rounds : JsNumber → Result GoalError ℕ
resolve_max_goal_rounds value = elim (positive_index value) [
  | none ↦ err invalid_max_rounds
  | some n ↦ ok n
]

-- The view of a cache; a goal without timestamps is thrown for.
unfoldable pub view_with :
    GoalCache → GoalSnapshot → Option ℕ → Option ℕ → Result GoalError (Option GoalView)
view_with cache goal (some created_at) (some updated_at) = ok (
    some (record {
      goal = goal;
      rounds_started = cache.state.rounds_started;
      created_at = created_at;
      updated_at = updated_at;
      activation = cache.activation;
    }))
view_with cache goal _ _ = err lacks_timestamps

unfoldable pub view : GoalCache → Result GoalError (Option GoalView)
view cache = elim cache.state.goal [
  | none ↦ ok none
  | some goal ↦ view_with cache goal cache.state.created_at cache.state.updated_at
]

abbrev pub with_phase : GoalSnapshot → GoalPhase → GoalSnapshot
with_phase current phase = record {
  id = current.id;
  revision = current.revision + 1;
  objective = current.objective;
  phase = phase;
  blocked_reason = none;
  max_goal_rounds = current.max_goal_rounds;
}

unfoldable pub includes : List GoalPhase → GoalPhase → Bool
includes [] phase = false
includes (p ∷ ps) phase = is_phase p phase || includes ps phase

pub record CreateGoalRequest : Type 0 where
  pub objective : String
  pub max_goal_rounds : Option JsNumber

pub record EditGoalRequest : Type 0 where
  pub objective : Option String
  pub max_goal_rounds : Option JsNumber

abbrev pub is_absent {ℓ} : {A : Type ℓ} → Option A → Bool
is_absent none = true
is_absent (some a) = false

module _ (trim : String → String) where
  unfoldable pub resolve_objective : String → Result GoalError String
  resolve_objective value = do
    throw_unless (not (str_eq (trim value) "")) invalid_objective
    ok (trim value)

  unfoldable pub resolve_block_reason : GoalBlockReason → Result GoalError GoalBlockReason
  resolve_block_reason reason = do
    throw_unless (is_kebab reason.code && not (str_eq (trim reason.message) ""))
        invalid_block_reason
    ok (record { code = reason.code; message = trim reason.message })

  -- The fields of an edit that are given replace the current ones.
  unfoldable pub edited_objective : GoalSnapshot → Option String → Result GoalError String
  edited_objective current none = ok current.objective
  edited_objective current (some value) = resolve_objective value

  -- The loop of `sync`, over the events that the cache has not observed.
  unfoldable pub sync_from : GoalCache → List GoalEvent → Result FoldError (Unit {0}) × GoalCache
  sync_from cache [] = (ok tt, cache)
  sync_from cache (event ∷ events) = elim (apply_goal_event trim cache.state event) [
    | err e ↦ (err e, cache)
    | ok next ↦
        sync_from
          (record {
            state = next;
            activation = reconcile cache cache.observed_seq event;
            observed_seq = cache.observed_seq + 1;
            pending_activation = cache.pending_activation;
          })
          events
  ]

  abbrev pub synced : Hub → Result FoldError (Unit {0}) × GoalCache → Outcome (Unit {0})
  synced s (ok done, cache) = (ok tt, record { log = s.log; cache = cache })
  synced s (err e, cache) = (err (replay e), record { log = s.log; cache = cache })

  unfoldable pub sync : Hub → Outcome (Unit {0})
  sync s = synced s (sync_from s.cache (drop s.cache.observed_seq s.log))

unfoldable pub edited_rounds : GoalSnapshot → Option JsNumber → Result GoalError ℕ
edited_rounds current none = ok current.max_goal_rounds
edited_rounds current (some value) = resolve_max_goal_rounds value

-- `expectCurrent` and what follows it.
unfoldable pub expect_current : Hub → GoalRef → Result GoalError GoalSnapshot
expect_current s ref = elim s.cache.state.goal [
  | none ↦ err not_found
  | some current ↦
      if str_eq ref.id current.id && ref.revision == current.revision
      then ok current
      else err stale_revision
]

-- Without its pending activation.
abbrev pub settled : Hub → Hub
settled s = record { log = s.log; cache = record s.cache { pending_activation = none } }

abbrev pub settle : Outcome (Unit {0}) → Outcome (Unit {0})
settle (r, s) = (r, settled s)
