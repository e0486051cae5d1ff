-- ===== src/Goal/Service.antt =====
-- The methods of the goal service: goal/goal/src/index.ts below 04-code-samples/packages.
-- `live` says whether the registry holds the agent, `now` is the clock, `new_id` the identity that
-- `create` makes from `randomUUID`, and `admits` whether the session takes an append.
use agent_runtime_notes.Base.{
  ℕ, ◌+◌, max, String, Bool, true, false, not, ◌&&◌, Option, none, some, List, [], ◌∷◌, ◌++◌, ltb,
  if◌then◌else◌, JsNumber, length, Result, ok, err,
}
use agent_runtime_notes.Goal.{
  GoalPhase, active, paused, blocked, complete, is_phase, GoalRef, GoalBlockReason, GoalSnapshot,
  GoalOperation, to_create, to_edit, to_pause, to_resume, to_complete, to_block, SnapshotChange,
  GoalChange, snapshot_change, clear_change, encode, GoalEvent, goal_change,
}
pub use agent_runtime_notes.Goal.Cache.{
  GoalActivation, GoalError, PendingActivation, GoalCache, Hub, GoalView, Outcome, ◌then_do◌, check,
  is_seq, pending_or_disarmed, reconcile, with_phase, CreateGoalRequest, EditGoalRequest, is_absent,
  synced, settled, settle, armed, disarmed, agent_not_live, not_found, already_exists,
  stale_revision, invalid_objective, invalid_max_rounds, invalid_block_reason, invalid_edit,
  invalid_transition, append_rejected, lacks_timestamps, cleared_unexpectedly, replay,
}
unfoldable pub use agent_runtime_notes.Goal.Cache.{
  resolve_max_goal_rounds, view_with, view, includes, resolve_objective, resolve_block_reason,
  edited_objective, sync_from, sync, edited_rounds, expect_current,
}

module _ (trim : String → String) (admits : List GoalEvent → GoalEvent → Bool) (live : Bool) where
  -- The notification is built from a view, which may throw too.
  abbrev pub notified : Outcome (Unit {0}) → Outcome (Option GoalView)
  notified (ok done, s) = elim (view s.cache) [ ok v ↦ (ok v, s) | err e ↦ (err e, s) ]
  notified (err e, s) = (err e, s)

  abbrev pub appended : Hub → GoalEvent → GoalActivation → Hub
  appended s event activation = record {
    log = s.log ++ event ∷ [];
    cache = record s.cache {
      pending_activation = some (record { seq = length s.log; activation = activation });
    };
  }

  unfoldable pub commit : Hub → GoalChange → GoalActivation → Outcome (Option GoalView)
  commit s change activation =
      if admits s.log (goal_change (encode change))
      then notified (settle (sync trim (appended s (goal_change (encode change)) activation)))
      else (err append_rejected, settled s)

  abbrev pub require_view : Outcome (Option GoalView) → Outcome GoalView
  require_view (ok (some v), s) = (ok v, s)
  require_view (ok none, s) = (err cleared_unexpectedly, s)
  require_view (err e, s) = (err e, s)

  unfoldable pub commit_snapshot : Hub → SnapshotChange → GoalActivation → Outcome GoalView
  commit_snapshot s change activation = require_view (commit s (snapshot_change change) activation)

  unfoldable pub prepare_mutation : Hub → Outcome (Unit {0})
  prepare_mutation s = check live agent_not_live s (sync trim)

  -- A mutation that keeps the current goal's counters; the clock never runs backwards.
  unfoldable pub commit_at :
      Hub
      → GoalOperation
      → GoalSnapshot
      → GoalActivation
      → ℕ
      → Option ℕ
      → Option ℕ
      → Outcome GoalView
  commit_at s operation goal activation now (some created_at) (some updated_at) =
      commit_snapshot s
        (record {
          operation = operation;
          goal = goal;
          rounds_started = s.cache.state.rounds_started;
          created_at = created_at;
          updated_at = max now updated_at;
        })
        activation
  commit_at s operation goal activation now _ _ = (err lacks_timestamps, s)

  unfoldable pub commit_current :
      Hub → GoalOperation → GoalSnapshot → GoalActivation → ℕ → Outcome GoalView
  commit_current s operation goal activation now =
      commit_at s operation goal activation now s.cache.state.created_at s.cache.state.updated_at

  -- With a value whose computation may throw.
  abbrev pub resolving : {A B : Type 0} → Result GoalError A → Hub → (A → Outcome B) → Outcome B
  resolving (ok a) s f = f a
  resolving (err e) s f = (err e, s)

  abbrev pub with_current :
      {B : Type 0} → Hub → GoalRef → (GoalSnapshot → Hub → Outcome B) → Outcome B
  with_current s ref f =
      prepare_mutation s then_do λ u t. resolving (expect_current t ref) t λ current. f current t

  unfoldable pub get : Hub → Outcome (Option GoalView)
  get s = notified (prepare_mutation s)

  unfoldable pub disarm : Hub → Outcome (Option GoalView)
  disarm s = prepare_mutation s then_do λ u t.
      notified (ok tt, record { log = t.log; cache = record t.cache { activation = disarmed } })

  unfoldable pub create_goal : Hub → String → ℕ → String → ℕ → Outcome GoalView
  create_goal s objective max_goal_rounds new_id now =
      commit_snapshot s
        (record {
          operation = to_create;
          goal = record {
            id = new_id;
            revision = 1;
            objective = objective;
            phase = active;
            blocked_reason = none;
            max_goal_rounds = max_goal_rounds;
          };
          rounds_started = 0;
          created_at = now;
          updated_at = now;
        })
        armed

  abbrev pub may_replace : Option GoalSnapshot → Bool
  may_replace none = true
  may_replace (some current) = is_phase current.phase complete

  -- `default_rounds` is the configured cap.
  unfoldable pub create : JsNumber → Hub → CreateGoalRequest → String → ℕ → Outcome GoalView
  create default_rounds s request new_id now =
      resolving (resolve_objective trim request.objective) s λ objective.
        resolving
          (resolve_max_goal_rounds
            (elim request.max_goal_rounds [ none ↦ default_rounds | some n ↦ n ]))
          s
          λ max_goal_rounds. prepare_mutation s then_do λ u t.
            check (may_replace t.cache.state.goal) already_exists t
              λ v. create_goal v objective max_goal_rounds new_id now

  unfoldable pub edit : Hub → GoalRef → EditGoalRequest → ℕ → Outcome GoalView
  edit s ref request now = with_current s ref λ current t.
      check (not (is_absent request.objective && is_absent request.max_goal_rounds)) invalid_edit t
        λ v. resolving (edited_objective trim current request.objective) v λ objective.
          resolving (edited_rounds current request.max_goal_rounds) v λ max_goal_rounds.
            commit_current v to_edit
              (record current {
                revision = current.revision + 1;
                objective = objective;
                max_goal_rounds = max_goal_rounds;
              })
              v.cache.activation now

  unfoldable pub transition :
      Hub
      → GoalRef
      → GoalOperation
      → List GoalPhase
      → GoalPhase
      → GoalActivation
      → ℕ
      → Outcome GoalView
  transition s ref operation allowed phase activation now = with_current s ref λ current t.
      check (includes allowed current.phase) invalid_transition t
        λ v. commit_current v operation (with_phase current phase) activation now

  unfoldable pub pause : Hub → GoalRef → ℕ → Outcome GoalView
  pause s ref now = transition s ref to_pause (active ∷ []) paused disarmed now

  unfoldable pub complete_goal : Hub → GoalRef → ℕ → Outcome GoalView
  complete_goal s ref now =
      transition s ref to_complete (active ∷ paused ∷ blocked ∷ []) complete disarmed now

  abbrev pub is_armed : GoalActivation → Bool
  is_armed armed = true
  is_armed disarmed = false

  unfoldable pub resume : Hub → GoalRef → ℕ → Outcome GoalView
  resume s ref now = with_current s ref λ current t.
      check (includes (active ∷ paused ∷ blocked ∷ []) current.phase) invalid_transition t λ v.
        check (not (is_phase current.phase active && is_armed v.cache.activation))
          invalid_transition v
          λ w.
            check (ltb w.cache.state.rounds_started current.max_goal_rounds) invalid_transition w
              λ x. commit_current x to_resume (with_phase current active) armed now

  unfoldable pub block : Hub → GoalRef → GoalBlockReason → ℕ → Outcome GoalView
  block s ref reason now = with_current s ref λ current t.
      check (is_phase current.phase active) invalid_transition t λ v.
        resolving (resolve_block_reason trim reason) v λ r.
          commit_current v to_block
            (record (with_phase current blocked) { blocked_reason = some r }) disarmed now

  abbrev pub tombstone_of : GoalRef → Outcome (Option GoalView) → Outcome GoalRef
  tombstone_of ref (ok v, s) = (ok ref, s)
  tombstone_of ref (err e, s) = (err e, s)

  unfoldable pub clear_at : Hub → GoalRef → Option ℕ → ℕ → Outcome GoalRef
  clear_at s ref none now = (err lacks_timestamps, s)
  clear_at s ref (some updated_at) now =
      tombstone_of ref (commit s (clear_change ref (max now updated_at)) disarmed)

  unfoldable pub clear : Hub → GoalRef → ℕ → Outcome GoalRef
  clear s ref now = with_current s ref λ current t.
      clear_at t (record { id = current.id; revision = current.revision + 1 })
        t.cache.state.updated_at now
