-- ===== src/Goal/Changes.antt =====
-- The changes that the goal service proposes (index.ts) under the rules of the fold (fold.ts).
use mathlib.Core.Logic.{◌≢◌}
use agent_runtime_notes.Base.{
  ℕ, ◌≤◌, ◌+◌, ◌≡◌, refl, max, String, Bool, true, false, List, ◌∷◌, Option, none, some, arith,
  max_safe_integer, ok, err, str_eq_refl, has,
}
use agent_runtime_notes.Goal.{
  active, GoalRef, GoalSnapshot, SnapshotChange, GoalOperation, to_create, snapshot_change,
  clear_change, GoalEvent,
}
use agent_runtime_notes.Goal.Fold.{
  GoalFoldState, admit_change, apply_goal_change, apply_clear, snapshot_ref, is_absent_or_complete,
  validate_snapshot_transition, validate_operation, require_next_revision, require_updated_at,
}
use agent_runtime_notes.Goal.Soundness.{
  IsSoundGoal, IsSoundChange, decode-encode, decode-encode_clear,
}
use agent_runtime_notes.Goal.Standing.{IsStanding}
use agent_runtime_notes.Goal.Service.{
  GoalActivation, armed, disarmed, Hub, GoalView, Outcome, commit_at, commit_current, clear_at,
  create_goal, tombstone_of,
}
use agent_runtime_notes.Goal.Commits.{
  IsUpToDate, IsKept, commit-IsKept, commit_snapshot-IsKept, IsUpToDate-IsSoundState,
}

-- A snapshot change as the service makes it from the current state.
abbrev pub next_change : GoalFoldState → GoalOperation → GoalSnapshot → ℕ → ℕ → SnapshotChange
next_change state op goal created updated = record {
  operation = op;
  goal = goal;
  rounds_started = state.rounds_started;
  created_at = created;
  updated_at = updated;
}

abbrev pub next_state : GoalFoldState → GoalSnapshot → ℕ → ℕ → GoalFoldState
next_state state goal created updated = record {
  goal = some goal;
  rounds_started = state.rounds_started;
  created_at = some created;
  updated_at = some updated;
  last_ref = some (snapshot_ref goal);
  seen_goal_ids = state.seen_goal_ids;
}

-- What an operation's new snapshot must be.
pub record IsNext (trim : String → String) (state : GoalFoldState) (op : GoalOperation)
    (current goal : GoalSnapshot) : Type 0 where
  pub sound : IsSoundGoal trim goal
  pub same_id : goal.id ≡ current.id
  pub next_revision : goal.revision ≡ current.revision + 1
  pub lawful : validate_operation state op current goal ≡ ok tt

abbrev pub created_goal : String → ℕ → String → GoalSnapshot
created_goal objective most new_id = record {
  id = new_id;
  revision = 1;
  objective = objective;
  phase = active;
  blocked_reason = none;
  max_goal_rounds = most;
}

module _ (trim : String → String) (state : GoalFoldState) (current goal : GoalSnapshot) (now : ℕ)
    (stands : IsStanding trim state current) where
  abbrev pub change_at : GoalOperation → SnapshotChange
  change_at op = next_change state op goal stands.created (max now stands.updated)

  validate-next :
      (op : GoalOperation)
      → IsNext trim state op current goal
      → validate_snapshot_transition state (change_at op) current ≡ ok tt
  unfolding validate_snapshot_transition require_next_revision require_updated_at
  validate-next op n =
      let i = n.same_id in
      let r = n.next_revision in
      let l = n.lawful in
      let c = stands.created_at in
      let u = stands.updated_at in let x = str_eq_refl current.id in ground arith

  admit_change-next :
      (op : GoalOperation)
      → op ≢ to_create
      → IsNext trim state op current goal
      → state.goal ≡ some current
      → admit_change state (change_at op) op ≡ ok state.seen_goal_ids
  unfolding admit_change
  admit_change-next to_create ne n e = absurd (ne refl)
  admit_change-next op ne n e = let v = validate-next op n in ground arith

  pub apply_goal_change-next :
      (op : GoalOperation)
      → op ≢ to_create
      → IsNext trim state op current goal
      → state.goal ≡ some current
      → apply_goal_change state (snapshot_change (change_at op))
        ≡ ok (next_state state goal stands.created (max now stands.updated))
  unfolding apply_goal_change
  apply_goal_change-next op ne n e = rw (admit_change-next op ne n e) refl

  pub change_at-IsSoundChange :
      (op : GoalOperation)
      → now ≤ max_safe_integer
      → IsSoundGoal trim goal
      → IsSoundChange trim (change_at op)
  change_at-IsSoundChange op le g = record {
    goal = g;
    ordered = let o = stands.ordered in omega arith;
    updated_safe = let o = stands.updated_safe in omega arith;
    rounds_safe = stands.rounds_safe;
  }

abbrev pub next_ref : GoalSnapshot → GoalRef
next_ref current = record { id = current.id; revision = current.revision + 1 }

abbrev pub cleared_state : GoalFoldState → GoalRef → GoalFoldState
cleared_state state ref = record {
  goal = none;
  rounds_started = 0;
  created_at = none;
  updated_at = none;
  last_ref = some ref;
  seen_goal_ids = state.seen_goal_ids;
}

abbrev pub first_change : String → ℕ → String → ℕ → SnapshotChange
first_change objective most new_id now = record {
  operation = to_create;
  goal = created_goal objective most new_id;
  rounds_started = 0;
  created_at = now;
  updated_at = now;
}

abbrev pub first_state : GoalFoldState → String → ℕ → String → ℕ → GoalFoldState
first_state state objective most new_id now = record {
  goal = some (created_goal objective most new_id);
  rounds_started = 0;
  created_at = some now;
  updated_at = some now;
  last_ref = some (record { id = new_id; revision = 1 });
  seen_goal_ids = new_id ∷ state.seen_goal_ids;
}

pub apply_goal_change-clear :
    (trim : String → String) (state : GoalFoldState) (current : GoalSnapshot) (now : ℕ)
    (k : IsStanding trim state current)
    → state.goal ≡ some current
    → apply_goal_change state (clear_change (next_ref current) (max now k.updated))
      ≡ ok (cleared_state state (next_ref current))
unfolding apply_goal_change apply_clear require_next_revision require_updated_at
apply_goal_change-clear trim state current now k e =
    let q = k.updated_at in let x = str_eq_refl current.id in ground arith

pub apply_goal_change-first :
    (state : GoalFoldState) (objective : String) (most : ℕ) (new_id : String) (now : ℕ)
    → is_absent_or_complete state.goal ≡ true
    → has state.seen_goal_ids new_id ≡ false
    → apply_goal_change state (snapshot_change (first_change objective most new_id now))
      ≡ ok (first_state state objective most new_id now)
unfolding apply_goal_change admit_change
apply_goal_change-first state objective most new_id now m fresh = rw (m, fresh) refl

module _ (trim : String → String) (admits : List GoalEvent → GoalEvent → Bool) (live : Bool)
    (s : Hub) (u : IsUpToDate trim s) (now : ℕ) (in_time : now ≤ max_safe_integer)
    (activation : GoalActivation) where
  commit_at-IsKept :
      (op : GoalOperation) (current goal : GoalSnapshot) (k : IsStanding trim s.cache.state current)
      (created updated : Option ℕ)
      → op ≢ to_create
      → s.cache.state.goal ≡ some current
      → IsNext trim s.cache.state op current goal
      → created ≡ some k.created
      → updated ≡ some k.updated
      → IsKept trim s activation
          (commit_at trim admits live s op goal activation now created updated)
  unfolding commit_at
  commit_at-IsKept op current goal k created updated ne e n p q =
      rw (p, q)
        (commit_snapshot-IsKept trim admits live s u activation
          (change_at trim s.cache.state current goal now k op)
          (next_state s.cache.state goal k.created (max now k.updated))
          (decode-encode trim _
            (change_at-IsSoundChange trim s.cache.state current goal now k op in_time n.sound))
          (apply_goal_change-next trim s.cache.state current goal now k op ne n e) refl)

  -- An operation on the current goal that the fold's rules allow is kept.
  pub commit_current-IsKept :
      (op : GoalOperation) (current goal : GoalSnapshot)
      → op ≢ to_create
      → s.cache.state.goal ≡ some current
      → IsNext trim s.cache.state op current goal
      → IsKept trim s activation (commit_current trim admits live s op goal activation now)
  unfolding commit_current
  commit_current-IsKept op current goal ne e n =
      let k = IsUpToDate-IsSoundState trim s u current e in
      commit_at-IsKept op current goal k _ _ ne e n k.created_at k.updated_at

  -- A create is kept where no goal, or a complete one, is current and the identity is new.
  pub create_goal-IsKept :
      (objective : String) (most : ℕ) (new_id : String)
      → is_absent_or_complete s.cache.state.goal ≡ true
      → has s.cache.state.seen_goal_ids new_id ≡ false
      → IsSoundGoal trim (created_goal objective most new_id)
      → IsKept trim s armed (create_goal trim admits live s objective most new_id now)
  unfolding create_goal
  create_goal-IsKept objective most new_id m fresh g =
      commit_snapshot-IsKept trim admits live s u armed (first_change objective most new_id now)
        (first_state s.cache.state objective most new_id now)
        (decode-encode trim _ (record {
          goal = g;
          ordered = omega arith;
          updated_safe = in_time;
          rounds_safe = omega arith;
        }))
        (apply_goal_change-first s.cache.state objective most new_id now m fresh) refl

  tombstone_of-IsKept :
      (ref : GoalRef) (r : Outcome (Option GoalView))
      → IsKept trim s disarmed r
      → IsKept trim s disarmed (tombstone_of trim admits live ref r)
  tombstone_of-IsKept ref (ok v, t) k = record {
    up_to_date = k.up_to_date;
    orderly = refl;
    unchanged = λ h. absurd (ground arith);
    activated = λ h. k.activated h;
  }
  tombstone_of-IsKept ref (err e, t) k = record {
    up_to_date = k.up_to_date;
    orderly = k.orderly;
    unchanged = λ h. k.unchanged h;
    activated = λ h. absurd (ground arith);
  }

  clear_some-IsKept :
      (current : GoalSnapshot) (k : IsStanding trim s.cache.state current) (updated : Option ℕ)
      → s.cache.state.goal ≡ some current
      → current.revision + 1 ≤ max_safe_integer
      → updated ≡ some k.updated
      → IsKept trim s disarmed (clear_at trim admits live s (next_ref current) updated now)
  unfolding clear_at
  clear_some-IsKept current k updated e le q = rw q (
      tombstone_of-IsKept (next_ref current) _ (
        commit-IsKept trim admits live s u disarmed
          (clear_change (next_ref current) (max now k.updated))
          (cleared_state s.cache.state (next_ref current))
          (decode-encode_clear trim (next_ref current) (max now k.updated) k.sound.named
            (omega arith) le (let o = k.updated_safe in omega arith))
          (apply_goal_change-clear trim s.cache.state current now k e)))

  -- So is a clear of the current goal.
  pub clear_at-IsKept :
      (current : GoalSnapshot)
      → s.cache.state.goal ≡ some current
      → current.revision + 1 ≤ max_safe_integer
      → IsKept trim s disarmed
          (clear_at trim admits live s (next_ref current) s.cache.state.updated_at now)
  clear_at-IsKept current e le =
      let k = IsUpToDate-IsSoundState trim s u current e in
      clear_some-IsKept current k s.cache.state.updated_at e le k.updated_at
