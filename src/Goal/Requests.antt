-- ===== src/Goal/Requests.antt =====
-- What the goal service makes of a request's values: goal/goal/src/index.ts.
use agent_runtime_notes.Base.{
  ℕ, ◌≤◌, ◌<◌, ◌+◌, ◌≡◌, refl, String, true, false, [], ◌∷◌, Option, none, some, arith,
  max_safe_integer, JsNumber, ok, err, Bool-cases, inl, inr, str_eq, str_eq_refl, ltb, sym,
}
use agent_runtime_notes.Goal.{
  GoalPhase, active, paused, blocked, complete, is_phase, GoalBlockReason, GoalSnapshot,
  GoalOperation, to_edit, to_pause, to_resume, to_complete, to_block,
}
use agent_runtime_notes.Goal.Decode.{is_trimmed, is_kebab, decode_reason, decode_block_reason}
use agent_runtime_notes.Goal.Fold.{
  GoalFoldState, validate_operation, require_same_definition, same_reason,
}
use agent_runtime_notes.Goal.Soundness.{
  IsSoundGoal, IsNormal-is_trimmed, decode_reason-IsSoundReason, is_trimmed-IsNormal,
}
use agent_runtime_notes.Goal.Service.{
  GoalError, with_phase, includes, resolve_objective, resolve_max_goal_rounds, resolve_block_reason,
  edited_objective, edited_rounds,
}
use agent_runtime_notes.Goal.Commits.{is_orderly}
use agent_runtime_notes.Goal.Changes.{IsNext, created_goal}

module _ (trim : String → String) (trim_idem : (x : String) → trim (trim x) ≡ trim x) where
  -- A normalized text is one.
  trim-is_trimmed : (x : String) → str_eq (trim x) "" ≡ false → is_trimmed trim (trim x) ≡ true
  trim-is_trimmed x h = rw (trim_idem x, str_eq_refl (trim x), h) refl

  pub resolve_objective-ok :
      (x y : String) → resolve_objective trim x ≡ ok y → is_trimmed trim y ≡ true
  unfolding resolve_objective
  resolve_objective-ok x y h = elim (Bool-cases (str_eq (trim x) "")) [
    | inl e ↦ absurd (ground arith)
    | inr e ↦ let q : trim x ≡ y = ground arith in rw (← q) (trim-is_trimmed x e)
  ]

  pub edited_objective-ok :
      (current : GoalSnapshot) (x : Option String) (y : String)
      → IsSoundGoal trim current
      → edited_objective trim current x ≡ ok y
      → is_trimmed trim y ≡ true
  unfolding edited_objective
  edited_objective-ok current none y g h =
      let q : current.objective ≡ y = ground arith in
      rw (← q) (IsNormal-is_trimmed trim current.objective g.normal)
  edited_objective-ok current (some x) y g h = resolve_objective-ok x y h

  pub resolve_block_reason-ok :
      (r q : GoalBlockReason)
      → resolve_block_reason trim r ≡ ok q
      → decode_reason trim (some q) ≡ ok (some q)
  unfolding resolve_block_reason decode_reason decode_block_reason
  resolve_block_reason-ok r q h = elim (Bool-cases (is_kebab r.code)) [
    | inr e ↦ absurd (ground arith)
    | inl e ↦ elim (Bool-cases (str_eq (trim r.message) "")) [
      | inl n ↦ absurd (ground arith)
      | inr n ↦
          let p : record { code = r.code; message = trim r.message } ≡ q = ground arith in
          rw (← p) (rw (e, trim-is_trimmed r.message n) refl)
    ]
  ]

pub resolve_max_goal_rounds-ok :
    (x : JsNumber) (n : ℕ) → resolve_max_goal_rounds x ≡ ok n → (1 ≤ n) × (n ≤ max_safe_integer)
unfolding resolve_max_goal_rounds
resolve_max_goal_rounds-ok x n h = ground arith

pub edited_rounds-ok :
    (trim : String → String) (current : GoalSnapshot) (x : Option JsNumber) (n : ℕ)
    → IsSoundGoal trim current
    → edited_rounds current x ≡ ok n
    → (1 ≤ n) × (n ≤ max_safe_integer)
unfolding edited_rounds
edited_rounds-ok trim current none n g h =
    let a = g.rounds_pos in let b = g.rounds_safe in ground arith
edited_rounds-ok trim current (some x) n g h = resolve_max_goal_rounds-ok x n h

-- A change of phase that is legal leads to a sound goal.
pub phase_change-IsNext :
    (trim : String → String) (state : GoalFoldState) (op : GoalOperation) (current : GoalSnapshot)
    (phase : GoalPhase)
    → IsSoundGoal trim current
    → current.revision < max_safe_integer
    → is_phase phase blocked ≡ false
    → validate_operation state op current (with_phase current phase) ≡ ok tt
    → IsNext trim state op current (with_phase current phase)
unfolding decode_reason
phase_change-IsNext trim state op current phase g lt p l = record {
  sound = record {
    named = g.named;
    normal = g.normal;
    fields = sym p;
    revision_pos = omega arith;
    revision_safe = omega (arith, lt);
    rounds_pos = g.rounds_pos;
    rounds_safe = g.rounds_safe;
    reason = tt;
  };
  same_id = refl;
  next_revision = refl;
  lawful = l;
}

module _ (state : GoalFoldState) (current : GoalSnapshot) where
  pub validate-pause :
      includes (active ∷ []) current.phase ≡ true
      → validate_operation state to_pause current (with_phase current paused) ≡ ok tt
  unfolding validate_operation require_same_definition includes
  validate-pause h = let x = str_eq_refl current.objective in ground arith

  pub validate-complete :
      includes (active ∷ paused ∷ blocked ∷ []) current.phase ≡ true
      → validate_operation state to_complete current (with_phase current complete) ≡ ok tt
  unfolding validate_operation require_same_definition includes
  validate-complete h = let x = str_eq_refl current.objective in ground arith

  pub validate-resume :
      includes (active ∷ paused ∷ blocked ∷ []) current.phase ≡ true
      → ltb state.rounds_started current.max_goal_rounds ≡ true
      → validate_operation state to_resume current (with_phase current active) ≡ ok tt
  unfolding validate_operation require_same_definition includes
  validate-resume h l = let x = str_eq_refl current.objective in ground arith

  abbrev pub blocked_with : GoalBlockReason → GoalSnapshot
  blocked_with r = record (with_phase current blocked) { blocked_reason = some r }

  -- A block with a resolved reason leads to a sound goal.
  pub block-IsNext :
      (trim : String → String) (r : GoalBlockReason)
      → IsSoundGoal trim current
      → current.revision < max_safe_integer
      → is_phase current.phase active ≡ true
      → decode_reason trim (some r) ≡ ok (some r)
      → IsNext trim state to_block current (blocked_with r)
  unfolding validate_operation require_same_definition
  block-IsNext trim r g lt p d = record {
    sound = record {
      named = g.named;
      normal = g.normal;
      fields = refl;
      revision_pos = omega arith;
      revision_safe = omega (arith, lt);
      rounds_pos = g.rounds_pos;
      rounds_safe = g.rounds_safe;
      reason = decode_reason-IsSoundReason trim (some r) (some r) d;
    };
    same_id = refl;
    next_revision = refl;
    lawful = let x = str_eq_refl current.objective in ground arith;
  }

  abbrev pub edited_goal : String → ℕ → GoalSnapshot
  edited_goal objective most = record current {
    revision = current.revision + 1;
    objective = objective;
    max_goal_rounds = most;
  }

  pub edit-IsNext :
      (trim : String → String) (objective : String) (most : ℕ)
      → IsSoundGoal trim current
      → current.revision < max_safe_integer
      → is_trimmed trim objective ≡ true
      → (1 ≤ most) × (most ≤ max_safe_integer)
      → IsNext trim state to_edit current (edited_goal objective most)
  unfolding validate_operation
  edit-IsNext trim objective most g lt t m = record {
    sound = record {
      named = g.named;
      normal = is_trimmed-IsNormal trim objective t;
      fields = g.fields;
      revision_pos = omega arith;
      revision_safe = omega (arith, lt);
      rounds_pos = m.0;
      rounds_safe = m.1;
      reason = g.reason;
    };
    same_id = refl;
    next_revision = refl;
    lawful = rw (is_phase_refl current.phase, same_reason_refl current.blocked_reason) refl;
  }
    where
      is_phase_refl : (p : GoalPhase) → is_phase p p ≡ true
      is_phase_refl active = refl
      is_phase_refl paused = refl
      is_phase_refl blocked = refl
      is_phase_refl complete = refl

      same_reason_refl : (r : Option GoalBlockReason) → same_reason r r ≡ true
      same_reason_refl none = refl
      same_reason_refl (some r) = rw (str_eq_refl r.code, str_eq_refl r.message) refl

pub created_goal-IsSoundGoal :
    (trim : String → String) (objective : String) (most : ℕ) (new_id : String)
    → is_trimmed trim objective ≡ true
    → (1 ≤ most) × (most ≤ max_safe_integer)
    → str_eq new_id "" ≡ false
    → IsSoundGoal trim (created_goal objective most new_id)
unfolding decode_reason
created_goal-IsSoundGoal trim objective most new_id t m n = record {
  named = n;
  normal = is_trimmed-IsNormal trim objective t;
  fields = refl;
  revision_pos = omega arith;
  revision_safe = omega arith;
  rounds_pos = m.0;
  rounds_safe = m.1;
  reason = tt;
}

-- What these refuse, they refuse with an error of the service's own.
pub resolve_max_goal_rounds-orderly :
    (x : JsNumber) (e : GoalError) → resolve_max_goal_rounds x ≡ err e → is_orderly e ≡ true
unfolding resolve_max_goal_rounds
resolve_max_goal_rounds-orderly x e h = ground arith

pub edited_rounds-orderly :
    (current : GoalSnapshot) (x : Option JsNumber) (e : GoalError)
    → edited_rounds current x ≡ err e
    → is_orderly e ≡ true
unfolding edited_rounds
edited_rounds-orderly current none e h = absurd (ground arith)
edited_rounds-orderly current (some x) e h = resolve_max_goal_rounds-orderly x e h

module _ (trim : String → String) where
  pub resolve_objective-orderly :
      (x : String) (e : GoalError) → resolve_objective trim x ≡ err e → is_orderly e ≡ true
  unfolding resolve_objective
  resolve_objective-orderly x e h = ground arith

  pub edited_objective-orderly :
      (current : GoalSnapshot) (x : Option String) (e : GoalError)
      → edited_objective trim current x ≡ err e
      → is_orderly e ≡ true
  unfolding edited_objective
  edited_objective-orderly current none e h = absurd (ground arith)
  edited_objective-orderly current (some x) e h = resolve_objective-orderly x e h

  pub resolve_block_reason-orderly :
      (r : GoalBlockReason) (e : GoalError)
      → resolve_block_reason trim r ≡ err e
      → is_orderly e ≡ true
  unfolding resolve_block_reason
  resolve_block_reason-orderly r e h = ground arith
