-- ===== src/Goal/Operations.antt =====
-- The methods of the goal service (index.ts) one by one: cache and log after each.
use mathlib.Core.Logic.{◌≢◌, ◌⊎◌}
use agent_runtime_notes.Base.{
  ℕ, ◌≤◌, ◌<◌, ◌≡◌, refl, String, Bool, true, false, List, [], ◌∷◌, Option, none, some, arith,
  max_safe_integer, JsNumber, Result, ok, err, Bool-cases, inl, inr, str_eq, has, not, ◌&&◌, ltb,
}
use agent_runtime_notes.Goal.{
  GoalPhase, active, paused, blocked, complete, is_phase, GoalRef, GoalBlockReason, GoalSnapshot,
  GoalOperation, to_create, to_edit, to_pause, to_resume, to_complete, to_block, GoalEvent,
}
use agent_runtime_notes.Goal.Decode.{is_trimmed}
use agent_runtime_notes.Goal.Fold.{validate_operation, is_absent_or_complete}
use agent_runtime_notes.Goal.Standing.{IsStanding}
use agent_runtime_notes.Goal.Service.{
  GoalActivation, armed, disarmed, GoalError, Hub, Outcome, agent_not_live, check, resolving,
  with_current, expect_current, prepare_mutation, with_phase, includes, resolve_objective,
  resolve_max_goal_rounds, resolve_block_reason, invalid_transition, transition, pause,
  complete_goal, resume, block, clear, edit, create, commit_current, CreateGoalRequest,
  EditGoalRequest, is_armed, is_absent, may_replace, invalid_edit, already_exists, edited_objective,
  edited_rounds,
}
use agent_runtime_notes.Goal.Commits.{
  is_orderly, IsUpToDate, IsKept, err-IsKept, sync_self, IsUpToDate-IsSoundState,
}
use agent_runtime_notes.Goal.Requests.{
  resolve_objective-ok, edited_objective-ok, resolve_block_reason-ok, resolve_max_goal_rounds-ok,
  edited_rounds-ok, resolve_block_reason-orderly, resolve_objective-orderly,
  edited_objective-orderly, resolve_max_goal_rounds-orderly, edited_rounds-orderly,
  phase_change-IsNext, validate-pause, validate-complete, validate-resume, blocked_with,
  block-IsNext, edited_goal, edit-IsNext, created_goal-IsSoundGoal,
}
use agent_runtime_notes.Goal.Changes.{commit_current-IsKept, create_goal-IsKept, clear_at-IsKept}

abbrev pub requested : JsNumber → CreateGoalRequest → JsNumber
requested default_rounds request = elim request.max_goal_rounds [
  | none ↦ default_rounds
  | some n ↦ n
]

module _ (trim : String → String) (admits : List GoalEvent → GoalEvent → Bool) (live : Bool)
    (s : Hub) (u : IsUpToDate trim s) where
  may_replace_lem :
      (g : Option GoalSnapshot)
      → may_replace trim admits live g ≡ true
      → is_absent_or_complete g ≡ true
  may_replace_lem none h = refl
  may_replace_lem (some g) h = h

  pub prepare_mutation_cases :
      (prepare_mutation trim admits live s ≡ (ok tt, s))
      ⊎ (prepare_mutation trim admits live s ≡ (err agent_not_live, s))
  unfolding prepare_mutation
  prepare_mutation_cases = elim (Bool-cases live) [
    | inl e ↦ inl (rw e (sync_self trim admits live s u))
    | inr e ↦ inr (rw e refl)
  ]

  expect_current-orderly :
      (ref : GoalRef) (e : GoalError) → expect_current s ref ≡ err e → is_orderly e ≡ true
  unfolding expect_current
  expect_current-orderly ref e q = ground arith

  expect_current-ok :
      (ref : GoalRef) (current : GoalSnapshot)
      → expect_current s ref ≡ ok current
      → (s.cache.state.goal ≡ some current) × (ref.revision ≡ current.revision)
  unfolding expect_current
  expect_current-ok ref current q = ground arith

  module _ {A : Type 0} (activation : GoalActivation) where
    check-IsKept :
        (b : Bool) (e : GoalError) (f : Hub → Outcome A)
        → is_orderly e ≡ true
        → (b ≡ true → IsKept trim s activation (f s))
        → IsKept trim s activation (check b e s f)
    check-IsKept true e f o k = k refl
    check-IsKept false e f o k = err-IsKept trim admits live s activation e o u

    resolving-IsKept :
        {B : Type 0} (r : Result GoalError B) (f : B → Outcome A)
        → ((e : GoalError) → r ≡ err e → is_orderly e ≡ true)
        → ((b : B) → r ≡ ok b → IsKept trim s activation (f b))
        → IsKept trim s activation (resolving trim admits live r s f)
    resolving-IsKept (ok b) f o k = k b refl
    resolving-IsKept (err e) f o k = err-IsKept trim admits live s activation e (o e refl) u

    with_current-IsKept :
        (ref : GoalRef) (f : GoalSnapshot → Hub → Outcome A)
        → ((current : GoalSnapshot)
            → s.cache.state.goal ≡ some current
            → ref.revision ≡ current.revision
            → IsKept trim s activation (f current s))
        → IsKept trim s activation (with_current trim admits live s ref f)
    with_current-IsKept ref f k = elim prepare_mutation_cases [
      | inr dead ↦ rw dead (err-IsKept trim admits live s activation agent_not_live refl u)
      | inl ready ↦ rw ready (
          resolving-IsKept (expect_current s ref) (λ current. f current s)
            (λ e q. expect_current-orderly ref e q)
            (λ current q.
              k current (expect_current-ok ref current q).0 (expect_current-ok ref current q).1))
    ]

  module _ (now : ℕ) (in_time : now ≤ max_safe_integer)
      (room : (g : GoalSnapshot)
        → s.cache.state.goal ≡ some g
        → g.revision < max_safe_integer) where
    stands : (g : GoalSnapshot) → s.cache.state.goal ≡ some g → IsStanding trim s.cache.state g
    stands g e = IsUpToDate-IsSoundState trim s u g e

    -- A change of phase that the caller's guard and the fold's rules allow.
    to_phase-IsKept :
        (op : GoalOperation) (current : GoalSnapshot) (phase : GoalPhase)
        (activation : GoalActivation)
        → op ≢ to_create
        → s.cache.state.goal ≡ some current
        → is_phase phase blocked ≡ false
        → validate_operation s.cache.state op current (with_phase current phase) ≡ ok tt
        → IsKept trim s activation
            (commit_current trim admits live s op (with_phase current phase) activation now)
    to_phase-IsKept op current phase activation ne e p l =
        commit_current-IsKept trim admits live s u now in_time activation op current
          (with_phase current phase) ne e
          (phase_change-IsNext trim s.cache.state op current phase (stands current e).sound
            (room current e) p l)

    pub pause-IsKept : (ref : GoalRef) → IsKept trim s disarmed (pause trim admits live s ref now)
    unfolding pause transition
    pause-IsKept ref = with_current-IsKept disarmed ref _ λ current e r.
        check-IsKept disarmed (includes (active ∷ []) current.phase) invalid_transition _ refl λ a.
          to_phase-IsKept to_pause current paused disarmed (λ q. cc) e refl
            (validate-pause s.cache.state current a)

    pub complete-IsKept :
        (ref : GoalRef) → IsKept trim s disarmed (complete_goal trim admits live s ref now)
    unfolding complete_goal transition
    complete-IsKept ref = with_current-IsKept disarmed ref _ λ current e r.
        check-IsKept disarmed (includes (active ∷ paused ∷ blocked ∷ []) current.phase)
          invalid_transition _ refl
          λ a.
            to_phase-IsKept to_complete current complete disarmed (λ q. cc) e refl
              (validate-complete s.cache.state current a)

    pub resume-IsKept : (ref : GoalRef) → IsKept trim s armed (resume trim admits live s ref now)
    unfolding resume
    resume-IsKept ref = with_current-IsKept armed ref _ λ current e r.
        check-IsKept armed (includes (active ∷ paused ∷ blocked ∷ []) current.phase)
          invalid_transition _ refl
          λ a.
            check-IsKept armed
              (not (is_phase current.phase active && is_armed trim admits live s.cache.activation))
              invalid_transition _ refl
              λ b.
                check-IsKept armed (ltb s.cache.state.rounds_started current.max_goal_rounds)
                  invalid_transition _ refl
                  λ c.
                    to_phase-IsKept to_resume current active armed (λ q. cc) e refl
                      (validate-resume s.cache.state current a c)

    pub clear-IsKept : (ref : GoalRef) → IsKept trim s disarmed (clear trim admits live s ref now)
    unfolding clear
    clear-IsKept ref = with_current-IsKept disarmed ref _ λ current e r.
        clear_at-IsKept trim admits live s u now in_time disarmed current e
          (let l = room current e in omega arith)

    edited-IsKept :
        (current : GoalSnapshot) (objective : String) (most : ℕ)
        → s.cache.state.goal ≡ some current
        → is_trimmed trim objective ≡ true
        → (1 ≤ most) × (most ≤ max_safe_integer)
        → IsKept trim s s.cache.activation (
            commit_current trim admits live s to_edit
              (edited_goal s.cache.state current objective most)
              s.cache.activation
              now)
    edited-IsKept current objective most e t m =
        commit_current-IsKept trim admits live s u now in_time s.cache.activation to_edit current
          (edited_goal s.cache.state current objective most) (λ d. cc) e
          (edit-IsNext s.cache.state current trim objective most (stands current e).sound
            (room current e) t m)

    module _ (trim_idem : (x : String) → trim (trim x) ≡ trim x) where
      pub block-IsKept :
          (ref : GoalRef) (reason : GoalBlockReason)
          → IsKept trim s disarmed (block trim admits live s ref reason now)
      unfolding block
      block-IsKept ref reason = with_current-IsKept disarmed ref _ λ current e r.
          check-IsKept disarmed (is_phase current.phase active) invalid_transition _ refl λ a.
            resolving-IsKept disarmed (resolve_block_reason trim reason) _
              (λ x q. resolve_block_reason-orderly trim reason x q)
              λ q h.
                commit_current-IsKept trim admits live s u now in_time disarmed to_block current
                  (blocked_with s.cache.state current q) (λ d. cc) e
                  (block-IsNext s.cache.state current trim q (stands current e).sound
                    (room current e) a (resolve_block_reason-ok trim trim_idem reason q h))

      pub edit-IsKept :
          (ref : GoalRef) (request : EditGoalRequest)
          → IsKept trim s s.cache.activation (edit trim admits live s ref request now)
      unfolding edit
      edit-IsKept ref request = with_current-IsKept s.cache.activation ref _ λ current e r.
          check-IsKept s.cache.activation
            (not (is_absent request.objective && is_absent request.max_goal_rounds)) invalid_edit _
            refl
            λ a.
              resolving-IsKept s.cache.activation (edited_objective trim current request.objective)
                _ (λ x q. edited_objective-orderly trim current request.objective x q)
                λ objective h.
                  resolving-IsKept s.cache.activation
                    (edited_rounds current request.max_goal_rounds) _
                    (λ x q. edited_rounds-orderly current request.max_goal_rounds x q)
                    λ most m.
                      edited-IsKept current objective most e
                        (edited_objective-ok trim trim_idem current request.objective objective
                          (stands current e).sound h)
                        (edited_rounds-ok trim current request.max_goal_rounds most
                          (stands current e).sound m)

      pub create-IsKept :
          (default_rounds : JsNumber) (request : CreateGoalRequest) (new_id : String)
          → str_eq new_id "" ≡ false
          → has s.cache.state.seen_goal_ids new_id ≡ false
          → IsKept trim s armed (create trim admits live default_rounds s request new_id now)
      unfolding create
      create-IsKept default_rounds request new_id named fresh =
          resolving-IsKept armed (resolve_objective trim request.objective) _
            (λ x q. resolve_objective-orderly trim request.objective x q)
            λ objective h.
              resolving-IsKept armed (resolve_max_goal_rounds (requested default_rounds request)) _
                (λ x q. resolve_max_goal_rounds-orderly (requested default_rounds request) x q)
                λ most m. elim prepare_mutation_cases [
                  | inr dead ↦ rw dead (err-IsKept trim admits live s armed agent_not_live refl u)
                  | inl ready ↦ rw ready (
                      check-IsKept armed (may_replace trim admits live s.cache.state.goal)
                        already_exists _ refl
                        λ a.
                          create_goal-IsKept trim admits live s u now in_time armed objective most
                            new_id (may_replace_lem s.cache.state.goal a) fresh
                            (created_goal-IsSoundGoal trim objective most new_id
                              (resolve_objective-ok trim trim_idem request.objective objective h)
                              (resolve_max_goal_rounds-ok (requested default_rounds request) most m)
                              named))
                ]
