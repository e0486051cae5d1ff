-- ===== src/Goal/References.antt =====
-- The references of the changes in a log that the strict fold (fold.ts) takes.
use agent_runtime_notes.Goal.Renewals.{
  same_ref, IsLater, IsRenewal, HasSeen, apply_goal_change-IsRenewal, apply_source-same,
  same-IsLater,
}
use agent_runtime_notes.Base.{
  Bool-cases, List, String, [], ap, arith, eq_iff, if◌then◌else◌, inl, inr, some, sym, ℕ, ◌+◌, ◌<◌,
  ◌∙◌, ◌∷◌, ◌≡◌, Option, Option-cases, Result, Result-cases, ok, ◌++◌, ◌≤◌, ltb, ok-injective,
}
use agent_runtime_notes.Goal.Fold.{
  GoalFoldState, apply_goal_change, goal_change_ref, apply_goal_event, empty_goal_fold_state,
  fold_from, fold_goal,
}
use agent_runtime_notes.Goal.{
  GoalRef, GoalChange, GoalEvent, goal_change, other_event, user_message,
}
use agent_runtime_notes.Goal.Decode.{FoldError, decode_goal_change}
use agent_runtime_notes.Goal.Standing.{IsSoundState, apply_goal_event-IsSoundState}
use mathlib.Core.Path.{subst}

abbrev pub times : GoalRef → List GoalRef → ℕ
times ref [] = 0
times ref (r ∷ refs) = (if same_ref r ref then 1 else 0) + times ref refs

module _ (trim : String → String) where
  -- The references of the changes in a log.
  abbrev pub decoded_ref : Result FoldError (Option GoalChange) → List GoalRef
  decoded_ref (ok (some change)) = goal_change_ref change ∷ []
  decoded_ref _ = []

  abbrev pub event_refs : GoalEvent → List GoalRef
  event_refs (goal_change raw) = decoded_ref (decode_goal_change trim raw)
  event_refs (user_message source) = []
  event_refs other_event = []

  abbrev pub change_refs : List GoalEvent → List GoalRef
  change_refs [] = []
  change_refs (event ∷ events) = event_refs event ++ change_refs events

  -- What follows brings each reference at most once, and only later ones.
  abbrev IsFreshly : GoalFoldState → List GoalRef → Type 0
  IsFreshly s refs = (r : GoalRef) → (times r refs ≤ 1) × (0 < times r refs → IsLater s r)

  renewed-IsFreshly :
      (s t : GoalFoldState) (ref : GoalRef) (refs : List GoalRef)
      → IsRenewal s t ref
      → IsFreshly t refs
      → IsFreshly s (ref ∷ refs)
  renewed-IsFreshly s t ref refs n f r =
      let (once, later) = f r in
      elim (Bool-cases (same_ref ref r)) [
        | inr e ↦
            let same : times r (ref ∷ refs) ≡ times r refs = ground (arith, e) in
            (omega (arith, same, once), λ p. n.before r (later (omega (arith, same, p))))
        | inl e ↦
            let same : ref ≡ r = ground (arith, e, eq_iff ref.id r.id) in
            let absent : times r refs ≡ 0 = elim (Bool-cases (ltb 0 (times r refs))) [
              | inr none_left ↦ ground (arith, none_left)
              | inl again ↦
                  let clash = n.other r (later (ground (arith, again))) in
                  absurd (ground (arith, e, clash))
            ] in
            (ground (arith, absent, e), λ p. subst (IsLater s) same n.later)
      ]

  same-IsFreshly :
      (s t : GoalFoldState) (refs : List GoalRef)
      → t.goal ≡ s.goal
      → t.seen_goal_ids ≡ s.seen_goal_ids
      → IsFreshly t refs
      → IsFreshly s refs
  same-IsFreshly s t refs goal ids f r =
      let (once, later) = f r in (once, λ p. same-IsLater s t r goal ids (later p))

  event-IsFreshly :
      (s t : GoalFoldState) (event : GoalEvent) (refs : List GoalRef)
      → HasSeen s
      → apply_goal_event trim s event ≡ ok t
      → IsFreshly t refs
      → IsFreshly s (event_refs event ++ refs)
  unfolding apply_goal_event
  event-IsFreshly s t other_event refs seen h f =
      let same = ok-injective s t h in
      same-IsFreshly s t refs (ap (λ c. c.goal) (sym same)) (ap (λ c. c.seen_goal_ids) (sym same)) f
  event-IsFreshly s t (user_message source) refs seen h f =
      let (goal, ids) = apply_source-same s t source h in same-IsFreshly s t refs goal ids f
  event-IsFreshly s t (goal_change raw) refs seen h f =
      elim (Result-cases (decode_goal_change trim raw)) [
        | inr (x, e) ↦ absurd (ground arith)
        | inl (found, e) ↦ elim (Option-cases found) [
          | inl n ↦ absurd (ground arith)
          | inr (change, n) ↦
              let decoded : decode_goal_change trim raw ≡ ok (some change) = e ∙ ap (λ c. ok c) n in
              let applied : apply_goal_change s change ≡ ok t = ground (arith, decoded) in
              subst (λ d. IsFreshly s (decoded_ref d ++ refs)) (sym decoded)
                (renewed-IsFreshly s t (goal_change_ref change) refs
                  (apply_goal_change-IsRenewal s t change seen applied) f)
        ]
      ]

  fold_from-IsFreshly :
      (s t : GoalFoldState) (events : List GoalEvent)
      → IsSoundState trim s
      → fold_from trim s events ≡ ok t
      → IsFreshly s (change_refs events)
  unfolding fold_from
  fold_from-IsFreshly s t [] sound h = λ r. (omega arith, λ p. absurd (omega (arith, p)))
  fold_from-IsFreshly s t (event ∷ events) sound h =
      elim (Result-cases (apply_goal_event trim s event)) [
        | inr (x, e) ↦ absurd (ground arith)
        | inl (u, e) ↦
            event-IsFreshly s u event (change_refs events) (λ g q. (sound g q).seen) e
              (fold_from-IsFreshly u t events (apply_goal_event-IsSoundState trim s u event e sound)
                (rw (e, fold_from) at h))
      ]

  -- In a log that the strict fold accepts, no two changes have the same reference of identity and
  -- revision.
  pub fold_goal-references :
      (log : List GoalEvent) (t : GoalFoldState) (ref : GoalRef)
      → fold_goal trim log ≡ ok t
      → times ref (change_refs log) ≤ 1
  unfolding fold_goal
  fold_goal-references log t ref h =
      (fold_from-IsFreshly empty_goal_fold_state t log (λ g e. absurd (ground arith)) h ref).0
