-- ===== src/Goal/Projection.antt =====
-- The projection of the goal that clients read: `applyGoalProjection` of goal/goal/src/index.ts
-- below 04-code-samples/packages, against the strict fold.
use mathlib.Core.Path.{subst}
use agent_runtime_notes.Base.{
  ℕ, ◌≤◌, ◌≡◌, refl, sym, String, List, [], ◌∷◌, Option, none, some, arith, ok, err, Result-cases,
  ok-injective, Option-cases, inl, inr,
}
use agent_runtime_notes.Goal.{
  GoalSnapshot, GoalChange, snapshot_change, clear_change, RawChange, MessageSource, goal_source,
  other_source, GoalEvent, goal_change, user_message, other_event,
}
use agent_runtime_notes.Goal.Decode.{decode_goal_change}
use agent_runtime_notes.Goal.Fold.{
  GoalFoldState, empty_goal_fold_state, admit_change, apply_clear, apply_goal_change, apply_source,
  apply_round, apply_goal_event, fold_from, fold_goal, positive_index,
}

pub record GoalProjection : Type 0 where
  pub goal : GoalSnapshot
  pub rounds_started : ℕ
  pub created_at : ℕ
  pub updated_at : ℕ

unfoldable pub projected : GoalChange → Option GoalProjection
projected (clear_change ref cleared_at) = none
projected (snapshot_change c) = some (record {
  goal = c.goal;
  rounds_started = c.rounds_started;
  created_at = c.created_at;
  updated_at = c.updated_at;
})

module _ (trim : String → String) where
  -- What does not decode leaves the projection as it is.
  unfoldable pub apply_goal_projection : Option GoalProjection → GoalEvent → Option GoalProjection
  apply_goal_projection state other_event = state
  apply_goal_projection state (user_message source) = state
  apply_goal_projection state (goal_change raw) = elim (decode_goal_change trim raw) [
    | err e ↦ state
    | ok none ↦ state
    | ok (some change) ↦ projected change
  ]

  unfoldable pub project_from : Option GoalProjection → List GoalEvent → Option GoalProjection
  project_from state [] = state
  project_from state (event ∷ events) = project_from (apply_goal_projection state event) events

-- The projection shows the fold's goal and times, and a round counter that may lag behind.
abbrev pub Shows : GoalFoldState → Option GoalProjection → Type 0
Shows t none = t.goal ≡ none
Shows t (some p) =
    (t.goal ≡ some p.goal)
    × (t.created_at ≡ some p.created_at)
    × (t.updated_at ≡ some p.updated_at)
    × (p.rounds_started ≤ t.rounds_started)

projected-Shows :
    (s t : GoalFoldState) (change : GoalChange)
    → apply_goal_change s change ≡ ok t
    → Shows t (projected change)
unfolding apply_goal_change apply_clear projected
projected-Shows s t (clear_change ref at) h = ground arith
projected-Shows s t (snapshot_change c) h = elim (Result-cases (admit_change s c c.operation)) [
  | inl (ids, a) ↦ ground arith
  | inr (x, a) ↦ absurd (ground arith)
]

apply_round-Shows :
    (s t : GoalFoldState) (id : String) (revision round : ℕ) (p : Option GoalProjection)
    → apply_round s id revision round ≡ ok t
    → Shows s p
    → Shows t p
unfolding apply_round
apply_round-Shows s t id revision round none h k = ground arith
apply_round-Shows s t id revision round (some p) h k = ground arith

apply_source-Shows :
    (s t : GoalFoldState) (source : MessageSource) (p : Option GoalProjection)
    → apply_source s source ≡ ok t
    → Shows s p
    → Shows t p
unfolding apply_source
apply_source-Shows s t other_source p h k = rw (ok-injective _ _ h) at k
apply_source-Shows s t (goal_source id revision round) p h k =
    elim (Option-cases (positive_index revision)) [
      | inl n ↦ absurd (ground arith)
      | inr (r, n) ↦ elim (Option-cases (positive_index round)) [
        | inl m ↦ absurd (ground arith)
        | inr (i, m) ↦ apply_round-Shows s t id r i p (ground arith) k
      ]
    ]

module _ (trim : String → String) where
  apply_goal_projection-decoded :
      (p : Option GoalProjection) (raw : RawChange) (change : GoalChange)
      → decode_goal_change trim raw ≡ ok (some change)
      → apply_goal_projection trim p (goal_change raw) ≡ projected change
  unfolding apply_goal_projection projected
  apply_goal_projection-decoded p raw change d = rw (d, apply_goal_projection) refl

  apply_goal_projection-Shows :
      (s t : GoalFoldState) (p : Option GoalProjection) (event : GoalEvent)
      → apply_goal_event trim s event ≡ ok t
      → Shows s p
      → Shows t (apply_goal_projection trim p event)
  unfolding apply_goal_event apply_goal_projection
  apply_goal_projection-Shows s t p other_event h k = rw (ok-injective _ _ h) at k
  apply_goal_projection-Shows s t p (user_message source) h k = apply_source-Shows s t source p h k
  apply_goal_projection-Shows s t p (goal_change raw) h k =
      elim (Result-cases (decode_goal_change trim raw)) [
        | inr (x, e) ↦ absurd (ground arith)
        | inl (found, e) ↦ elim (Option-cases found) [
          | inl n ↦ absurd (ground arith)
          | inr (change, n) ↦
              let d : decode_goal_change trim raw ≡ ok (some change) = rw n at e in
              subst (Shows t) (sym (apply_goal_projection-decoded p raw change d))
                (projected-Shows s t change (ground arith))
        ]
      ]

  project_from-Shows :
      (s t : GoalFoldState) (p : Option GoalProjection) (events : List GoalEvent)
      → fold_from trim s events ≡ ok t
      → Shows s p
      → Shows t (project_from trim p events)
  unfolding fold_from project_from
  project_from-Shows s t p [] h k = rw (ok-injective _ _ h) at k
  project_from-Shows s t p (event ∷ events) h k =
      elim (Result-cases (apply_goal_event trim s event)) [
        | inr (x, e) ↦ absurd (ground arith)
        | inl (u, e) ↦
            project_from-Shows u t (apply_goal_projection trim p event) events
              (rw (e, fold_from) at h) (apply_goal_projection-Shows s u p event e k)
      ]

  -- For a log that the strict fold accepts, the projection that clients read shows a goal exactly
  -- if the fold has one, the same goal with the same creation and update times, and a round
  -- counter of at most the fold's.
  pub fold_goal-Shows :
      (log : List GoalEvent) (t : GoalFoldState)
      → fold_goal trim log ≡ ok t
      → Shows t (project_from trim none log)
  unfolding fold_goal
  fold_goal-Shows log t h = project_from-Shows empty_goal_fold_state t none log h refl
