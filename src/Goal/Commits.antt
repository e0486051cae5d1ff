-- ===== src/Goal/Commits.antt =====
-- A commit of the goal service (index.ts) and the strict fold (fold.ts) over what it appends.
use agent_runtime_notes.Base.{
  ℕ, ◌+◌, ◌≡◌, refl, ap, ◌∙◌, String, Bool, true, false, List, [], ◌∷◌, ◌++◌, Option, none, some,
  arith, Result, ok, err, Result-cases, ok-injective, ◌==◌, Bool-cases, Option-cases, inl, inr,
  length, drop, length-append, drop-append, drop_all,
}
use agent_runtime_notes.Goal.{
  GoalSnapshot, SnapshotChange, GoalChange, snapshot_change, encode, GoalEvent, goal_change,
}
use agent_runtime_notes.Goal.Decode.{decode_goal_change}
use agent_runtime_notes.Goal.Fold.{
  GoalFoldState, empty_goal_fold_state, apply_goal_change, apply_goal_event, fold_from, fold_goal,
}
use agent_runtime_notes.Goal.Standing.{IsSoundState, fold_from-IsSoundState}
use agent_runtime_notes.Goal.Service.{
  GoalActivation, GoalError, replay, lacks_timestamps, cleared_unexpectedly, append_rejected,
  GoalCache, Hub, GoalView, Outcome, view, view_with, sync_from, sync, settled, settle, appended,
  commit, commit_snapshot,
}

-- Errors that a caller provokes or the session raises, as opposed to a broken cache or log.
abbrev pub is_orderly : GoalError → Bool
is_orderly (replay e) = false
is_orderly lacks_timestamps = false
is_orderly cleared_unexpectedly = false
is_orderly e = true

abbrev pub is_orderly_end : {A : Type 0} → Result GoalError A → Bool
is_orderly_end (ok a) = true
is_orderly_end (err e) = is_orderly e

abbrev pub is_thrown : {A : Type 0} → Result GoalError A → Bool
is_thrown (ok a) = false
is_thrown (err e) = true

-- The cache is the strict fold of the whole log.
pub record IsUpToDate (trim : String → String) (s : Hub) : Type 0 where
  pub folded : fold_goal trim s.log ≡ ok s.cache.state
  pub observed : s.cache.observed_seq ≡ length s.log
  pub idle : s.cache.pending_activation ≡ none

-- The hub after an accepted change.
abbrev pub accepted : Hub → GoalChange → GoalFoldState → GoalActivation → Hub
accepted s change t activation = record {
  log = s.log ++ goal_change (encode change) ∷ [];
  cache = record {
    state = t;
    activation = activation;
    observed_seq = s.cache.observed_seq + 1;
    pending_activation = none;
  };
}

==_refl : (n : ℕ) → (n == n) ≡ true
==_refl n = ground arith

abbrev pub view_at : GoalCache → GoalSnapshot → ℕ → ℕ → GoalView
view_at cache g created updated = record {
  goal = g;
  rounds_started = cache.state.rounds_started;
  created_at = created;
  updated_at = updated;
  activation = cache.activation;
}

module _ (trim : String → String) where
  pub fold_from-append :
      (s t : GoalFoldState) (xs ys : List GoalEvent)
      → fold_from trim s xs ≡ ok t
      → fold_from trim s (xs ++ ys) ≡ fold_from trim t ys
  unfolding fold_from
  fold_from-append s t [] ys h = ap (λ u. fold_from trim u ys) (ok-injective _ _ h)
  fold_from-append s t (x ∷ xs) ys h = elim (Result-cases (apply_goal_event trim s x)) [
    | inl (u, e) ↦ rw (e, fold_from) (fold_from-append u t xs ys (rw (e, fold_from) at h))
    | inr (y, e) ↦ cc (rw (e, fold_from) at h)
  ]

  pub IsUpToDate-IsSoundState : (s : Hub) → IsUpToDate trim s → IsSoundState trim s.cache.state
  unfolding fold_goal
  IsUpToDate-IsSoundState s u =
      fold_from-IsSoundState trim empty_goal_fold_state s.cache.state s.log u.folded (λ g e. cc)

  -- One change that decodes and applies brings the cache up to date again.
  module _ (admits : List GoalEvent → GoalEvent → Bool) (live : Bool) (s : Hub)
      (u : IsUpToDate trim s) where
    settled_self : settled s ≡ s
    settled_self = let i = u.idle in ground arith

    module _ (change : GoalChange) (t : GoalFoldState) (activation : GoalActivation)
        (decodes : decode_goal_change trim (encode change) ≡ ok (some change))
        (applies : apply_goal_change s.cache.state change ≡ ok t) where
      event_applies : apply_goal_event trim s.cache.state (goal_change (encode change)) ≡ ok t
      unfolding apply_goal_event
      event_applies = rw (decodes, apply_goal_event) applies

      accepted-IsUpToDate : IsUpToDate trim (accepted s change t activation)
      unfolding fold_goal fold_from
      accepted-IsUpToDate = record {
        folded =
            fold_from-append empty_goal_fold_state s.cache.state s.log _ u.folded
            ∙ rw (event_applies, fold_from) refl;
        observed =
            omega (arith, u.observed, length-append s.log (goal_change (encode change) ∷ []));
        idle = refl;
      }

      suffix :
          drop s.cache.observed_seq (s.log ++ goal_change (encode change) ∷ [])
          ≡ goal_change (encode change) ∷ []
      suffix = rw u.observed (drop-append s.log (goal_change (encode change) ∷ []))

      pub sync-appended :
          settle (sync trim (appended trim admits live s (goal_change (encode change)) activation))
          ≡ (ok tt, accepted s change t activation)
      unfolding sync sync_from
      sync-appended = rw (suffix, event_applies, sync_from, u.observed, ==_refl (length s.log)) refl

-- A step from `s`: the cache is up to date, a throw is orderly and leaves everything as it was,
-- and without a throw the activation is the given one.
pub record IsKept (trim : String → String) {A : Type 0} (s : Hub) (activation : GoalActivation)
    (r : Outcome A) : Type 0 where
  pub up_to_date : IsUpToDate trim r.1
  pub orderly : is_orderly_end r.0 ≡ true
  pub unchanged : is_thrown r.0 ≡ true → r.1 ≡ s
  pub activated : is_thrown r.0 ≡ false → r.1.cache.activation ≡ activation

module _ (trim : String → String) (admits : List GoalEvent → GoalEvent → Bool) (live : Bool) where
  sync_from_done : (s : Hub) → IsUpToDate trim s → drop s.cache.observed_seq s.log ≡ []
  sync_from_done s u = rw u.observed (drop_all s.log)

  pub sync_self : (s : Hub) → IsUpToDate trim s → sync trim s ≡ (ok tt, s)
  unfolding sync sync_from
  sync_self s u = rw (sync_from_done s u) refl

  pub err-IsKept :
      {A : Type 0} (s : Hub) (activation : GoalActivation) (e : GoalError)
      → is_orderly e ≡ true
      → IsUpToDate trim s
      → IsKept trim {A = A} s activation (err e, s)
  err-IsKept s activation e o u = record {
    up_to_date = u;
    orderly = o;
    unchanged = λ h. refl;
    activated = λ h. absurd (ground arith);
  }

  pub ok-IsKept :
      {A : Type 0} (s t : Hub) (a : A)
      → IsUpToDate trim t
      → IsKept trim s t.cache.activation (ok a, t)
  ok-IsKept s t a u = record {
    up_to_date = u;
    orderly = refl;
    unchanged = λ h. absurd (ground arith);
    activated = λ h. refl;
  }

  -- A cache that is up to date has a view.
  pub view_total : (s : Hub) → IsUpToDate trim s → (v : Option GoalView) × (view s.cache ≡ ok v)
  unfolding view view_with
  view_total s u = elim (Option-cases s.cache.state.goal) [
    | inl n ↦ (none, rw n refl)
    | inr (g, n) ↦
        let k = IsUpToDate-IsSoundState trim s u g n in
        (some (view_at s.cache g k.created k.updated), rw (n, k.created_at, k.updated_at) refl)
  ]

  pub view_current :
      (s : Hub) (g : GoalSnapshot)
      → IsUpToDate trim s
      → s.cache.state.goal ≡ some g
      → (v : GoalView) × (view s.cache ≡ ok (some v))
  unfolding view view_with
  view_current s g u n =
      let k = IsUpToDate-IsSoundState trim s u g n in
      (view_at s.cache g k.created k.updated, rw (n, k.created_at, k.updated_at) refl)

  module _ (s : Hub) (u : IsUpToDate trim s) (activation : GoalActivation) where
    -- A change that decodes and applies is appended and folded, or the session refuses it.
    pub commit-IsKept :
        (change : GoalChange) (t : GoalFoldState)
        → decode_goal_change trim (encode change) ≡ ok (some change)
        → apply_goal_change s.cache.state change ≡ ok t
        → IsKept trim s activation (commit trim admits live s change activation)
    unfolding commit view
    commit-IsKept change t d p = elim (Bool-cases (admits s.log (goal_change (encode change)))) [
      | inr refuses ↦
          rw (refuses, settled_self trim admits live s u)
            (err-IsKept s activation append_rejected refl u)
      | inl takes ↦
          let n = accepted-IsUpToDate trim admits live s u change t activation d p in
          let (v, e) = view_total (accepted s change t activation) n in
          rw (takes, sync-appended trim admits live s u change t activation d p, e)
            (ok-IsKept s _ v n)
    ]

    -- So is a change to a goal, with the view of it.
    pub commit_snapshot-IsKept :
        (c : SnapshotChange) (t : GoalFoldState)
        → decode_goal_change trim (encode (snapshot_change c)) ≡ ok (some (snapshot_change c))
        → apply_goal_change s.cache.state (snapshot_change c) ≡ ok t
        → t.goal ≡ some c.goal
        → IsKept trim s activation (commit_snapshot trim admits live s c activation)
    unfolding commit_snapshot commit view
    commit_snapshot-IsKept c t d p q =
        elim (Bool-cases (admits s.log (goal_change (encode (snapshot_change c))))) [
          | inr refuses ↦
              rw (refuses, settled_self trim admits live s u)
                (err-IsKept s activation append_rejected refl u)
          | inl takes ↦
              let n =
                accepted-IsUpToDate trim admits live s u (snapshot_change c) t activation d p in
              let (v, e) = view_current (accepted s (snapshot_change c) t activation) c.goal n q in
              rw (takes, sync-appended trim admits live s u (snapshot_change c) t activation d p, e)
                (ok-IsKept s _ v n)
        ]
