-- ===== src/Goal/Syncing.antt =====
-- The goal service's cache follows the log: `cache` and `sync` of goal/goal/src/index.ts.
use agent_runtime_notes.Base.{
  ℕ, ◌+◌, ◌≡◌, refl, ap, ◌∙◌, String, List, [], ◌∷◌, ◌++◌, none, arith, length, length-append,
  drop-append, drop, ok, Result-cases, ok-injective, inl, inr,
}
use agent_runtime_notes.Goal.{GoalEvent, goal_change, other_event, user_message}
use agent_runtime_notes.Goal.Fold.{
  GoalFoldState, empty_goal_fold_state, fold_goal, fold_from, apply_goal_event,
}
use agent_runtime_notes.Goal.Service.{
  GoalActivation, disarmed, GoalCache, Hub, sync, sync_from, reconcile,
}
use agent_runtime_notes.Goal.Calls.{open_session}
use agent_runtime_notes.Goal.Commits.{IsUpToDate, fold_from-append}

module _ (trim : String → String) where
  abbrev pub counted : GoalCache → GoalFoldState → ℕ → GoalActivation → GoalCache
  counted cache t n activation = record {
    state = t;
    activation = activation;
    observed_seq = n;
    pending_activation = cache.pending_activation;
  }

  abbrev pub caught_up : GoalCache → GoalFoldState → ℕ → GoalActivation → GoalCache
  caught_up cache t n activation = counted cache t (cache.observed_seq + n) activation

  -- The cache after one event that the fold takes.
  abbrev pub stepped : GoalCache → GoalFoldState → GoalEvent → GoalCache
  stepped cache next event = record {
    state = next;
    activation = reconcile cache cache.observed_seq event;
    observed_seq = cache.observed_seq + 1;
    pending_activation = cache.pending_activation;
  }

  -- What becomes of the activation when others append events: a change of the goal disarms.
  abbrev pub activation_seen : GoalActivation → List GoalEvent → GoalActivation
  activation_seen a [] = a
  activation_seen a (goal_change raw ∷ events) = activation_seen disarmed events
  activation_seen a (user_message source ∷ events) = activation_seen a events
  activation_seen a (other_event ∷ events) = activation_seen a events

  activation_seen-cons :
      (cache : GoalCache) (event : GoalEvent) (events : List GoalEvent)
      → cache.pending_activation ≡ none
      → activation_seen (reconcile cache cache.observed_seq event) events
        ≡ activation_seen cache.activation (event ∷ events)
  activation_seen-cons cache (goal_change raw) events idle = rw idle refl
  activation_seen-cons cache (user_message source) events idle = refl
  activation_seen-cons cache other_event events idle = refl

  -- The incremental pass over events of others is the fold over them.
  sync_from-fold :
      (cache : GoalCache) (events : List GoalEvent) (t : GoalFoldState)
      → cache.pending_activation ≡ none
      → fold_from trim cache.state events ≡ ok t
      → sync_from trim cache events
        ≡ (ok tt, caught_up cache t (length events) (activation_seen cache.activation events))
  unfolding sync_from fold_from
  sync_from-fold cache [] t idle h =
      rw (ok-injective _ _ h) (ap (λ n. (ok tt, counted cache t n cache.activation)) (omega arith))
  sync_from-fold cache (event ∷ events) t idle h =
      elim (Result-cases (apply_goal_event trim cache.state event)) [
        | inr (x, e) ↦ absurd (ground arith)
        | inl (next, e) ↦
            let q =
              sync_from-fold (stepped cache next event) events t idle (rw (e, fold_from) at h) in
            let a = activation_seen cache.activation (event ∷ events) in
            rw (e, sync_from, q, activation_seen-cons cache event events idle)
              (ap (λ n. (ok tt, counted cache t n a)) (omega arith))
      ]

  -- When a cache is up to date with the log, no activation is pending, and others append events
  -- that the strict fold takes from the cached state, the incremental pass over the longer log
  -- succeeds, leaves the log alone, gives a cache that is up to date again, in the state that the
  -- fold reaches, and disarms if one of the events is a change of the goal, else keeps the
  -- activation.
  pub sync-IsUpToDate :
      (s : Hub) (more : List GoalEvent) (t : GoalFoldState)
      → IsUpToDate trim s
      → fold_from trim s.cache.state more ≡ ok t
      → (u : Hub) × (sync trim (record s { log = s.log ++ more }) ≡ (ok tt, u))
        × (u.log ≡ s.log ++ more)
        × (u.cache.state ≡ t)
        × (u.cache.activation ≡ activation_seen s.cache.activation more)
        × IsUpToDate trim u
  unfolding sync fold_goal
  sync-IsUpToDate s more t u h =
      let rest : drop s.cache.observed_seq (s.log ++ more) ≡ more =
        rw u.observed (drop-append s.log more) in
      let a = activation_seen s.cache.activation more in
      let q = sync_from-fold s.cache more t u.idle h in
      (
        record { log = s.log ++ more; cache = caught_up s.cache t (length more) a },
        rw (rest, q) refl,
        refl,
        refl,
        refl,
        record {
          folded =
              fold_from-append trim empty_goal_fold_state s.cache.state s.log more u.folded ∙ h;
          observed = omega (arith, u.observed, length-append s.log more);
          idle = u.idle;
        },
      )

  abbrev pub opened : List GoalEvent → GoalFoldState → Hub
  opened log t = record {
    log = log;
    cache = record {
      state = t;
      activation = disarmed;
      observed_seq = length log;
      pending_activation = none;
    };
  }

  open_session-folded :
      (log : List GoalEvent) (t : GoalFoldState)
      → fold_goal trim log ≡ ok t
      → open_session trim log ≡ ok (opened log t)
  unfolding open_session
  open_session-folded log t h = ground arith

  pub open_session_again :
      (s : Hub)
      → IsUpToDate trim s
      → open_session trim s.log ≡ ok (record s { cache = record s.cache { activation = disarmed } })
  open_session_again s u =
      let n = u.observed in
      let i = u.idle in open_session-folded s.log s.cache.state u.folded ∙ ground arith

  pub open_session-IsUpToDate :
      (log : List GoalEvent) (s : Hub)
      → open_session trim log ≡ ok s
      → IsUpToDate trim s × (s.log ≡ log) × (s.cache.activation ≡ disarmed)
  unfolding open_session
  open_session-IsUpToDate log s h = elim (Result-cases (fold_goal trim log)) [
    | inr (x, e) ↦ absurd (ground arith)
    | inl (t, e) ↦
        let q : s ≡ opened log t = ground arith in
        rw q (record { folded = e; observed = refl; idle = refl }, refl, refl)
  ]
