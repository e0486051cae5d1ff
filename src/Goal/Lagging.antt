-- ===== src/Goal/Lagging.antt =====
-- The goal service (index.ts) while its cache is behind the log: others append, and only the next call
-- of the service looks at what they have appended.
use agent_runtime_notes.Base.{
  Bool, JsNumber, List, String, [], ap, err, inl, length, none, ok, refl, sym, ℕ, ◌++◌, ◌∙◌, ◌≡◌,
  ◌⊎◌, Result-cases, append_assoc, inr, max_safe_integer, ok-injective, some, true, ◌<◌, ◌∷◌, ◌≤◌,
  false, take,
}
use agent_runtime_notes.Goal.Calls.{
  Call, call_block, call_clear, call_complete, call_create, call_disarm, call_edit, call_get,
  call_pause, call_resume, perform, on_session_start,
}
use agent_runtime_notes.Goal.Cache.{
  GoalError, Hub, sync, resolve_max_goal_rounds, resolve_objective, agent_not_live,
}
use agent_runtime_notes.Goal.{GoalEvent, GoalSnapshot}
use agent_runtime_notes.Goal.Fold.{GoalFoldState, empty_goal_fold_state, fold_from, fold_goal}
use agent_runtime_notes.Goal.Commits.{IsUpToDate, fold_from-append, sync_self}
use mathlib.Core.List.{append-nil}
use agent_runtime_notes.Goal.Service.{
  block, clear, complete_goal, create, disarm, edit, get, pause, prepare_mutation, resume,
  transition,
}
use agent_runtime_notes.Goal.Syncing.{sync-IsUpToDate}
use agent_runtime_notes.Goal.Upkeep.{is_fresh_call, perform-IsKept}
use mathlib.Core.Path.{subst}

take_seen : (xs ys : List GoalEvent) → take (length xs) (xs ++ ys) ≡ xs
take_seen [] ys = refl
take_seen (x ∷ xs) ys = ap (λ l. x ∷ l) (take_seen xs ys)

module _ (trim : String → String) where
  -- The cache is the strict fold of the first part of a log that the fold takes as a whole.
  pub record IsLagging (s : Hub) : Type 0 where
    pub whole : GoalFoldState
    pub seen : List GoalEvent
    pub unseen : List GoalEvent
    pub split : s.log ≡ seen ++ unseen
    pub folded_seen : fold_goal trim seen ≡ ok s.cache.state
    pub folded_unseen : fold_from trim s.cache.state unseen ≡ ok whole
    pub observed : s.cache.observed_seq ≡ length seen
    pub idle : s.cache.pending_activation ≡ none

  pub IsLagging-fold_goal : (s : Hub) (l : IsLagging s) → fold_goal trim s.log ≡ ok l.whole
  unfolding fold_goal
  IsLagging-fold_goal s l =
      ap (fold_goal trim) l.split
      ∙ (fold_from-append trim empty_goal_fold_state s.cache.state l.seen l.unseen l.folded_seen
          ∙ l.folded_unseen)

  pub IsLagging-observed :
      (s : Hub) → IsLagging s → fold_goal trim (take s.cache.observed_seq s.log) ≡ ok s.cache.state
  IsLagging-observed s l =
      let first : take s.cache.observed_seq s.log ≡ l.seen =
        ap (λ n. take n s.log) l.observed
        ∙ (ap (take (length l.seen)) l.split ∙ take_seen l.seen l.unseen) in
      ap (fold_goal trim) first ∙ l.folded_seen

  pub IsUpToDate-IsLagging : (s : Hub) → IsUpToDate trim s → IsLagging s
  unfolding fold_from
  IsUpToDate-IsLagging s u = record {
    whole = s.cache.state;
    seen = s.log;
    unseen = [];
    split = sym (append-nil s.log);
    folded_seen = u.folded;
    folded_unseen = refl;
    observed = u.observed;
    idle = u.idle;
  }

  -- Looking at the log brings such a cache up to date.
  pub sync-lagging :
      (s : Hub) (l : IsLagging s)
      → (u : Hub) × (sync trim s ≡ (ok tt, u))
        × IsUpToDate trim u
        × (u.log ≡ s.log)
        × (u.cache.state ≡ l.whole)
  sync-lagging s l =
      let early : Hub = record { log = l.seen; cache = s.cache } in
      let early_u : IsUpToDate trim early = record {
        folded = l.folded_seen;
        observed = l.observed;
        idle = l.idle;
      } in
      let (u, q, log, state, activation, done) =
        sync-IsUpToDate trim early l.unseen l.whole early_u l.folded_unseen in
      let same : record { log = l.seen ++ l.unseen; cache = s.cache } ≡ s =
        ap (λ events. record { log = events; cache = s.cache }) (sym l.split) in
      (u, ap (sync trim) (sym same) ∙ q, done, log ∙ sym l.split, state)

  module _ (admits : List GoalEvent → GoalEvent → Bool) (default_rounds : JsNumber) where
    -- A call only sees what its first look at the log leaves, unless it throws before.
    perform-same :
        (live : Bool) (s u : Hub) (call : Call) (now : ℕ)
        → prepare_mutation trim admits live s ≡ prepare_mutation trim admits live u
        → (perform trim admits live default_rounds s call now
            ≡ perform trim admits live default_rounds u call now)
          ⊎ ((e : GoalError) × (perform trim admits live default_rounds s call now ≡ (err e, s)))
    unfolding perform get disarm edit pause complete_goal resume clear block transition create
    perform-same live s u call_get now e = inl (rw e refl)
    perform-same live s u call_disarm now e = inl (rw e refl)
    perform-same live s u (call_edit ref request) now e = inl (rw e refl)
    perform-same live s u (call_pause ref) now e = inl (rw e refl)
    perform-same live s u (call_complete ref) now e = inl (rw e refl)
    perform-same live s u (call_resume ref) now e = inl (rw e refl)
    perform-same live s u (call_clear ref) now e = inl (rw e refl)
    perform-same live s u (call_block ref reason) now e = inl (rw e refl)
    perform-same live s u (call_create request new_id) now e =
        elim (Result-cases (resolve_objective trim request.objective)) [
          | inr (x, q) ↦ inr (x, rw q refl)
          | inl (objective, q) ↦
              let wanted : JsNumber = elim request.max_goal_rounds [
                | none ↦ default_rounds
                | some n ↦ n
              ] in
              elim (Result-cases (resolve_max_goal_rounds wanted)) [
                | inr (x, r) ↦ inr (x, rw (q, r) refl)
                | inl (most, r) ↦ inl (rw (q, r, e) refl)
              ]
        ]

    -- A call for an agent that is not live throws.
    perform-dead :
        (s : Hub) (call : Call) (now : ℕ)
        → (e : GoalError) × (perform trim admits false default_rounds s call now ≡ (err e, s))
    unfolding perform get disarm edit pause complete_goal resume clear block transition create
        prepare_mutation
    perform-dead s (call_create request new_id) now =
        elim (Result-cases (resolve_objective trim request.objective)) [
          | inr (x, q) ↦ (x, rw q refl)
          | inl (objective, q) ↦
              let wanted : JsNumber = elim request.max_goal_rounds [
                | none ↦ default_rounds
                | some n ↦ n
              ] in
              elim (Result-cases (resolve_max_goal_rounds wanted)) [
                | inr (x, r) ↦ (x, rw (q, r) refl)
                | inl (most, r) ↦ (agent_not_live, rw (q, r) refl)
              ]
        ]
    perform-dead s _ now = (agent_not_live, refl)

    -- A call on a cache that lags does what it does on the cache that is brought up to date, or
    -- throws and leaves all as it is.
    pub perform-lagging :
        (live : Bool) (s u : Hub) (call : Call) (now : ℕ)
        → sync trim s ≡ (ok tt, u)
        → IsUpToDate trim u
        → (perform trim admits live default_rounds s call now
            ≡ perform trim admits live default_rounds u call now)
          ⊎ ((e : GoalError) × (perform trim admits live default_rounds s call now ≡ (err e, s)))
    unfolding prepare_mutation
    perform-lagging true s u call now q done =
        perform-same true s u call now (q ∙ sym (sync_self trim admits true u done))
    perform-lagging false s u call now q done = inr (perform-dead s call now)

    pub perform-IsLagging :
        (trim_idem : (x : String) → trim (trim x) ≡ trim x) (live : Bool) (s : Hub) (call : Call)
        (now : ℕ) (current : GoalFoldState)
        → IsLagging s
        → fold_goal trim s.log ≡ ok current
        → now ≤ max_safe_integer
        → ((g : GoalSnapshot) → current.goal ≡ some g → g.revision < max_safe_integer)
        → is_fresh_call current call ≡ true
        → IsLagging (perform trim admits live default_rounds s call now).1
    perform-IsLagging idem live s call now current l f le room fresh =
        let (u, q, done, log, state) = sync-lagging s l in
        let known : u.cache.state ≡ current =
          state ∙ ok-injective l.whole current (sym (IsLagging-fold_goal s l) ∙ f) in
        let kept =
          perform-IsKept trim admits live u done idem default_rounds call now le
            (λ g e. room g (ap (λ c. c.goal) (sym known) ∙ e))
            (ap (λ c. is_fresh_call c call) known ∙ fresh) in
        elim (perform-lagging live s u call now q done) [
          | inl same ↦
              subst (λ r. IsLagging r.1) (sym same)
                (IsUpToDate-IsLagging (perform trim admits live default_rounds u call now).1
                  kept.up_to_date)
          | inr (e, thrown) ↦ subst (λ r. IsLagging r.1) (sym thrown) l
        ]

  pub with_event-IsLagging :
      (s : Hub) (event : GoalEvent) (next : GoalFoldState)
      → IsLagging s
      → fold_goal trim (s.log ++ event ∷ []) ≡ ok next
      → IsLagging (record s { log = s.log ++ event ∷ [] })
  unfolding fold_goal
  with_event-IsLagging s event next l h =
      let split : s.log ++ event ∷ [] ≡ l.seen ++ (l.unseen ++ event ∷ []) =
        ap (λ log. log ++ event ∷ []) l.split ∙ append_assoc l.seen l.unseen (event ∷ []) in
      record {
        whole = next;
        seen = l.seen;
        unseen = l.unseen ++ event ∷ [];
        split = split;
        folded_seen = l.folded_seen;
        folded_unseen =
            sym (
              fold_from-append trim empty_goal_fold_state s.cache.state l.seen
                (l.unseen ++ event ∷ []) l.folded_seen)
            ∙ (ap (fold_goal trim) (sym split) ∙ h);
        observed = l.observed;
        idle = l.idle;
      }

  pub on_session_start-IsLagging : (s : Hub) → IsLagging s → IsLagging (on_session_start s)
  on_session_start-IsLagging s l = record {
    whole = l.whole;
    seen = l.seen;
    unseen = l.unseen;
    split = l.split;
    folded_seen = l.folded_seen;
    folded_unseen = l.folded_unseen;
    observed = l.observed;
    idle = l.idle;
  }
