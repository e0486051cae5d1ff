-- ===== src/Goal/Runs.antt =====
-- A session's life as the goal service sees it: calls, and events that other parts append.
use agent_runtime_notes.Goal.Lagging.{
  IsLagging, IsLagging-observed, perform-IsLagging, with_event-IsLagging,
  on_session_start-IsLagging, IsUpToDate-IsLagging, sync-lagging, IsLagging-fold_goal,
}
use agent_runtime_notes.Base.{
  ℕ, ◌≤◌, ◌<◌, ◌≡◌, refl, String, Bool, true, false, List, [], ◌∷◌, ◌++◌, Option, some, arith, ◌&&◌,
  ◌==◌, str_eq, max_safe_integer, JsNumber, ok, err, ap, sym, take, ◌∙◌,
}
use agent_runtime_notes.Goal.{GoalRef, GoalSnapshot, GoalEvent}
use agent_runtime_notes.Goal.Fold.{GoalFoldState, fold_goal}
use agent_runtime_notes.Goal.Service.{
  stale_revision, Hub, Outcome, prepare_mutation, expect_current, with_current, edit, pause,
  complete_goal, resume, clear, block, transition, disarm, get, notified,
}
use agent_runtime_notes.Goal.Calls.{
  Call, call_get, call_disarm, call_create, call_edit, call_pause, call_complete, call_resume,
  call_clear, call_block, expected_ref, forget, perform, open_session, on_session_start,
}
use agent_runtime_notes.Goal.Commits.{IsUpToDate, sync_self, view_total}
use agent_runtime_notes.Goal.Upkeep.{is_fresh_call}
use agent_runtime_notes.Goal.Syncing.{open_session-IsUpToDate, open_session_again}
use agent_runtime_notes.Goal.Cache.{GoalView, view}

abbrev pub with_event : Hub → GoalEvent → Hub
with_event s event = record s { log = s.log ++ event ∷ [] }

module _ (trim : String → String) (admits : List GoalEvent → GoalEvent → Bool)
    (default_rounds : JsNumber) where
  -- The service does not see what others append until its next call. What they append is such that
  -- the strict fold takes the log with it.
  pub data Run : Hub → Hub → Type 0 where
    at_rest : (s : Hub) → Run s s
    a_call :
        (s t : Hub) (live : Bool) (call : Call) (now : ℕ) (current : GoalFoldState)
        → fold_goal trim s.log ≡ ok current
        → now ≤ max_safe_integer
        → ((g : GoalSnapshot) → current.goal ≡ some g → g.revision < max_safe_integer)
        → is_fresh_call current call ≡ true
        → Run (perform trim admits live default_rounds s call now).1 t
        → Run s t
    an_event :
        (s t : Hub) (event : GoalEvent) (next : GoalFoldState)
        → fold_goal trim (s.log ++ event ∷ []) ≡ ok next
        → Run (with_event s event) t
        → Run s t
    a_session_start : (s t : Hub) → Run (on_session_start s) t → Run s t

  Run-IsLagging :
      (trim_idem : (x : String) → trim (trim x) ≡ trim x) (s t : Hub)
      → Run s t
      → IsLagging trim s
      → IsLagging trim t
  Run-IsLagging i s t (at_rest _) l = l
  Run-IsLagging i s t (a_call _ _ live call now current f le room fresh run) l =
      Run-IsLagging i (perform trim admits live default_rounds s call now).1 t run
        (perform-IsLagging trim admits default_rounds i live s call now current l f le room fresh)
  Run-IsLagging i s t (an_event _ _ event next h run) l =
      Run-IsLagging i (with_event s event) t run (with_event-IsLagging trim s event next l h)
  Run-IsLagging i s t (a_session_start _ _ run) l =
      Run-IsLagging i (on_session_start s) t run (on_session_start-IsLagging trim s l)

  opened-IsLagging :
      (trim_idem : (x : String) → trim (trim x) ≡ trim x) (log : List GoalEvent) (s t : Hub)
      → open_session trim log ≡ ok s
      → Run s t
      → IsLagging trim t
  opened-IsLagging i log s t o run =
      Run-IsLagging i s t run (IsUpToDate-IsLagging trim s (open_session-IsUpToDate trim log s o).0)

  -- From the opening of a session on, through any run of calls, of events that other parts append
  -- and that the service does not look at before its next call, and of starts of the session: the
  -- strict fold accepts the whole log; the cached state is that of the part of the log that the
  -- cache has observed; and a get of the live agent returns the view of the state that the fold
  -- gives for the whole log, and leaves the log alone. Conditions on the run: clock readings are
  -- at most 2^53 - 1 and the current revision below that, created goals have fresh identities, the
  -- fold takes the log with each event of others, and trimming a trimmed text changes nothing.
  pub Run-folded :
      (trim_idem : (x : String) → trim (trim x) ≡ trim x) (log : List GoalEvent) (s t : Hub)
      → open_session trim log ≡ ok s
      → Run s t
      → (current : GoalFoldState) × (v : Option GoalView) × (u : Hub) × (fold_goal trim t.log
          ≡ ok current)
        × (fold_goal trim (take t.cache.observed_seq t.log) ≡ ok t.cache.state)
        × (get trim admits true t ≡ (ok v, u))
        × (view u.cache ≡ ok v)
        × (u.cache.state ≡ current)
        × (u.log ≡ t.log)
  unfolding get prepare_mutation
  Run-folded i log s t o run =
      let l = opened-IsLagging i log s t o run in
      let (u, q, done, same, state) = sync-lagging trim t l in
      let (v, e) = view_total trim admits true u done in
      (
        l.whole,
        v,
        u,
        IsLagging-fold_goal trim t l,
        IsLagging-observed trim t l,
        rw (q, notified, e) refl,
        e,
        state,
        same,
      )

  -- From the opening of a session on, after any run of calls, of events that other parts append
  -- and that the service has perhaps not looked at, and of starts of the session, opening the
  -- session anew from its log gives what a disarm of the live agent leaves. Conditions on the run:
  -- clock readings are at most 2^53 - 1 and the current revision below that, created goals have
  -- fresh identities, the fold takes the log with each event of others, and trimming a trimmed
  -- text changes nothing.
  pub Run-reopened :
      (trim_idem : (x : String) → trim (trim x) ≡ trim x) (log : List GoalEvent) (s t : Hub)
      → open_session trim log ≡ ok s
      → Run s t
      → (v : Option GoalView) × (u : Hub) × (disarm trim admits true t ≡ (ok v, u))
        × (open_session trim t.log ≡ ok u)
  unfolding disarm prepare_mutation
  Run-reopened i log s t o run =
      let l = opened-IsLagging i log s t o run in
      let (u, q, done, same, state) = sync-lagging trim t l in
      let rested : IsUpToDate trim (on_session_start u) = record {
        folded = done.folded;
        observed = done.observed;
        idle = done.idle;
      } in
      let (v, e) = view_total trim admits true (on_session_start u) rested in
      (
        v,
        on_session_start u,
        rw (q, notified, e) refl,
        ap (open_session trim) (sym same) ∙ open_session_again trim u done,
      )

module _ (trim : String → String) (admits : List GoalEvent → GoalEvent → Bool) (s : Hub)
    (u : IsUpToDate trim s) (current : GoalSnapshot) (ref : GoalRef)
    (is_current : s.cache.state.goal ≡ some current)
    (other : (str_eq ref.id current.id && ref.revision == current.revision) ≡ false) where
  expect_current-stale : expect_current s ref ≡ err stale_revision
  unfolding expect_current
  expect_current-stale = rw (is_current, other) refl

  ready : prepare_mutation trim admits true s ≡ (ok tt, s)
  unfolding prepare_mutation
  ready = sync_self trim admits true s u

  with_current-stale :
      {A : Type 0} (f : GoalSnapshot → Hub → Outcome A)
      → with_current trim admits true s ref f ≡ (err stale_revision, s)
  with_current-stale f = rw (ready, expect_current-stale) refl

  same_ref : (r : GoalRef) → ◌≡◌ {A = Option GoalRef} (some r) (some ref) → r ≡ ref
  same_ref r h = ground arith

  -- On an up-to-date cache with a current goal, a call of a live agent that expects another
  -- identity or revision than the current one throws the stale-revision error and changes neither
  -- log nor cache.
  pub perform-stale :
      (default_rounds : JsNumber) (call : Call) (now : ℕ)
      → expected_ref call ≡ some ref
      → perform trim admits true default_rounds s call now ≡ (err stale_revision, s)
  unfolding perform edit pause complete_goal resume clear block transition
  perform-stale d call_get now h = absurd (ground arith)
  perform-stale d call_disarm now h = absurd (ground arith)
  perform-stale d (call_create request new_id) now h = absurd (ground arith)
  perform-stale d (call_edit r request) now h = rw (same_ref r h) (ap forget (with_current-stale _))
  perform-stale d (call_pause r) now h = rw (same_ref r h) (ap forget (with_current-stale _))
  perform-stale d (call_complete r) now h = rw (same_ref r h) (ap forget (with_current-stale _))
  perform-stale d (call_resume r) now h = rw (same_ref r h) (ap forget (with_current-stale _))
  perform-stale d (call_clear r) now h = rw (same_ref r h) (ap forget (with_current-stale _))
  perform-stale d (call_block r reason) now h = rw (same_ref r h) (ap forget (with_current-stale _))
