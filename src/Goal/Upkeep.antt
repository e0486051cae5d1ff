-- ===== src/Goal/Upkeep.antt =====
-- The calls of the goal service (index.ts), all of them at once.
use agent_runtime_notes.Base.{
  ℕ, ◌≤◌, ◌<◌, ◌≡◌, refl, String, Bool, true, List, Option, some, arith, not, ◌&&◌, has,
  max_safe_integer, JsNumber, ok, err, inl, inr, str_eq,
}
use agent_runtime_notes.Goal.{GoalSnapshot, GoalEvent}
use agent_runtime_notes.Goal.Fold.{GoalFoldState}
use agent_runtime_notes.Goal.Service.{
  GoalActivation, disarmed, Hub, Outcome, get, disarm, agent_not_live, GoalView, notified,
}
use agent_runtime_notes.Goal.Calls.{
  Call, call_get, call_disarm, call_create, call_edit, call_pause, call_complete, call_resume,
  call_clear, call_block, activation_after, forget, perform,
}
use agent_runtime_notes.Goal.Commits.{IsUpToDate, IsKept, err-IsKept, ok-IsKept, view_total}
use agent_runtime_notes.Goal.Operations.{
  prepare_mutation_cases, pause-IsKept, complete-IsKept, resume-IsKept, clear-IsKept, block-IsKept,
  edit-IsKept, create-IsKept,
}

-- A create comes with an identity that is not empty and that no goal of the session has had.
abbrev pub is_fresh_call : GoalFoldState → Call → Bool
is_fresh_call state (call_create request new_id) =
    not (str_eq new_id "") && not (has state.seen_goal_ids new_id)
is_fresh_call state call = true

module _ (trim : String → String) (admits : List GoalEvent → GoalEvent → Bool) (live : Bool) where
  forget-IsKept :
      {A : Type 0} (s : Hub) (a : GoalActivation) (r : Outcome A)
      → IsKept trim s a r
      → IsKept trim s a (forget r)
  forget-IsKept s a (ok v, t) k = record {
    up_to_date = k.up_to_date;
    orderly = refl;
    unchanged = λ h. absurd (ground arith);
    activated = λ h. k.activated h;
  }
  forget-IsKept s a (err e, t) k = record {
    up_to_date = k.up_to_date;
    orderly = k.orderly;
    unchanged = λ h. k.unchanged h;
    activated = λ h. absurd (ground arith);
  }

  notified_total :
      (s : Hub)
      → IsUpToDate trim s
      → (v : Option GoalView) × (notified trim admits live (ok tt, s) ≡ (ok v, s))
  notified_total s u = let (v, e) = view_total trim admits live s u in (v, rw (e, notified) refl)

  module _ (s : Hub) (u : IsUpToDate trim s) where
    get-IsKept : IsKept trim s s.cache.activation (get trim admits live s)
    unfolding get
    get-IsKept = elim (prepare_mutation_cases trim admits live s u) [
      | inr dead ↦ rw dead (err-IsKept trim admits live s s.cache.activation agent_not_live refl u)
      | inl ready ↦
          let (v, e) = notified_total s u in rw (ready, e) (ok-IsKept trim admits live s s v u)
    ]

    abbrev disarmed_hub : Hub
    disarmed_hub = record { log = s.log; cache = record s.cache { activation = disarmed } }

    disarmed_hub-IsUpToDate : IsUpToDate trim disarmed_hub
    disarmed_hub-IsUpToDate = record { folded = u.folded; observed = u.observed; idle = u.idle }

    disarm-IsKept : IsKept trim s disarmed (disarm trim admits live s)
    unfolding disarm
    disarm-IsKept = elim (prepare_mutation_cases trim admits live s u) [
      | inr dead ↦ rw dead (err-IsKept trim admits live s disarmed agent_not_live refl u)
      | inl ready ↦
          let (v, e) = notified_total disarmed_hub disarmed_hub-IsUpToDate in
          rw (ready, e) (ok-IsKept trim admits live s disarmed_hub v disarmed_hub-IsUpToDate)
    ]

    -- A call on a cache that is the fold of the log leaves such a cache; what it throws is one of
    -- the service's own errors or the session's refusal, and then log and cache are as before;
    -- when it returns, the activation is the one of the call: armed after create and resume, as
    -- before after get and edit, disarmed otherwise. Conditions: the clock reading is at most 2^53
    -- - 1 and the revision below it, a created goal's identity is fresh, and trimming is
    -- idempotent.
    pub perform-IsKept :
        (trim_idem : (x : String) → trim (trim x) ≡ trim x) (default_rounds : JsNumber)
        (call : Call) (now : ℕ)
        → now ≤ max_safe_integer
        → ((g : GoalSnapshot) → s.cache.state.goal ≡ some g → g.revision < max_safe_integer)
        → is_fresh_call s.cache.state call ≡ true
        → IsKept trim s
            (activation_after call s.cache.activation)
            (perform trim admits live default_rounds s call now)
    unfolding perform
    perform-IsKept i d call_get now le room f = forget-IsKept s _ _ get-IsKept
    perform-IsKept i d call_disarm now le room f = forget-IsKept s _ _ disarm-IsKept
    perform-IsKept i d (call_create request new_id) now le room f = forget-IsKept s _ _ (
        create-IsKept trim admits live s u now le room i d request new_id (ground arith)
          (ground arith))
    perform-IsKept i d (call_edit ref request) now le room f =
        forget-IsKept s _ _ (edit-IsKept trim admits live s u now le room i ref request)
    perform-IsKept i d (call_pause ref) now le room f =
        forget-IsKept s _ _ (pause-IsKept trim admits live s u now le room ref)
    perform-IsKept i d (call_complete ref) now le room f =
        forget-IsKept s _ _ (complete-IsKept trim admits live s u now le room ref)
    perform-IsKept i d (call_resume ref) now le room f =
        forget-IsKept s _ _ (resume-IsKept trim admits live s u now le room ref)
    perform-IsKept i d (call_clear ref) now le room f =
        forget-IsKept s _ _ (clear-IsKept trim admits live s u now le room ref)
    perform-IsKept i d (call_block ref reason) now le room f =
        forget-IsKept s _ _ (block-IsKept trim admits live s u now le room i ref reason)
