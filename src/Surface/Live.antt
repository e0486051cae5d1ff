-- ===== src/Surface/Live.antt =====
-- A session's log and the manager of its surface (class SurfaceManager of surface.ts) over any
-- sequence of appended events, validations and reads, against the fold of the log.
use agent_runtime_notes.Surface.Incremental.{
  Agrees, Mirrors, fold_window-at, process_rest-Agrees, PendingFits, current, thrown,
}
use agent_runtime_notes.Base.{
  Bool, Bool-cases, List, [], ap, arith, drop, drop-append, inl, inr, length, length-append, ltb,
  refl, true, ℕ, ◌++◌, ◌+◌, ◌-◌, ◌∙◌, ◌∷◌, ◌≡◌, Result, Result-cases, ok, ◌>>=◌, Option,
  append_assoc, none, some, sym,
}
use agent_runtime_notes.Session.{SessionEvent}
use agent_runtime_notes.Surface.Manager.{
  SurfaceManager, catch_up, new_manager, nodes_of, process_delta, validate_next, process_rest,
  read_state, replace_generation_of, PendingPlan, plan_next,
}
use agent_runtime_notes.Surface.Planning.{
  fold_events, fold_window, SurfaceFold, apply_surface_event, plan_surface_event,
}
use agent_runtime_notes.Surface.{SurfaceError, SurfaceFoldState}
use agent_runtime_notes.Surface.Prefixes.{
  fold_window-IsBelow, plan_surface_event-grown, fold_window-append,
}
use mathlib.Core.Path.{subst}
use mathlib.Core.List.{append-nil}

pub data SurfaceAction : Type 0 where
  log_grows validate : SessionEvent → SurfaceAction
  read : SurfaceAction

pub record Live : Type 0 where
  pub log : List SessionEvent
  pub manager : SurfaceManager

module _ (same : SessionEvent → SessionEvent → Bool) (base : ℕ) where
  abbrev pub act : Live → SurfaceAction → Live
  act s (log_grows event) = record s { log = s.log ++ event ∷ [] }
  act s (validate event) = record s { manager = (validate_next same s.log base s.manager event).0 }
  act s read = record s { manager = (nodes_of same s.log base s.manager).0 }

  abbrev pub act_all : Live → List SurfaceAction → Live
  act_all s [] = s
  act_all s (action ∷ actions) = act_all (act s action) actions

  abbrev pub opened : List SessionEvent → Live
  opened log = record { log = log; manager = new_manager base }

  new_manager-Mirrors : (log : List SessionEvent) → Mirrors base log (new_manager base)
  unfolding fold_window fold_events
  new_manager-Mirrors log = record {
    done = [];
    rest = log;
    replacements = [];
    split = refl;
    next = omega arith;
    folded = refl;
    fits = tt;
  }

  level :
      (log : List SessionEvent) (m : SurfaceManager) → process_rest same log base m [] ≡ (m, ok tt)
  unfolding process_rest
  level log m = refl

empty-of-length : (xs : List SessionEvent) → length xs ≡ 0 → xs ≡ []
empty-of-length [] h = refl
empty-of-length (x ∷ xs) h = absurd (omega (arith, h))

-- What a read gives is the field of the fold, or what the fold throws.
Agrees-read :
    {A : Type 0} (field : SurfaceFoldState → A) (base : ℕ) (log : List SessionEvent)
    (out : SurfaceManager × Result SurfaceError (Unit {0}))
    → Agrees base log out
    → Mirrors base log ((read_state field out).0)
      × ((read_state field out).1 ≡ fold_window base log >>= (λ fold. ok (field (fold.0))))
Agrees-read field base log out (current m reps i f) = (i, rw f refl)
Agrees-read field base log out (thrown m error i f) = (i, rw f refl)

fold_window-candidate :
    (base : ℕ) (log : List SessionEvent) (event : SessionEvent) (fold : SurfaceFold)
    → fold_window base log ≡ ok fold
    → fold_window base (log ++ event ∷ []) >>= (λ f. ok tt)
      ≡ plan_surface_event fold.0 event (base + length log) log base >>= (λ plan. ok tt)
unfolding fold_events apply_surface_event
fold_window-candidate base log event fold f =
    let below = fold_window-IsBelow base log fold f in
    let same_plan =
      plan_surface_event-grown log (event ∷ []) base fold.0 event (base + length log) below in
    let e = fold_window-at (log ++ event ∷ []) base log (event ∷ []) fold refl f in
    elim (Result-cases (plan_surface_event fold.0 event (base + length log) log base)) [
      | inr (error, q) ↦ rw (e, same_plan, q) refl
      | inl (plan, q) ↦ rw (e, same_plan, q) refl
    ]

-- A candidate is taken where the log with it folds, and its plan then fits the log.
Agrees-plan_next :
    (base : ℕ) (log : List SessionEvent) (event : SessionEvent)
    (out : SurfaceManager × Result SurfaceError (Unit {0}))
    → Agrees base log out
    → Mirrors base log ((plan_next log base event out).0)
      × ((plan_next log base event out).1
          ≡ fold_window base (log ++ event ∷ []) >>= (λ fold. ok tt))
Agrees-plan_next base log event out (thrown m error i f) =
    (i, rw (fold_window-append base log (event ∷ []), f) refl)
Agrees-plan_next base log event out (current m reps i f) =
    let candidate = fold_window-candidate base log event (m.state, reps) f in
    elim (Result-cases (plan_surface_event m.state event (base + length log) log base)) [
      | inr (error, q) ↦ rw q (i, sym (candidate ∙ rw q refl))
      | inl (plan, q) ↦ rw q (
        record {
          done = i.done;
          rest = i.rest;
          replacements = i.replacements;
          split = i.split;
          next = i.next;
          folded = i.folded;
          fits = (log, [], (m.state, reps), sym (append-nil log), refl, f, q);
        },
        sym (candidate ∙ rw q refl),
      )
    ]

PendingFits-grown :
    (base : ℕ) (log more : List SessionEvent) (pending : Option PendingPlan)
    → PendingFits base log pending
    → PendingFits base (log ++ more) pending
PendingFits-grown base log more none h = h
PendingFits-grown base log more (some p) (xs, ys, fold, split, at, folded, planned) =
    (xs, ys ++ more, fold, ap (λ l. l ++ more) split ∙ append_assoc xs ys more, at, folded, planned)

Mirrors-grown :
    (base : ℕ) (log more : List SessionEvent) (m : SurfaceManager)
    → Mirrors base log m
    → Mirrors base (log ++ more) m
Mirrors-grown base log more m i = record {
  done = i.done;
  rest = i.rest ++ more;
  replacements = i.replacements;
  split = ap (λ l. l ++ more) i.split ∙ append_assoc i.done i.rest more;
  next = i.next;
  folded = i.folded;
  fits = PendingFits-grown base log more m.pending i.fits;
}

module _ (same : SessionEvent → SessionEvent → Bool)
    (same-equal : (a b : SessionEvent) → same a b ≡ true → a ≡ b) (base : ℕ) where
  pub catch_up-Agrees :
      (log : List SessionEvent) (m : SurfaceManager)
      → Mirrors base log m
      → Agrees base log (catch_up same log base m)
  unfolding catch_up process_delta
  catch_up-Agrees log m i =
      let count : length log ≡ length i.done + length i.rest =
        ap length i.split ∙ length-append i.done i.rest in
      elim (Bool-cases (ltb m.next_seq (base + length log))) [
        | inl e ↦
            let place : m.next_seq - base ≡ length i.done = omega (arith, i.next) in
            let tail : drop (m.next_seq - base) log ≡ i.rest =
              ap (λ n. drop n log) place
              ∙ (ap (drop (length i.done)) i.split ∙ drop-append i.done i.rest) in
            rw (e, tail)
              (process_rest-Agrees same same-equal log base m i.done i.rest i.replacements i.split
                i.next i.folded i.fits)
        | inr e ↦
            let empty : length i.rest ≡ 0 = ground (arith, e, i.next, count) in
            rw e (
              subst (λ out. Agrees base log out) (level same base log m)
                (process_rest-Agrees same same-equal log base m i.done [] i.replacements
                  (i.split ∙ ap (λ r. i.done ++ r) (empty-of-length i.rest empty)) i.next i.folded
                  i.fits))
      ]

  nodes_of-fold_window :
      (log : List SessionEvent) (m : SurfaceManager)
      → Mirrors base log m
      → Mirrors base log ((nodes_of same log base m).0)
        × ((nodes_of same log base m).1 ≡ fold_window base log >>= (λ fold. ok (fold.0.nodes)))
  unfolding nodes_of
  nodes_of-fold_window log m i =
      Agrees-read (λ s. s.nodes) base log (catch_up same log base m) (catch_up-Agrees log m i)

  replace_generation_of-fold_window :
      (log : List SessionEvent) (m : SurfaceManager)
      → Mirrors base log m
      → (replace_generation_of same log base m).1
        ≡ fold_window base log >>= (λ fold. ok (fold.0.replace_generation))
  unfolding replace_generation_of
  replace_generation_of-fold_window log m i =
      let (kept, e) =
        Agrees-read (λ s. s.replace_generation) base log (catch_up same log base m)
          (catch_up-Agrees log m i) in
      e

  validate_next-fold_window :
      (log : List SessionEvent) (m : SurfaceManager) (event : SessionEvent)
      → Mirrors base log m
      → Mirrors base log ((validate_next same log base m event).0)
        × ((validate_next same log base m event).1
            ≡ fold_window base (log ++ event ∷ []) >>= (λ fold. ok tt))
  unfolding validate_next
  validate_next-fold_window log m event i =
      Agrees-plan_next base log event (catch_up same log base m) (catch_up-Agrees log m i)

  act-Mirrors :
      (s : Live) (action : SurfaceAction)
      → Mirrors base s.log s.manager
      → Mirrors base (act same base s action).log (act same base s action).manager
  act-Mirrors s (log_grows event) i = Mirrors-grown base s.log (event ∷ []) s.manager i
  act-Mirrors s (validate event) i = (validate_next-fold_window s.log s.manager event i).0
  act-Mirrors s read i = (nodes_of-fold_window s.log s.manager i).0

  act_all-Mirrors :
      (s : Live) (actions : List SurfaceAction)
      → Mirrors base s.log s.manager
      → Mirrors base (act_all same base s actions).log (act_all same base s actions).manager
  act_all-Mirrors s [] i = i
  act_all-Mirrors s (action ∷ actions) i =
      act_all-Mirrors (act same base s action) actions (act-Mirrors s action i)

  -- For a log that is opened with any events and any sequence of appended events, validations and
  -- reads after it, where references to one object are to equal events: reading the nodes and the
  -- generation from the incremental manager gives those of the fold of the whole log, or throws
  -- what that fold throws, and a validation throws exactly what the fold of the log with the
  -- candidate throws.
  pub surface_reads-fold_window :
      (log : List SessionEvent) (actions : List SurfaceAction) (event : SessionEvent)
      → let s : Live = act_all same base (opened same base log) actions in
        ((nodes_of same s.log base s.manager).1
          ≡ fold_window base s.log >>= (λ fold. ok (fold.0.nodes)))
        × ((replace_generation_of same s.log base s.manager).1
            ≡ fold_window base s.log >>= (λ fold. ok (fold.0.replace_generation)))
        × ((validate_next same s.log base s.manager event).1
            ≡ fold_window base (s.log ++ event ∷ []) >>= (λ fold. ok tt))
  surface_reads-fold_window log actions event =
      let s : Live = act_all same base (opened same base log) actions in
      let i = act_all-Mirrors (opened same base log) actions (new_manager-Mirrors same base log) in
      (
        (nodes_of-fold_window s.log s.manager i).1,
        replace_generation_of-fold_window s.log s.manager i,
        (validate_next-fold_window s.log s.manager event i).1,
      )
