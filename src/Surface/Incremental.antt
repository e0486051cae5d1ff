-- ===== src/Surface/Incremental.antt =====
-- The incremental surface against the fold of the whole log: class SurfaceManager of surface.ts.
use agent_runtime_notes.Base.{
  Bool, Bool-cases, List, Option, [], arith, inl, inr, length, none, ok, refl, some, true, ℕ, ◌&&◌,
  ◌++◌, ◌+◌, ◌==◌, ◌>>=◌, ◌∷◌, ◌≡◌, Result, ap, err, leb, sym, ◌∙◌, Result-cases, append_assoc,
  length-append,
}
use agent_runtime_notes.Surface.Manager.{
  PendingPlan, SurfaceManager, round_state, kept_pending, process_rest, after_round,
}
use agent_runtime_notes.Session.{SessionEvent}
use agent_runtime_notes.Surface.Planning.{
  SurfaceFold, apply_surface_event, fold_window, plan_surface_event, apply_surface_plan,
  fold_events, push_replacement,
}
use agent_runtime_notes.Surface.{
  SurfaceFoldReplacement, SurfaceFoldState, SurfaceError, SurfacePlan,
}
use agent_runtime_notes.Surface.Prefixes.{
  IsBelow, fold_window-IsBelow, plan_surface_event-grown, apply_surface_event-grown,
  fold_window-append,
}
use mathlib.Core.List.{append-nil}

apply_surface_event-planned :
    (state : SurfaceFoldState) (event : SessionEvent) (seq : ℕ) (log : List SessionEvent) (base : ℕ)
    (plan : SurfacePlan)
    → plan_surface_event state event seq log base ≡ ok plan
    → apply_surface_event state event seq log base ≡ ok (apply_surface_plan state plan)
unfolding apply_surface_event
apply_surface_event-planned state event seq log base plan h =
    ap (λ r. r >>= λ p. ok (apply_surface_plan state p)) h

pub fold_window-at :
    (log : List SessionEvent) (base : ℕ) (done rest : List SessionEvent) (fold : SurfaceFold)
    → log ≡ done ++ rest
    → fold_window base done ≡ ok fold
    → fold_window base log ≡ fold_events log base (base + length done) fold rest
fold_window-at log base done rest fold e f =
    ap (fold_window base) e
    ∙ (fold_window-append base done rest
        ∙ (ap (λ r. r >>= (λ g. fold_events (done ++ rest) base (base + length done) g rest)) f
            ∙ ap (λ l. fold_events l base (base + length done) fold rest) (sym e)))

-- The fold of what has been seen and one event more.
fold_window-snoc :
    (log : List SessionEvent) (base seq : ℕ) (state : SurfaceFoldState) (event : SessionEvent)
    (done rest : List SessionEvent) (replacements : List SurfaceFoldReplacement)
    (next : SurfaceFoldState × Option SurfaceFoldReplacement)
    → log ≡ done ++ event ∷ rest
    → seq ≡ base + length done
    → fold_window base done ≡ ok (state, replacements)
    → apply_surface_event state event seq log base ≡ ok next
    → fold_window base (done ++ event ∷ []) ≡ ok (next.0, push_replacement replacements next.1)
unfolding fold_events
fold_window-snoc log base seq state event done rest reps next e s f q =
    let below : IsBelow (base + length done) state.nodes =
      fold_window-IsBelow base done (state, reps) f in
    let short = apply_surface_event-grown done (event ∷ []) base state event seq below in
    let long = apply_surface_event-grown done (event ∷ rest) base state event seq below in
    let now : apply_surface_event state event (base + length done) (done ++ event ∷ []) base
        ≡ ok next =
      ap (λ n. apply_surface_event state event n (done ++ event ∷ []) base) (sym s)
      ∙ (short ∙ (sym long ∙ (ap (λ l. apply_surface_event state event seq l base) (sym e) ∙ q))) in
    fold_window-at (done ++ event ∷ []) base done (event ∷ []) (state, reps) refl f ∙ rw now refl

-- A pending plan is the plan of its event after the part of the log that was there when it was made.
abbrev pub PendingFits : ℕ → List SessionEvent → Option PendingPlan → Type 0
PendingFits base log none = Unit
PendingFits base log (some p) =
    (xs : List SessionEvent) × (ys : List SessionEvent) × (fold : SurfaceFold) × (log ≡ xs ++ ys)
    × (p.expected_seq ≡ base + length xs)
    × (fold_window base xs ≡ ok fold)
    × (plan_surface_event fold.0 p.event p.expected_seq xs base ≡ ok p.plan)

-- The manager holds the fold of the first part of the log.
pub record Mirrors (base : ℕ) (log : List SessionEvent) (m : SurfaceManager) : Type 0 where
  pub done : List SessionEvent
  pub rest : List SessionEvent
  pub replacements : List SurfaceFoldReplacement
  pub split : log ≡ done ++ rest
  pub next : m.next_seq ≡ base + length done
  pub folded : fold_window base done ≡ ok (m.state, replacements)
  pub fits : PendingFits base log m.pending

prefix_unique :
    {A : Type 0} (xs ys zs ws : List A) → xs ++ ys ≡ zs ++ ws → length xs ≡ length zs → xs ≡ zs
prefix_unique [] ys [] ws e l = refl
prefix_unique [] ys (z ∷ zs) ws e l = absurd (omega (arith, l))
prefix_unique (x ∷ xs) ys [] ws e l = absurd (omega (arith, l))
prefix_unique (x ∷ xs) ys (z ∷ zs) ws e l =
    let rest : xs ++ ys ≡ zs ++ ws = cc in
    let head : x ≡ z = cc in let tail = prefix_unique xs ys zs ws rest (omega (arith, l)) in cc

-- The manager and what its loop returns, against the fold of the whole log.
pub data Agrees (base : ℕ) (log : List SessionEvent)
    : SurfaceManager × Result SurfaceError (Unit {0}) → Type 0 where
  current :
      (m : SurfaceManager) (replacements : List SurfaceFoldReplacement)
      → Mirrors base log m
      → fold_window base log ≡ ok (m.state, replacements)
      → Agrees base log (m, ok tt)
  thrown :
      (m : SurfaceManager) (error : SurfaceError)
      → Mirrors base log m
      → fold_window base log ≡ err error
      → Agrees base log (m, err error)

kept-fits :
    (base : ℕ) (log : List SessionEvent) (pending : Option PendingPlan) (seq : ℕ)
    → PendingFits base log pending
    → PendingFits base log (kept_pending pending seq)
kept-fits base log none seq h = h
kept-fits base log (some p) seq h = elim (Bool-cases (leb p.expected_seq seq)) [
  | inl e ↦ rw e tt
  | inr e ↦ rw e h
]

module _ (same : SessionEvent → SessionEvent → Bool)
    (same-equal : (a b : SessionEvent) → same a b ≡ true → a ≡ b) where
  -- Whether it uses the pending plan or not, a round goes on as a new plan would.
  round_state-apply :
      (log : List SessionEvent) (base : ℕ) (state : SurfaceFoldState) (pending : Option PendingPlan)
      (event : SessionEvent) (seq : ℕ) (done rest : List SessionEvent)
      (replacements : List SurfaceFoldReplacement)
      → log ≡ done ++ rest
      → seq ≡ base + length done
      → fold_window base done ≡ ok (state, replacements)
      → PendingFits base log pending
      → round_state same log base state pending event seq
        ≡ apply_surface_event state event seq log base >>= (λ next. ok (next.0))
  unfolding round_state
  round_state-apply log base state none event seq done rest reps e s f fits = refl
  round_state-apply log base state (some p) event seq done rest reps e s f fits =
      elim (Bool-cases (same p.event event && p.expected_seq == seq)) [
        | inr n ↦ rw n refl
        | inl y ↦
            let (xs, ys, fold, split, at, folded, planned) = fits in
            let same_event : p.event ≡ event = same-equal p.event event (ground (arith, y)) in
            let same_seq : p.expected_seq ≡ seq = ground (arith, y) in
            let same_log : xs ≡ done =
              prefix_unique xs ys done rest (sym split ∙ e) (omega (arith, at, s, same_seq)) in
            let same_fold : ok fold ≡ ok (state, reps) =
              sym folded ∙ (ap (fold_window base) same_log ∙ f) in
            let same_state : fold.0 ≡ state = ground arith in
            let plan : plan_surface_event state event seq done base ≡ ok p.plan =
              cc (same_event, same_seq, same_log, same_state, planned) in
            let below : IsBelow (base + length done) state.nodes =
              fold_window-IsBelow base done (state, reps) f in
            let now : plan_surface_event state event seq log base ≡ ok p.plan =
              ap (λ l. plan_surface_event state event seq l base) e
              ∙ (plan_surface_event-grown done rest base state event seq below ∙ plan) in
            let applied : apply_surface_event state event seq log base
                ≡ ok (apply_surface_plan state p.plan) =
              apply_surface_event-planned state event seq log base p.plan now in
            rw (y, applied) refl
      ]

  -- The loop, where it stands at the event after `done`.
  pub process_rest-Agrees :
      (log : List SessionEvent) (base : ℕ) (m : SurfaceManager) (done rest : List SessionEvent)
      (replacements : List SurfaceFoldReplacement)
      → log ≡ done ++ rest
      → m.next_seq ≡ base + length done
      → fold_window base done ≡ ok (m.state, replacements)
      → PendingFits base log m.pending
      → Agrees base log (process_rest same log base m rest)
  unfolding process_rest fold_events
  process_rest-Agrees log base m done [] reps e s f fits =
      let whole : log ≡ done = e ∙ append-nil done in
      current m reps
        (record {
          done = done;
          rest = [];
          replacements = reps;
          split = e;
          next = s;
          folded = f;
          fits = fits;
        })
        (ap (fold_window base) whole ∙ f)
  process_rest-Agrees log base m done (event ∷ rest) reps e s f fits =
      let round =
        round_state-apply log base m.state m.pending event m.next_seq done (event ∷ rest) reps e s f
          fits in
      let whole = fold_window-at log base done (event ∷ rest) (m.state, reps) e f in
      elim (Result-cases (apply_surface_event m.state event m.next_seq log base)) [
        | inr (error, q) ↦
            let thrown_whole : fold_window base log ≡ err error =
              whole
              ∙ ap (λ n. fold_events log base n (m.state, reps) (event ∷ rest)) (sym s)
              ∙ rw (fold_events, q) refl in
            rw (round, q)
              (thrown m error
                (record {
                  done = done;
                  rest = event ∷ rest;
                  replacements = reps;
                  split = e;
                  next = s;
                  folded = f;
                  fits = fits;
                })
                thrown_whole)
        | inl ((state, next), q) ↦
            let on =
              process_rest-Agrees log base (after_round m state) (done ++ event ∷ []) rest
                (push_replacement reps next) (e ∙ sym (append_assoc done (event ∷ []) rest))
                (omega (arith, s, length-append done (event ∷ [])))
                (fold_window-snoc log base m.next_seq m.state event done rest reps (state, next) e s
                  f q)
                (kept-fits base log m.pending m.next_seq fits) in
            rw (round, q) on
      ]
