-- ===== src/Surface/Prefixes.antt =====
-- The surface of a log that has grown since: `planSurfaceEvent` and `foldSurface` of surface.ts.
use agent_runtime_notes.Base.{
  Bool-cases, List, Option, Result-cases, [], ap, arith, drop, get_elem?, inl, inr, leb, length,
  none, ok, refl, some, suc, throw_unless, zero, ℕ, ◌++◌, ◌+◌, ◌-◌, ◌<◌, ◌==◌, ◌>>=◌, ◌>>◌, ◌∷◌,
  ◌≡◌, Option-cases, ◌∙◌, ◌≤◌,
}
use agent_runtime_notes.Session.{
  SessionEvent, SurfaceOp, ToolResult, append, not_object, not_replace, replace,
}
use agent_runtime_notes.Surface.{
  SurfaceFoldState, not_contiguous, replace_plan, surface_op_of, SurfaceFoldReplacement,
  create_fold_state,
}
use agent_runtime_notes.Surface.Planning.{
  apply_surface_event, apply_surface_plan, plan_op, plan_surface_event, SurfaceFold, fold_events,
  fold_window, push_replacement,
}
use agent_runtime_notes.Surface.Provenance.{
  assert_provenance, assert_rewrite_of, assert_tool_result_rewrite, event_at, replacement_range,
  rewrites, tool_result_of,
}
use agent_runtime_notes.Session.Repair.{last}
use agent_runtime_notes.Surface.Counting.{occurrences, occurrences-take-drop}
use agent_runtime_notes.Surface.Refinement.{replacement_range-ok, Steps, apply_surface_event-IsStep}
use agent_runtime_notes.Surface.Accounts.{
  Steps-occurrences, fold_events-occurrences, fold_events-seqs,
}

get_elem?-append :
    {A : Type 0} (xs ys : List A) (i : ℕ) → i < length xs → get_elem? (xs ++ ys) i ≡ get_elem? xs i
get_elem?-append [] ys i h = absurd (omega arith)
get_elem?-append (x ∷ xs) ys zero h = refl
get_elem?-append (x ∷ xs) ys (suc i) h = get_elem?-append xs ys i (omega arith)

-- Every node is below the bound.
abbrev pub IsBelow : ℕ → List ℕ → Type 0
IsBelow bound nodes = (n : ℕ) → 0 < occurrences n nodes → n < bound

module _ (events more : List SessionEvent) (base : ℕ) where
  event_at-grown :
      (n : ℕ) → n < base + length events → event_at (events ++ more) base n ≡ event_at events base n
  unfolding event_at
  event_at-grown n h = elim (Bool-cases (leb base n)) [
    | inl e ↦
        let inside : n - base < length events = ground (arith, e) in
        rw e (get_elem?-append events more (n - base) inside)
    | inr e ↦ rw e refl
  ]

  assert_rewrite_of-grown :
      (result : ToolResult) (seqs : List ℕ)
      → IsBelow (base + length events) seqs
      → assert_rewrite_of result seqs (events ++ more) base
        ≡ assert_rewrite_of result seqs events base
  unfolding assert_rewrite_of
  assert_rewrite_of-grown result [] h = refl
  assert_rewrite_of-grown result (n ∷ []) h =
      ap (λ e. rewrites e result) (event_at-grown n (h n (ground arith)))
  assert_rewrite_of-grown result (n ∷ m ∷ seqs) h = refl

  assert_tool_result_rewrite-grown :
      (event : SessionEvent) (seqs : List ℕ)
      → IsBelow (base + length events) seqs
      → assert_tool_result_rewrite event seqs (events ++ more) base
        ≡ assert_tool_result_rewrite event seqs events base
  unfolding assert_tool_result_rewrite
  assert_tool_result_rewrite-grown event seqs h = elim (Option-cases (tool_result_of event.body)) [
    | inl q ↦ rw (q, assert_tool_result_rewrite) refl
    | inr (result, q) ↦ rw (q, assert_tool_result_rewrite) (assert_rewrite_of-grown result seqs h)
  ]

  plan_op-grown :
      (state : SurfaceFoldState) (event : SessionEvent) (op : Option SurfaceOp)
      → IsBelow (base + length events) state.nodes
      → plan_op state event (events ++ more) base op ≡ plan_op state event events base op
  unfolding plan_op
  plan_op-grown state event none h = refl
  plan_op-grown state event (some append) h = refl
  plan_op-grown state event (some not_object) h = refl
  plan_op-grown state event (some not_replace) h = refl
  plan_op-grown state event (some (replace start end)) h =
      elim (Result-cases (replacement_range state start end)) [
        | inr (thrown, q) ↦ rw q refl
        | inl (range, q) ↦
            let (k, first, last, span, held) = replacement_range-ok state start end range q in
            let below : IsBelow (base + length events) range.shadowed_seqs = λ n p. h n (
              omega (
                arith,
                ap (occurrences n) held,
                occurrences-take-drop n range.start_idx state.nodes,
                occurrences-take-drop n (k + 1) (drop range.start_idx state.nodes),
              )) in
            rw q (
              ap
                (λ checked.
                  assert_provenance event range.shadowed_seqs
                  >> (checked >> ok (replace_plan event.seq start end range)))
                (assert_tool_result_rewrite-grown event range.shadowed_seqs below))
      ]

  pub plan_surface_event-grown :
      (state : SurfaceFoldState) (event : SessionEvent) (seq : ℕ)
      → IsBelow (base + length events) state.nodes
      → plan_surface_event state event seq (events ++ more) base
        ≡ plan_surface_event state event seq events base
  unfolding plan_surface_event
  plan_surface_event-grown state event seq h = elim (Result-cases (surface_op_of event)) [
    | inr (thrown, q) ↦ rw q refl
    | inl (op, q) ↦ rw q (
        ap (λ r. throw_unless (event.seq == seq) not_contiguous >> r)
          (plan_op-grown state event op h))
  ]

  pub apply_surface_event-grown :
      (state : SurfaceFoldState) (event : SessionEvent) (seq : ℕ)
      → IsBelow (base + length events) state.nodes
      → apply_surface_event state event seq (events ++ more) base
        ≡ apply_surface_event state event seq events base
  unfolding apply_surface_event
  apply_surface_event-grown state event seq h =
      ap (λ r. r >>= λ plan. ok (apply_surface_plan state plan))
        (plan_surface_event-grown state event seq h)

Steps-IsBelow :
    (state next : SurfaceFoldState) (event : SessionEvent) (seq : ℕ)
    (replacement : Option SurfaceFoldReplacement)
    → event.seq ≡ seq
    → Steps state event next replacement
    → IsBelow seq state.nodes
    → IsBelow (seq + 1) next.nodes
Steps-IsBelow state next event seq replacement s step h n p =
    let account = Steps-occurrences n state next event replacement [] step in
    let old = h n in ground arith

-- What the loop of `foldSurface` does with events that it has already seen does not depend on
-- the events that come after them.
pub fold_events-grown :
    (events more : List SessionEvent) (base seq : ℕ) (fold : SurfaceFold) (rest : List SessionEvent)
    → seq + length rest ≤ base + length events
    → IsBelow seq fold.0.nodes
    → fold_events (events ++ more) base seq fold rest ≡ fold_events events base seq fold rest
unfolding fold_events
fold_events-grown events more base seq fold [] l h = refl
fold_events-grown events more base seq fold (event ∷ rest) l h =
    let below : IsBelow (base + length events) fold.0.nodes = λ n p. omega (arith, h n p, l) in
    let same = apply_surface_event-grown events more base fold.0 event seq below in
    elim (Result-cases (apply_surface_event fold.0 event seq events base)) [
      | inr (thrown, q) ↦ rw (same, q) refl
      | inl ((state, next), q) ↦
          let (s, step) = apply_surface_event-IsStep fold.0 event seq events base (state, next) q in
          rw (same, q)
            (fold_events-grown events more base (seq + 1) (state, push_replacement fold.1 next) rest
              (omega (arith, l)) (Steps-IsBelow fold.0 state event seq next s step h))
    ]

pub fold_events-append :
    (events : List SessionEvent) (base seq : ℕ) (fold : SurfaceFold) (xs ys : List SessionEvent)
    → fold_events events base seq fold (xs ++ ys)
      ≡ fold_events events base seq fold xs
        >>= (λ f. fold_events events base (seq + length xs) f ys)
unfolding fold_events
fold_events-append events base seq fold [] ys =
    ap (λ n. fold_events events base n fold ys) (omega arith)
fold_events-append events base seq fold (event ∷ xs) ys =
    elim (Result-cases (apply_surface_event fold.0 event seq events base)) [
      | inr (thrown, q) ↦ rw q refl
      | inl ((state, next), q) ↦
          let later =
            fold_events-append events base (seq + 1) (state, push_replacement fold.1 next) xs ys in
          let count : seq + 1 + length xs ≡ seq + suc (length xs) = omega arith in
          rw (q, later, count) refl
    ]

pub fold_window-append :
    (base : ℕ) (xs ys : List SessionEvent)
    → fold_window base (xs ++ ys)
      ≡ fold_window base xs >>= (λ f. fold_events (xs ++ ys) base (base + length xs) f ys)
unfolding fold_window
fold_window-append base xs ys =
    fold_events-append (xs ++ ys) base base (create_fold_state, []) xs ys
    ∙ ap (λ r. r >>= (λ f. fold_events (xs ++ ys) base (base + length xs) f ys))
        (fold_events-grown xs ys base base (create_fold_state, []) xs (omega arith)
          λ n p. absurd (omega arith))

pub fold_window-IsBelow :
    (base : ℕ) (xs : List SessionEvent) (fold : SurfaceFold)
    → fold_window base xs ≡ ok fold
    → IsBelow (base + length xs) fold.0.nodes
unfolding fold_window
fold_window-IsBelow base xs fold h n p =
    let start : SurfaceFold = (create_fold_state, []) in
    let all = fold_events-occurrences n xs base base start fold xs h in
    let (once, within) = fold_events-seqs n xs base base start fold xs h in
    let (least, most) = within (omega (arith, all, p)) in most
