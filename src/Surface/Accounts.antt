-- ===== src/Surface/Accounts.antt =====
-- What becomes of the events of a log on its surface: `foldSurface` of surface.ts.
use agent_runtime_notes.Base.{
  List, Option, Result-cases, [], ap, arith, if◌then◌else◌, inl, inr, length, none, ok,
  ok-injective, some, ℕ, ◌++◌, ◌+◌, ◌<◌, ◌∷◌, ◌≡◌, ◌≤◌,
}
use agent_runtime_notes.Session.{SessionEvent}
use agent_runtime_notes.Surface.Refinement.{
  Steps, apply_surface_event-IsStep, appends, replaces, skips,
}
use agent_runtime_notes.Surface.Planning.{
  SurfaceFold, fold_events, fold_surface, fold_window, push_replacement,
}
use agent_runtime_notes.Surface.{
  SurfaceFoldReplacement, SurfaceFoldState, is_surface_eligible_type, create_fold_state,
}
use agent_runtime_notes.Surface.Counting.{occurrences, occurrences-append, occurrences-spliced}
use agent_runtime_notes.Surface.Growth.{fold_events-cons}

abbrev pub shadowed_by : Option SurfaceFoldReplacement → List ℕ
shadowed_by none = []
shadowed_by (some replacement) = replacement.shadowed_seqs

abbrev pub all_shadowed : List SurfaceFoldReplacement → List ℕ
all_shadowed [] = []
all_shadowed (replacement ∷ replacements) = replacement.shadowed_seqs ++ all_shadowed replacements

-- The sequence numbers of the events that can join the surface.
abbrev pub surface_seqs : List SessionEvent → List ℕ
surface_seqs [] = []
surface_seqs (event ∷ events) =
    if is_surface_eligible_type event.body
    then event.seq ∷ surface_seqs events
    else surface_seqs events

push_replacement-shadowed :
    (n : ℕ) (replacements : List SurfaceFoldReplacement) (next : Option SurfaceFoldReplacement)
    → occurrences n (all_shadowed (push_replacement replacements next))
      ≡ occurrences n (all_shadowed replacements) + occurrences n (shadowed_by next)
push_replacement-shadowed n replacements none = omega arith
push_replacement-shadowed n [] (some r) = omega (arith, occurrences-append n r.shadowed_seqs [])
push_replacement-shadowed n (x ∷ xs) (some r) = omega (
  arith,
  push_replacement-shadowed n xs (some r),
  occurrences-append n x.shadowed_seqs (all_shadowed xs),
  occurrences-append n x.shadowed_seqs (all_shadowed (xs ++ r ∷ [])),
)

pub Steps-occurrences :
    (n : ℕ) (state next : SurfaceFoldState) (event : SessionEvent)
    (replacement : Option SurfaceFoldReplacement) (events : List SessionEvent)
    → Steps state event next replacement
    → occurrences n next.nodes
        + occurrences n (shadowed_by replacement)
        + occurrences n (surface_seqs events)
      ≡ occurrences n state.nodes + occurrences n (surface_seqs (event ∷ events))
Steps-occurrences n state next event replacement events (skips e) = rw e (omega arith)
Steps-occurrences n state next event replacement events (appends e m) =
    rw e (omega (arith, occurrences-append n state.nodes (event.seq ∷ [])))
Steps-occurrences n state next event replacement events (replaces start end i k e m a b c) =
    rw e (omega (arith, occurrences-spliced n state.nodes i (k + 1) (event.seq ∷ [])))

pub fold_events-occurrences :
    (n : ℕ) (events : List SessionEvent) (base seq : ℕ) (fold out : SurfaceFold)
    (rest : List SessionEvent)
    → fold_events events base seq fold rest ≡ ok out
    → occurrences n out.0.nodes + occurrences n (all_shadowed out.1)
      ≡ occurrences n fold.0.nodes
        + occurrences n (all_shadowed fold.1)
        + occurrences n (surface_seqs rest)
unfolding fold_events
fold_events-occurrences n events base seq fold out [] h =
    let q = ok-injective fold out h in
    let nodes = ap (λ f. occurrences n f.0.nodes) q in
    let shadowed = ap (λ f. occurrences n (all_shadowed f.1)) q in omega (arith, nodes, shadowed)
fold_events-occurrences n events base seq fold out (event ∷ rest) h =
    let ((state, next), q, h') = fold_events-cons events base seq fold out event rest h in
    let (s, step) = apply_surface_event-IsStep fold.0 event seq events base (state, next) q in
    let pushed = push_replacement fold.1 next in
    let later = fold_events-occurrences n events base (seq + 1) (state, pushed) out rest h' in
    let stepped = Steps-occurrences n fold.0 state event next rest step in
    let noted = push_replacement-shadowed n fold.1 next in omega (arith, later, stepped, noted)

-- Where every event has its place for sequence number, a number is that of the event there.
pub fold_events-seqs :
    (n : ℕ) (events : List SessionEvent) (base seq : ℕ) (fold out : SurfaceFold)
    (rest : List SessionEvent)
    → fold_events events base seq fold rest ≡ ok out
    → occurrences n (surface_seqs rest) ≤ 1
      × (0 < occurrences n (surface_seqs rest) → (seq ≤ n) × (n < seq + length rest))
unfolding fold_events
fold_events-seqs n events base seq fold out [] h = (omega arith, λ p. absurd (omega arith))
fold_events-seqs n events base seq fold out (event ∷ rest) h =
    let ((state, next), q, h') = fold_events-cons events base seq fold out event rest h in
    let (s, step) = apply_surface_event-IsStep fold.0 event seq events base (state, next) q in
    let pushed = push_replacement fold.1 next in
    let (once, within) = fold_events-seqs n events base (seq + 1) (state, pushed) out rest h' in
    ground arith

-- When the fold takes a log, every sequence number occurs among the nodes and the shadowed entries
-- of the replacements together as often as among the sequence numbers of the events that can join
-- the surface, which is at most once.
pub fold_surface-occurrences :
    (events : List SessionEvent) (nodes : List ℕ) (replacements : List SurfaceFoldReplacement)
    (n : ℕ)
    → fold_surface events ≡ ok (nodes, replacements)
    → (occurrences n nodes + occurrences n (all_shadowed replacements)
        ≡ occurrences n (surface_seqs events))
      × (occurrences n (surface_seqs events) ≤ 1)
unfolding fold_surface fold_window
fold_surface-occurrences events nodes replacements n h =
    elim (Result-cases (fold_window 0 events)) [
      | inr (thrown, q) ↦ absurd (ground (arith, q))
      | inl (fold, q) ↦
          let shown : fold.0.nodes ≡ nodes = ground (arith, q) in
          let noted : fold.1 ≡ replacements = ground (arith, q) in
          let start : SurfaceFold = (create_fold_state, []) in
          let all = fold_events-occurrences n events 0 0 start fold events q in
          let (once, within) = fold_events-seqs n events 0 0 start fold events q in
          (
            omega (
              arith,
              all,
              ap (occurrences n) shown,
              ap (λ r. occurrences n (all_shadowed r)) noted,
            ),
            once,
          )
    ]
