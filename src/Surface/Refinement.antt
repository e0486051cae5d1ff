-- ===== src/Surface/Refinement.antt =====
-- One event's transition of the surface as a relation, and the code of surface.ts against it.
use agent_runtime_notes.Base.{
  Bool, List, Option, [], arith, drop, false, get_elem?, inl, none, ok, some, spliced, take, true,
  ℕ, ◌++◌, ◌+◌, ◌<◌, ◌==◌, ◌||◌, ◌∷◌, ◌≡◌, ◌⊎◌, Option-cases, ap, if◌then◌else◌, inr, leb, not, suc,
  zero, ◌&&◌, ◌∙◌, Bool-cases, Result-cases, sym, refl, ◌-◌, ◌≤◌, count, ok-injective,
}
use agent_runtime_notes.Session.{
  SessionEvent, cited, SourceSeqs, not_array, SurfaceOp, append, not_object, not_replace, replace,
}
use agent_runtime_notes.Surface.{
  SurfaceFoldReplacement, SurfaceFoldState, is_surface_eligible_type, is_defined, ReplacementRange,
  SurfacePlan, marked_op, replace_plan, surface_op_of, append_plan, no_plan,
}
use agent_runtime_notes.Surface.Provenance.{
  includes, index_in, read_sources, assert_provenance, includes_all, replacement_range, sources_of,
  range_between,
}
use agent_runtime_notes.Surface.Planning.{
  apply_surface_event, apply_surface_plan, plan_op, plan_surface_event,
}
use agent_runtime_notes.Session.Repair.{last}
use mathlib.Core.Path.{subst}

abbrev pub is_cited : List (Option ℕ) → ℕ → Bool
is_cited [] n = false
is_cited (none ∷ raw) n = is_cited raw n
is_cited (some source ∷ raw) n = source == n || is_cited raw n

-- The event cites the sequence number, which is an earlier one.
abbrev pub Cites : SessionEvent → ℕ → Type 0
Cites event n =
    (n < event.seq)
    × (raw : List (Option ℕ)) × (event.source_event_seqs ≡ some (cited raw))
    × (is_cited raw n ≡ true)

abbrev pub replaced : SurfaceFoldState → ℕ → ℕ → ℕ → SurfaceFoldState
replaced state seq start count = record {
  nodes = spliced state.nodes start count (seq ∷ []);
  replace_generation = state.replace_generation + 1;
}

abbrev pub replacement_of : (seq start end : ℕ) → List ℕ → SurfaceFoldReplacement
replacement_of seq start end shadowed = record {
  seq = seq;
  start = start;
  end = end;
  shadowed_seqs = shadowed;
}

-- An event leaves the surface, joins its end, or takes the place of a run of nodes that it cites.
pub data Steps (state : SurfaceFoldState) (event : SessionEvent)
    : SurfaceFoldState → Option SurfaceFoldReplacement → Type 0 where
  skips : is_surface_eligible_type event.body ≡ false → Steps state event state none
  appends :
      is_surface_eligible_type event.body ≡ true
      → event.surface_op ≡ some append
      → Steps state event (record state { nodes = state.nodes ++ event.seq ∷ [] }) none
  replaces :
      (start end i k : ℕ)
      → is_surface_eligible_type event.body ≡ true
      → event.surface_op ≡ some (replace start end)
      → get_elem? state.nodes i ≡ some start
      → get_elem? state.nodes (i + k) ≡ some end
      → ((n : ℕ) → includes (take (k + 1) (drop i state.nodes)) n ≡ true → Cites event n)
      → Steps state event
          (replaced state event.seq i (k + 1))
          (some (replacement_of event.seq start end (take (k + 1) (drop i state.nodes))))

index_in-found : (xs : List ℕ) (n i : ℕ) → index_in xs n ≡ some i → get_elem? xs i ≡ some n
unfolding index_in
index_in-found [] n i h = absurd (ground arith)
index_in-found (x ∷ xs) n zero h = elim (Option-cases (index_in xs n)) [
  | inl e ↦ ground (arith, e)
  | inr (j, e) ↦ ground (arith, e)
]
index_in-found (x ∷ xs) n (suc i) h = elim (Option-cases (index_in xs n)) [
  | inl e ↦ absurd (ground (arith, e))
  | inr (j, e) ↦ let q : j ≡ i = ground (arith, e) in index_in-found xs n i (e ∙ ap (λ k. some k) q)
]

read_sources-on_time :
    (seq : ℕ) (raw : List (Option ℕ)) (sources kept : List ℕ) (late : Option ℕ)
    → read_sources seq raw sources late ≡ ok (kept, none)
    → late ≡ none
unfolding read_sources
read_sources-on_time seq [] sources kept late h = ground arith
read_sources-on_time seq (none ∷ raw) sources kept late h = absurd (ground arith)
read_sources-on_time seq (some source ∷ raw) sources kept late h =
    let later =
      read_sources-on_time seq raw (if includes sources source then sources else source ∷ sources)
        kept (if not (is_defined late) && leb seq source then some source else late) in
    ground arith

-- A source that the loop has kept is cited and earlier, when none was found that is not.
read_sources-cites :
    (seq : ℕ) (raw : List (Option ℕ)) (sources kept : List ℕ) (late : Option ℕ) (n : ℕ)
    → read_sources seq raw sources late ≡ ok (kept, none)
    → includes kept n ≡ true
    → (includes sources n ≡ true) ⊎ ((is_cited raw n ≡ true) × (n < seq))
unfolding read_sources
read_sources-cites seq [] sources kept late n h i = inl (ground arith)
read_sources-cites seq (none ∷ raw) sources kept late n h i = absurd (ground arith)
read_sources-cites seq (some source ∷ raw) sources kept late n h i =
    let sources' = if includes sources source then sources else source ∷ sources in
    let late' = if not (is_defined late) && leb seq source then some source else late in
    let on_time = read_sources-on_time seq raw sources' kept late' in
    let rest = read_sources-cites seq raw sources' kept late' n in ground arith

includes-of-all :
    (sources seqs : List ℕ) (n : ℕ)
    → includes_all sources seqs ≡ true
    → includes seqs n ≡ true
    → includes sources n ≡ true
includes-of-all sources [] n h i = absurd (ground arith)
includes-of-all sources (seq ∷ seqs) n h i =
    let rest = includes-of-all sources seqs n in
    let here : (seq == n) ≡ true → seq ≡ n = λ e. ground arith in
    elim (Bool-cases (seq == n)) [
      | inl e ↦ ap (includes sources) (sym (here e)) ∙ ground arith
      | inr e ↦ rest (ground arith) (ground arith)
    ]

sources_of-Cites :
    (event : SessionEvent) (raw : Option SourceSeqs) (sources : List ℕ) (n : ℕ)
    → sources_of event raw ≡ ok sources
    → includes sources n ≡ true
    → (xs : List (Option ℕ)) × (raw ≡ some (cited xs)) × (is_cited xs n ≡ true) × (n < event.seq)
unfolding sources_of
sources_of-Cites event none sources n h i = absurd (ground arith)
sources_of-Cites event (some not_array) sources n h i = absurd (ground arith)
sources_of-Cites event (some (cited xs)) sources n h i =
    elim (Result-cases (read_sources event.seq xs [] none)) [
      | inr (e, q) ↦ absurd (ground (arith, q))
      | inl ((kept, late), q) ↦
          let on_time : late ≡ none = ground (arith, q) in
          let same : kept ≡ sources = ground (arith, q) in
          let q' : read_sources event.seq xs [] none ≡ ok (kept, none) =
            q ∙ ap (λ l. ok (kept, l)) on_time in
          let held : includes kept n ≡ true = ap (λ s. includes s n) same ∙ i in
          elim (read_sources-cites event.seq xs [] kept none n q' held) [
            | inl e ↦ absurd (ground arith)
            | inr (c, l) ↦ (xs, refl, c, l)
          ]
    ]

assert_provenance-Cites :
    (event : SessionEvent) (seqs : List ℕ) (n : ℕ)
    → assert_provenance event seqs ≡ ok tt
    → includes seqs n ≡ true
    → Cites event n
unfolding assert_provenance
assert_provenance-Cites event seqs n h i =
    elim (Result-cases (sources_of event event.source_event_seqs)) [
      | inr (e, q) ↦ absurd (ground (arith, q))
      | inl (sources, q) ↦
          let all : includes_all sources seqs ≡ true = ground (arith, q) in
          let held = includes-of-all sources seqs n all i in
          let (xs, e, c, l) = sources_of-Cites event event.source_event_seqs sources n q held in
          (l, xs, e, c)
    ]

range_between-ok :
    (nodes : List ℕ) (start end i j : ℕ) (range : ReplacementRange)
    → index_in nodes start ≡ some i
    → index_in nodes end ≡ some j
    → range_between nodes i (some j) ≡ ok range
    → (k : ℕ) × (get_elem? nodes range.start_idx ≡ some start)
      × (get_elem? nodes (range.start_idx + k) ≡ some end)
      × (range.end_idx ≡ range.start_idx + k)
      × (range.shadowed_seqs ≡ take (k + 1) (drop range.start_idx nodes))
range_between-ok nodes start end i j range a b h =
    let first : range.start_idx ≡ i = ground arith in
    let last : range.end_idx ≡ j = ground arith in
    let ordered : i ≤ j = ground arith in
    let sum : i + (j - i) ≡ j = omega (arith, ordered) in
    let size : j + 1 - i ≡ j - i + 1 = omega (arith, ordered) in
    let held : range.shadowed_seqs ≡ take (j + 1 - i) (drop i nodes) = ground arith in
    (
      j - i,
      ap (get_elem? nodes) first ∙ index_in-found nodes start i a,
      ap (λ m. get_elem? nodes (m + (j - i))) first
          ∙ (ap (get_elem? nodes) sum ∙ index_in-found nodes end j b),
      omega (arith, first, last, sum),
      held
          ∙ (ap (λ c. take c (drop i nodes)) size
              ∙ ap (λ m. take (j - i + 1) (drop m nodes)) (sym first)),
    )

pub replacement_range-ok :
    (state : SurfaceFoldState) (start end : ℕ) (range : ReplacementRange)
    → replacement_range state start end ≡ ok range
    → (k : ℕ) × (get_elem? state.nodes range.start_idx ≡ some start)
      × (get_elem? state.nodes (range.start_idx + k) ≡ some end)
      × (range.end_idx ≡ range.start_idx + k)
      × (range.shadowed_seqs ≡ take (k + 1) (drop range.start_idx state.nodes))
unfolding replacement_range
replacement_range-ok state start end range h = elim (Option-cases (index_in state.nodes start)) [
  | inl e ↦ absurd (ground (arith, e))
  | inr (i, e) ↦ elim (Option-cases (index_in state.nodes end)) [
    | inl d ↦ absurd (ground (arith, d, e))
    | inr (j, d) ↦ range_between-ok state.nodes start end i j range e d (rw (e, d) at h)
  ]
]

-- What `surface_op_of` lets through for an eligible event, and for no other.
abbrev passes : Option SurfaceOp → Bool
passes (some append) = true
passes (some (replace start end)) = true
passes op = false

marked_op-passes :
    (raw : Option SurfaceOp) (op : Option SurfaceOp) → marked_op raw ≡ ok op → passes op ≡ true
unfolding marked_op
marked_op-passes none op h = absurd (ground arith)
marked_op-passes (some append) op h = ap passes (sym (ok-injective (some append) op h))
marked_op-passes (some not_object) op h = absurd (ground arith)
marked_op-passes (some not_replace) op h = absurd (ground arith)
marked_op-passes (some (replace start end)) op h =
    let q : some (replace start end) ≡ op = ground arith in ap passes (sym q)

pub marked_op-same : (raw op : Option SurfaceOp) → marked_op raw ≡ ok op → raw ≡ op
unfolding marked_op
marked_op-same none op h = absurd (ground (arith, h))
marked_op-same (some append) op h = ok-injective _ op h
marked_op-same (some not_object) op h = absurd (ground (arith, h))
marked_op-same (some not_replace) op h = absurd (ground (arith, h))
marked_op-same (some (replace start end)) op h = ground (arith, h)

-- The operation that is planned is the one that the event is marked with.
surface_op_of-marked :
    (event : SessionEvent) (op : Option SurfaceOp)
    → surface_op_of event ≡ ok op
    → passes op ≡ true
    → event.surface_op ≡ op
unfolding surface_op_of
surface_op_of-marked event op h p = elim (Bool-cases (is_surface_eligible_type event.body)) [
  | inl e ↦ marked_op-same event.surface_op op (rw e at h)
  | inr e ↦
      let nothing : none ≡ op = ground (arith, e) in
      let refused : false ≡ passes op = ap passes nothing in absurd (ground (arith, p, refused))
]

surface_op_of-passes :
    (event : SessionEvent) (op : Option SurfaceOp)
    → surface_op_of event ≡ ok op
    → is_surface_eligible_type event.body ≡ passes op
unfolding surface_op_of
surface_op_of-passes event op h = elim (Bool-cases (is_surface_eligible_type event.body)) [
  | inl e ↦ e ∙ sym (marked_op-passes event.surface_op op (rw e at h))
  | inr e ↦ let q : none ≡ op = ground (arith, e) in e ∙ ap passes q
]

-- A transition, given as the pair that the code gives.
abbrev pub IsStep :
    SurfaceFoldState → SessionEvent → SurfaceFoldState × Option SurfaceFoldReplacement → Type 0
IsStep state event (next, replacement) = Steps state event next replacement

replaced-IsStep :
    (state : SurfaceFoldState) (event : SessionEvent) (start end : ℕ) (range : ReplacementRange)
    → is_surface_eligible_type event.body ≡ true
    → event.surface_op ≡ some (replace start end)
    → replacement_range state start end ≡ ok range
    → assert_provenance event range.shadowed_seqs ≡ ok tt
    → IsStep state event (apply_surface_plan state (replace_plan event.seq start end range))
unfolding apply_surface_plan
replaced-IsStep state event start end range eligible marked found provided =
    let (k, first, last, span, held) = replacement_range-ok state start end range found in
    let size : k + 1 ≡ range.end_idx - range.start_idx + 1 = omega (arith, span) in
    subst
      (λ s.
        Steps state event
          (replaced state event.seq range.start_idx (range.end_idx - range.start_idx + 1))
          (some (replacement_of event.seq start end s)))
      (sym held)
      (subst
        (λ c. Steps state event (replaced state event.seq range.start_idx c) (
          some
            (replacement_of event.seq start end (take (k + 1) (drop range.start_idx state.nodes)))))
        size
        (replaces start end range.start_idx k eligible marked first last λ n i.
          assert_provenance-Cites event range.shadowed_seqs n provided
            (ap (λ s. includes s n) held ∙ i)))

plan_op-IsStep :
    (state : SurfaceFoldState) (event : SessionEvent) (events : List SessionEvent) (base : ℕ)
    (op : Option SurfaceOp) (plan : SurfacePlan)
    → is_surface_eligible_type event.body ≡ passes op
    → (passes op ≡ true → event.surface_op ≡ op)
    → plan_op state event events base op ≡ ok plan
    → IsStep state event (apply_surface_plan state plan)
unfolding plan_op apply_surface_plan
plan_op-IsStep state event events base none plan e m h =
    subst (λ p. IsStep state event (apply_surface_plan state p)) (ok-injective no_plan plan h)
      (skips e)
plan_op-IsStep state event events base (some append) plan e m h =
    let q : append_plan event.seq ≡ plan = ground arith in
    subst (λ p. IsStep state event (apply_surface_plan state p)) q (appends e (m refl))
plan_op-IsStep state event events base (some not_object) plan e m h =
    subst (λ p. IsStep state event (apply_surface_plan state p)) (ok-injective no_plan plan h)
      (skips e)
plan_op-IsStep state event events base (some not_replace) plan e m h =
    subst (λ p. IsStep state event (apply_surface_plan state p)) (ok-injective no_plan plan h)
      (skips e)
plan_op-IsStep state event events base (some (replace start end)) plan e m h =
    elim (Result-cases (replacement_range state start end)) [
      | inr (thrown, r) ↦ absurd (ground (arith, r))
      | inl (range, r) ↦
          let provided : assert_provenance event range.shadowed_seqs ≡ ok tt = ground (arith, r) in
          let q : replace_plan event.seq start end range ≡ plan = ground (arith, r) in
          subst (λ p. IsStep state event (apply_surface_plan state p)) q
            (replaced-IsStep state event start end range e (m refl) r provided)
    ]

-- When an event is applied to a surface, it has the expected sequence number, and the surface goes
-- on by a transition of the relation that fits the operation it is marked with: an event that
-- cannot join the surface leaves it; one that is marked to append puts its number last; and one
-- that is marked to replace from a start to an end puts its number in the place of a run of nodes
-- from that start to that end, every entry of which it cites as an earlier event, and counts one
-- generation more.
pub apply_surface_event-IsStep :
    (state : SurfaceFoldState) (event : SessionEvent) (seq : ℕ) (events : List SessionEvent)
    (base : ℕ) (next : SurfaceFoldState × Option SurfaceFoldReplacement)
    → apply_surface_event state event seq events base ≡ ok next
    → (event.seq ≡ seq) × IsStep state event next
unfolding apply_surface_event plan_surface_event
apply_surface_event-IsStep state event seq events base next h =
    elim (Result-cases (surface_op_of event)) [
      | inr (thrown, o) ↦ absurd (ground (arith, o))
      | inl (op, o) ↦ elim (Result-cases (plan_op state event events base op)) [
        | inr (thrown, p) ↦ absurd (ground (arith, o, p))
        | inl (plan, p) ↦
            let q : apply_surface_plan state plan ≡ next = ground (arith, o, p) in
            let s : event.seq ≡ seq = ground (arith, o, p) in
            (
              s,
              subst (IsStep state event) q (
                  plan_op-IsStep state event events base op plan (surface_op_of-passes event op o)
                    (surface_op_of-marked event op o) p),
            )
      ]
    ]
