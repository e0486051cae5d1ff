-- ===== src/ChunkRows/Size.antt =====
-- How many records the encoder of chunk-rows.ts writes.
use agent_runtime_notes.Base.{
  Bool-cases, List, Option, Option-cases, [], arith, inl, inr, leb, length, length-append, none,
  refl, some, ℕ, ◌&&◌, ◌++◌, ◌+◌, ◌∷◌, ◌≡◌, ◌≤◌,
}
use agent_runtime_notes.ChunkRows.{
  ChunkEvent, DeltaKind, Packing, StorageRecord, StoredEvent, chunk_event, classify_chunk, extends,
  flushed, last_of, min_run, nothing_packed, other_event, pack_chunk_runs, pack_delta, pack_event,
  pack_events, put, same_kind, unpacked, verbatim,
}

length-unpacked : (run : List ChunkEvent) → length (unpacked run) ≡ length run
length-unpacked [] = refl
length-unpacked (event ∷ events) = omega (arith, length-unpacked events)

length-flushed :
    (kind : Option DeltaKind) (run : List ChunkEvent) → length (flushed kind run) ≤ length run
unfolding flushed
length-flushed none run = omega (arith, length-unpacked run)
length-flushed (some k) [] = omega arith
length-flushed (some k) (first ∷ rest) = elim (Bool-cases (leb min_run (length (first ∷ rest)))) [
  | inl long ↦ rw long (omega arith)
  | inr short ↦ rw short (omega (arith, length-unpacked rest))
]

length-put :
    (p : Packing) (records : List StorageRecord)
    → length (put p records).out ≤ length p.out + length p.run + length records
length-put p records = omega (
  arith,
  length-flushed p.kind p.run,
  length-append p.out (flushed p.kind p.run ++ records),
  length-append (flushed p.kind p.run) records,
)

-- One record at most for each event so far, those of the run in hand left.
abbrev size : Packing → ℕ
size p = length p.out + length p.run

size-pack_delta :
    (p : Packing) (delta : ChunkEvent) (k : DeltaKind) → size (pack_delta p delta k) ≤ size p + 1
size-pack_delta p delta k =
    elim (Bool-cases (same_kind k p.kind && extends (last_of p.run) delta k)) [
      | inl e ↦ rw e (omega (arith, length-append p.run (delta ∷ [])))
      | inr e ↦ rw e (omega (arith, length-put p []))
    ]

size-pack_event : (p : Packing) (event : StoredEvent) → size (pack_event p event) ≤ size p + 1
unfolding pack_event
size-pack_event p (other_event json) =
    omega (arith, length-put p (verbatim (other_event json) ∷ []))
size-pack_event p (chunk_event event) = elim (Option-cases (classify_chunk event)) [
  | inl c ↦ rw c (omega (arith, length-put p (verbatim (chunk_event event) ∷ [])))
  | inr (k, c) ↦ rw c (size-pack_delta p event k)
]

size-pack_events :
    (p : Packing) (events : List StoredEvent) → size (pack_events p events) ≤ size p + length events
unfolding pack_events
size-pack_events p [] = omega arith
size-pack_events p (event ∷ events) =
    omega (arith, size-pack_event p event, size-pack_events (pack_event p event) events)

-- The encoder never writes more records than it has been given events.
pub length-pack_chunk_runs :
    (events : List StoredEvent) → length (pack_chunk_runs events) ≤ length events
unfolding pack_chunk_runs
length-pack_chunk_runs events = omega (
  arith,
  length-put (pack_events nothing_packed events) [],
  size-pack_events nothing_packed events,
)
