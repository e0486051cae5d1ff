-- ===== src/ChunkRows/Lossless.antt =====
-- What the encoder of chunk-rows.ts writes, read back by its decoder.
use agent_runtime_notes.Base.{
  Bool-cases, List, Option, Result, Result-cases, [], add-sub_cancel, ap, append_assoc, arith, inl,
  inr, is_safe_integer, leb, length, map, max_safe_integer, none, ok, ok-injective, refl, some, sym,
  true, ◌++◌, ◌+◌, ◌-ℤ◌, ◌>>=◌, ◌∙◌, ◌∷◌, ◌≡◌, ◌≤◌, Option-cases, ◌&&◌,
}
use agent_runtime_notes.ChunkRows.{
  ChunkEvent, DeltaKind, StorageRecord, StoredEvent, build_row, chunk_event, continues, flushed,
  gaps, min_run, packed, payloads, unpacked, verbatim, Packing, classify_chunk, extends, last_of,
  nothing_packed, other_event, pack_chunk_runs, pack_delta, pack_event, pack_events, put,
  reasoning_kind, same_kind, text_kind, tool_call_kind,
}
use agent_runtime_notes.ChunkRows.RoundTrip.{IsBounded, as_raw, validate_row-raw}
use agent_runtime_notes.ChunkRows.Runs.{
  IsRun, IsRun-head, Matches, classify_chunk-kind, continues-seq, expand_rest-run, member_of-event,
  run_events, IsRun-snoc,
}
use agent_runtime_notes.ChunkRows.Decoding.{
  Malformed, ParsedLine, all_entries, decode_storage_record, event_line, expand_rest, expand_row,
  row_line, times_safe,
}
use mathlib.Core.List.{append-nil}
use mathlib.Core.Path.{subst}

gaps-safe :
    (k : DeltaKind) (event : ChunkEvent) (events : List ChunkEvent)
    → IsRun k (event ∷ events)
    → all_entries is_safe_integer (map (λ gap. some gap) (gaps event events))
      ≡ some (gaps event events)
unfolding all_entries gaps continues
gaps-safe k event [] r = refl
gaps-safe k event (next ∷ events) (h, c, r) =
    let rest = gaps-safe k next events r in
    let safe : is_safe_integer (next.time -ℤ event.time) ≡ true = ground arith in
    rw (safe, rest) refl

times_safe-gaps :
    (k : DeltaKind) (event : ChunkEvent) (events : List ChunkEvent)
    → IsRun k (event ∷ events)
    → times_safe event.time (gaps event events) ≡ true
unfolding times_safe gaps
times_safe-gaps k event [] r = refl
times_safe-gaps k event (next ∷ events) (h, c, r) =
    let (d, s, t) = classify_chunk-kind next k (IsRun-head k next events r) in
    let rest = times_safe-gaps k next events r in
    rw (add-sub_cancel event.time next.time, t, rest) refl

length-gaps :
    (event : ChunkEvent) (events : List ChunkEvent)
    → length (gaps event events) ≡ length (payloads events)
unfolding gaps
length-gaps event [] = refl
length-gaps event (next ∷ events) = omega (arith, length-gaps next events)

last_seq-safe :
    (k : DeltaKind) (event : ChunkEvent) (events : List ChunkEvent)
    → IsRun k (event ∷ events)
    → event.seq + length (payloads events) ≤ max_safe_integer
last_seq-safe k event [] r = let (d, s, t) = classify_chunk-kind event k r in ground arith
last_seq-safe k event (next ∷ events) (h, c, r) =
    omega (arith, last_seq-safe k next events r, continues-seq event next k c)

build_row-IsBounded :
    (k : DeltaKind) (first : ChunkEvent) (rest : List ChunkEvent)
    → IsRun k (first ∷ rest)
    → IsBounded (build_row k first rest)
unfolding build_row
build_row-IsBounded k first rest r =
    let (d, s, t) = classify_chunk-kind first k (IsRun-head k first rest r) in
    record {
      first_seq = s;
      first_time = t;
      gaps_safe = gaps-safe k first rest r;
      inhabited = refl;
      arity = omega (arith, length-gaps first rest);
      last_seq = omega (arith, last_seq-safe k first rest r);
      times = times_safe-gaps k first rest r;
    }

expand_row-build_row :
    (k : DeltaKind) (first : ChunkEvent) (rest : List ChunkEvent)
    → IsRun k (first ∷ rest)
    → expand_row (build_row k first rest) ≡ run_events (first ∷ rest)
unfolding expand_row build_row
expand_row-build_row k first rest r =
    let row = build_row k first rest in
    let matches : Matches k (build_row k first rest) first = record {
      kind = refl;
      index = refl;
      turn = refl;
      step = refl;
    } in
    let member =
      member_of-event k (build_row k first rest) first matches (IsRun-head k first rest r) in
    ap
      (λ e.
        chunk_event e
        ∷ expand_rest (build_row k first rest) (first.seq + 1) first.time (payloads rest)
            (gaps first rest))
      member
    ∙ ap (λ es. chunk_event first ∷ es)
        (expand_rest-run k (build_row k first rest) first rest matches r)

-- A record as its line is parsed.
abbrev pub line_of : StorageRecord → ParsedLine
line_of (verbatim event) = event_line event
line_of (packed row) = row_line (as_raw row)

-- A reader decodes line by line.
abbrev pub decode_all : List StorageRecord → Result Malformed (List StoredEvent)
decode_all [] = ok []
decode_all (stored ∷ records) = decode_storage_record (line_of stored) >>= λ events.
    decode_all records >>= λ rest. ok (events ++ rest)

pub decode_all-append :
    (xs ys : List StorageRecord) (us vs : List StoredEvent)
    → decode_all xs ≡ ok us
    → decode_all ys ≡ ok vs
    → decode_all (xs ++ ys) ≡ ok (us ++ vs)
decode_all-append [] ys us vs h k =
    let q : [] ≡ us = ok-injective [] us h in k ∙ ap (λ us. ok (us ++ vs)) q
decode_all-append (x ∷ xs) ys us vs h k = elim (Result-cases (decode_storage_record (line_of x))) [
  | inr (e, q) ↦ absurd (ground (arith, q))
  | inl (cs, q) ↦ elim (Result-cases (decode_all xs)) [
    | inr (e, p) ↦ absurd (ground (arith, q, p))
    | inl (ds, p) ↦
        let whole : cs ++ ds ≡ us = ok-injective (cs ++ ds) us (sym (rw (q, p) refl) ∙ h) in
        rw (q, decode_all-append xs ys ds vs p k)
          (ap (λ es. ok es) (sym (append_assoc cs ds vs) ∙ ap (λ es. es ++ vs) whole))
  ]
]

decode_all-unpacked : (run : List ChunkEvent) → decode_all (unpacked run) ≡ ok (run_events run)
unfolding decode_storage_record
decode_all-unpacked [] = refl
decode_all-unpacked (event ∷ events) = rw (decode_all-unpacked events) refl

-- What a pack has gathered is a run of its kind.
abbrev pub RunOf : Option DeltaKind → List ChunkEvent → Type 0
RunOf none run = run ≡ []
RunOf (some k) run = IsRun k run

decode_all-flushed :
    (kind : Option DeltaKind) (run : List ChunkEvent)
    → RunOf kind run
    → decode_all (flushed kind run) ≡ ok (run_events run)
unfolding flushed decode_storage_record
decode_all-flushed none run r = decode_all-unpacked run
decode_all-flushed (some k) [] r = refl
decode_all-flushed (some k) (first ∷ rest) r =
    elim (Bool-cases (leb min_run (length (first ∷ rest)))) [
      | inr short ↦ rw short (decode_all-unpacked (first ∷ rest))
      | inl long ↦
          rw
            (
              long,
              validate_row-raw (build_row k first rest) (build_row-IsBounded k first rest r),
              expand_row-build_row k first rest r,
            )
            (ap (λ es. ok es) (append-nil (run_events (first ∷ rest))))
    ]

-- The records so far and the run in hand give back the events so far.
pub record Gathered (p : Packing) (events : List StoredEvent) : Type 0 where
  pub past : List StoredEvent
  pub decoded : decode_all p.out ≡ ok past
  pub whole : past ++ run_events p.run ≡ events
  pub in_hand : RunOf p.kind p.run

put-Gathered :
    (p : Packing) (events : List StoredEvent) (records : List StorageRecord)
    (more : List StoredEvent)
    → Gathered p events
    → decode_all records ≡ ok more
    → Gathered (put p records) (events ++ more)
put-Gathered p events records more g d =
    let run = decode_all-flushed p.kind p.run g.in_hand in
    let now = decode_all-append (flushed p.kind p.run) records (run_events p.run) more run d in
    record {
      past = g.past ++ (run_events p.run ++ more);
      decoded =
          decode_all-append p.out (flushed p.kind p.run ++ records) g.past
            (run_events p.run ++ more) g.decoded now;
      whole =
          append-nil (g.past ++ (run_events p.run ++ more))
          ∙ (sym (append_assoc g.past (run_events p.run) more) ∙ ap (λ es. es ++ more) g.whole);
      in_hand = refl;
    }

run_events-snoc :
    (run : List ChunkEvent) (event : ChunkEvent)
    → run_events (run ++ event ∷ []) ≡ run_events run ++ chunk_event event ∷ []
run_events-snoc [] event = refl
run_events-snoc (e ∷ run) event = ap (λ es. chunk_event e ∷ es) (run_events-snoc run event)

same_kind-IsRun :
    (k : DeltaKind) (kind : Option DeltaKind) (run : List ChunkEvent)
    → same_kind k kind ≡ true
    → RunOf kind run
    → IsRun k run × (kind ≡ some k)
same_kind-IsRun text_kind (some text_kind) run h r = (r, refl)
same_kind-IsRun reasoning_kind (some reasoning_kind) run h r = (r, refl)
same_kind-IsRun tool_call_kind (some tool_call_kind) run h r = (r, refl)
same_kind-IsRun text_kind (some reasoning_kind) run h r = absurd (ground arith)
same_kind-IsRun text_kind (some tool_call_kind) run h r = absurd (ground arith)
same_kind-IsRun reasoning_kind (some text_kind) run h r = absurd (ground arith)
same_kind-IsRun reasoning_kind (some tool_call_kind) run h r = absurd (ground arith)
same_kind-IsRun tool_call_kind (some text_kind) run h r = absurd (ground arith)
same_kind-IsRun tool_call_kind (some reasoning_kind) run h r = absurd (ground arith)
same_kind-IsRun text_kind none run h r = absurd (ground arith)
same_kind-IsRun reasoning_kind none run h r = absurd (ground arith)
same_kind-IsRun tool_call_kind none run h r = absurd (ground arith)

pack_delta-Gathered :
    (p : Packing) (events : List StoredEvent) (delta : ChunkEvent) (k : DeltaKind)
    → Gathered p events
    → classify_chunk delta ≡ some k
    → Gathered (pack_delta p delta k) (events ++ chunk_event delta ∷ [])
pack_delta-Gathered p events delta k g c =
    elim (Bool-cases (same_kind k p.kind && extends (last_of p.run) delta k)) [
      | inl e ↦
          let (run, q) = same_kind-IsRun k p.kind p.run (ground (arith, e)) g.in_hand in
          let longer = IsRun-snoc k p.run delta run (ground (arith, e)) c in
          rw e (record {
            past = g.past;
            decoded = g.decoded;
            whole =
                ap (λ es. g.past ++ es) (run_events-snoc p.run delta)
                ∙ (sym (append_assoc g.past (run_events p.run) (chunk_event delta ∷ []))
                    ∙ ap (λ es. es ++ chunk_event delta ∷ []) g.whole);
            in_hand = subst (λ kind. RunOf kind (p.run ++ delta ∷ [])) (sym q) longer;
          })
      | inr e ↦
          let before = put-Gathered p events [] [] g refl in
          rw e (record {
            past = before.past;
            decoded = before.decoded;
            whole =
                ap (λ es. es ++ chunk_event delta ∷ [])
                  (sym (append-nil before.past) ∙ (before.whole ∙ append-nil events));
            in_hand = c;
          })
    ]

verbatim-Gathered :
    (p : Packing) (events : List StoredEvent) (event : StoredEvent)
    → Gathered p events
    → Gathered (put p (verbatim event ∷ [])) (events ++ event ∷ [])
unfolding decode_storage_record
verbatim-Gathered p events event g = put-Gathered p events (verbatim event ∷ []) (event ∷ []) g refl

pack_event-Gathered :
    (p : Packing) (events : List StoredEvent) (event : StoredEvent)
    → Gathered p events
    → Gathered (pack_event p event) (events ++ event ∷ [])
unfolding pack_event
pack_event-Gathered p events (other_event json) g = verbatim-Gathered p events (other_event json) g
pack_event-Gathered p events (chunk_event event) g = elim (Option-cases (classify_chunk event)) [
  | inl c ↦ rw c (verbatim-Gathered p events (chunk_event event) g)
  | inr (k, c) ↦ rw c (pack_delta-Gathered p events event k g c)
]

pack_events-Gathered :
    (p : Packing) (before events : List StoredEvent)
    → Gathered p before
    → Gathered (pack_events p events) (before ++ events)
unfolding pack_events
pack_events-Gathered p before [] g = subst (λ es. Gathered p es) (sym (append-nil before)) g
pack_events-Gathered p before (event ∷ events) g =
    subst (λ es. Gathered (pack_events (pack_event p event) events) es)
      (append_assoc before (event ∷ []) events)
      (pack_events-Gathered (pack_event p event) (before ++ event ∷ []) events
        (pack_event-Gathered p before event g))

-- For any batch of events, decoding line by line what the encoder writes for it gives back the
-- batch, without an error.
pub decode_all-pack_chunk_runs :
    (events : List StoredEvent) → decode_all (pack_chunk_runs events) ≡ ok events
unfolding pack_chunk_runs
decode_all-pack_chunk_runs events =
    let start : Gathered nothing_packed [] = record {
      past = [];
      decoded = refl;
      whole = refl;
      in_hand = refl;
    } in
    let done =
      put-Gathered (pack_events nothing_packed events) events [] []
        (pack_events-Gathered nothing_packed [] events start) refl in
    done.decoded ∙ ap (λ es. ok es) (sym (append-nil done.past) ∙ (done.whole ∙ append-nil events))
