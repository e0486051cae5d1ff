-- ===== src/ChunkRows/Runs.antt =====
-- Runs of chunk events, as the encoder of chunk-rows.ts gathers them, and the rows that it builds.
use agent_runtime_notes.ChunkRows.{
  ChunkEvent, ChunkRow, DeltaKind, StoredEvent, StreamChunk, block_index, chunk_event,
  classify_chunk, continues, delta_kind, extends, gaps, is_safe_seq, last_of, payload, payloads,
  row_kind, same_block, other_chunk, reasoning_delta, reasoning_kind, same_call, same_name,
  text_delta, text_kind, tool_call_delta, tool_call_kind,
}
use agent_runtime_notes.Base.{
  List, [], add-sub_cancel, arith, is_safe_integer, refl, some, true, ◌++◌, ◌+◌, ◌∙◌, ◌∷◌, ◌≡◌, ap,
  eq_iff, Option, String, none, str_eq,
}
use agent_runtime_notes.ChunkRows.Decoding.{chunk_of, expand_rest, member_of}

abbrev pub run_events : List ChunkEvent → List StoredEvent
run_events [] = []
run_events (event ∷ events) = chunk_event event ∷ run_events events

-- Members of a kind, each of which continues the one before.
abbrev pub IsRun : DeltaKind → List ChunkEvent → Type 0
IsRun k [] = Unit {0}
IsRun k (event ∷ []) = classify_chunk event ≡ some k
IsRun k (event ∷ next ∷ events) =
    (classify_chunk event ≡ some k) × (continues event next k ≡ true) × IsRun k (next ∷ events)

pub IsRun-head :
    (k : DeltaKind) (event : ChunkEvent) (events : List ChunkEvent)
    → IsRun k (event ∷ events)
    → classify_chunk event ≡ some k
IsRun-head k event [] h = h
IsRun-head k event (next ∷ events) (h, c, r) = h

pub IsRun-snoc :
    (k : DeltaKind) (run : List ChunkEvent) (delta : ChunkEvent)
    → IsRun k run
    → extends (last_of run) delta k ≡ true
    → classify_chunk delta ≡ some k
    → IsRun k (run ++ delta ∷ [])
IsRun-snoc k [] delta h e d = d
IsRun-snoc k (event ∷ []) delta h e d = (h, e, d)
IsRun-snoc k (event ∷ next ∷ events) delta (h, c, r) e d =
    (h, c, IsRun-snoc k (next ∷ events) delta r e d)

pub classify_chunk-kind :
    (event : ChunkEvent) (k : DeltaKind)
    → classify_chunk event ≡ some k
    → (delta_kind event.chunk ≡ some k)
      × (is_safe_seq event.seq ≡ true)
      × (is_safe_integer event.time ≡ true)
unfolding classify_chunk
classify_chunk-kind event k h = (ground arith, ground arith, ground arith)

-- What a row says of its members.
pub record Matches (k : DeltaKind) (row : ChunkRow) (event : ChunkEvent) : Type 0 where
  pub kind : row.kind ≡ row_kind k event.chunk
  pub index : row.index ≡ block_index event.chunk
  pub turn : row.turn ≡ event.turn
  pub step : row.step ≡ event.step

chunk_of-payload :
    (k : DeltaKind) (chunk : StreamChunk)
    → delta_kind chunk ≡ some k
    → chunk_of (row_kind k chunk) (block_index chunk) (payload chunk) ≡ chunk
chunk_of-payload k chunk h = ground arith

pub member_of-event :
    (k : DeltaKind) (row : ChunkRow) (event : ChunkEvent)
    → Matches k row event
    → classify_chunk event ≡ some k
    → member_of row event.seq event.time (payload event.chunk) ≡ event
member_of-event k row event m h =
    let (d, s, t) = classify_chunk-kind event k h in
    cc (m.kind, m.index, m.turn, m.step, chunk_of-payload k event.chunk d)

same_name-equal : (a b : Option String) → same_name a b ≡ true → a ≡ b
same_name-equal none none h = refl
same_name-equal none (some b) h = absurd (ground arith)
same_name-equal (some a) none h = absurd (ground arith)
same_name-equal (some a) (some b) h = ap (λ s. some s) ((eq_iff a b).0 h)

row_kind-same_call :
    (a b : StreamChunk)
    → same_call a b ≡ true
    → row_kind tool_call_kind a ≡ row_kind tool_call_kind b
row_kind-same_call (text_delta i s) b h = absurd (ground arith)
row_kind-same_call (reasoning_delta i s) b h = absurd (ground arith)
row_kind-same_call (other_chunk s) b h = absurd (ground arith)
row_kind-same_call (tool_call_delta i a name s) (text_delta j t) h = absurd (ground arith)
row_kind-same_call (tool_call_delta i a name s) (reasoning_delta j t) h = absurd (ground arith)
row_kind-same_call (tool_call_delta i a name s) (other_chunk t) h = absurd (ground arith)
row_kind-same_call (tool_call_delta i a name s) (tool_call_delta j b other t) h =
    let ids : str_eq a b ≡ true = ground arith in
    let names : same_name name other ≡ true = ground arith in
    cc ((eq_iff a b).0 ids, same_name-equal name other names)

row_kind-same_block :
    (k : DeltaKind) (a b : StreamChunk)
    → delta_kind a ≡ some k
    → delta_kind b ≡ some k
    → same_block k a b ≡ true
    → row_kind k a ≡ row_kind k b
row_kind-same_block text_kind a b d e s = refl
row_kind-same_block reasoning_kind a b d e s = refl
row_kind-same_block tool_call_kind a b d e s = row_kind-same_call a b s

pub Matches-next :
    (k : DeltaKind) (row : ChunkRow) (event next : ChunkEvent)
    → Matches k row event
    → classify_chunk event ≡ some k
    → classify_chunk next ≡ some k
    → continues event next k ≡ true
    → Matches k row next
unfolding continues
Matches-next k row event next m h i c =
    let (d, s, t) = classify_chunk-kind event k h in
    let (e, u, v) = classify_chunk-kind next k i in
    let block : same_block k event.chunk next.chunk ≡ true = ground arith in
    let index : block_index event.chunk ≡ block_index next.chunk = ground arith in
    let turn : event.turn ≡ next.turn = ground arith in
    let step : event.step ≡ next.step = ground arith in
    record {
      kind = m.kind ∙ row_kind-same_block k event.chunk next.chunk d e block;
      index = m.index ∙ index;
      turn = m.turn ∙ turn;
      step = m.step ∙ step;
    }

pub continues-seq :
    (event next : ChunkEvent) (k : DeltaKind)
    → continues event next k ≡ true
    → event.seq + 1 ≡ next.seq
unfolding continues
continues-seq event next k c = ground arith

pub expand_rest-run :
    (k : DeltaKind) (row : ChunkRow) (event : ChunkEvent) (events : List ChunkEvent)
    → Matches k row event
    → IsRun k (event ∷ events)
    → expand_rest row (event.seq + 1) event.time (payloads events) (gaps event events)
      ≡ run_events events
unfolding expand_rest gaps
expand_rest-run k row event [] m r = refl
expand_rest-run k row event (next ∷ events) m (h, c, r) =
    let i = IsRun-head k next events r in
    let matches = Matches-next k row event next m h i c in
    let seq = continues-seq event next k c in
    let time = add-sub_cancel event.time next.time in
    let member = member_of-event k row next matches i in
    let rest = expand_rest-run k row next events matches r in
    ap
      (λ t.
        chunk_event (member_of row (event.seq + 1) t (payload next.chunk))
        ∷ expand_rest row (event.seq + 1 + 1) t (payloads events) (gaps next events))
      time
    ∙ (ap
          (λ n.
            chunk_event (member_of row n next.time (payload next.chunk))
            ∷ expand_rest row (n + 1) next.time (payloads events) (gaps next events))
          seq
        ∙ (ap
              (λ e.
                chunk_event e
                ∷ expand_rest row (next.seq + 1) next.time (payloads events) (gaps next events))
              member
            ∙ ap (λ es. chunk_event next ∷ es) rest))
