-- ===== src/ChunkRows.antt =====
-- Storage packing of streamed chunks: 04-code-samples/packages/core/session/src/chunk-rows.ts, the
-- encoder. An event that has not exactly the keys of a chunk event with integer numbers is
-- `other_event`, a chunk that has not exactly the keys of a delta `other_chunk`: the code takes both
-- verbatim. A difference of two safe integers rounds to a safe integer only if it is one, so that
-- differences are exact here.
use agent_runtime_notes.Base.{
  Bool, List, Option, String, [], false, if◌then◌else◌, is_safe_integer, leb, length,
  max_safe_integer, none, some, str_eq, true, ℕ, ℤ, ◌&&◌, ◌++◌, ◌+◌, ◌-ℤ◌, ◌==◌, ◌∷◌,
}
pub mod Decoding
pub mod Runs
pub mod RoundTrip
pub mod Lossless
pub mod Bounds
pub mod Size
pub mod Tests

pub data DeltaKind : Type 0 where
  text_kind reasoning_kind tool_call_kind : DeltaKind

pub data StreamChunk : Type 0 where
  text_delta reasoning_delta : (index : ℕ) → String → StreamChunk
  tool_call_delta : (index : ℕ) → (id : String) → (name : Option String) → String → StreamChunk
  other_chunk : String → StreamChunk

pub record ChunkEvent : Type 0 where
  pub seq : ℕ
  pub time : ℤ
  pub turn : ℕ
  pub step : ℕ
  pub chunk : StreamChunk

pub data StoredEvent : Type 0 where
  chunk_event : ChunkEvent → StoredEvent
  other_event : String → StoredEvent

-- The tag of a row, with what a tool call's row has of its own.
pub data RowKind : Type 0 where
  text_chunks reasoning_chunks : RowKind
  tool_call_chunks : (id : String) → (name : Option String) → RowKind

-- `members` is `texts` or `args`.
pub record ChunkRow : Type 0 where
  pub kind : RowKind
  pub seq0 : ℕ
  pub time0 : ℤ
  pub turn : ℕ
  pub step : ℕ
  pub index : ℕ
  pub dt : List ℤ
  pub members : List String

pub data StorageRecord : Type 0 where
  verbatim : StoredEvent → StorageRecord
  packed : ChunkRow → StorageRecord

abbrev pub min_run : ℕ
min_run = 3

abbrev pub delta_kind : StreamChunk → Option DeltaKind
delta_kind (text_delta index text) = some text_kind
delta_kind (reasoning_delta index text) = some reasoning_kind
delta_kind (tool_call_delta index id name arguments) = some tool_call_kind
delta_kind (other_chunk json) = none

abbrev pub is_safe_seq : ℕ → Bool
is_safe_seq n = leb n max_safe_integer

-- `classify` of an event that has the keys of a chunk event.
unfoldable pub classify_chunk : ChunkEvent → Option DeltaKind
classify_chunk event =
    if is_safe_seq event.seq && is_safe_integer event.time then delta_kind event.chunk else none

-- A chunk without an index is no member of a run.
abbrev pub block_index : StreamChunk → ℕ
block_index (text_delta index text) = index
block_index (reasoning_delta index text) = index
block_index (tool_call_delta index id name arguments) = index
block_index (other_chunk json) = 0

abbrev pub same_name : Option String → Option String → Bool
same_name none none = true
same_name (some a) (some b) = str_eq a b
same_name a b = false

abbrev pub same_call : StreamChunk → StreamChunk → Bool
same_call (tool_call_delta i a name args) (tool_call_delta j b other rest) =
    str_eq a b && same_name name other
same_call a b = false

abbrev pub same_block : DeltaKind → StreamChunk → StreamChunk → Bool
same_block tool_call_kind a b = same_call a b
same_block kind a b = true

unfoldable pub continues : ChunkEvent → ChunkEvent → DeltaKind → Bool
continues prev next kind =
    next.seq == prev.seq + 1
    && is_safe_integer (next.time -ℤ prev.time)
    && (next.turn == prev.turn && next.step == prev.step)
    && block_index next.chunk == block_index prev.chunk
    && same_block kind prev.chunk next.chunk

-- What a row keeps of each member.
abbrev pub payload : StreamChunk → String
payload (text_delta index text) = text
payload (reasoning_delta index text) = text
payload (tool_call_delta index id name arguments) = arguments
payload (other_chunk json) = json

unfoldable pub gaps : ChunkEvent → List ChunkEvent → List ℤ
gaps prev [] = []
gaps prev (event ∷ events) = (event.time -ℤ prev.time) ∷ gaps event events

-- The tag of the row of a run of a kind, which all members' chunks have.
abbrev pub row_kind : DeltaKind → StreamChunk → RowKind
row_kind tool_call_kind (tool_call_delta index id name arguments) = tool_call_chunks id name
row_kind reasoning_kind chunk = reasoning_chunks
row_kind kind chunk = text_chunks

abbrev pub payloads : List ChunkEvent → List String
payloads [] = []
payloads (event ∷ events) = payload event.chunk ∷ payloads events

unfoldable pub build_row : DeltaKind → ChunkEvent → List ChunkEvent → ChunkRow
build_row kind first rest = record {
  kind = row_kind kind first.chunk;
  seq0 = first.seq;
  time0 = first.time;
  turn = first.turn;
  step = first.step;
  index = block_index first.chunk;
  dt = gaps first rest;
  members = payload first.chunk ∷ payloads rest;
}

abbrev pub unpacked : List ChunkEvent → List StorageRecord
unpacked [] = []
unpacked (event ∷ events) = verbatim (chunk_event event) ∷ unpacked events

-- What `flush` puts out.
unfoldable pub flushed : Option DeltaKind → List ChunkEvent → List StorageRecord
flushed (some kind) (first ∷ rest) =
    if leb min_run (length (first ∷ rest))
    then packed (build_row kind first rest) ∷ []
    else unpacked (first ∷ rest)
flushed kind run = unpacked run

abbrev pub last_of : List ChunkEvent → Option ChunkEvent
last_of [] = none
last_of (event ∷ []) = some event
last_of (event ∷ next ∷ events) = last_of (next ∷ events)

abbrev pub same_kind : DeltaKind → Option DeltaKind → Bool
same_kind text_kind (some text_kind) = true
same_kind reasoning_kind (some reasoning_kind) = true
same_kind tool_call_kind (some tool_call_kind) = true
same_kind kind other = false

abbrev pub extends : Option ChunkEvent → ChunkEvent → DeltaKind → Bool
extends none delta kind = false
extends (some last) delta kind = continues last delta kind

-- `out`, `kind` and `run` of `packChunkRuns`.
pub record Packing : Type 0 where
  pub out : List StorageRecord
  pub kind : Option DeltaKind
  pub run : List ChunkEvent

abbrev pub put : Packing → List StorageRecord → Packing
put p records = record { out = p.out ++ (flushed p.kind p.run ++ records); kind = none; run = [] }

abbrev pub pack_delta : Packing → ChunkEvent → DeltaKind → Packing
pack_delta p delta k =
    if same_kind k p.kind && extends (last_of p.run) delta k
    then record p { run = p.run ++ delta ∷ [] }
    else record (put p []) { kind = some k; run = delta ∷ [] }

abbrev pub pack_chunk : Packing → ChunkEvent → Option DeltaKind → Packing
pack_chunk p event none = put p (verbatim (chunk_event event) ∷ [])
pack_chunk p event (some k) = pack_delta p event k

-- One round of the loop of `packChunkRuns`.
unfoldable pub pack_event : Packing → StoredEvent → Packing
pack_event p (other_event json) = put p (verbatim (other_event json) ∷ [])
pack_event p (chunk_event event) = pack_chunk p event (classify_chunk event)

unfoldable pub pack_events : Packing → List StoredEvent → Packing
pack_events p [] = p
pack_events p (event ∷ events) = pack_events (pack_event p event) events

abbrev pub nothing_packed : Packing
nothing_packed = record { out = []; kind = none; run = [] }

unfoldable pub pack_chunk_runs : List StoredEvent → List StorageRecord
pack_chunk_runs events = (put (pack_events nothing_packed events) []).out
