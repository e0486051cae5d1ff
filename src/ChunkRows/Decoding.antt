-- ===== src/ChunkRows/Decoding.antt =====
-- The decoder of chunk-rows.ts: from `validateRunData` to `decodeStorageRecord`, on the values that a
-- line's JSON can have. A field that has not the type that the code asks for is `none`; a time that is
-- no integer is none that the code takes.
use agent_runtime_notes.Base.{
  Bool, List, Option, Result, String, [], err, false, if◌then◌else◌, is_safe_integer, leb, length,
  max_safe_integer, none, not, ok, pos, some, throw_unless, true, ℕ, ℤ, ◌&&◌, ◌+ℤ◌, ◌+◌, ◌-◌, ◌==◌,
  ◌>>=◌, ◌>>◌, ◌∷◌,
}
use agent_runtime_notes.ChunkRows.{
  ChunkEvent, ChunkRow, RowKind, StoredEvent, StreamChunk, chunk_event, reasoning_chunks,
  reasoning_delta, text_chunks, text_delta, tool_call_chunks, tool_call_delta,
}

pub data RowTag : Type 0 where
  text_tag reasoning_tag tool_call_tag : RowTag

-- Which of the exact key lists the data of a row has.
pub data DataKeys : Type 0 where
  text_keys call_keys named_call_keys other_keys : DataKeys

pub record RawData : Type 0 where
  pub keys : DataKeys
  pub id : Option String
  pub name : Option String
  pub turn : Option ℕ
  pub step : Option ℕ
  pub index : Option ℕ
  pub dt : Option (List (Option ℤ))
  pub payload : Option (List (Option String))

pub record RawRow : Type 0 where
  pub tag : RowTag
  pub exact_envelope : Bool
  pub seq0 : Option ℤ
  pub time0 : Option ℤ
  pub run_data : Option RawData

pub data ParsedLine : Type 0 where
  event_line : StoredEvent → ParsedLine
  row_line : RawRow → ParsedLine

pub data Malformed : Type 0 where
  bad_envelope bad_seq0 bad_time0 no_data bad_keys bad_id bad_numbers : Malformed
  bad_payload bad_dt bad_arity bad_seqs bad_times : Malformed

abbrev pub required : {A : Type 0} → Malformed → Option A → Result Malformed A
required thrown none = err thrown
required thrown (some a) = ok a

unfoldable pub safe_seq : Option ℤ → Result Malformed ℕ
safe_seq (some (pos n)) = if leb n max_safe_integer then ok n else err bad_seq0
safe_seq raw = err bad_seq0

unfoldable pub safe_time : Option ℤ → Result Malformed ℤ
safe_time none = err bad_time0
safe_time (some t) = if is_safe_integer t then ok t else err bad_time0

abbrev pub prepended : {A : Type 0} → A → Option (List A) → Option (List A)
prepended x none = none
prepended x (some xs) = some (x ∷ xs)

-- The entries, if all have the type.
unfoldable pub all_entries : {A : Type 0} → (A → Bool) → List (Option A) → Option (List A)
all_entries allowed [] = some []
all_entries allowed (none ∷ xs) = none
all_entries allowed (some x ∷ xs) =
    let rest = all_entries allowed xs in if allowed x then prepended x rest else none

abbrev pub any_entry : String → Bool
any_entry s = true

abbrev pub is_empty_list : {A : Type 0} → List A → Bool
is_empty_list [] = true
is_empty_list (x ∷ xs) = false

-- `turn`, `step`, `index`, `dt` and the payload.
abbrev pub RunData : Type 0
RunData = ℕ × ℕ × ℕ × List ℤ × List String

unfoldable pub validate_run_data : RawData → Result Malformed RunData
validate_run_data fields = do
  turn ← required bad_numbers fields.turn
  step ← required bad_numbers fields.step
  index ← required bad_numbers fields.index
  entries ← required bad_payload fields.payload
  throw_unless (not (is_empty_list entries)) bad_payload
  members ← required bad_payload (all_entries any_entry entries)
  raw_gaps ← required bad_dt fields.dt
  dt ← required bad_dt (all_entries is_safe_integer raw_gaps)
  throw_unless (length dt == length members - 1) bad_arity
  ok (turn, step, index, dt, members)

unfoldable pub call_kind : RawData → DataKeys → Result Malformed RowKind
call_kind fields named_call_keys = do
  id ← required bad_id fields.id
  name ← required bad_id fields.name
  ok (tool_call_chunks id (some name))
call_kind fields call_keys = do id ← required bad_id fields.id; ok (tool_call_chunks id none)
call_kind fields keys = err bad_keys

abbrev pub plain_kind : RowKind → DataKeys → Result Malformed RowKind
plain_kind kind text_keys = ok kind
plain_kind kind keys = err bad_keys

unfoldable pub validate_keys : RowTag → RawData → Result Malformed RowKind
validate_keys tool_call_tag fields = call_kind fields fields.keys
validate_keys text_tag fields = plain_kind text_chunks fields.keys
validate_keys reasoning_tag fields = plain_kind reasoning_chunks fields.keys

unfoldable pub times_safe : ℤ → List ℤ → Bool
times_safe time [] = true
times_safe time (gap ∷ dt) = is_safe_integer (time +ℤ gap) && times_safe (time +ℤ gap) dt

unfoldable pub row_of : RowKind → ℕ → ℤ → RunData → ChunkRow
row_of kind seq0 time0 (turn, step, index, dt, members) = record {
  kind = kind;
  seq0 = seq0;
  time0 = time0;
  turn = turn;
  step = step;
  index = index;
  dt = dt;
  members = members;
}

abbrev pub check_members : ChunkRow → Result Malformed ChunkRow
check_members row = do
  throw_unless (leb (row.seq0 + length row.members - 1) max_safe_integer) bad_seqs
  throw_unless (times_safe row.time0 row.dt) bad_times
  ok row

unfoldable pub validate_row : RawRow → Result Malformed ChunkRow
validate_row raw = do
  throw_unless raw.exact_envelope bad_envelope
  seq0 ← safe_seq raw.seq0
  time0 ← safe_time raw.time0
  fields ← required no_data raw.run_data
  kind ← validate_keys raw.tag fields
  run ← validate_run_data fields
  check_members (row_of kind seq0 time0 run)

abbrev pub chunk_of : RowKind → ℕ → String → StreamChunk
chunk_of text_chunks index member = text_delta index member
chunk_of reasoning_chunks index member = reasoning_delta index member
chunk_of (tool_call_chunks id name) index member = tool_call_delta index id name member

abbrev pub member_of : ChunkRow → ℕ → ℤ → String → ChunkEvent
member_of row seq time member = record {
  seq = seq;
  time = time;
  turn = row.turn;
  step = row.step;
  chunk = chunk_of row.kind row.index member;
}

-- The loop of `expandRow` after its first round. A row that `validateRow` took has a gap for each
-- member of the loop.
unfoldable pub expand_rest : ChunkRow → ℕ → ℤ → List String → List ℤ → List StoredEvent
expand_rest row seq time (member ∷ members) (gap ∷ dt) =
    chunk_event (member_of row seq (time +ℤ gap) member)
    ∷ expand_rest row (seq + 1) (time +ℤ gap) members dt
expand_rest row seq time members dt = []

abbrev pub expand_members : ChunkRow → List String → List StoredEvent
expand_members row [] = []
expand_members row (member ∷ members) =
    chunk_event (member_of row row.seq0 row.time0 member)
    ∷ expand_rest row (row.seq0 + 1) row.time0 members row.dt

unfoldable pub expand_row : ChunkRow → List StoredEvent
expand_row row = expand_members row row.members

unfoldable pub decode_storage_record : ParsedLine → Result Malformed (List StoredEvent)
decode_storage_record (event_line event) = ok (event ∷ [])
decode_storage_record (row_line raw) = do row ← validate_row raw; ok (expand_row row)
