-- ===== src/ChunkRows/RoundTrip.antt =====
-- The rows that the encoder of chunk-rows.ts builds, given to its decoder.
use agent_runtime_notes.ChunkRows.{
  ChunkRow, RowKind, is_safe_seq, reasoning_chunks, text_chunks, tool_call_chunks,
}
use agent_runtime_notes.ChunkRows.Decoding.{
  DataKeys, RawData, RawRow, RowTag, all_entries, any_entry, call_keys, call_kind, is_empty_list,
  named_call_keys, prepended, reasoning_tag, row_of, safe_seq, safe_time, text_keys, text_tag,
  times_safe, tool_call_tag, validate_keys, validate_row, validate_run_data, check_members,
}
use agent_runtime_notes.Base.{
  List, Option, String, [], ap, false, is_safe_integer, length, map, max_safe_integer, none, ok,
  pos, refl, some, true, ◌+◌, ◌-◌, ◌∷◌, ◌≡◌, ◌≤◌, arith, leb, ◌==◌, ◌∙◌,
}

abbrev pub tag_of : RowKind → RowTag
tag_of text_chunks = text_tag
tag_of reasoning_chunks = reasoning_tag
tag_of (tool_call_chunks id name) = tool_call_tag

abbrev pub call_keys_of : Option String → DataKeys
call_keys_of none = call_keys
call_keys_of (some name) = named_call_keys

abbrev pub keys_of : RowKind → DataKeys
keys_of (tool_call_chunks id name) = call_keys_of name
keys_of kind = text_keys

abbrev pub id_of : RowKind → Option String
id_of (tool_call_chunks id name) = some id
id_of kind = none

abbrev pub name_of : RowKind → Option String
name_of (tool_call_chunks id name) = name
name_of kind = none

abbrev raw_fields : ChunkRow → RawData
raw_fields row = record {
  keys = keys_of row.kind;
  id = id_of row.kind;
  name = name_of row.kind;
  turn = some row.turn;
  step = some row.step;
  index = some row.index;
  dt = some (map (λ gap. some gap) row.dt);
  payload = some (map (λ member. some member) row.members);
}

-- What parsing the JSON of a row gives.
abbrev pub as_raw : ChunkRow → RawRow
as_raw row = record {
  tag = tag_of row.kind;
  exact_envelope = true;
  seq0 = some (pos row.seq0);
  time0 = some row.time0;
  run_data = some (record {
    keys = keys_of row.kind;
    id = id_of row.kind;
    name = name_of row.kind;
    turn = some row.turn;
    step = some row.step;
    index = some row.index;
    dt = some (map (λ gap. some gap) row.dt);
    payload = some (map (λ member. some member) row.members);
  });
}

all_entries-any : (xs : List String) → all_entries any_entry (map (λ x. some x) xs) ≡ some xs
unfolding all_entries
all_entries-any [] = refl
all_entries-any (x ∷ xs) = ap (prepended x) (all_entries-any xs)

-- The decoder's bounds on a row.
pub record IsBounded (row : ChunkRow) : Type 0 where
  pub first_seq : is_safe_seq row.seq0 ≡ true
  pub first_time : is_safe_integer row.time0 ≡ true
  pub gaps_safe : all_entries is_safe_integer (map (λ gap. some gap) row.dt) ≡ some row.dt
  pub inhabited : is_empty_list row.members ≡ false
  pub arity : length row.dt ≡ length row.members - 1
  pub last_seq : row.seq0 + length row.members - 1 ≤ max_safe_integer
  pub times : times_safe row.time0 row.dt ≡ true

validate_keys-raw :
    (kind : RowKind) (fields : RawData)
    → fields.keys ≡ keys_of kind
    → fields.id ≡ id_of kind
    → fields.name ≡ name_of kind
    → validate_keys (tag_of kind) fields ≡ ok kind
unfolding validate_keys call_kind
validate_keys-raw text_chunks fields k i n = rw k refl
validate_keys-raw reasoning_chunks fields k i n = rw k refl
validate_keys-raw (tool_call_chunks id none) fields k i n = rw (k, i) refl
validate_keys-raw (tool_call_chunks id (some name)) fields k i n = rw (k, i, n) refl

is_empty_list-map : (xs : List String) → is_empty_list (map (λ x. some x) xs) ≡ is_empty_list xs
is_empty_list-map [] = refl
is_empty_list-map (x ∷ xs) = refl

validate_run_data-raw :
    (row : ChunkRow)
    → IsBounded row
    → validate_run_data (raw_fields row) ≡ ok (row.turn, row.step, row.index, row.dt, row.members)
unfolding validate_run_data
validate_run_data-raw row b =
    let some_entries = is_empty_list-map row.members ∙ b.inhabited in
    let arity : (length row.dt == length row.members - 1) ≡ true = ground (arith, b.arity) in
    rw (some_entries, all_entries-any row.members, b.gaps_safe, arity) refl

check_members-bounded : (row : ChunkRow) → IsBounded row → check_members row ≡ ok row
check_members-bounded row b =
    let last : leb (row.seq0 + length row.members - 1) max_safe_integer ≡ true =
      ground (arith, b.last_seq) in
    rw (last, b.times) refl

pub validate_row-raw : (row : ChunkRow) → IsBounded row → validate_row (as_raw row) ≡ ok row
unfolding validate_row safe_seq safe_time row_of
validate_row-raw row b =
    rw
      (
        b.first_seq,
        b.first_time,
        validate_keys-raw row.kind (raw_fields row) refl refl refl,
        validate_run_data-raw row b,
      )
      (check_members-bounded row b)
