-- ===== src/ChunkRows/Tests.antt =====
-- A batch with a run of text, a short run and a tool call: chunk-rows.ts on it.
use agent_runtime_notes.ChunkRows.{
  ChunkRow, StoredEvent, StreamChunk, build_row, chunk_event, classify_chunk, continues, flushed,
  gaps, other_event, pack_chunk_runs, pack_event, pack_events, packed, text_chunks, text_delta,
  tool_call_delta, verbatim,
}
use agent_runtime_notes.ChunkRows.Bounds.{IsSafeFrom, validate_row-IsSafeFrom}
use agent_runtime_notes.Base.{
  List, [], err, length, negsuc, none, ok, pos, refl, some, ℕ, ◌∷◌, ◌≡◌, ◌≤◌,
}
use agent_runtime_notes.ChunkRows.Decoding.{
  all_entries, bad_arity, bad_seqs, call_kind, decode_storage_record, expand_rest, expand_row,
  row_of, safe_seq, safe_time, times_safe, validate_keys, validate_row, validate_run_data,
}
use agent_runtime_notes.ChunkRows.RoundTrip.{as_raw}
use agent_runtime_notes.ChunkRows.Lossless.{decode_all, decode_all-pack_chunk_runs}
use agent_runtime_notes.ChunkRows.Size.{length-pack_chunk_runs}

opened : Unit {0}
unfolding classify_chunk continues gaps build_row flushed pack_event pack_events pack_chunk_runs
    safe_seq safe_time all_entries validate_run_data call_kind validate_keys times_safe row_of
    validate_row expand_rest expand_row decode_storage_record
opened = tt

abbrev delta : ℕ → ℕ → StreamChunk → StoredEvent
delta seq time chunk =
    chunk_event (record { seq = seq; time = pos time; turn = 1; step = 1; chunk = chunk })

-- The clock goes back between the second and the third chunk.
abbrev batch : List StoredEvent
batch =
    delta 4 100 (text_delta 0 "He")
    ∷ delta 5 107 (text_delta 0 "llo")
    ∷ delta 6 90 (text_delta 0 "")
    ∷ delta 7 95 (tool_call_delta 1 "c" (some "grep") "{")
    ∷ delta 8 96 (tool_call_delta 1 "c" none "}")
    ∷ other_event "finish"
    ∷ []

abbrev text_row : ChunkRow
text_row = record {
  kind = text_chunks;
  seq0 = 4;
  time0 = pos 100;
  turn = 1;
  step = 1;
  index = 0;
  dt = pos 7 ∷ negsuc 16 ∷ [];
  members = "He" ∷ "llo" ∷ "" ∷ [];
}

batch_is_packed :
    pack_chunk_runs batch
    ≡ packed text_row
      ∷ verbatim (delta 7 95 (tool_call_delta 1 "c" (some "grep") "{"))
      ∷ verbatim (delta 8 96 (tool_call_delta 1 "c" none "}"))
      ∷ verbatim (other_event "finish")
      ∷ []
unfolding opened
batch_is_packed = refl

short_row_is_malformed :
    validate_row (as_raw (record text_row { members = "He" ∷ [] })) ≡ err bad_arity
unfolding opened
short_row_is_malformed = refl

late_row_is_malformed :
    validate_row (as_raw (record text_row { seq0 = 9007199254740990 })) ≡ err bad_seqs
unfolding opened
late_row_is_malformed = refl

decode_all-pack_chunk_runs_example : decode_all (pack_chunk_runs batch) ≡ ok batch
decode_all-pack_chunk_runs_example = decode_all-pack_chunk_runs batch

length-pack_chunk_runs_example : length (pack_chunk_runs batch) ≤ length batch
length-pack_chunk_runs_example = length-pack_chunk_runs batch

text_row_is_taken : validate_row (as_raw text_row) ≡ ok text_row
unfolding opened
text_row_is_taken = refl

validate_row-IsSafeFrom_example :
    IsSafeFrom 4 (expand_row text_row) × (length (expand_row text_row) ≡ 3)
validate_row-IsSafeFrom_example =
    validate_row-IsSafeFrom (as_raw text_row) text_row text_row_is_taken
