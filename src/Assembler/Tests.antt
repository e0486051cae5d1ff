-- ===== src/Assembler/Tests.antt =====
-- Two interleaved blocks: class BlockAssembler of assembler.ts on them.
use agent_runtime_notes.Assembler.{
  Assembler, AssemblyChunk, PartialBlock, assemble_all, block_end, block_start, blocks_of,
  call_piece, finish_chunk, incomplete_block, max_tokens, new_assembler, new_partial, no_partial,
  other_type, partial_at, push_chunk, push_chunks, set_partial, text_content, text_piece, text_type,
  tool_call_content,
}
use agent_runtime_notes.Base.{
  List, String, [], err, if◌then◌else◌, none, ok, refl, some, ℕ, ◌∷◌, ◌≡◌, ◌≢◌,
}
use agent_runtime_notes.Assembler.Order.{has_chunk, push_chunks-order}
use agent_runtime_notes.Surface.Counting.{occurrences}
use agent_runtime_notes.Assembler.Streams.{
  push_chunks-closed, push_chunks-stream_partial, stream_partial,
}

opened_assembler : Unit {0}
unfolding partial_at set_partial push_chunk assemble_all blocks_of
opened_assembler = tt

abbrev label : ℕ → String
label index = "call"

abbrev stream : List AssemblyChunk
stream =
    text_piece 0 "He"
    ∷ call_piece 1 "c" (some "grep") "{"
    ∷ text_piece 0 "llo"
    ∷ call_piece 1 "c" (some "") "}"
    ∷ block_end 0 (text_content "Hello!")
    ∷ text_piece 0 " late"
    ∷ []

stream_is_assembled :
    blocks_of label (push_chunks new_assembler stream)
    ≡ ok (text_content "Hello!" ∷ tool_call_content "c" "grep" "{}" ∷ [])
unfolding opened_assembler
stream_is_assembled = refl

truncated_calls_are_dropped :
    blocks_of label (push_chunks new_assembler (finish_chunk max_tokens none ∷ stream))
    ≡ ok (text_content "Hello!" ∷ [])
unfolding opened_assembler
truncated_calls_are_dropped = refl

unknown_open_block_throws :
    blocks_of label (push_chunks new_assembler (block_start 0 (other_type "image") ∷ []))
    ≡ err incomplete_block
unfolding opened_assembler
unknown_open_block_throws = refl

push_chunks-stream_partial_example :
    partial_at (push_chunks new_assembler stream).partials 1
    ≡ stream_partial 1 (partial_at new_assembler.partials 1) stream
push_chunks-stream_partial_example = push_chunks-stream_partial new_assembler 1 stream

abbrev closed_text : PartialBlock
closed_text = record (new_partial text_type) { text = "Hi"; block = some (text_content "Hi") }

abbrev closed_state : Assembler
closed_state = record new_assembler { partials = (0, closed_text) ∷ []; order = 0 ∷ [] }

closed_text_found : partial_at closed_state.partials 0 ≡ some closed_text
unfolding opened_assembler
closed_text_found = refl

push_chunks-closed_example :
    partial_at (push_chunks closed_state stream).partials 0 ≡ some closed_text
push_chunks-closed_example =
    push_chunks-closed closed_state 0 closed_text (text_content "Hi") stream closed_text_found refl

push_chunks-order_example :
    (occurrences 1 (push_chunks new_assembler stream).order ≡ (if has_chunk 1 stream then 1 else 0))
    × (blocks_of label (push_chunks new_assembler stream) ≢ err no_partial)
push_chunks-order_example = push_chunks-order label stream 1
