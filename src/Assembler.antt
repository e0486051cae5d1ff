-- ===== src/Assembler.antt =====
-- The assembly of a streamed message: class BlockAssembler of
-- 04-code-samples/packages/llm/llm/src/assembler.ts. A `Map` is a list of pairs; `usage` and the
-- adapter's replay state are opaque, and the name `call-…` of a call without one is a function of its
-- index.
use agent_runtime_notes.Base.{
  List, Option, Result, String, [], err, if◌then◌else◌, map, none, ok, some, str_append, str_eq, ℕ,
  ◌++◌, ◌==◌, ◌>>=◌, ◌∷◌,
}
pub mod Streams
pub mod Order
pub mod Tests

pub data BlockType : Type 0 where
  text_type reasoning_type tool_call_type : BlockType
  other_type : String → BlockType

pub data ContentBlock : Type 0 where
  text_content reasoning_content : String → ContentBlock
  tool_call_content : (id name arguments : String) → ContentBlock
  other_content : (kind json : String) → ContentBlock

abbrev pub type_of : ContentBlock → BlockType
type_of (text_content text) = text_type
type_of (reasoning_content text) = reasoning_type
type_of (tool_call_content id name arguments) = tool_call_type
type_of (other_content kind json) = other_type kind

pub data FinishReason : Type 0 where
  stop max_tokens : FinishReason
  other_reason : String → FinishReason

pub data AssemblyChunk : Type 0 where
  block_start : (index : ℕ) → BlockType → AssemblyChunk
  text_piece reasoning_piece : (index : ℕ) → String → AssemblyChunk
  call_piece : (index : ℕ) → (id : String) → (name : Option String) → String → AssemblyChunk
  block_end : (index : ℕ) → ContentBlock → AssemblyChunk
  usage_chunk : String → AssemblyChunk
  finish_chunk : FinishReason → (replay_state : Option String) → AssemblyChunk

pub record PartialBlock : Type 0 where
  pub block_type : BlockType
  pub text : String
  pub call_id : Option String
  pub call_name : Option String
  pub call_arguments : String
  pub block : Option ContentBlock

pub record Assembler : Type 0 where
  pub partials : List (ℕ × PartialBlock)
  pub order : List ℕ
  pub usage : Option String
  pub finish_reason : Option FinishReason
  pub replay_state : Option String

abbrev pub new_assembler : Assembler
new_assembler = record {
  partials = [];
  order = [];
  usage = none;
  finish_reason = none;
  replay_state = none;
}

abbrev pub new_partial : BlockType → PartialBlock
new_partial kind = record {
  block_type = kind;
  text = "";
  call_id = none;
  call_name = none;
  call_arguments = "";
  block = none;
}

-- `map.get` and `map.set`.
unfoldable pub partial_at : List (ℕ × PartialBlock) → ℕ → Option PartialBlock
partial_at [] index = none
partial_at ((i, partial) ∷ map) index = if i == index then some partial else partial_at map index

unfoldable pub set_partial : List (ℕ × PartialBlock) → ℕ → PartialBlock → List (ℕ × PartialBlock)
set_partial [] index new = (index, new) ∷ []
set_partial ((i, partial) ∷ map) index new =
    let rest = set_partial map index new in
    if i == index then (i, new) ∷ map else (i, partial) ∷ rest

abbrev pub opened : Assembler → ℕ → BlockType → Option PartialBlock → Assembler × PartialBlock
opened s index kind (some partial) = (s, partial)
opened s index kind none = (
  record s {
    partials = set_partial s.partials index (new_partial kind);
    order = s.order ++ index ∷ [];
  },
  new_partial kind,
)

abbrev pub ensure : Assembler → ℕ → BlockType → Assembler × PartialBlock
ensure s index kind = opened s index kind (partial_at s.partials index)

-- An update of a partial that `block-end` has not closed.
abbrev pub unless_closed :
    (PartialBlock → PartialBlock) → PartialBlock → Option ContentBlock → PartialBlock
unless_closed update partial none = update partial
unless_closed update partial (some block) = partial

abbrev pub updated : (PartialBlock → PartialBlock) → PartialBlock → PartialBlock
updated update partial = unless_closed update partial partial.block

abbrev pub write_back : (PartialBlock → PartialBlock) → ℕ → Assembler × PartialBlock → Assembler
write_back update index (s, partial) = record s {
  partials = set_partial s.partials index (updated update partial);
}

abbrev pub add_text : String → PartialBlock → PartialBlock
add_text text partial = record partial { text = str_append partial.text text }

-- A name that is missing or empty leaves the one there is.
abbrev pub named : Option String → Option String → Option String
named none old = old
named (some name) old = if str_eq name "" then old else some name

abbrev pub add_call : String → Option String → String → PartialBlock → PartialBlock
add_call id name arguments partial = record partial {
  call_id = some id;
  call_name = named name partial.call_name;
  call_arguments = str_append partial.call_arguments arguments;
}

abbrev pub close : ContentBlock → PartialBlock → PartialBlock
close block partial = record partial { block = some block }

unfoldable pub push_chunk : Assembler → AssemblyChunk → Assembler
push_chunk s (block_start index kind) = (ensure s index kind).0
push_chunk s (text_piece index text) = write_back (add_text text) index (ensure s index text_type)
push_chunk s (reasoning_piece index text) =
    write_back (add_text text) index (ensure s index reasoning_type)
push_chunk s (call_piece index id name arguments) =
    write_back (add_call id name arguments) index (ensure s index tool_call_type)
push_chunk s (block_end index block) =
    write_back (close block) index (ensure s index (type_of block))
push_chunk s (usage_chunk usage) = record s { usage = some usage }
push_chunk s (finish_chunk reason state) = record s {
  finish_reason = some reason;
  replay_state = state;
}

abbrev pub push_chunks : Assembler → List AssemblyChunk → Assembler
push_chunks s [] = s
push_chunks s (chunk ∷ chunks) = push_chunks (push_chunk s chunk) chunks

pub data AssemblyError : Type 0 where
  incomplete_block no_partial : AssemblyError

abbrev pub or_else : Option String → String → String
or_else none other = other
or_else (some s) other = s

module _ (call_label : ℕ → String) where
  abbrev pub from_deltas : PartialBlock → ℕ → BlockType → Result AssemblyError ContentBlock
  from_deltas partial index text_type = ok (text_content partial.text)
  from_deltas partial index reasoning_type = ok (reasoning_content partial.text)
  from_deltas partial index tool_call_type = ok (
      tool_call_content (or_else partial.call_id (call_label index)) (or_else partial.call_name "")
        partial.call_arguments)
  from_deltas partial index (other_type kind) = err incomplete_block

  abbrev pub closed_or : PartialBlock → ℕ → Option ContentBlock → Result AssemblyError ContentBlock
  closed_or partial index (some block) = ok block
  closed_or partial index none = from_deltas partial index partial.block_type

  abbrev pub assemble_at : ℕ → Option PartialBlock → Result AssemblyError ContentBlock
  assemble_at index none = err no_partial
  assemble_at index (some partial) = closed_or partial index partial.block

  unfoldable pub assemble_all :
      (ℕ → Option PartialBlock) → List ℕ → Result AssemblyError (List ContentBlock)
  assemble_all find [] = ok []
  assemble_all find (index ∷ order) = assemble_at index (find index) >>= λ block.
      assemble_all find order >>= λ blocks. ok (block ∷ blocks)

  abbrev pub without_calls : List ContentBlock → List ContentBlock
  without_calls [] = []
  without_calls (tool_call_content id name arguments ∷ blocks) = without_calls blocks
  without_calls (block ∷ blocks) = block ∷ without_calls blocks

  abbrev pub finish_filter : Option FinishReason → List ContentBlock → List ContentBlock
  finish_filter (some max_tokens) blocks = without_calls blocks
  finish_filter reason blocks = blocks

  unfoldable pub blocks_of : Assembler → Result AssemblyError (List ContentBlock)
  blocks_of s = assemble_all (partial_at s.partials) s.order >>= λ blocks.
      ok (finish_filter s.finish_reason blocks)
