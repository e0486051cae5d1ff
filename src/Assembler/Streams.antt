-- ===== src/Assembler/Streams.antt =====
-- One block's chunks among those of the others, in class BlockAssembler of assembler.ts.
use agent_runtime_notes.Assembler.{
  Assembler, AssemblyChunk, BlockType, PartialBlock, add_call, add_text, block_end, block_start,
  call_piece, close, ensure, new_partial, partial_at, reasoning_piece, reasoning_type, set_partial,
  text_piece, text_type, tool_call_type, type_of, updated, ContentBlock, finish_chunk, opened,
  push_chunk, push_chunks, usage_chunk, write_back,
}
use agent_runtime_notes.Base.{
  Bool, List, Option, [], arith, false, if◌then◌else◌, map, none, some, ℕ, ◌==◌, ◌∷◌, ◌≡◌,
  Bool-cases, ap, inl, inr, refl, sym, ◌∙◌,
}

-- What a chunk does to the partial of its index.
abbrev pub or_new : BlockType → Option PartialBlock → PartialBlock
or_new kind none = new_partial kind
or_new kind (some partial) = partial

abbrev pub own_step : AssemblyChunk → Option PartialBlock → Option PartialBlock
own_step (block_start index kind) found = some (or_new kind found)
own_step (text_piece index text) found = some (updated (add_text text) (or_new text_type found))
own_step (reasoning_piece index text) found =
    some (updated (add_text text) (or_new reasoning_type found))
own_step (call_piece index id name arguments) found =
    some (updated (add_call id name arguments) (or_new tool_call_type found))
own_step (block_end index block) found = some (updated (close block) (or_new (type_of block) found))
own_step chunk found = found

abbrev pub is_of : ℕ → AssemblyChunk → Bool
is_of i (block_start index kind) = index == i
is_of i (text_piece index text) = index == i
is_of i (reasoning_piece index text) = index == i
is_of i (call_piece index id name arguments) = index == i
is_of i (block_end index block) = index == i
is_of i chunk = false

-- The partial that the chunks of one index make, the others left out.
abbrev pub stream_partial : ℕ → Option PartialBlock → List AssemblyChunk → Option PartialBlock
stream_partial i found [] = found
stream_partial i found (chunk ∷ chunks) =
    stream_partial i (if is_of i chunk then own_step chunk found else found) chunks

pub partial_at-set_partial :
    (map : List (ℕ × PartialBlock)) (index i : ℕ) (new : PartialBlock)
    → partial_at (set_partial map index new) i ≡ (if index == i then some new else partial_at map i)
unfolding partial_at set_partial
partial_at-set_partial [] index i new = ground arith
partial_at-set_partial ((j, partial) ∷ map) index i new =
    let rest = partial_at-set_partial map index i new in ground arith

pub opened-partial :
    (s : Assembler) (index i : ℕ) (kind : BlockType) (found : Option PartialBlock)
    → partial_at s.partials index ≡ found
    → (partial_at (opened s index kind found).0.partials i
        ≡ (if index == i then some (or_new kind found) else partial_at s.partials i))
      × ((opened s index kind found).1 ≡ or_new kind found)
opened-partial s index i kind none h =
    (partial_at-set_partial s.partials index i (new_partial kind), refl)
opened-partial s index i kind (some partial) h = elim (Bool-cases (index == i)) [
  | inl e ↦
      let same : index ≡ i = ground (arith, e) in
      (rw e (ap (partial_at s.partials) (sym same) ∙ h), refl)
  | inr e ↦ (rw e refl, refl)
]

-- What a chunk that updates the partial of its index leaves at each index.
write_back-partial :
    (s : Assembler) (index i : ℕ) (kind : BlockType) (update : PartialBlock → PartialBlock)
    → partial_at (write_back update index (ensure s index kind)).partials i ≡ (
        if index == i
        then some (updated update (or_new kind (partial_at s.partials i)))
        else partial_at s.partials i)
write_back-partial s index i kind update =
    let found = partial_at s.partials index in
    let (old, new) = opened-partial s index i kind (partial_at s.partials index) refl in
    let set =
      partial_at-set_partial (ensure s index kind).0.partials index i
        (updated update (ensure s index kind).1) in
    elim (Bool-cases (index == i)) [
      | inl e ↦
          let same : index ≡ i = ground (arith, e) in
          let after : some (updated update (ensure s index kind).1)
              ≡ some (updated update (or_new kind (partial_at s.partials i))) =
            ap (λ p. some (updated update p)) new
            ∙ ap (λ j. some (updated update (or_new kind (partial_at s.partials j)))) same in
          rw e ((rw e at set) ∙ after)
      | inr e ↦ rw e ((rw e at set) ∙ (rw e at old))
    ]

push_chunk-partial :
    (s : Assembler) (i : ℕ) (chunk : AssemblyChunk)
    → partial_at (push_chunk s chunk).partials i ≡ (
        if is_of i chunk then own_step chunk (partial_at s.partials i) else partial_at s.partials i)
unfolding push_chunk
push_chunk-partial s i (block_start index kind) =
    let (old, new) = opened-partial s index i kind (partial_at s.partials index) refl in
    elim (Bool-cases (index == i)) [
      | inl e ↦
          let same : index ≡ i = ground (arith, e) in
          rw e ((rw e at old) ∙ ap (λ j. some (or_new kind (partial_at s.partials j))) same)
      | inr e ↦ rw e (rw e at old)
    ]
push_chunk-partial s i (text_piece index text) =
    write_back-partial s index i text_type (add_text text)
push_chunk-partial s i (reasoning_piece index text) =
    write_back-partial s index i reasoning_type (add_text text)
push_chunk-partial s i (call_piece index id name arguments) =
    write_back-partial s index i tool_call_type (add_call id name arguments)
push_chunk-partial s i (block_end index block) =
    write_back-partial s index i (type_of block) (close block)
push_chunk-partial s i (usage_chunk usage) = refl
push_chunk-partial s i (finish_chunk reason state) = refl

-- From any state and for any stream, the partial at each index is what the chunks of that index
-- alone make of the one that is there, in their order, however the chunks of other indices
-- interleave.
pub push_chunks-stream_partial :
    (s : Assembler) (i : ℕ) (chunks : List AssemblyChunk)
    → partial_at (push_chunks s chunks).partials i
      ≡ stream_partial i (partial_at s.partials i) chunks
push_chunks-stream_partial s i [] = refl
push_chunks-stream_partial s i (chunk ∷ chunks) =
    push_chunks-stream_partial (push_chunk s chunk) i chunks
    ∙ ap (λ found. stream_partial i found chunks) (push_chunk-partial s i chunk)

own_step-closed :
    (chunk : AssemblyChunk) (partial : PartialBlock) (block : ContentBlock)
    → partial.block ≡ some block
    → own_step chunk (some partial) ≡ some partial
own_step-closed (block_start index kind) partial block h = refl
own_step-closed (text_piece index text) partial block h = rw h refl
own_step-closed (reasoning_piece index text) partial block h = rw h refl
own_step-closed (call_piece index id name arguments) partial block h = rw h refl
own_step-closed (block_end index other) partial block h = rw h refl
own_step-closed (usage_chunk usage) partial block h = refl
own_step-closed (finish_chunk reason state) partial block h = refl

stream_partial-closed :
    (i : ℕ) (partial : PartialBlock) (block : ContentBlock) (chunks : List AssemblyChunk)
    → partial.block ≡ some block
    → stream_partial i (some partial) chunks ≡ some partial
stream_partial-closed i partial block [] h = refl
stream_partial-closed i partial block (chunk ∷ chunks) h = elim (Bool-cases (is_of i chunk)) [
  | inl e ↦
      rw (e, own_step-closed chunk partial block h) (stream_partial-closed i partial block chunks h)
  | inr e ↦ rw e (stream_partial-closed i partial block chunks h)
]

-- When the partial at an index is closed by a block, it is the same after any further chunks.
pub push_chunks-closed :
    (s : Assembler) (i : ℕ) (partial : PartialBlock) (block : ContentBlock)
    (chunks : List AssemblyChunk)
    → partial_at s.partials i ≡ some partial
    → partial.block ≡ some block
    → partial_at (push_chunks s chunks).partials i ≡ some partial
push_chunks-closed s i partial block chunks found closed =
    push_chunks-stream_partial s i chunks
    ∙ (ap (λ o. stream_partial i o chunks) found
        ∙ stream_partial-closed i partial block chunks closed)
