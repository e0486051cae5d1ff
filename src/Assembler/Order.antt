-- ===== src/Assembler/Order.antt =====
-- The order of the blocks in class BlockAssembler of assembler.ts, and the error of mustGet.
use agent_runtime_notes.Surface.Counting.{occurrences, occurrences-append}
use agent_runtime_notes.Assembler.{
  Assembler, AssemblyChunk, BlockType, PartialBlock, add_call, add_text, assemble_all, assemble_at,
  block_end, block_start, blocks_of, call_piece, close, ensure, finish_chunk, from_deltas,
  new_assembler, new_partial, no_partial, opened, other_type, partial_at, push_chunk, push_chunks,
  reasoning_piece, reasoning_type, text_piece, text_type, tool_call_type, type_of, updated,
  usage_chunk, write_back,
}
use agent_runtime_notes.Base.{
  Bool, Bool-cases, List, Option, Option-cases, Result-cases, String, [], ap, arith, err, false,
  if◌then◌else◌, inl, inr, max, none, refl, some, sym, true, ℕ, ◌<◌, ◌==◌, ◌||◌, ◌∙◌, ◌∷◌, ◌≡◌, ◌≢◌,
  ◌≤◌,
}
use agent_runtime_notes.Assembler.Streams.{
  is_of, own_step, stream_partial, opened-partial, partial_at-set_partial,
  push_chunks-stream_partial,
}

abbrev pub present : Option PartialBlock → ℕ
present none = 0
present (some partial) = 1

-- An index is in the order once if it has a partial, and else not.
abbrev pub IsOrdered : Assembler → Type 0
IsOrdered s = (i : ℕ) → occurrences i s.order ≡ present (partial_at s.partials i)

opened-IsOrdered :
    (s : Assembler) (index : ℕ) (kind : BlockType) (found : Option PartialBlock)
    → partial_at s.partials index ≡ found
    → IsOrdered s
    → IsOrdered ((opened s index kind found).0)
opened-IsOrdered s index kind (some partial) h o i = o i
opened-IsOrdered s index kind none h o i =
    let set = partial_at-set_partial s.partials index i (new_partial kind) in
    let snoc = occurrences-append i s.order (index ∷ []) in
    let now = ap present set in
    elim (Bool-cases (index == i)) [
      | inl e ↦
          let same : index ≡ i = ground (arith, e) in
          let none_there = o i ∙ ap present (ap (partial_at s.partials) (sym same) ∙ h) in
          ground (arith, snoc, now, e, none_there)
      | inr e ↦ ground (arith, snoc, now, e, o i)
    ]

write_back-IsOrdered :
    (s : Assembler) (index : ℕ) (kind : BlockType) (update : PartialBlock → PartialBlock)
    → IsOrdered s
    → IsOrdered (write_back update index (ensure s index kind))
write_back-IsOrdered s index kind update o i =
    let ready = opened-IsOrdered s index kind (partial_at s.partials index) refl o i in
    let (old, new) = opened-partial s index i kind (partial_at s.partials index) refl in
    let set =
      partial_at-set_partial (ensure s index kind).0.partials index i
        (updated update (ensure s index kind).1) in
    elim (Bool-cases (index == i)) [
      | inl e ↦ ready ∙ (ap present (rw e at old) ∙ sym (ap present (rw e at set)))
      | inr e ↦ ready ∙ sym (ap present (rw e at set))
    ]

push_chunk-IsOrdered :
    (s : Assembler) (chunk : AssemblyChunk) → IsOrdered s → IsOrdered (push_chunk s chunk)
unfolding push_chunk
push_chunk-IsOrdered s (block_start index kind) o =
    opened-IsOrdered s index kind (partial_at s.partials index) refl o
push_chunk-IsOrdered s (text_piece index text) o =
    write_back-IsOrdered s index text_type (add_text text) o
push_chunk-IsOrdered s (reasoning_piece index text) o =
    write_back-IsOrdered s index reasoning_type (add_text text) o
push_chunk-IsOrdered s (call_piece index id name arguments) o =
    write_back-IsOrdered s index tool_call_type (add_call id name arguments) o
push_chunk-IsOrdered s (block_end index block) o =
    write_back-IsOrdered s index (type_of block) (close block) o
push_chunk-IsOrdered s (usage_chunk usage) o = o
push_chunk-IsOrdered s (finish_chunk reason state) o = o

push_chunks-IsOrdered :
    (s : Assembler) (chunks : List AssemblyChunk) → IsOrdered s → IsOrdered (push_chunks s chunks)
push_chunks-IsOrdered s [] o = o
push_chunks-IsOrdered s (chunk ∷ chunks) o =
    push_chunks-IsOrdered (push_chunk s chunk) chunks (push_chunk-IsOrdered s chunk o)

-- Whether a stream has a chunk of an index.
abbrev pub has_chunk : ℕ → List AssemblyChunk → Bool
has_chunk i [] = false
has_chunk i (chunk ∷ chunks) = is_of i chunk || has_chunk i chunks

own_step-present :
    (i : ℕ) (chunk : AssemblyChunk) (found : Option PartialBlock)
    → is_of i chunk ≡ true
    → present (own_step chunk found) ≡ 1
own_step-present i (block_start index kind) found h = refl
own_step-present i (text_piece index text) found h = refl
own_step-present i (reasoning_piece index text) found h = refl
own_step-present i (call_piece index id name arguments) found h = refl
own_step-present i (block_end index block) found h = refl
own_step-present i (usage_chunk usage) found h = absurd (ground arith)
own_step-present i (finish_chunk reason state) found h = absurd (ground arith)

stream_partial-present :
    (i : ℕ) (found : Option PartialBlock) (chunks : List AssemblyChunk)
    → present (stream_partial i found chunks)
      ≡ max (present found) (if has_chunk i chunks then 1 else 0)
stream_partial-present i found [] = omega arith
stream_partial-present i found (chunk ∷ chunks) = elim (Bool-cases (is_of i chunk)) [
  | inl e ↦
      let rest = stream_partial-present i (own_step chunk found) chunks in
      let one = own_step-present i chunk found e in
      let least = present-bound found in rw e (rest ∙ ground (arith, one, least))
  | inr e ↦ rw e (stream_partial-present i found chunks)
]
  where
    present-bound : (found : Option PartialBlock) → present found ≤ 1
    present-bound none = omega arith
    present-bound (some partial) = omega arith

one : (n : ℕ) (found : Option PartialBlock) → n ≡ present found → 0 < n → present found ≡ 1
one n none e l = absurd (omega (arith, e, l))
one n (some partial) e l = refl

module _ (call_label : ℕ → String) where
  from_deltas-error :
      (partial : PartialBlock) (index : ℕ) (kind : BlockType)
      → from_deltas call_label partial index kind ≢ err no_partial
  from_deltas-error partial index text_type h = ground arith
  from_deltas-error partial index reasoning_type h = ground arith
  from_deltas-error partial index tool_call_type h = ground arith
  from_deltas-error partial index (other_type kind) h = ground arith

  assemble_at-error :
      (index : ℕ) (found : Option PartialBlock)
      → present found ≡ 1
      → assemble_at call_label index found ≢ err no_partial
  assemble_at-error index none p h = omega (arith, p)
  assemble_at-error index (some partial) p h = elim (Option-cases partial.block) [
    | inl e ↦ from_deltas-error partial index partial.block_type (rw e at h)
    | inr (block, e) ↦ ground (arith, e)
  ]

  assemble_all-error :
      (find : ℕ → Option PartialBlock) (order : List ℕ)
      → ((i : ℕ) → 0 < occurrences i order → present (find i) ≡ 1)
      → assemble_all call_label find order ≢ err no_partial
  unfolding assemble_all
  assemble_all-error find [] p h = ground arith
  assemble_all-error find (index ∷ order) p h =
      elim (Result-cases (assemble_at call_label index (find index))) [
        | inr (e, q) ↦
            let same : e ≡ no_partial = ground (arith, q) in
            assemble_at-error index (find index) (p index (ground arith))
              (q ∙ ap (λ thrown. err thrown) same)
        | inl (block, q) ↦ elim (Result-cases (assemble_all call_label find order)) [
          | inr (e, r) ↦
              let same : e ≡ no_partial = ground (arith, q, r) in
              assemble_all-error find order (λ i l. p i (omega (arith, l)))
                (r ∙ ap (λ thrown. err thrown) same)
          | inl (blocks, r) ↦ ground (arith, q, r)
        ]
      ]

  -- After any stream from the start, the order has an index once if the stream has a chunk of that
  -- index and else not, and assembling the blocks never throws that an index has no partial.
  pub push_chunks-order :
      (chunks : List AssemblyChunk) (i : ℕ)
      → (occurrences i (push_chunks new_assembler chunks).order
          ≡ (if has_chunk i chunks then 1 else 0))
        × (blocks_of call_label (push_chunks new_assembler chunks) ≢ err no_partial)
  unfolding blocks_of partial_at
  push_chunks-order chunks i =
      let s = push_chunks new_assembler chunks in
      let o = push_chunks-IsOrdered new_assembler chunks (λ j. refl) in
      let seen = stream_partial-present i none chunks in
      let made = ap present (push_chunks-stream_partial new_assembler i chunks) in
      (
        o i ∙ (made ∙ (seen ∙ ground arith)),
        λ h. elim (Result-cases (assemble_all call_label (partial_at s.partials) s.order)) [
          | inl (blocks, q) ↦ ground (arith, q)
          | inr (e, q) ↦
              let same : e ≡ no_partial = ground (arith, q) in
              assemble_all-error (partial_at s.partials) s.order
                (λ j l. one (occurrences j s.order) (partial_at s.partials j) (o j) l)
                (q ∙ ap (λ thrown. err thrown) same)
        ],
      )
