-- ===== src/Retention.antt =====
-- Bounded output of tools: 04-code-samples/packages/util/output-retention/src/index.ts. Bytes are
-- natural numbers; `TextEncoder` and `TextDecoder` are functions. A budget is a natural number, as
-- `assertBudget` has it.
use agent_runtime_notes.Base.{
  Bool, List, String, [], drop, if◌then◌else◌, leb, length, ltb, min, not, take, ℕ, ◌++◌, ◌+◌, ◌-◌,
  ◌∷◌,
}
pub mod Utf8
pub mod Items
pub mod Window
pub mod Kept
pub mod Codepoints
pub mod Boundaries
pub mod Tests

-- The retainers themselves never give `unknown`.
pub data Omitted : Type 0 where
  no_omission : Omitted
  exact : ℕ → Omitted
  unknown : Omitted

pub record PushDecision : Type 0 where
  pub kept : Bool
  pub truncated : Bool

pub data TextRetentionStrategy : Type 0 where
  head tail : (max_bytes : ℕ) → TextRetentionStrategy
  head_tail : (head_bytes tail_bytes : ℕ) → TextRetentionStrategy

pub record RetainedText : Type 0 where
  pub text : String
  pub truncated : Bool
  pub omitted_bytes : Omitted

pub record TextRetainer : Type 0 where
  pub prefix_cap : ℕ
  pub suffix_cap : ℕ
  pub prefix_chunks : List (List ℕ)
  pub prefix_held : ℕ
  pub suffix_chunks : List (List ℕ)
  pub suffix_held : ℕ
  pub total : ℕ

abbrev with_caps : ℕ → ℕ → TextRetainer
with_caps prefix_cap suffix_cap = record {
  prefix_cap = prefix_cap;
  suffix_cap = suffix_cap;
  prefix_chunks = [];
  prefix_held = 0;
  suffix_chunks = [];
  suffix_held = 0;
  total = 0;
}

unfoldable pub new_retainer : TextRetentionStrategy → TextRetainer
new_retainer (head max_bytes) = with_caps max_bytes 0
new_retainer (tail max_bytes) = with_caps 0 max_bytes
new_retainer (head_tail head_bytes tail_bytes) = with_caps head_bytes tail_bytes

-- `concat`.
abbrev pub concat : List (List ℕ) → List ℕ
concat [] = []
concat (chunk ∷ chunks) = chunk ++ concat chunks

abbrev pub omitted_at : TextRetainer → ℕ → ℕ
omitted_at r total =
    total - min total r.prefix_cap - min (total - min total r.prefix_cap) r.suffix_cap

-- What is held, and its chunks, after the prefix has taken what it has room for.
unfoldable pub push_prefix : ℕ → ℕ → List (List ℕ) → List ℕ → ℕ × List (List ℕ)
push_prefix cap held chunks bytes =
    let taken = min (cap - held) (length bytes) in
    if ltb 0 taken then (held + taken, chunks ++ take taken bytes ∷ []) else (held, chunks)

-- The loop that drops whole chunks that have slid out of the last `cap` bytes.
unfoldable pub slide : ℕ → ℕ → List (List ℕ) → ℕ × List (List ℕ)
slide cap held [] = (held, [])
slide cap held (chunk ∷ chunks) =
    let rest = slide cap (held - length chunk) chunks in
    if leb cap (held - length chunk) then rest else (held, chunk ∷ chunks)

-- The bytes of the first chunk that are beyond the last `cap`.
unfoldable pub trim_head : ℕ → ℕ × List (List ℕ) → ℕ × List (List ℕ)
trim_head cap (held, []) = (held, [])
trim_head cap (held, chunk ∷ chunks) =
    if ltb cap held
    then (held - (held - cap), drop (held - cap) chunk ∷ chunks)
    else (held, chunk ∷ chunks)

unfoldable pub push_suffix : ℕ → ℕ → List (List ℕ) → List ℕ → ℕ × List (List ℕ)
push_suffix cap held chunks bytes =
    if ltb 0 cap
    then trim_head cap (slide cap (held + length bytes) (chunks ++ bytes ∷ []))
    else (held, chunks)

abbrev pub decision : TextRetainer → ℕ → ℕ → PushDecision
decision r before total = record {
  kept = not (ltb (omitted_at r before) (omitted_at r total));
  truncated = ltb 0 (omitted_at r total);
}

unfoldable pub push_bytes : TextRetainer → List ℕ → TextRetainer × PushDecision
push_bytes r bytes =
    let (prefix_held, prefix_chunks) =
      push_prefix r.prefix_cap r.prefix_held r.prefix_chunks bytes in
    let (suffix_held, suffix_chunks) =
      push_suffix r.suffix_cap r.suffix_held r.suffix_chunks bytes in
    (
      record {
        prefix_cap = r.prefix_cap;
        suffix_cap = r.suffix_cap;
        prefix_chunks = prefix_chunks;
        prefix_held = prefix_held;
        suffix_chunks = suffix_chunks;
        suffix_held = suffix_held;
        total = r.total + length bytes;
      },
      decision r r.total (r.total + length bytes),
    )

-- The prefix and the suffix before they are cut to UTF-8 boundaries.
abbrev pub suffix_length : TextRetainer → ℕ
suffix_length r = min (r.total - min r.total r.prefix_cap) r.suffix_cap

unfoldable pub held_bytes : TextRetainer → List ℕ × List ℕ
held_bytes r =
    (concat r.prefix_chunks, drop (r.suffix_held - suffix_length r) (concat r.suffix_chunks))

abbrev pub omission : ℕ → Omitted
omission omitted = if ltb 0 omitted then exact omitted else no_omission

-- One chunk, which may be a string.
pub data Chunk : Type 0 where
  bytes_chunk : List ℕ → Chunk
  text_chunk : String → Chunk

abbrev pub push : (String → List ℕ) → TextRetainer → Chunk → TextRetainer × PushDecision
push encode r (bytes_chunk bytes) = push_bytes r bytes
push encode r (text_chunk text) = push_bytes r (encode text)
