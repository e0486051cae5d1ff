-- ===== src/Pairing.antt =====
-- Where a session surface may be cut without parting a tool call from its result:
-- 04-code-samples/packages/compaction/compaction/src/tool-pairing.ts. The surface's sequence
-- numbers and its rewrite generation are the surface manager's.
use agent_runtime_notes.Base.{
  ℕ, zero, suc, ◌+◌, ◌-◌, Bool, true, false, not, ◌||◌, Option, none, some, List, [], ◌∷◌, ◌++◌,
  leb, ltb, ◌==◌, if◌then◌else◌, length, drop, get_elem?, ℤ, pos, negsuc, Result, ok, err, ◌>>=◌,
}
use agent_runtime_notes.Session.{
  Block, tool_call_block, other_block, EventData, assistant_message, tool_result, SessionEvent,
}
pub mod Walks
pub mod Incremental
pub mod Balance
pub mod Tests

pub data PairingError : Type 0 where
  missing_event unmatched_result not_on_surface : PairingError

pub record Surface : Type 0 where
  pub nodes : List ℕ
  pub replace_generation : ℕ

-- `index_by_seq` has the latest setting of a key first.
pub record BalanceCache : Type 0 where
  pub generation : ℕ
  pub cut_balanced : List Bool
  pub index_by_seq : List (ℕ × ℕ)
  pub in_progress : ℕ

unfoldable pub count_calls : List Block → ℕ
count_calls [] = 0
count_calls (tool_call_block id ∷ blocks) = suc (count_calls blocks)
count_calls (other_block text ∷ blocks) = count_calls blocks

unfoldable pub event_delta : EventData → ℤ
event_delta (assistant_message turn step blocks) = pos (count_calls blocks)
event_delta (tool_result result) = negsuc 0
event_delta body = pos 0

-- `none` where the sum is negative.
unfoldable pub add_delta : ℕ → ℤ → Option ℕ
add_delta n (pos k) = some (n + k)
add_delta n (negsuc k) = if leb (suc k) n then some (n - suc k) else none

abbrev pub named_event : Option SessionEvent → ℕ → Result PairingError SessionEvent
named_event none seq = err missing_event
named_event (some event) seq = if event.seq == seq then ok event else err missing_event

unfoldable pub event_for_seq : List SessionEvent → ℕ → Result PairingError SessionEvent
event_for_seq events seq = named_event (get_elem? events seq) seq

-- The count after one sequence number of the surface.
unfoldable pub next_count : List SessionEvent → ℕ → ℕ → Result PairingError ℕ
next_count events n seq = elim (event_for_seq events seq) [
  | err e ↦ err e
  | ok event ↦ elim (add_delta n (event_delta event.body)) [
    | none ↦ err unmatched_result
    | some m ↦ ok m
  ]
]

abbrev pub push_cut : ℕ → Result PairingError (List Bool × ℕ) → Result PairingError (List Bool × ℕ)
push_cut m (ok (cuts, n)) = ok ((m == 0) ∷ cuts, n)
push_cut m (err e) = err e

-- The loop of `extendCache` over the unseen tail: the new cuts and the count after them.
unfoldable pub walk : List SessionEvent → ℕ → List ℕ → Result PairingError (List Bool × ℕ)
walk events n [] = ok ([], n)
walk events n (seq ∷ seqs) = elim (next_count events n seq) [
  | err e ↦ err e
  | ok m ↦ push_cut m (walk events m seqs)
]

-- `tail.forEach((seq, offset) => indexBySeq.set(seq, processed + offset))`.
unfoldable pub set_indices : ℕ → List ℕ → List (ℕ × ℕ) → List (ℕ × ℕ)
set_indices i [] map = map
set_indices i (seq ∷ seqs) map = set_indices (i + 1) seqs ((seq, i) ∷ map)

abbrev pub processed : BalanceCache → ℕ
processed cache = length cache.cut_balanced - 1

abbrev pub extended :
    BalanceCache → List ℕ → Result PairingError (List Bool × ℕ) → Result PairingError BalanceCache
extended cache tail (err e) = err e
extended cache tail (ok (cuts, n)) = ok (record {
  generation = cache.generation;
  cut_balanced = cache.cut_balanced ++ cuts;
  index_by_seq = set_indices (processed cache) tail cache.index_by_seq;
  in_progress = n;
})

unfoldable pub extend_cache :
    List SessionEvent → BalanceCache → List ℕ → Result PairingError BalanceCache
extend_cache events cache seqs =
    extended cache (drop (processed cache) seqs)
      (walk events cache.in_progress (drop (processed cache) seqs))

-- The cache of an empty surface.
abbrev pub empty_cache : ℕ → BalanceCache
empty_cache generation = record {
  generation = generation;
  cut_balanced = true ∷ [];
  index_by_seq = [];
  in_progress = 0;
}

abbrev pub is_stale : BalanceCache → Surface → Bool
is_stale cache surface =
    not (cache.generation == surface.replace_generation)
    || ltb (length surface.nodes) (processed cache)

unfoldable pub rebuild : List SessionEvent → Surface → Result PairingError BalanceCache
rebuild events surface = extend_cache events (empty_cache surface.replace_generation) surface.nodes

unfoldable pub balance_cache :
    Option BalanceCache → List SessionEvent → Surface → Result PairingError BalanceCache
balance_cache none events surface = rebuild events surface
balance_cache (some cache) events surface =
    if is_stale cache surface
    then rebuild events surface
    else if ltb (processed cache) (length surface.nodes)
    then extend_cache events cache surface.nodes
    else ok cache

unfoldable pub index_of : List (ℕ × ℕ) → ℕ → Option ℕ
index_of [] seq = none
index_of ((key, i) ∷ map) seq = if key == seq then some i else index_of map seq

abbrev pub cut_at : List Bool → Option ℕ → ℕ → Result PairingError Bool
cut_at cuts none offset = err not_on_surface
cut_at cuts (some i) offset = elim (get_elem? cuts (i + offset)) [
  | none ↦ err not_on_surface
  | some balanced ↦ ok balanced
]

unfoldable pub cut_balance : BalanceCache → ℕ → ℕ → Result PairingError Bool
cut_balance cache seq offset = cut_at cache.cut_balanced (index_of cache.index_by_seq seq) offset

unfoldable pub tool_pairing_balanced_before :
    Option BalanceCache → List SessionEvent → Surface → ℕ → Result PairingError Bool
tool_pairing_balanced_before cached events surface seq =
    balance_cache cached events surface >>= λ cache. cut_balance cache seq 0

unfoldable pub tool_pairing_balanced_after :
    Option BalanceCache → List SessionEvent → Surface → ℕ → Result PairingError Bool
tool_pairing_balanced_after cached events surface seq =
    balance_cache cached events surface >>= λ cache. cut_balance cache seq 1
