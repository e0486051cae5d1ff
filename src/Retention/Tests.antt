-- ===== src/Retention/Tests.antt =====
-- A stream of "aé€b" in two chunks that part a character: output-retention's index.ts on it.
use agent_runtime_notes.Base.{
  All, List, String, [], arith, drop, false, inl, inr, length, ltb, refl, take, true, ℕ, ◌++◌, ◌-◌,
  ◌∷◌, ◌≡◌, ◌≤◌,
}
use agent_runtime_notes.Retention.Boundaries.{IsCharacter, kept_bytes-characters}
use agent_runtime_notes.Retention.{
  TextRetainer, TextRetentionStrategy, concat, exact, head_tail, held_bytes, new_retainer, omission,
  push_bytes, push_prefix, push_suffix, slide, trim_head,
}
use agent_runtime_notes.Retention.Utf8.{
  finish, kept_bytes, trim_leading_continuation_utf8, trim_trailing_partial_utf8, walk_back,
}
use agent_runtime_notes.Retention.Kept.{
  finish-retained, held_bytes-retained, retained, suffix_share,
}
use agent_runtime_notes.Retention.Items.{
  finish_items, finish_items-push_items, new_item_retainer, push_item, push_items, RetainedItems,
}

opened : Unit {0}
unfolding new_retainer push_prefix slide trim_head push_suffix push_bytes held_bytes walk_back
    trim_trailing_partial_utf8 trim_leading_continuation_utf8 kept_bytes finish push_item
    finish_items
opened = tt

abbrev characters : List (List ℕ)
characters = (97 ∷ []) ∷ (195 ∷ 169 ∷ []) ∷ (226 ∷ 130 ∷ 172 ∷ []) ∷ (98 ∷ []) ∷ []

abbrev chunks : List (List ℕ)
chunks = (97 ∷ 195 ∷ []) ∷ (169 ∷ 226 ∷ 130 ∷ 172 ∷ 98 ∷ []) ∷ []

-- Two bytes of each end: both cuts fall into a character.
abbrev both_ends : TextRetentionStrategy
both_ends = head_tail 2 2

both_ends_are_whole : kept_bytes (retained both_ends chunks) ≡ (97 ∷ [], 98 ∷ [])
unfolding opened
both_ends_are_whole = refl

abbrev decode : List ℕ → String
decode bytes = "?"

omission_is_exact : (finish decode (retained both_ends chunks)).omitted_bytes ≡ exact 5
unfolding opened
omission_is_exact = refl

last_push_drops :
    (push_bytes (retained both_ends ((97 ∷ 195 ∷ []) ∷ [])) (169 ∷ 226 ∷ 130 ∷ [])).1
    ≡ record { kept = false; truncated = true }
unfolding opened
last_push_drops = refl

held_bytes-retained_example :
    (held_bytes (retained both_ends chunks)
      ≡ (take 2 (concat chunks), drop (7 - suffix_share both_ends 7) (concat chunks)))
    × (length (concat (retained both_ends chunks).prefix_chunks) ≤ 2)
    × (length (concat (retained both_ends chunks).suffix_chunks) ≤ 2)
held_bytes-retained_example = held_bytes-retained both_ends chunks

finish-retained_example :
    let r : TextRetainer = retained both_ends chunks in
    (middle : List ℕ) × (concat chunks ≡ (kept_bytes r).0 ++ (middle ++ (kept_bytes r).1))
    × ((finish decode r).truncated ≡ ltb 0 (length middle))
    × ((finish decode r).omitted_bytes ≡ omission (length middle))
    × (7 ≤ 4 → (finish decode r).text ≡ decode (concat chunks))
finish-retained_example = finish-retained decode both_ends chunks

All-characters : All IsCharacter characters
All-characters = (
  (inl (omega arith, refl), tt),
  (
    (inr (inl (omega arith, omega arith, refl)), ((omega arith, omega arith), tt)),
    (
      (
        inr (inr (inl (omega arith, omega arith, refl))),
        ((omega arith, omega arith), ((omega arith, omega arith), tt)),
      ),
      ((inl (omega arith, refl), tt), tt),
    ),
  ),
)

kept_bytes-characters_example :
    (k : ℕ) × (m : ℕ) × (kept_bytes (retained both_ends chunks)
      ≡ (concat (take k characters), concat (drop m characters)))
kept_bytes-characters_example =
    kept_bytes-characters both_ends chunks characters All-characters refl (omega arith)

abbrev units : List ℕ
units = 5 ∷ 6 ∷ 7 ∷ []

abbrev two_kept : RetainedItems ℕ
two_kept = record { items = 5 ∷ 6 ∷ []; truncated = true; seen = 3; kept = 2; omitted = exact 1 }

finish_items-push_items_example : finish_items (push_items (new_item_retainer 2) units) ≡ two_kept
finish_items-push_items_example = finish_items-push_items 2 units
