-- ===== src/Retention/Boundaries.antt =====
-- The ends of a stream of whole UTF-8 characters, as class TextRetainer (output-retention's index.ts)
-- gives them back.
use agent_runtime_notes.Base.{
  All, List, [], ap, append_assoc, arith, false, get_elem?, inl, inr, length, length-append, ltb,
  refl, some, suc, sym, true, ℕ, ◌++◌, ◌+◌, ◌-◌, ◌<◌, ◌∙◌, ◌∷◌, ◌≡◌, ◌≤◌, ◌⊎◌, drop, take,
  take-append, take_all, zero, ◌==◌,
}
use agent_runtime_notes.Retention.Codepoints.{
  IsAnnounced, get_elem?-after, walk_back-lead, IsPartial, take-concat, trim_leading-concat,
}
use mathlib.Core.List.{append-nil}
use agent_runtime_notes.Retention.{concat, TextRetentionStrategy, held_bytes, omitted_at}
use agent_runtime_notes.Retention.Utf8.{
  cut_at_lead, expected_length, is_continuation, trim_trailing_partial_utf8, trimmed_from,
  kept_bytes, trim_leading_continuation_utf8, walk_back,
}
use agent_runtime_notes.Retention.Kept.{
  Retains-held_bytes, prefix_budget, retained, retained-Retains, suffix_budget, suffix_share,
}

-- A list of bytes is empty or ends in a character.
concat-snoc_character :
    (cs : List (List ℕ))
    → All IsAnnounced cs
    → (concat cs ≡ [])
      ⊎ ((before : List ℕ) × (c : List ℕ) × (concat cs ≡ before ++ c) × IsAnnounced c)
concat-snoc_character [] h = inl refl
concat-snoc_character (c ∷ cs) (i, h) = elim (concat-snoc_character cs h) [
  | inl e ↦ inr ([], c, ap (λ bs. c ++ bs) e ∙ append-nil c, i)
  | inr (before, d, e, j) ↦
      inr (c ++ before, d, ap (λ bs. c ++ bs) e ∙ sym (append_assoc c before d), j)
]

expected_length-bound : (lead : ℕ) → expected_length lead ≤ 4
expected_length-bound lead = ground arith

trimmed_from-lead :
    (before : List ℕ) (lead : ℕ) (rest : List ℕ)
    → is_continuation lead ≡ false
    → All (λ b. is_continuation b ≡ true) rest
    → length rest ≤ 3
    → trim_trailing_partial_utf8 (before ++ lead ∷ rest)
      ≡ cut_at_lead (before ++ lead ∷ rest) (length before) (some lead)
unfolding trim_trailing_partial_utf8
trimmed_from-lead before lead rest l r s =
    let count = length-append before (lead ∷ rest) in
    let walked =
      walk_back-lead before lead rest (length rest) (length (before ++ lead ∷ rest)) l r s
        (omega arith) (omega (arith, count)) in
    let place : length before ≡ length before + 0 = omega arith in
    let found =
      ap (get_elem? (before ++ lead ∷ rest)) place ∙ get_elem?-after before (lead ∷ rest) 0 in
    ap (trimmed_from (before ++ lead ∷ rest)) walked
    ∙ ap (cut_at_lead (before ++ lead ∷ rest) (length before)) found

trim_trailing-character :
    (before c : List ℕ) → IsAnnounced c → trim_trailing_partial_utf8 (before ++ c) ≡ before ++ c
trim_trailing-character before [] i = absurd i
trim_trailing-character before (lead ∷ rest) (l, e, r) =
    let count = length-append before (lead ∷ rest) in
    let short = expected_length-bound lead in
    let complete : ltb (length (before ++ lead ∷ rest) - length before) (expected_length lead)
        ≡ false =
      ground (arith, count, e) in
    trimmed_from-lead before lead rest l r (omega (arith, e, short))
    ∙ (let announced : (expected_length lead == 0) ≡ false = ground (arith, e) in
        rw (announced, complete) refl)

trim_trailing-partial :
    (before : List ℕ) (lead : ℕ) (rest : List ℕ)
    → is_continuation lead ≡ false
    → suc (length rest) < expected_length lead
    → All (λ b. is_continuation b ≡ true) rest
    → trim_trailing_partial_utf8 (before ++ lead ∷ rest) ≡ before
trim_trailing-partial before lead rest l p r =
    let count = length-append before (lead ∷ rest) in
    let short = expected_length-bound lead in
    trimmed_from-lead before lead rest l r (omega (arith, p, short))
    ∙ (let announced : (expected_length lead == 0) ≡ false = ground (arith, p) in
        let cut : ltb (length (before ++ lead ∷ rest) - length before) (expected_length lead)
            ≡ true =
          ground (arith, count, p) in
        let nothing : length before - length before ≡ 0 = omega arith in
        rw (announced, cut)
          (take-append (length before) before (lead ∷ rest)
            ∙ (ap (λ k. take (length before) before ++ take k (lead ∷ rest)) nothing
                ∙ (append-nil (take (length before) before) ∙ take_all before))))

All-take : (k : ℕ) (cs : List (List ℕ)) → All IsAnnounced cs → All IsAnnounced (take k cs)
All-take zero cs h = tt
All-take (suc k) [] h = h
All-take (suc k) (c ∷ cs) (i, h) = (i, All-take k cs h)

trim_trailing-nil : trim_trailing_partial_utf8 [] ≡ []
unfolding trim_trailing_partial_utf8 walk_back
trim_trailing-nil = refl

trim_trailing-part :
    (cs : List (List ℕ)) (part : List ℕ)
    → All IsAnnounced cs
    → IsPartial part
    → trim_trailing_partial_utf8 (concat cs ++ part) ≡ concat cs
trim_trailing-part cs (lead ∷ rest) h (l, p, r) = trim_trailing-partial (concat cs) lead rest l p r
trim_trailing-part cs [] h p =
    ap trim_trailing_partial_utf8 (append-nil (concat cs)) ∙ elim (concat-snoc_character cs h) [
      | inl e ↦ ap trim_trailing_partial_utf8 e ∙ (trim_trailing-nil ∙ sym e)
      | inr (before, c, e, i) ↦
          ap trim_trailing_partial_utf8 e ∙ (trim_trailing-character before c i ∙ sym e)
    ]

-- A prefix of a stream of characters is cut to whole characters.
trim_trailing-concat :
    (n : ℕ) (cs : List (List ℕ))
    → All IsAnnounced cs
    → (k : ℕ) × (trim_trailing_partial_utf8 (take n (concat cs)) ≡ concat (take k cs))
trim_trailing-concat n cs h =
    let (k, part, q, p) = take-concat n cs h in
    (k, ap trim_trailing_partial_utf8 q ∙ trim_trailing-part (take k cs) part (All-take k cs h) p)

-- The lead bytes of UTF-8, with the lengths of their characters.
abbrev pub Leads : ℕ → ℕ → Type 0
Leads lead n =
    ((lead < 128) × (n ≡ 1))
    ⊎ ((192 ≤ lead) × (lead < 224) × (n ≡ 2))
    ⊎ ((224 ≤ lead) × (lead < 240) × (n ≡ 3))
    ⊎ ((240 ≤ lead) × (lead < 248) × (n ≡ 4))

abbrev pub IsCharacter : List ℕ → Type 0
IsCharacter [] = ⊥
IsCharacter (lead ∷ rest) = Leads lead (suc (length rest)) × All (λ b. (128 ≤ b) × (b < 192)) rest

continuations :
    (rest : List ℕ)
    → All (λ b. (128 ≤ b) × (b < 192)) rest
    → All (λ b. is_continuation b ≡ true) rest
continuations [] h = tt
continuations (b ∷ rest) ((l, u), h) = (ground (arith, l, u), continuations rest h)

IsCharacter-IsAnnounced : (c : List ℕ) → IsCharacter c → IsAnnounced c
IsCharacter-IsAnnounced [] i = i
IsCharacter-IsAnnounced (lead ∷ rest) (l, h) =
    (ground (arith, l), ground (arith, l), continuations rest h)

All-IsAnnounced : (cs : List (List ℕ)) → All IsCharacter cs → All IsAnnounced cs
All-IsAnnounced [] h = tt
All-IsAnnounced (c ∷ cs) (i, h) = (IsCharacter-IsAnnounced c i, All-IsAnnounced cs h)

-- When a stream that comes in any chunks is a list of whole UTF-8 characters and longer than both
-- budgets, the retainer gives back the first characters of the list and the last ones, each of
-- them whole.
pub kept_bytes-characters :
    (strategy : TextRetentionStrategy) (chunks cs : List (List ℕ))
    → All IsCharacter cs
    → concat chunks ≡ concat cs
    → prefix_budget strategy + suffix_budget strategy < length (concat chunks)
    → (k : ℕ) × (m : ℕ) × (kept_bytes (retained strategy chunks)
        ≡ (concat (take k cs), concat (drop m cs)))
unfolding kept_bytes
kept_bytes-characters strategy chunks cs characters same long =
    let h = All-IsAnnounced cs characters in
    let r = retained strategy chunks in
    let i = retained-Retains strategy chunks in
    let e = Retains-held_bytes strategy (retained strategy chunks) (concat chunks) i in
    let seen = i.holds.seen in
    let share = length (concat chunks) - suffix_share strategy (length (concat chunks)) in
    let cut : ltb 0 (omitted_at r r.total) ≡ true =
      ground (arith, seen, i.prefix_cap, i.suffix_cap, long) in
    let (k, first) = trim_trailing-concat (prefix_budget strategy) cs h in
    let (m, last) =
      trim_leading-concat (length (concat chunks) - suffix_share strategy (length (concat chunks)))
        cs h in
    let held_first : (held_bytes r).0 ≡ take (prefix_budget strategy) (concat cs) =
      ap (λ p. p.0) e ∙ ap (take (prefix_budget strategy)) same in
    let held_last : (held_bytes r).1
        ≡ drop (length (concat chunks) - suffix_share strategy (length (concat chunks)))
            (concat cs) =
      ap (λ p. p.1) e
      ∙ ap (drop (length (concat chunks) - suffix_share strategy (length (concat chunks)))) same in
    (
      k,
      m,
      rw cut (
          ap (λ bs. (bs, trim_leading_continuation_utf8 (held_bytes r).1))
            (ap trim_trailing_partial_utf8 held_first ∙ first)
          ∙ ap (λ bs. (concat (take k cs), bs))
              (ap trim_leading_continuation_utf8 held_last ∙ last)),
    )
