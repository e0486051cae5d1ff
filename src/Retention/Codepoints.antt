-- ===== src/Retention/Codepoints.antt =====
-- Cutting a stream of UTF-8 characters: the two trims of output-retention's index.ts.
use agent_runtime_notes.Base.{
  All, Bool-cases, List, [], ap, append_assoc, arith, drop, drop-append_all, false, get_elem?, inl,
  inr, leb, length, length-append, length-take, ltb, refl, some, suc, sym, take, take-append,
  take_short, true, zero, ℕ, ◌++◌, ◌+◌, ◌-◌, ◌<◌, ◌∙◌, ◌∷◌, ◌≡◌, ◌≤◌,
}
use mathlib.Core.List.{append-nil}
use agent_runtime_notes.Retention.{concat}
use agent_runtime_notes.Retention.Utf8.{
  expected_length, is_continuation, trim_leading_continuation_utf8, walk_back,
}

-- The bytes of one character: a lead byte and as many continuation bytes as it announces.
abbrev pub IsAnnounced : List ℕ → Type 0
IsAnnounced [] = ⊥
IsAnnounced (lead ∷ rest) =
    (is_continuation lead ≡ false)
    × (expected_length lead ≡ suc (length rest))
    × All (λ b. is_continuation b ≡ true) rest

abbrev pub Continuations : List ℕ → Type 0
Continuations bytes = All (λ b. is_continuation b ≡ true) bytes

Continuations-drop : (n : ℕ) (bytes : List ℕ) → Continuations bytes → Continuations (drop n bytes)
Continuations-drop zero bytes h = h
Continuations-drop (suc n) [] h = h
Continuations-drop (suc n) (b ∷ bytes) (c, h) = Continuations-drop n bytes h

Continuations-take : (n : ℕ) (bytes : List ℕ) → Continuations bytes → Continuations (take n bytes)
Continuations-take zero bytes h = tt
Continuations-take (suc n) [] h = h
Continuations-take (suc n) (b ∷ bytes) (c, h) = (c, Continuations-take n bytes h)

trim_leading-Continuations :
    (xs ys : List ℕ)
    → Continuations xs
    → trim_leading_continuation_utf8 (xs ++ ys) ≡ trim_leading_continuation_utf8 ys
unfolding trim_leading_continuation_utf8
trim_leading-Continuations [] ys h = refl
trim_leading-Continuations (x ∷ xs) ys (c, h) = rw c (trim_leading-Continuations xs ys h)

trim_leading-characters :
    (cs : List (List ℕ))
    → All IsAnnounced cs
    → trim_leading_continuation_utf8 (concat cs) ≡ concat cs
unfolding trim_leading_continuation_utf8
trim_leading-characters [] h = refl
trim_leading-characters ([] ∷ cs) (c, h) = absurd c
trim_leading-characters ((lead ∷ rest) ∷ cs) ((l, e, r), h) = rw l refl

-- A suffix of a stream of characters is cut to whole characters.
pub trim_leading-concat :
    (n : ℕ) (cs : List (List ℕ))
    → All IsAnnounced cs
    → (k : ℕ) × (trim_leading_continuation_utf8 (drop n (concat cs)) ≡ concat (drop k cs))
trim_leading-concat zero cs h = (0, trim_leading-characters cs h)
trim_leading-concat (suc m) [] h = (0, trim_leading-characters [] tt)
trim_leading-concat (suc m) ([] ∷ cs) (c, h) = absurd c
trim_leading-concat (suc m) ((lead ∷ rest) ∷ cs) ((l, e, r), h) =
    let (k, q) = trim_leading-concat (m - length rest) cs h in
    (
      suc k,
      ap trim_leading_continuation_utf8 (drop-append_all m rest (concat cs))
          ∙ (trim_leading-Continuations (drop m rest) (drop (m - length rest) (concat cs))
                (Continuations-drop m rest r)
              ∙ q),
    )

-- The beginning of a character that is not all of it.
abbrev pub IsPartial : List ℕ → Type 0
IsPartial [] = Unit {0}
IsPartial (lead ∷ rest) =
    (is_continuation lead ≡ false) × (suc (length rest) < expected_length lead) × Continuations rest

-- A prefix of a stream of characters is whole characters and the beginning of one.
pub take-concat :
    (n : ℕ) (cs : List (List ℕ))
    → All IsAnnounced cs
    → (k : ℕ) × (part : List ℕ) × (take n (concat cs) ≡ concat (take k cs) ++ part) × IsPartial part
take-concat zero cs h = (0, [], refl, tt)
take-concat (suc m) [] h = (0, [], refl, tt)
take-concat (suc m) ([] ∷ cs) (c, h) = absurd c
take-concat (suc m) ((lead ∷ rest) ∷ cs) ((l, e, r), h) =
    let parts = take-append m rest (concat cs) in
    elim (Bool-cases (ltb m (length rest))) [
      | inl inside ↦
          let nothing : m - length rest ≡ 0 = ground (arith, inside) in
          let short : suc (length (take m rest)) < expected_length lead =
            ground (arith, inside, e, length-take m rest) in
          (
            0,
            lead ∷ take m rest,
            ap (λ bs. lead ∷ bs)
                (parts
                  ∙ (ap (λ j. take m rest ++ take j (concat cs)) nothing
                      ∙ append-nil (take m rest))),
            (l, short, Continuations-take m rest r),
          )
      | inr beyond ↦
          let (k, part, q, p) = take-concat (m - length rest) cs h in
          let whole = take_short m rest (ground (arith, beyond)) in
          (
            suc k,
            part,
            ap (λ bs. lead ∷ bs)
                (parts
                  ∙ (ap (λ bs. bs ++ take (m - length rest) (concat cs)) whole
                      ∙ (ap (λ bs. rest ++ bs) q
                          ∙ sym (append_assoc rest (concat (take k cs)) part)))),
            p,
          )
    ]

pub get_elem?-after :
    (xs ys : List ℕ) (i : ℕ) → get_elem? (xs ++ ys) (length xs + i) ≡ get_elem? ys i
get_elem?-after [] ys i = let e : 0 + i ≡ i = omega arith in ap (get_elem? ys) e
get_elem?-after (x ∷ xs) ys i =
    let e : suc (length xs) + i ≡ suc (length xs + i) = omega arith in
    ap (get_elem? (x ∷ xs ++ ys)) e ∙ get_elem?-after xs ys i

Continuations-get :
    (bytes : List ℕ) (i : ℕ)
    → Continuations bytes
    → i < length bytes
    → (b : ℕ) × (get_elem? bytes i ≡ some b) × (is_continuation b ≡ true)
Continuations-get [] i h l = absurd (omega (arith, l))
Continuations-get (b ∷ bytes) zero (c, h) l = (b, refl, c)
Continuations-get (b ∷ bytes) (suc i) (c, h) l = Continuations-get bytes i h (omega (arith, l))

-- The walk ends at the lead byte of the last character.
pub walk_back-lead :
    (before : List ℕ) (lead : ℕ) (rest : List ℕ) (j n : ℕ)
    → is_continuation lead ≡ false
    → Continuations rest
    → length rest ≤ 3
    → j ≤ length rest
    → n ≡ suc (length before) + j
    → walk_back (before ++ lead ∷ rest) n ≡ suc (length before)
unfolding walk_back
walk_back-lead before lead rest j zero l r s b e = absurd (omega (arith, e))
walk_back-lead before lead rest zero (suc i) l r s b e =
    let place : i ≡ length before + 0 = omega (arith, e) in
    let at =
      ap (get_elem? (before ++ lead ∷ rest)) place ∙ get_elem?-after before (lead ∷ rest) 0 in
    let same : suc i ≡ suc (length before) = omega (arith, e) in rw (at, l) same
walk_back-lead before lead rest (suc j) (suc i) l r s b e =
    let (byte, found, c) = Continuations-get rest j r (omega (arith, b)) in
    let place : i ≡ length before + suc j = omega (arith, e) in
    let at =
      ap (get_elem? (before ++ lead ∷ rest)) place
      ∙ (get_elem?-after before (lead ∷ rest) (suc j) ∙ found) in
    let near : leb (length (before ++ lead ∷ rest) - i) 3 ≡ true =
      ground (arith, length-append before (lead ∷ rest), s, e) in
    rw (at, c, near)
      (walk_back-lead before lead rest j i l r s (omega (arith, b)) (omega (arith, e)))
