-- ===== src/Pairing/Walks.antt =====
-- The loop of `extendCache` in tool-pairing.ts, in parts and over a growing log.
use agent_runtime_notes.Base.{
  ℕ, zero, suc, ◌+◌, ◌≡◌, refl, sym, ap, ◌∙◌, Bool, List, [], ◌∷◌, ◌++◌, some, arith, ◌==◌, length,
  get_elem?, Result, ok, err, Result-cases, Option-cases, inl, inr,
}
use agent_runtime_notes.Session.{SessionEvent}
use agent_runtime_notes.Pairing.{
  PairingError, event_for_seq, named_event, next_count, push_cut, walk, set_indices,
}

-- A later part of the walk, after `cuts`.
abbrev pub after_cuts :
    List Bool → Result PairingError (List Bool × ℕ) → Result PairingError (List Bool × ℕ)
after_cuts cuts (ok (more, n)) = ok (cuts ++ more, n)
after_cuts cuts (err e) = err e

after_cuts_none : (r : Result PairingError (List Bool × ℕ)) → after_cuts [] r ≡ r
after_cuts_none (ok (more, n)) = refl
after_cuts_none (err e) = refl

push-after_cuts :
    (m : ℕ) (cuts : List Bool) (r : Result PairingError (List Bool × ℕ))
    → push_cut m (after_cuts cuts r) ≡ after_cuts ((m == 0) ∷ cuts) r
push-after_cuts m cuts (ok (more, n)) = refl
push-after_cuts m cuts (err e) = refl

module _ (events : List SessionEvent) where
  pub walk-next :
      (n m seq : ℕ) (seqs : List ℕ)
      → next_count events n seq ≡ ok m
      → walk events n (seq ∷ seqs) ≡ push_cut m (walk events m seqs)
  unfolding walk
  walk-next n m seq seqs h = rw (h, walk) refl

  pub push_cut-ok :
      (m k : ℕ) (cuts : List Bool) (r : Result PairingError (List Bool × ℕ))
      → push_cut m r ≡ ok (cuts, k)
      → (rest : List Bool) × (r ≡ ok (rest, k)) × ((m == 0) ∷ rest ≡ cuts)
  push_cut-ok m k cuts (ok (rest, n)) h = ground arith
  push_cut-ok m k cuts (err e) h = absurd (ground arith)

  -- The first step of a walk that returns.
  pub walk-inv :
      (n k seq : ℕ) (seqs : List ℕ) (cuts : List Bool)
      → walk events n (seq ∷ seqs) ≡ ok (cuts, k)
      → (m : ℕ) × (rest : List Bool) × (next_count events n seq ≡ ok m)
        × (walk events m seqs ≡ ok (rest, k))
        × ((m == 0) ∷ rest ≡ cuts)
  unfolding walk
  walk-inv n k seq seqs cuts h = elim (Result-cases (next_count events n seq)) [
    | inl (m, e) ↦
        let (rest, w, q) =
          push_cut-ok m k cuts (walk events m seqs) (sym (walk-next n m seq seqs e) ∙ h) in
        (m, rest, e, w, q)
    | inr (x, e) ↦ cc (rw (e, walk) at h)
  ]

  walk-done : (n k : ℕ) (cuts : List Bool) → walk events n [] ≡ ok (cuts, k) → ([] ≡ cuts) × (n ≡ k)
  unfolding walk
  walk-done n k cuts h = ground arith

  pub walk-append :
      (n k : ℕ) (xs ys : List ℕ) (cuts : List Bool)
      → walk events n xs ≡ ok (cuts, k)
      → walk events n (xs ++ ys) ≡ after_cuts cuts (walk events k ys)
  walk-append n k [] ys cuts h =
      let (c, e) = walk-done n k cuts h in rw (← c, ← e) (sym (after_cuts_none (walk events n ys)))
  walk-append n k (x ∷ xs) ys cuts h =
      let (m, rest, e, w, q) = walk-inv n k x xs cuts h in
      walk-next n m x (xs ++ ys) e
      ∙ (ap (push_cut m) (walk-append m k xs ys rest w)
          ∙ (push-after_cuts m rest (walk events k ys)
              ∙ ap (λ c. after_cuts c (walk events k ys)) q))

  pub length-walk :
      (n k : ℕ) (xs : List ℕ) (cuts : List Bool)
      → walk events n xs ≡ ok (cuts, k)
      → length cuts ≡ length xs
  unfolding walk
  length-walk n k [] cuts h = let (c, e) = walk-done n k cuts h in rw (← c) refl
  length-walk n k (x ∷ xs) cuts h =
      let (m, rest, e, w, q) = walk-inv n k x xs cuts h in
      rw (← q) (ap suc (length-walk m k xs rest w))

  module _ (more : List SessionEvent) where
    get_elem-append :
        {A : Type 0} (xs ys : List A) (i : ℕ) (x : A)
        → get_elem? xs i ≡ some x
        → get_elem? (xs ++ ys) i ≡ some x
    get_elem-append [] ys i x h = absurd (ground arith)
    get_elem-append (a ∷ xs) ys zero x h = h
    get_elem-append (a ∷ xs) ys (suc i) x h = get_elem-append xs ys i x h

    event_for_seq-append :
        (seq : ℕ) (event : SessionEvent)
        → event_for_seq events seq ≡ ok event
        → event_for_seq (events ++ more) seq ≡ ok event
    unfolding event_for_seq
    event_for_seq-append seq event h = elim (Option-cases (get_elem? events seq)) [
      | inl e ↦ absurd (ground arith)
      | inr (found, e) ↦
          let g = get_elem-append events more seq found e in
          ap (λ o. named_event o seq) (g ∙ sym e) ∙ h
    ]

    next_count-append :
        (n m seq : ℕ) → next_count events n seq ≡ ok m → next_count (events ++ more) n seq ≡ ok m
    unfolding next_count
    next_count-append n m seq h = elim (Result-cases (event_for_seq events seq)) [
      | inr (x, e) ↦ absurd (ground arith)
      | inl (event, e) ↦ rw (event_for_seq-append seq event e, next_count) (rw (e, next_count) at h)
    ]

    step_grown :
        (n m seq : ℕ) (seqs : List ℕ)
        → next_count (events ++ more) n seq ≡ ok m
        → walk (events ++ more) n (seq ∷ seqs) ≡ push_cut m (walk (events ++ more) m seqs)
    unfolding walk
    step_grown n m seq seqs h = rw (h, walk) refl

    -- A log that grows does not change a walk that returns.
    pub walk-grown :
        (n k : ℕ) (xs : List ℕ) (cuts : List Bool)
        → walk events n xs ≡ ok (cuts, k)
        → walk (events ++ more) n xs ≡ ok (cuts, k)
    unfolding walk
    walk-grown n k [] cuts h = h
    walk-grown n k (x ∷ xs) cuts h =
        let (m, rest, e, w, q) = walk-inv n k x xs cuts h in
        step_grown n m x xs (next_count-append n m x e)
        ∙ (ap (push_cut m) (walk-grown m k xs rest w) ∙ ap (λ c. ok (c, k)) q)

pub set_indices-append :
    (i : ℕ) (xs ys : List ℕ) (map : List (ℕ × ℕ))
    → set_indices i (xs ++ ys) map ≡ set_indices (i + length xs) ys (set_indices i xs map)
unfolding set_indices
set_indices-append i [] ys map = ap (λ j. set_indices j ys map) (omega arith)
set_indices-append i (x ∷ xs) ys map =
    set_indices-append (i + 1) xs ys ((x, i) ∷ map)
    ∙ ap (λ j. set_indices j ys (set_indices (i + 1) xs ((x, i) ∷ map))) (omega arith)
