-- ===== src/Pairing/Incremental.antt =====
-- The incremental balance cache against rebuilding it: `extendCache` and `balanceCache` of
-- tool-pairing.ts.
use mathlib.Core.List.{append-nil}
use mathlib.Core.Path.{subst}
use agent_runtime_notes.Base.{
  ℕ, suc, ◌-◌, ◌≡◌, refl, sym, ap, ◌∙◌, Bool, true, false, List, [], ◌∷◌, ◌++◌, none, some, arith,
  ◌==◌, ltb, length, length-append, drop, drop-append, Result, ok, err, ◌>>=◌, Bool-cases, inl, inr,
}
use agent_runtime_notes.Session.{SessionEvent}
use agent_runtime_notes.Pairing.{
  PairingError, Surface, BalanceCache, walk, set_indices, extended, extend_cache, empty_cache,
  is_stale, rebuild, balance_cache, cut_balance, tool_pairing_balanced_before,
  tool_pairing_balanced_after,
}
use agent_runtime_notes.Pairing.Walks.{
  after_cuts, walk-append, length-walk, walk-grown, set_indices-append,
}

abbrev pub surface_of : ℕ → List ℕ → Surface
surface_of generation nodes = record { nodes = nodes; replace_generation = generation }

-- The cache of a surface, from a walk over it.
abbrev pub cache_of : ℕ → List ℕ → List Bool → ℕ → BalanceCache
cache_of generation nodes cuts n = record {
  generation = generation;
  cut_balanced = true ∷ cuts;
  index_by_seq = set_indices 0 nodes [];
  in_progress = n;
}

extended-empty :
    (generation : ℕ) (nodes : List ℕ) (r : Result PairingError (List Bool × ℕ)) (c : BalanceCache)
    → extended (empty_cache generation) nodes r ≡ ok c
    → (cuts : List Bool) × (n : ℕ) × (r ≡ ok (cuts, n)) × (cache_of generation nodes cuts n ≡ c)
extended-empty generation nodes (err e) c h = absurd (ground arith)
extended-empty generation nodes (ok (cuts, n)) c h = (cuts, n, refl, ground arith)

module _ (events more : List SessionEvent) (generation : ℕ) where
  pub rebuild-ok :
      (nodes : List ℕ) (c : BalanceCache)
      → rebuild events (surface_of generation nodes) ≡ ok c
      → (cuts : List Bool) × (n : ℕ) × (walk events 0 nodes ≡ ok (cuts, n))
        × (cache_of generation nodes cuts n ≡ c)
  unfolding rebuild extend_cache
  rebuild-ok nodes c h = extended-empty generation nodes (walk events 0 nodes) c h

  extended-after_cuts :
      (xs ys : List ℕ) (cuts : List Bool) (n : ℕ) (r : Result PairingError (List Bool × ℕ))
      → length cuts ≡ length xs
      → extended (cache_of generation xs cuts n) ys r
        ≡ extended (empty_cache generation) (xs ++ ys) (after_cuts cuts r)
  extended-after_cuts xs ys cuts n (err e) l = refl
  extended-after_cuts xs ys cuts n (ok (rest, k)) l =
      ap
        (λ map. ok (record {
          generation = generation;
          cut_balanced = true ∷ cuts ++ rest;
          index_by_seq = map;
          in_progress = k;
        }))
        (ap (λ i. set_indices i ys (set_indices 0 xs [])) (omega (arith, l))
          ∙ sym (set_indices-append 0 xs ys []))

  cache_of-extend :
      (xs ys : List ℕ) (cuts : List Bool) (n : ℕ)
      → walk events 0 xs ≡ ok (cuts, n)
      → extend_cache (events ++ more) (cache_of generation xs cuts n) (xs ++ ys)
        ≡ rebuild (events ++ more) (surface_of generation (xs ++ ys))
  unfolding rebuild extend_cache
  cache_of-extend xs ys cuts n w =
      let l = length-walk events 0 n xs cuts w in
      let p : suc (length cuts) - 1 ≡ length xs = omega (arith, l) in
      let d : drop (suc (length cuts) - 1) (xs ++ ys) ≡ ys =
        ap (λ j. drop j (xs ++ ys)) p ∙ drop-append xs ys in
      let grown = walk-grown events more 0 n xs cuts w in
      ap (λ tail. extended (cache_of generation xs cuts n) tail (walk (events ++ more) n tail)) d
      ∙ (extended-after_cuts xs ys cuts n (walk (events ++ more) n ys) l
          ∙ ap (extended (empty_cache generation) (xs ++ ys))
              (sym (walk-append (events ++ more) 0 n xs ys cuts grown)))

  cache_of-grown :
      (xs : List ℕ) (cuts : List Bool) (n : ℕ)
      → walk events 0 xs ≡ ok (cuts, n)
      → rebuild (events ++ more) (surface_of generation xs) ≡ ok (cache_of generation xs cuts n)
  unfolding rebuild extend_cache
  cache_of-grown xs cuts n w =
      ap (extended (empty_cache generation) xs) (walk-grown events more 0 n xs cuts w)

  -- The cache of a surface that has only been appended to since.
  cache_of-balanced :
      (xs ys : List ℕ) (cuts : List Bool) (n : ℕ)
      → walk events 0 xs ≡ ok (cuts, n)
      → balance_cache
          (some (cache_of generation xs cuts n))
          (events ++ more)
          (surface_of generation (xs ++ ys))
        ≡ rebuild (events ++ more) (surface_of generation (xs ++ ys))
  unfolding balance_cache
  cache_of-balanced xs [] cuts n w =
      let l = length-walk events 0 n xs cuts w in
      let k = length-append xs [] in
      let fresh : is_stale (cache_of generation xs cuts n) (surface_of generation (xs ++ []))
          ≡ false =
        ground arith in
      let level : ltb (suc (length cuts) - 1) (length (xs ++ [])) ≡ false = ground arith in
      rw (fresh, level)
        (sym (
          ap (λ nodes. rebuild (events ++ more) (surface_of generation nodes)) (append-nil xs)
          ∙ cache_of-grown xs cuts n w))
  cache_of-balanced xs (y ∷ ys) cuts n w =
      let l = length-walk events 0 n xs cuts w in
      let k = length-append xs (y ∷ ys) in
      let fresh : is_stale (cache_of generation xs cuts n) (surface_of generation (xs ++ y ∷ ys))
          ≡ false =
        ground arith in
      let behind : ltb (suc (length cuts) - 1) (length (xs ++ y ∷ ys)) ≡ true = ground arith in
      rw (fresh, behind) (cache_of-extend xs (y ∷ ys) cuts n w)

  -- A cache of another generation is rebuilt.
  other_generation :
      (c : BalanceCache) (surface : Surface)
      → (c.generation == surface.replace_generation) ≡ false
      → balance_cache (some c) (events ++ more) surface ≡ rebuild (events ++ more) surface
  unfolding balance_cache
  other_generation c surface h = rw h refl

  balance_cache-rebuild :
      (xs : List ℕ) (c : BalanceCache) (surface : Surface)
      → rebuild events (surface_of generation xs) ≡ ok c
      → (surface.replace_generation ≡ generation → (ys : List ℕ) × (surface.nodes ≡ xs ++ ys))
      → balance_cache (some c) (events ++ more) surface
        ≡ balance_cache none (events ++ more) surface
  unfolding balance_cache
  balance_cache-rebuild xs c surface r appended =
      let (cuts, n, w, q) = rebuild-ok xs c r in
      elim (Bool-cases (c.generation == surface.replace_generation)) [
        | inr other ↦ other_generation c surface other
        | inl same ↦
            let g : surface.replace_generation ≡ generation = ground arith in
            let (ys, e) = appended g in
            let s : surface_of generation (xs ++ ys) ≡ surface = ground arith in
            subst
              (λ u.
                balance_cache (some u) (events ++ more) surface ≡ rebuild (events ++ more) surface)
              q
              (subst
                (λ v.
                  balance_cache (some (cache_of generation xs cuts n)) (events ++ more) v
                  ≡ rebuild (events ++ more) v)
                s (cache_of-balanced xs ys cuts n w))
      ]

  -- With a cache that was built for a surface and a log, and a log that has grown since, both
  -- queries answer or throw as they do without a cache, on every surface that has another rewrite
  -- generation or that has only been appended to.
  pub tool_pairing_balanced_rebuild :
      (xs : List ℕ) (c : BalanceCache) (surface : Surface) (seq : ℕ)
      → rebuild events (surface_of generation xs) ≡ ok c
      → (surface.replace_generation ≡ generation → (ys : List ℕ) × (surface.nodes ≡ xs ++ ys))
      → (tool_pairing_balanced_before (some c) (events ++ more) surface seq
          ≡ tool_pairing_balanced_before none (events ++ more) surface seq)
        × (tool_pairing_balanced_after (some c) (events ++ more) surface seq
            ≡ tool_pairing_balanced_after none (events ++ more) surface seq)
  unfolding tool_pairing_balanced_before tool_pairing_balanced_after
  tool_pairing_balanced_rebuild xs c surface seq r appended =
      let e = balance_cache-rebuild xs c surface r appended in
      (
        ap (λ b. b >>= λ cache. cut_balance cache seq 0) e,
        ap (λ b. b >>= λ cache. cut_balance cache seq 1) e,
      )
