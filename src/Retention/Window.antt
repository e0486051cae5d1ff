-- ===== src/Retention/Window.antt =====
-- What the accumulator of class TextRetainer (output-retention's index.ts) holds of the bytes that
-- it has seen.
use agent_runtime_notes.Base.{
  Bool-cases, List, [], ap, append_assoc, arith, drop, drop-append_all, drop_short, inl, inr, leb,
  length, length-append, min, sym, take, ℕ, ◌++◌, ◌-◌, ◌<◌, ◌∙◌, ◌∷◌, ◌≡◌, ◌≤◌, drop-drop,
  length-drop, ltb, take-append, take-min, ◌+◌,
}
use agent_runtime_notes.Retention.{
  TextRetainer, concat, push_prefix, slide, trim_head, push_bytes, push_suffix,
}
use mathlib.Core.List.{append-nil}

-- The prefix is the first bytes of the stream, the suffix its last.
pub record Holds (r : TextRetainer) (stream : List ℕ) : Type 0 where
  pub seen : r.total ≡ length stream
  pub first : concat r.prefix_chunks ≡ take r.prefix_cap stream
  pub first_held : r.prefix_held ≡ min r.prefix_cap (length stream)
  pub last : concat r.suffix_chunks ≡ drop (length stream - r.suffix_cap) stream
  pub last_held : r.suffix_held ≡ min r.suffix_cap (length stream)

concat-snoc :
    (chunks : List (List ℕ)) (bytes : List ℕ)
    → concat (chunks ++ bytes ∷ []) ≡ concat chunks ++ bytes
concat-snoc [] bytes = append-nil bytes
concat-snoc (chunk ∷ chunks) bytes =
    ap (λ rest. chunk ++ rest) (concat-snoc chunks bytes)
    ∙ sym (append_assoc chunk (concat chunks) bytes)

-- Sliding and trimming leave the last `cap` bytes.
trim_head-slide :
    (cap held : ℕ) (chunks : List (List ℕ))
    → 0 < cap
    → held ≡ length (concat chunks)
    → (concat ((trim_head cap (slide cap held chunks)).1)
        ≡ drop (length (concat chunks) - cap) (concat chunks))
      × ((trim_head cap (slide cap held chunks)).0 ≡ min cap (length (concat chunks)))
unfolding trim_head slide
trim_head-slide cap held [] p h =
    let nothing : 0 - cap ≡ 0 = omega arith in (ap (λ k. drop k []) (sym nothing), omega (arith, h))
trim_head-slide cap held (chunk ∷ chunks) p h =
    let count = length-append chunk (concat chunks) in
    let parts = drop-append_all (length (chunk ++ concat chunks) - cap) chunk (concat chunks) in
    elim (Bool-cases (leb cap (held - length chunk))) [
      | inl slid ↦
          let enough : cap ≤ length (concat chunks) = ground (arith, h, count, slid) in
          let (bytes, kept) =
            trim_head-slide cap (held - length chunk) chunks p (omega (arith, h, count)) in
          let gone : length chunk ≤ length (chunk ++ concat chunks) - cap =
            omega (arith, count, enough) in
          let place : length (concat chunks) - cap
              ≡ length (chunk ++ concat chunks) - cap - length chunk =
            omega (arith, count, enough) in
          rw slid (
            bytes
                ∙ (ap (λ k. drop k (concat chunks)) place
                    ∙ (ap
                          (λ rest.
                            rest
                            ++ drop (length (chunk ++ concat chunks) - cap - length chunk)
                                (concat chunks))
                          (sym (drop_short (length (chunk ++ concat chunks) - cap) chunk gone))
                        ∙ sym parts)),
            omega (arith, kept, count, enough),
          )
      | inr stays ↦
          let whole : length (chunk ++ concat chunks) ≡ held = sym h in
          elim (Bool-cases (ltb cap held)) [
            | inl long ↦
                let inside : held - cap ≤ length chunk = ground (arith, h, count, stays, p) in
                let none_after : held - cap - length chunk ≡ 0 = omega (arith, inside) in
                let tail = drop-append_all (held - cap) chunk (concat chunks) in
                rw (stays, long)
                  (
                    ap (λ k. drop (held - cap) chunk ++ drop k (concat chunks)) (sym none_after)
                        ∙ (sym tail ∙ ap (λ n. drop (n - cap) (chunk ++ concat chunks)) h),
                    ground (arith, h, long),
                  )
            | inr short ↦
                let nothing : length (chunk ++ concat chunks) - cap ≡ 0 =
                  ground (arith, h, short) in
                rw (stays, short)
                  (
                    ap (λ k. drop k (chunk ++ concat chunks)) (sym nothing),
                    ground (arith, h, short),
                  )
          ]
    ]

-- The last bytes of a stream that grows are among the last it had and the new ones.
last_bytes-append :
    (cap : ℕ) (stream bytes : List ℕ)
    → drop
        (length (drop (length stream - cap) stream ++ bytes) - cap)
        (drop (length stream - cap) stream ++ bytes)
      ≡ drop (length (stream ++ bytes) - cap) (stream ++ bytes)
last_bytes-append cap stream bytes =
    let old = length-drop (length stream - cap) stream in
    let count = length-append (drop (length stream - cap) stream) bytes in
    let whole = length-append stream bytes in
    let before : length stream - cap - length stream ≡ 0 = omega arith in
    let same : drop (length stream - cap) stream ++ bytes
        ≡ drop (length stream - cap) (stream ++ bytes) =
      ap (λ k. drop (length stream - cap) stream ++ drop k bytes) (sym before)
      ∙ sym (drop-append_all (length stream - cap) stream bytes) in
    let place : length stream - cap + (length (drop (length stream - cap) stream ++ bytes) - cap)
        ≡ length (stream ++ bytes) - cap =
      omega (arith, old, count, whole) in
    ap (drop (length (drop (length stream - cap) stream ++ bytes) - cap)) same
    ∙ (drop-drop (length stream - cap) (length (drop (length stream - cap) stream ++ bytes) - cap)
          (stream ++ bytes)
        ∙ ap (λ k. drop k (stream ++ bytes)) place)

push_prefix-first :
    (cap held : ℕ) (chunks : List (List ℕ)) (stream bytes : List ℕ)
    → concat chunks ≡ take cap stream
    → held ≡ min cap (length stream)
    → (concat ((push_prefix cap held chunks bytes).1) ≡ take cap (stream ++ bytes))
      × ((push_prefix cap held chunks bytes).0 ≡ min cap (length (stream ++ bytes)))
unfolding push_prefix
push_prefix-first cap held chunks stream bytes f h =
    let whole = length-append stream bytes in
    let room : cap - held ≡ cap - length stream = omega (arith, h) in
    let parts = take-append cap stream bytes in
    let taken : take (min (cap - held) (length bytes)) bytes ≡ take (cap - length stream) bytes =
      take-min (cap - held) bytes ∙ ap (λ k. take k bytes) room in
    elim (Bool-cases (ltb 0 (min (cap - held) (length bytes)))) [
      | inl some_taken ↦ rw some_taken (
        concat-snoc chunks (take (min (cap - held) (length bytes)) bytes)
            ∙ (ap (λ bs. bs ++ take (min (cap - held) (length bytes)) bytes) f
                ∙ (ap (λ bs. take cap stream ++ bs) taken ∙ sym parts)),
        omega (arith, h, whole),
      )
      | inr none_taken ↦
          let nothing : min (cap - held) (length bytes) ≡ 0 = ground (arith, none_taken) in
          let empty : take (cap - length stream) bytes ≡ [] =
            sym taken ∙ ap (λ k. take k bytes) nothing in
          rw none_taken (
            f
                ∙ (sym (append-nil (take cap stream))
                    ∙ (ap (λ bs. take cap stream ++ bs) (sym empty) ∙ sym parts)),
            omega (arith, h, whole, nothing),
          )
    ]

push_suffix-last :
    (cap held : ℕ) (chunks : List (List ℕ)) (stream bytes : List ℕ)
    → concat chunks ≡ drop (length stream - cap) stream
    → held ≡ min cap (length stream)
    → (concat ((push_suffix cap held chunks bytes).1)
        ≡ drop (length (stream ++ bytes) - cap) (stream ++ bytes))
      × ((push_suffix cap held chunks bytes).0 ≡ min cap (length (stream ++ bytes)))
unfolding push_suffix
push_suffix-last cap held chunks stream bytes l h =
    let whole = length-append stream bytes in
    let old = length-drop (length stream - cap) stream in
    let held_count = ap length l in
    let snoc = concat-snoc chunks bytes in
    let new : concat (chunks ++ bytes ∷ []) ≡ drop (length stream - cap) stream ++ bytes =
      snoc ∙ ap (λ bs. bs ++ bytes) l in
    let new_count = ap length new in
    let new_parts = length-append (drop (length stream - cap) stream) bytes in
    elim (Bool-cases (ltb 0 cap)) [
      | inl wanted ↦
          let (last, kept) =
            trim_head-slide cap (held + length bytes) (chunks ++ bytes ∷ [])
              (ground (arith, wanted)) (omega (arith, h, old, new_count, new_parts)) in
          rw wanted (
            last ∙ (ap (λ bs. drop (length bs - cap) bs) new ∙ last_bytes-append cap stream bytes),
            omega (arith, kept, new_count, new_parts, whole, old),
          )
      | inr unwanted ↦
          let nothing : cap ≡ 0 = ground (arith, unwanted) in
          rw unwanted (
            l
                ∙ (drop_short (length stream - cap) stream (omega (arith, nothing))
                    ∙ sym (
                        drop_short (length (stream ++ bytes) - cap) (stream ++ bytes)
                          (omega (arith, nothing)))),
            omega (arith, h, nothing),
          )
    ]

pub push_bytes-Holds :
    (r : TextRetainer) (stream bytes : List ℕ)
    → Holds r stream
    → Holds ((push_bytes r bytes).0) (stream ++ bytes)
unfolding push_bytes
push_bytes-Holds r stream bytes h =
    let (first, first_held) =
      push_prefix-first r.prefix_cap r.prefix_held r.prefix_chunks stream bytes h.first
        h.first_held in
    let (last, last_held) =
      push_suffix-last r.suffix_cap r.suffix_held r.suffix_chunks stream bytes h.last h.last_held in
    record {
      seen = omega (arith, h.seen, length-append stream bytes);
      first = first;
      first_held = first_held;
      last = last;
      last_held = last_held;
    }
