-- ===== src/Retention/Kept.antt =====
-- What class TextRetainer (output-retention's index.ts) gives back of a stream: its two ends.
use agent_runtime_notes.Retention.Window.{Holds, push_bytes-Holds}
use agent_runtime_notes.Base.{
  List, [], append_assoc, arith, drop, drop_short, length, min, refl, sym, take, take-nil, ℕ, ◌++◌,
  ◌-◌, ◌∷◌, ◌≡◌, ◌≤◌, Bool-cases, Option, ap, drop-drop, get_elem?, inl, inr, length-drop,
  length-take, ltb, none, some, suc, take-append-drop, zero, ◌+◌, ◌==◌, ◌∙◌, String, take-min,
  false, length-append,
}
use agent_runtime_notes.Retention.{
  TextRetainer, TextRetentionStrategy, concat, head, head_tail, held_bytes, new_retainer,
  push_bytes, tail, suffix_length, omission, omitted_at,
}
use mathlib.Core.List.{append-nil}
use mathlib.Core.Path.{subst}
use agent_runtime_notes.Retention.Utf8.{
  cut_at_lead, expected_length, is_continuation, trim_leading_continuation_utf8,
  trim_trailing_partial_utf8, trimmed_from, walk_back, kept_bytes, finish, omitted_bytes_of,
}

abbrev pub prefix_budget : TextRetentionStrategy → ℕ
prefix_budget (head max_bytes) = max_bytes
prefix_budget (tail max_bytes) = 0
prefix_budget (head_tail head_bytes tail_bytes) = head_bytes

abbrev pub suffix_budget : TextRetentionStrategy → ℕ
suffix_budget (head max_bytes) = 0
suffix_budget (tail max_bytes) = max_bytes
suffix_budget (head_tail head_bytes tail_bytes) = tail_bytes

abbrev pub push_all : TextRetainer → List (List ℕ) → TextRetainer
push_all r [] = r
push_all r (bytes ∷ chunks) = push_all ((push_bytes r bytes).0) chunks

-- A retainer with its budgets, and what it has seen.
pub record Retains (strategy : TextRetentionStrategy) (r : TextRetainer) (stream : List ℕ)
    : Type 0 where
  pub prefix_cap : r.prefix_cap ≡ prefix_budget strategy
  pub suffix_cap : r.suffix_cap ≡ suffix_budget strategy
  pub holds : Holds r stream

abbrev starts_with_caps : ℕ → ℕ → TextRetainer
starts_with_caps p s = record {
  prefix_cap = p;
  suffix_cap = s;
  prefix_chunks = [];
  prefix_held = 0;
  suffix_chunks = [];
  suffix_held = 0;
  total = 0;
}

empty-Holds : (p s : ℕ) → Holds (starts_with_caps p s) []
empty-Holds p s = record {
  seen = refl;
  first = sym (take-nil {A = ℕ} p);
  first_held = omega arith;
  last = sym (drop_short {A = ℕ} (0 - s) [] (omega arith));
  last_held = omega arith;
}

new_retainer-Retains :
    (strategy : TextRetentionStrategy) → Retains strategy (new_retainer strategy) []
unfolding new_retainer
new_retainer-Retains (head n) = record {
  prefix_cap = refl;
  suffix_cap = refl;
  holds = empty-Holds n 0;
}
new_retainer-Retains (tail n) = record {
  prefix_cap = refl;
  suffix_cap = refl;
  holds = empty-Holds 0 n;
}
new_retainer-Retains (head_tail p s) = record {
  prefix_cap = refl;
  suffix_cap = refl;
  holds = empty-Holds p s;
}

push_bytes-Retains :
    (strategy : TextRetentionStrategy) (r : TextRetainer) (stream bytes : List ℕ)
    → Retains strategy r stream
    → Retains strategy ((push_bytes r bytes).0) (stream ++ bytes)
unfolding push_bytes
push_bytes-Retains strategy r stream bytes h = record {
  prefix_cap = h.prefix_cap;
  suffix_cap = h.suffix_cap;
  holds = push_bytes-Holds r stream bytes h.holds;
}

push_all-Retains :
    (strategy : TextRetentionStrategy) (r : TextRetainer) (stream : List ℕ) (chunks : List (List ℕ))
    → Retains strategy r stream
    → Retains strategy (push_all r chunks) (stream ++ concat chunks)
push_all-Retains strategy r stream [] h =
    subst (λ bytes. Retains strategy r bytes) (sym (append-nil stream)) h
push_all-Retains strategy r stream (bytes ∷ chunks) h =
    subst (λ s. Retains strategy (push_all ((push_bytes r bytes).0) chunks) s)
      (append_assoc stream bytes (concat chunks))
      (push_all-Retains strategy ((push_bytes r bytes).0) (stream ++ bytes) chunks
        (push_bytes-Retains strategy r stream bytes h))

-- The retainer that a stream's chunks leave.
abbrev pub retained : TextRetentionStrategy → List (List ℕ) → TextRetainer
retained strategy chunks = push_all (new_retainer strategy) chunks

pub retained-Retains :
    (strategy : TextRetentionStrategy) (chunks : List (List ℕ))
    → Retains strategy (retained strategy chunks) (concat chunks)
retained-Retains strategy chunks =
    push_all-Retains strategy (new_retainer strategy) [] chunks (new_retainer-Retains strategy)

-- The number of bytes of a stream that its suffix has.
abbrev pub suffix_share : TextRetentionStrategy → ℕ → ℕ
suffix_share strategy total =
    min (total - min total (prefix_budget strategy)) (suffix_budget strategy)

pub Retains-held_bytes :
    (strategy : TextRetentionStrategy) (r : TextRetainer) (stream : List ℕ)
    → Retains strategy r stream
    → held_bytes r ≡ (
      take (prefix_budget strategy) stream,
      drop (length stream - suffix_share strategy (length stream)) stream,
    )
unfolding held_bytes
Retains-held_bytes strategy r stream h =
    let i = h.holds in
    let share : suffix_length r ≡ suffix_share strategy (length stream) =
      cc (i.seen, h.prefix_cap, h.suffix_cap) in
    let place : length stream - r.suffix_cap + (r.suffix_held - suffix_length r)
        ≡ length stream - suffix_share strategy (length stream) =
      omega (arith, i.last_held, i.seen, share) in
    let first = i.first ∙ ap (λ n. take n stream) h.prefix_cap in
    let last =
      ap (drop (r.suffix_held - suffix_length r)) i.last
      ∙ (drop-drop (length stream - r.suffix_cap) (r.suffix_held - suffix_length r) stream
          ∙ ap (λ n. drop n stream) place) in
    ap (λ a. (a, drop (r.suffix_held - suffix_length r) (concat r.suffix_chunks))) first
    ∙ ap (λ b. (take (prefix_budget strategy) stream, b)) last

-- For any strategy and any chunks, the retainer holds the first bytes of the stream up to the
-- prefix budget and the last bytes that remain up to the suffix budget, and the chunks of each
-- side have no more bytes than its budget.
pub held_bytes-retained :
    (strategy : TextRetentionStrategy) (chunks : List (List ℕ))
    → (held_bytes (retained strategy chunks) ≡ (
      take (prefix_budget strategy) (concat chunks),
      drop
          (length (concat chunks) - suffix_share strategy (length (concat chunks)))
          (concat chunks),
    ))
      × (length (concat (retained strategy chunks).prefix_chunks) ≤ prefix_budget strategy)
      × (length (concat (retained strategy chunks).suffix_chunks) ≤ suffix_budget strategy)
held_bytes-retained strategy chunks =
    let h = retained-Retains strategy chunks in
    (
      Retains-held_bytes strategy (retained strategy chunks) (concat chunks) h,
      omega (
        arith,
        ap length h.holds.first,
        length-take (retained strategy chunks).prefix_cap (concat chunks),
        h.prefix_cap,
      ),
      omega (
        arith,
        ap length h.holds.last,
        length-drop (length (concat chunks) - (retained strategy chunks).suffix_cap)
            (concat chunks),
        h.suffix_cap,
      ),
    )

trim_trailing-prefix :
    (bytes : List ℕ) → (cut : List ℕ) × (bytes ≡ trim_trailing_partial_utf8 bytes ++ cut)
unfolding trim_trailing_partial_utf8
trim_trailing-prefix bytes = trimmed (walk_back bytes (length bytes))
  where
    cut_or_whole :
        (i : ℕ) (lead : Option ℕ) → (cut : List ℕ) × (bytes ≡ cut_at_lead bytes i lead ++ cut)
    cut_or_whole i none = ([], sym (append-nil bytes))
    cut_or_whole i (some lead) = elim (Bool-cases (expected_length lead == 0)) [
      | inl e ↦ rw e ([], sym (append-nil bytes))
      | inr e ↦ elim (Bool-cases (ltb (length bytes - i) (expected_length lead))) [
        | inl d ↦ rw (e, d) (drop i bytes, sym (take-append-drop i bytes))
        | inr d ↦ rw (e, d) ([], sym (append-nil bytes))
      ]
    ]

    trimmed : (n : ℕ) → (cut : List ℕ) × (bytes ≡ trimmed_from bytes n ++ cut)
    trimmed zero = ([], sym (append-nil bytes))
    trimmed (suc i) = cut_or_whole i (get_elem? bytes i)

trim_leading-suffix :
    (bytes : List ℕ) → (cut : List ℕ) × (bytes ≡ cut ++ trim_leading_continuation_utf8 bytes)
unfolding trim_leading_continuation_utf8
trim_leading-suffix [] = ([], refl)
trim_leading-suffix (byte ∷ bytes) = elim (Bool-cases (is_continuation byte)) [
  | inl e ↦ let (cut, q) = trim_leading-suffix bytes in rw e (byte ∷ cut, ap (λ bs. byte ∷ bs) q)
  | inr e ↦ rw e ([], refl)
]

-- Two ends of a stream that do not overlap, and what lies between them.
between :
    (n m : ℕ) (stream : List ℕ)
    → n + m ≤ length stream
    → (middle : List ℕ) × (stream ≡ take n stream ++ (middle ++ drop (length stream - m) stream))
between n m stream h =
    let k = length stream - m - n in
    let place : n + k ≡ length stream - m = omega (arith, h) in
    (
      take k (drop n stream),
      sym (take-append-drop n stream)
          ∙ ap (λ rest. take n stream ++ rest)
              (sym (take-append-drop k (drop n stream))
                ∙ ap (λ rest. take k (drop n stream) ++ rest)
                    (drop-drop n k stream ∙ ap (λ j. drop j stream) place)),
    )

regroup : (a b c d e : List ℕ) → (a ++ b) ++ (c ++ (d ++ e)) ≡ a ++ ((b ++ (c ++ d)) ++ e)
regroup a b c d e =
    append_assoc a b (c ++ (d ++ e))
    ∙ ap (λ bs. a ++ bs) (sym (append_assoc b (c ++ d) e ∙ ap (λ bs. b ++ bs) (append_assoc c d e)))

Retains-split :
    (strategy : TextRetentionStrategy) (r : TextRetainer) (stream : List ℕ)
    → Retains strategy r stream
    → (middle : List ℕ) × (stream ≡ (kept_bytes r).0 ++ (middle ++ (kept_bytes r).1))
unfolding kept_bytes
Retains-split strategy r stream h =
    let e = Retains-held_bytes strategy r stream h in
    let (gap, whole) =
      between (min (length stream) (prefix_budget strategy)) (suffix_share strategy (length stream))
        stream (omega arith) in
    let least : min (length stream) (prefix_budget strategy)
        ≡ min (prefix_budget strategy) (length stream) =
      omega arith in
    let first : take (min (length stream) (prefix_budget strategy)) stream ≡ (held_bytes r).0 =
      ap (λ n. take n stream) least
      ∙ (take-min (prefix_budget strategy) stream ∙ ap (λ p. p.0) (sym e)) in
    let ends : stream ≡ (held_bytes r).0 ++ (gap ++ (held_bytes r).1) =
      whole
      ∙ (ap
            (λ bs.
              bs ++ (gap ++ drop (length stream - suffix_share strategy (length stream)) stream))
            first
          ∙ ap (λ p. (held_bytes r).0 ++ (gap ++ p.1)) (sym e)) in
    elim (Bool-cases (ltb 0 (omitted_at r r.total))) [
      | inr fits ↦ rw fits (gap, ends)
      | inl cut ↦
          let (c, p) = trim_trailing-prefix (held_bytes r).0 in
          let (d, s) = trim_leading-suffix (held_bytes r).1 in
          let t = trim_trailing_partial_utf8 (held_bytes r).0 in
          let u = trim_leading_continuation_utf8 (held_bytes r).1 in
          rw cut (
            c ++ (gap ++ d),
            ends
                ∙ (ap (λ bs. bs ++ (gap ++ (held_bytes r).1)) p
                    ∙ (ap (λ bs. (t ++ c) ++ (gap ++ bs)) s ∙ regroup t c gap d u)),
          )
    ]

empty-of-length : (xs : List ℕ) → length xs ≡ 0 → xs ≡ []
empty-of-length [] h = refl
empty-of-length (x ∷ xs) h = absurd (omega (arith, h))

-- Within the budgets, the ends that are held are the stream.
kept_text :
    (decode : List ℕ → String) (strategy : TextRetentionStrategy) (r : TextRetainer)
    (stream : List ℕ)
    → Retains strategy r stream
    → (middle : List ℕ) → stream ≡ (kept_bytes r).0 ++ (middle ++ (kept_bytes r).1)
    → length stream ≤ prefix_budget strategy + suffix_budget strategy
    → (finish decode r).text ≡ decode stream
unfolding finish kept_bytes
kept_text decode strategy r stream h middle split small =
    let e = Retains-held_bytes strategy r stream h in
    let seen = h.holds.seen in
    let nothing : omitted_at r r.total ≡ 0 =
      omega (arith, seen, h.prefix_cap, h.suffix_cap, small) in
    let fits : ltb 0 (omitted_at r r.total) ≡ false = ground (arith, nothing) in
    let whole : stream ≡ (held_bytes r).0 ++ (middle ++ (held_bytes r).1) =
      rw (kept_bytes, fits) at split in
    let first = ap (λ p. length p.0) e in
    let last = ap (λ p. length p.1) e in
    let first_length = length-take (prefix_budget strategy) stream in
    let last_length = length-drop (length stream - suffix_share strategy (length stream)) stream in
    let outer = length-append (held_bytes r).0 (middle ++ (held_bytes r).1) in
    let inner = length-append middle (held_bytes r).1 in
    let none_left : length middle ≡ 0 =
      omega (arith, first, last, first_length, last_length, outer, inner, ap length whole, small) in
    let same : (held_bytes r).0 ++ (held_bytes r).1 ≡ stream = sym (
      whole
      ∙ ap (λ m. (held_bytes r).0 ++ (m ++ (held_bytes r).1)) (empty-of-length middle none_left)) in
    rw fits (ap decode same)

-- For any decoder, strategy and chunks, the stream is the kept prefix, omitted bytes and the kept
-- suffix; the result says truncated if any are omitted, and how many; and where the stream is no
-- longer than both budgets together the text is the decoded stream.
pub finish-retained :
    (decode : List ℕ → String) (strategy : TextRetentionStrategy) (chunks : List (List ℕ))
    → let r : TextRetainer = retained strategy chunks in
      (middle : List ℕ) × (concat chunks ≡ (kept_bytes r).0 ++ (middle ++ (kept_bytes r).1))
      × ((finish decode r).truncated ≡ ltb 0 (length middle))
      × ((finish decode r).omitted_bytes ≡ omission (length middle))
      × (length (concat chunks) ≤ prefix_budget strategy + suffix_budget strategy
          → (finish decode r).text ≡ decode (concat chunks))
unfolding finish kept_bytes
finish-retained decode strategy chunks =
    let r = retained strategy chunks in
    let h = retained-Retains strategy chunks in
    let (middle, split) = Retains-split strategy (retained strategy chunks) (concat chunks) h in
    let seen = h.holds.seen in
    let outer = length-append (kept_bytes r).0 (middle ++ (kept_bytes r).1) in
    let inner = length-append middle (kept_bytes r).1 in
    let count : omitted_bytes_of r ≡ length middle =
      omega (arith, seen, ap length split, outer, inner) in
    (
      middle,
      split,
      ap (ltb 0) count,
      ap omission count,
      λ small. kept_text decode strategy r (concat chunks) h middle split small,
    )
