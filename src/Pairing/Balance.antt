-- ===== src/Pairing/Balance.antt =====
-- The cuts of tool-pairing.ts against counting tool calls and results.
use agent_runtime_notes.Base.{
  ℕ, ◌+◌, ◌≡◌, refl, ap, ◌∙◌, Bool, List, [], ◌∷◌, ◌++◌, Option, none, some, arith, ◌==◌, length,
  get_elem?, ok, Option-cases, inl, inr,
}
use agent_runtime_notes.Session.{EventData, assistant_message, tool_result, SessionEvent}
use agent_runtime_notes.Pairing.{
  BalanceCache, count_calls, event_delta, add_delta, event_for_seq, next_count, walk, rebuild,
}
use agent_runtime_notes.Pairing.Walks.{walk-inv}
use agent_runtime_notes.Pairing.Incremental.{surface_of, rebuild-ok}

-- The calls that an event requests, and the results that it carries.
abbrev pub calls_of : EventData → ℕ
calls_of (assistant_message turn step blocks) = count_calls blocks
calls_of body = 0

abbrev pub results_of : EventData → ℕ
results_of (tool_result result) = 1
results_of body = 0

abbrev pub at_event : (EventData → ℕ) → Option SessionEvent → ℕ
at_event f none = 0
at_event f (some event) = f event.body

-- Their number over the events that a surface names.
abbrev pub total : (EventData → ℕ) → List SessionEvent → List ℕ → ℕ
total f events [] = 0
total f events (seq ∷ seqs) = at_event f (get_elem? events seq) + total f events seqs

add_delta_balance :
    (n m : ℕ) (body : EventData)
    → add_delta n (event_delta body) ≡ some m
    → n + calls_of body ≡ results_of body + m
unfolding add_delta event_delta
add_delta_balance n m (assistant_message turn step blocks) h = ground arith
add_delta_balance n m (tool_result result) h = ground arith
add_delta_balance n m body h = ground arith

module _ (events : List SessionEvent) where
  next_count_balance :
      (n m seq : ℕ)
      → next_count events n seq ≡ ok m
      → n + at_event calls_of (get_elem? events seq)
        ≡ at_event results_of (get_elem? events seq) + m
  unfolding next_count event_for_seq
  next_count_balance n m seq h = elim (Option-cases (get_elem? events seq)) [
    | inl e ↦ absurd (ground arith)
    | inr (event, e) ↦ elim (Option-cases (add_delta n (event_delta event.body))) [
      | inl d ↦ absurd (ground arith)
      | inr (k, d) ↦
          let q : k ≡ m = ground arith in rw e (add_delta_balance n m event.body (d ∙ ap some q))
    ]
  ]

  walk_balance :
      (n k seq : ℕ) (ys zs : List ℕ) (cuts : List Bool)
      → walk events n (seq ∷ ys ++ zs) ≡ ok (cuts, k)
      → get_elem? cuts (length ys)
        ≡ some ((n + total calls_of events (seq ∷ ys)) == total results_of events (seq ∷ ys))
  walk_balance n k seq [] zs cuts h =
      let (m, rest, e, w, q) = walk-inv events n k seq zs cuts h in
      let b = next_count_balance n m seq e in rw (← q) (ap some (ground arith))
  walk_balance n k seq (y ∷ ys) zs cuts h =
      let (m, rest, e, w, q) = walk-inv events n k seq (y ∷ ys ++ zs) cuts h in
      let b = next_count_balance n m seq e in
      let i = walk_balance m k y ys zs rest w in rw (← q) (i ∙ ap some (ground arith))

  -- Where a cache is built, the cut after a first part of the surface is balanced exactly if the
  -- events that this part names request as many tool calls as they carry results.
  pub rebuild_balance :
      (generation : ℕ) (ys zs : List ℕ) (c : BalanceCache)
      → rebuild events (surface_of generation (ys ++ zs)) ≡ ok c
      → get_elem? c.cut_balanced (length ys)
        ≡ some (total calls_of events ys == total results_of events ys)
  rebuild_balance generation [] zs c h =
      let (cuts, n, w, q) = rebuild-ok events [] generation zs c h in rw (← q) refl
  rebuild_balance generation (y ∷ ys) zs c h =
      let (cuts, n, w, q) = rebuild-ok events [] generation (y ∷ ys ++ zs) c h in
      rw (← q) (walk_balance 0 n y ys zs cuts w ∙ ap some (ground arith))
