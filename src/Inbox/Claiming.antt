-- ===== src/Inbox/Claiming.antt =====
-- `claim`: what it returns, leaves and announces, and in which order.
use mathlib.Core.List.{append-nil}
use agent_runtime_notes.Base.{
  ℕ, ◌≤◌, ◌≡◌, refl, ap, ◌∙◌, Bool, true, false, List, [], ◌++◌, arith, length, IsDistinct,
  max_safe_integer, map, take, drop, drop_all, take_all, ok, err, ok-injective, ok-injective,
}
use agent_runtime_notes.Inbox.{
  UserMessage, InboxTarget, next_turn, next_step, InboxState, LogEvent, Inbox, Outcome, set_list,
  pending_ids, Notification, claim, claim_from, claim_queued, announce, claimed,
}
use agent_runtime_notes.Inbox.Removal.{IsPrefixTaken, mutate_first}
use agent_runtime_notes.Inbox.Insertion.{count-map-append}

-- The batch of a claim, and the lists without it.
abbrev pub batch : InboxTarget → InboxState → List UserMessage
batch next_turn s = s.steps ++ take 1 s.turns
batch next_step s = s.steps

abbrev pub unclaimed : InboxTarget → InboxState → InboxState
unclaimed next_turn s = record { turns = drop 1 s.turns; steps = [] }
unclaimed next_step s = record { turns = s.turns; steps = [] }

module _ (admits : List LogEvent → LogEvent → Bool)
    (admitting : (log : List LogEvent) (e : LogEvent) → admits log e ≡ true) where
  -- A claim returns `batch`, leaves `left`, and announces the batch and nothing else.
  record IsClaimed (published : List Notification) (left : InboxState) (turn : ℕ)
      (batch : List UserMessage) (r : Outcome (List UserMessage) × Inbox) : Type 0 where
    taken : r.0 ≡ ok batch
    kept : r.1.state ≡ left
    announced : r.1.published ≡ published ++ map (λ m. claimed m turn) batch

  claim_queued-IsClaimed :
      (s : Inbox) (turn : ℕ) (ms : List UserMessage) (r : Outcome (List UserMessage) × Inbox)
      → IsPrefixTaken s next_turn 1 false r
      → IsClaimed s.published
          (record { turns = drop 1 s.state.turns; steps = s.state.steps })
          turn
          (ms ++ take 1 s.state.turns)
          (claim_queued admits turn ms r)
  unfolding claim_queued announce
  claim_queued-IsClaimed s turn ms (err e, u) h = cc (h.taken)
  claim_queued-IsClaimed s turn ms (ok queued, u) h =
      let q = ok-injective _ _ h.taken in
      record {
        taken = ap (λ r. ok (ms ++ r)) q;
        kept = h.left;
        announced = rw (h.announced ∙ append-nil _, q) refl;
      }

  claim_from-IsClaimed :
      (s : Inbox) (target : InboxTarget) (turn : ℕ) (r : Outcome (List UserMessage) × Inbox)
      → IsDistinct (pending_ids s.state)
      → length s.state.turns ≤ max_safe_integer
      → IsPrefixTaken s next_step (length s.state.steps) false r
      → IsClaimed s.published
          (unclaimed target s.state)
          turn
          (batch target s.state)
          (claim_from admits target turn r)
  unfolding claim_from announce
  claim_from-IsClaimed s next_turn turn (err e, u) i short h = cc (h.taken)
  claim_from-IsClaimed s next_step turn (err e, u) i short h = cc (h.taken)
  claim_from-IsClaimed s next_step turn (ok ms, u) i short h =
      let q = ok-injective _ _ h.taken ∙ take_all s.state.steps in
      record {
        taken = ap ok q;
        kept = h.left ∙ ap (set_list s.state next_step) (drop_all s.state.steps);
        announced = rw (h.announced ∙ append-nil _, q) refl;
      }
  claim_from-IsClaimed s next_turn turn (ok ms, u) i short h =
      let q = ok-injective _ _ h.taken ∙ take_all s.state.steps in
      let e : u.state ≡ record { turns = s.state.turns; steps = [] } =
        h.left ∙ ap (set_list s.state next_step) (drop_all s.state.steps) in
      let distinct : IsDistinct (pending_ids u.state) = rw e (λ id. omega (
        arith,
        i id,
        count-map-append id s.state.turns [],
        count-map-append id s.state.turns s.state.steps,
      )) in
      let c =
        claim_queued-IsClaimed u turn ms _
          (mutate_first admits admitting u next_turn 1 false distinct (rw e short)) in
      record {
        taken = c.taken ∙ rw (q, e) refl;
        kept = c.kept ∙ rw e refl;
        announced = c.announced ∙ rw (h.announced ∙ append-nil _, q, e) refl;
      }

-- When the session takes every event, and for lists of at most 2^53 - 1 messages, a claim from
-- distinct pending identities returns the next-step list, followed by the first queued turn where
-- a turn is claimed too; these leave the inbox and no other message does, and each is announced as
-- claimed by the turn, in that order.
pub claim_lem :
    (admits : List LogEvent → LogEvent → Bool)
    (admitting : (log : List LogEvent) (e : LogEvent) → admits log e ≡ true) (s : Inbox)
    (target : InboxTarget) (turn : ℕ)
    → IsDistinct (pending_ids s.state)
    → length s.state.turns ≤ max_safe_integer
    → length s.state.steps ≤ max_safe_integer
    → ((claim admits s target turn).0 ≡ ok (batch target s.state))
      × ((claim admits s target turn).1.state ≡ unclaimed target s.state)
      × ((claim admits s target turn).1.published
          ≡ s.published ++ map (λ m. claimed m turn) (batch target s.state))
unfolding claim
claim_lem admits admitting s target turn i short_turns short_steps =
    let c =
      claim_from-IsClaimed admits admitting s target turn _ i short_turns
        (mutate_first admits admitting s next_step (length s.state.steps) false i short_steps) in
    (c.taken, c.kept, c.announced)
