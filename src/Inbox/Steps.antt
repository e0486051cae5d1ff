-- ===== src/Inbox/Steps.antt =====
-- What one mutation of the inbox can do, and induction over the calls of a run.
use agent_runtime_notes.Base.{
  ℕ, ◌≡◌, inl, inr, Bool, true, false, List, [], ◌∷◌, ◌++◌, String, arith, length, Result-cases, ok,
  err, Bool-cases, Option-cases, JsNumber, ◌==◌, ◌-◌, ◌&&◌, trunc,
}
use agent_runtime_notes.Inbox.{
  UserMessage, InboxTarget, next_turn, next_step, InboxState, LogEvent, spliced_event, other_event,
  Inbox, Outcome, check_ids, list_at, candidate, validate, apply, normalized, committed,
  actual_start, actual_delete_count, is_empty, commit, mutate, splice, append, prepend, replace,
  remove, clear, clear_turns, claim, claim_from, claim_queued, announce, then_true, locate, Command,
  do_clear, foreign_event, do_claim, do_append, do_prepend, do_replace, do_remove, do_splice,
  execute, run,
}

-- The checked pair of a normalized splice is the pair that it was made of.
pub validate-normalized :
    (s : InboxState) (target : InboxTarget) (start count : ℕ) (ms : List UserMessage) (d : Bool)
    (p : ℕ × ℕ)
    → validate s (normalized target start count ms d) ≡ ok p
    → p ≡ (start, count)
unfolding validate check_ids normalized
validate-normalized s target start count ms d p h = ground arith

pub apply-normalized :
    (s : InboxState) (target : InboxTarget) (start count : ℕ) (ms : List UserMessage) (d : Bool)
    (p : ℕ × ℕ)
    → validate s (normalized target start count ms d) ≡ ok p
    → apply s (normalized target start count ms d) ≡ ok (candidate s target start count ms)
unfolding apply normalized
apply-normalized s target start count ms d p h =
    ground (arith, validate-normalized s target start count ms d p h)

module _ (admits : List LogEvent → LogEvent → Bool) (P : Inbox → Type 0) where
  -- What a commit keeps where the splice is validated and admitted is kept by every mutation.
  module _
      (keep : (s : Inbox) (target : InboxTarget) (start count : ℕ) (ms : List UserMessage)
          (d : Bool) (p : ℕ × ℕ)
        → P s
        → validate s.state (normalized target start count ms d) ≡ ok p
        → P (committed s (normalized target start count ms d) start count d).1) where
    commit-keeps :
        (s : Inbox) (target : InboxTarget) (start count : ℕ) (ms : List UserMessage) (d : Bool)
        → P s
        → P (commit admits s (normalized target start count ms d) start count d).1
    unfolding commit
    commit-keeps s target start count ms d h =
        let sp = normalized target start count ms d in
        elim (Result-cases (validate s.state sp)) [
          | inl (p, e) ↦ elim (Bool-cases (admits s.log (spliced_event sp))) [
            | inl admitted ↦ rw (e, admitted, commit) (keep s target start count ms d p h e)
            | inr refused ↦ rw (e, refused, commit) h
          ]
          | inr (x, e) ↦ rw (e, commit) h
        ]

    pub mutate_induction :
        (s : Inbox) (target : InboxTarget) (start delete_count : JsNumber) (ms : List UserMessage)
        (d : Bool)
        → P s
        → P (mutate admits s target start delete_count ms d).1
    unfolding mutate
    mutate_induction s target start delete_count ms d h =
        let first = actual_start (length (list_at s.state target)) (trunc start) in
        let count =
          actual_delete_count (length (list_at s.state target) - first) (trunc delete_count) in
        elim (Bool-cases (count == 0 && is_empty ms)) [
          | inl nothing ↦ rw (nothing, mutate) h
          | inr something ↦ rw (something, mutate) (commit-keeps s target first count ms d h)
        ]

  module _
      (by_mutate : (s : Inbox) (target : InboxTarget) (start delete_count : JsNumber)
          (ms : List UserMessage) (d : Bool)
        → P s
        → P (mutate admits s target start delete_count ms d).1)
      (by_announce : (turn : ℕ) (ms : List UserMessage) (s : Inbox)
        → P s
        → P (announce turn ms s).1)
      (by_foreign : (s : Inbox) → P s → P (record s { log = s.log ++ other_event ∷ [] })) where
    then_true-keeps : (r : Outcome (List UserMessage) × Inbox) → P r.1 → P (then_true r).1
    then_true-keeps (ok ms, s) h = h
    then_true-keeps (err e, s) h = h

    clear_turns-keeps :
        (r : Outcome (List UserMessage) × Inbox) → P r.1 → P (clear_turns admits r).1
    unfolding clear_turns splice
    clear_turns-keeps (ok ms, s) h = by_mutate s next_turn _ _ [] true h
    clear_turns-keeps (err e, s) h = h

    claim_queued-keeps :
        (turn : ℕ) (ms : List UserMessage) (r : Outcome (List UserMessage) × Inbox)
        → P r.1
        → P (claim_queued admits turn ms r).1
    unfolding claim_queued
    claim_queued-keeps turn ms (ok queued, s) h = by_announce turn _ s h
    claim_queued-keeps turn ms (err e, s) h = h

    claim_from-keeps :
        (target : InboxTarget) (turn : ℕ) (r : Outcome (List UserMessage) × Inbox)
        → P r.1
        → P (claim_from admits target turn r).1
    unfolding claim_from
    claim_from-keeps next_turn turn (ok ms, s) h =
        claim_queued-keeps turn ms _ (by_mutate s next_turn _ _ [] false h)
    claim_from-keeps next_step turn (ok ms, s) h = by_announce turn ms s h
    claim_from-keeps next_turn turn (err e, s) h = h
    claim_from-keeps next_step turn (err e, s) h = h

    replace-keeps : (s : Inbox) (id : String) (m : UserMessage) → P s → P (replace admits s id m).1
    unfolding replace splice
    replace-keeps s id m h = elim (Option-cases (locate s.state id)) [
      | inl e ↦ rw (e, replace) h
      | inr (at, e) ↦ rw (e, replace) (then_true-keeps _ (by_mutate s at.0 _ _ _ true h))
    ]

    remove-keeps : (s : Inbox) (id : String) → P s → P (remove admits s id).1
    unfolding remove splice
    remove-keeps s id h = elim (Option-cases (locate s.state id)) [
      | inl e ↦ rw (e, remove) h
      | inr (at, e) ↦ rw (e, remove) (then_true-keeps _ (by_mutate s at.0 _ _ _ true h))
    ]

    pub execute_induction : (s : Inbox) (c : Command) → P s → P (execute admits s c)
    unfolding execute clear claim append prepend splice
    execute_induction s do_clear h = clear_turns-keeps _ (by_mutate s next_step _ _ [] true h)
    execute_induction s foreign_event h = by_foreign s h
    execute_induction s (do_claim target turn) h =
        claim_from-keeps target turn _ (by_mutate s next_step _ _ [] false h)
    execute_induction s (do_append target m) h = by_mutate s target _ _ _ true h
    execute_induction s (do_prepend target m) h = by_mutate s target _ _ _ true h
    execute_induction s (do_replace id m) h = replace-keeps s id m h
    execute_induction s (do_remove id) h = remove-keeps s id h
    execute_induction s (do_splice target start count ms) h =
        by_mutate s target start count ms true h

    pub run_induction : (s : Inbox) (cs : List Command) → P s → P (run admits s cs)
    unfolding run
    run_induction s [] h = h
    run_induction s (c ∷ cs) h = run_induction (execute admits s c) cs (execute_induction s c h)
