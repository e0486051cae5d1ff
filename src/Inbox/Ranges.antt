-- ===== src/Inbox/Ranges.antt =====
-- A mutation whose coordinates are in range.
use agent_runtime_notes.Base.{
  ℕ, ◌+◌, ◌-◌, ◌≤◌, ◌≡◌, Bool, ◌&&◌, List, [], arith, length, inl, inr, first_duplicate, none, some,
  max_safe_integer, Option-cases, if◌then◌else◌, ok, err, of_ℕ, ◌==◌, trunc,
}
use agent_runtime_notes.Inbox.{
  UserMessage, InboxTarget, LogEvent, spliced_event, Inbox, list_at, normalized, committed,
  pending_ids, already_pending, append_rejected, candidate, mutate, commit, actual_start,
  actual_delete_count, is_empty,
}
use agent_runtime_notes.Inbox.Identity.{validate-in_range}

actual_start_lem : (len n : ℕ) → n ≤ len → actual_start len (trunc (of_ℕ n)) ≡ n
unfolding actual_start
actual_start_lem len n h = omega arith

actual_delete_count_lem : (room n : ℕ) → n ≤ room → actual_delete_count room (trunc (of_ℕ n)) ≡ n
unfolding actual_delete_count
actual_delete_count_lem room n h = omega arith

module _ (admits : List LogEvent → LogEvent → Bool) (s : Inbox) (target : InboxTarget) where
  pub mutate-in_range :
      (start removed : ℕ) (ms : List UserMessage) (d : Bool)
      → start + removed ≤ length (list_at s.state target)
      → mutate admits s target (of_ℕ start) (of_ℕ removed) ms d ≡ (
          if removed == 0 && is_empty ms
          then (ok [], s)
          else commit admits s (normalized target start removed ms d) start removed d)
  unfolding mutate
  mutate-in_range start removed ms d h =
      let len = length (list_at s.state target) in
      rw (actual_start_lem len start (omega arith), mutate)
        (rw (actual_delete_count_lem (len - start) removed (omega arith)))

  -- With coordinates in range only a repeated identity or the session can refuse the splice.
  pub commit-in_range :
      (start removed : ℕ) (ms : List UserMessage) (d : Bool)
      → start + removed ≤ length (list_at s.state target)
      → length (list_at s.state target) ≤ max_safe_integer
      → commit admits s (normalized target start removed ms d) start removed d
        ≡ elim (first_duplicate [] (pending_ids (candidate s.state target start removed ms))) [
          | some id ↦ (err (already_pending id), s)
          | none ↦
              if admits s.log (spliced_event (normalized target start removed ms d))
              then committed s (normalized target start removed ms d) start removed d
              else (err append_rejected, s)
        ]
  unfolding commit
  commit-in_range start removed ms d h k =
      let new = pending_ids (candidate s.state target start removed ms) in
      let v = validate-in_range s.state target start removed ms d h k in
      elim (Option-cases (first_duplicate [] new)) [
        | inl e ↦ rw (v, e, commit)
        | inr (id, e) ↦ rw (v, e, commit)
      ]
