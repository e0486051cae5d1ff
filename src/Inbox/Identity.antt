-- ===== src/Inbox/Identity.antt =====
-- The identities of pending messages (inbox.ts): `validate` and the two lists.
use agent_runtime_notes.Base.{
  ℕ, suc, ◌+◌, ◌≤◌, ◌≡◌, Bool, List, [], ◌∷◌, arith, length, inl, inr, Result-cases, ok, err,
  ok-injective, safe_index, IsDistinct, first_duplicate, first_duplicate_iff, drop, count, none,
  some, max_safe_integer, Option-cases,
}
use agent_runtime_notes.Inbox.{
  UserMessage, InboxTarget, InboxState, LogEvent, spliced_event, other_event, Inbox, removed_index,
  list_at, Splice, validate, apply, normalized, committed, replay_event, replay_from, empty_state,
  construct, Command, run, announce, pending_ids, check_ids, already_pending, candidate,
}
use agent_runtime_notes.Inbox.Steps.{apply-normalized, mutate_induction, run_induction}

check_ids-IsDistinct :
    (s : InboxState) (sp : Splice) (start removed : ℕ) (p : ℕ × ℕ)
    → check_ids s sp start removed ≡ ok p
    → IsDistinct (pending_ids (candidate s sp.target p.0 p.1 sp.inserted))
unfolding check_ids
check_ids-IsDistinct s sp start removed p h =
    let new = pending_ids (candidate s sp.target start removed sp.inserted) in
    elim (Option-cases (first_duplicate [] new)) [
      | inl e ↦ λ id. ground (arith, (first_duplicate_iff new).0 e id)
      | inr (x, e) ↦ cc (rw (e, check_ids) at h)
    ]

validate-IsDistinct :
    (s : InboxState) (sp : Splice) (p : ℕ × ℕ)
    → validate s sp ≡ ok p
    → IsDistinct (pending_ids (candidate s sp.target p.0 p.1 sp.inserted))
unfolding validate
validate-IsDistinct s sp p h id = elim (Option-cases (safe_index sp.start)) [
  | inl e ↦ cc (rw (e, validate) at h)
  | inr (start, e) ↦ elim (Option-cases (removed_index sp.removed_count)) [
    | inl r ↦ cc (rw (e, r, validate) at h)
    | inr (removed, r) ↦ grind (arith, check_ids-IsDistinct s sp start removed p)
  ]
]

-- A splice that the replay applies leaves distinct identities, whatever stood before it.
apply-IsDistinct : (s t : InboxState) (sp : Splice) → apply s sp ≡ ok t → IsDistinct (pending_ids t)
unfolding apply
apply-IsDistinct s t sp h = elim (Result-cases (validate s sp)) [
  | inl (p, e) ↦ rw (ok-injective _ _ (rw (e, apply) at h)) at (validate-IsDistinct s sp p e)
  | inr (x, e) ↦ cc (rw (e, apply) at h)
]

-- A splice in range is refused only for an identity that it would make pending twice.
pub validate-in_range :
    (s : InboxState) (target : InboxTarget) (start removed : ℕ) (ms : List UserMessage) (d : Bool)
    → start + removed ≤ length (list_at s target)
    → length (list_at s target) ≤ max_safe_integer
    → validate s (normalized target start removed ms d)
      ≡ elim (first_duplicate [] (pending_ids (candidate s target start removed ms))) [
        | none ↦ ok (start, removed)
        | some id ↦ err (already_pending id)
      ]
unfolding validate check_ids normalized
validate-in_range s target start removed ms d h k = ground arith

replay_event-IsDistinct :
    (s t : InboxState) (seq : ℕ) (e : LogEvent)
    → replay_event s seq e ≡ ok t
    → IsDistinct (pending_ids s)
    → IsDistinct (pending_ids t)
unfolding replay_event
replay_event-IsDistinct s t seq other_event h d = rw (ok-injective _ _ h) at d
replay_event-IsDistinct s t seq (spliced_event sp) h d = elim (Result-cases (apply s sp)) [
  | inl (u, e) ↦ rw (ok-injective _ _ (rw (e, replay_event) at h)) at (apply-IsDistinct s u sp e)
  | inr (x, e) ↦ cc (rw (e, replay_event) at h)
]

replay_from-IsDistinct :
    (s t : InboxState) (seq : ℕ) (es : List LogEvent)
    → replay_from s seq es ≡ ok t
    → IsDistinct (pending_ids s)
    → IsDistinct (pending_ids t)
unfolding replay_from
replay_from-IsDistinct s t seq [] h d = rw (ok-injective _ _ h) at d
replay_from-IsDistinct s t seq (x ∷ es) h d = elim (Result-cases (replay_event s seq x)) [
  | inl (u, e) ↦
      replay_from-IsDistinct u t (suc seq) es (rw (e, replay_from) at h)
        (replay_event-IsDistinct s u seq x e d)
  | inr (y, e) ↦ cc (rw (e, replay_from) at h)
]

-- Whatever a persisted log holds, an inbox that the constructor builds from it holds no identity
-- twice across its two lists.
pub construct-IsDistinct :
    (seed_length : ℕ) (events : List LogEvent) (s : InboxState)
    → construct seed_length events ≡ ok s
    → IsDistinct (pending_ids s)
unfolding construct
construct-IsDistinct seed_length events s h =
    replay_from-IsDistinct empty_state s seed_length (drop seed_length events) h (λ id. omega arith)

committed-IsDistinct :
    (s : Inbox) (target : InboxTarget) (start count : ℕ) (ms : List UserMessage) (d : Bool)
    (p : ℕ × ℕ)
    → IsDistinct (pending_ids s.state)
    → validate s.state (normalized target start count ms d) ≡ ok p
    → IsDistinct
        (pending_ids (committed s (normalized target start count ms d) start count d).1.state)
unfolding committed normalized
committed-IsDistinct s target start count ms d p i h =
    apply-IsDistinct s.state _ _ (apply-normalized s.state target start count ms d p h)

-- No sequence of calls makes an identity pending twice, in one list or across the two.
pub run-IsDistinct :
    (admits : List LogEvent → LogEvent → Bool) (s : Inbox) (cs : List Command)
    → IsDistinct (pending_ids s.state)
    → IsDistinct (pending_ids (run admits s cs).state)
unfolding announce
run-IsDistinct admits =
    let P = λ (s : Inbox). IsDistinct (pending_ids s.state) in
    run_induction admits P (mutate_induction admits P committed-IsDistinct) (λ turn ms s h. h)
      (λ s h. h)
