-- ===== src/Inbox.antt =====
-- The agent inbox: 04-code-samples/packages/core/agent/src/inbox.ts.
-- `InboxState` holds the two pending lists; `Inbox` adds the events of the owning session and the
-- notifications that were published. What a method throws comes back beside the state that it left.
-- Whether `session.append` takes an event is the parameter `admits`.
pub mod Steps
pub mod Claiming
pub mod Tests
pub mod Removal
pub mod Ranges
pub mod Insertion
pub mod Identity
pub mod Replay
use mathlib.Core.Option
use agent_runtime_notes.Base.{
  ℕ, suc, ◌+◌, ◌-◌, min, String, Bool, true, false, ◌&&◌, ◌||◌, Option, none, some, List, [], ◌∷◌,
  ◌++◌, map, ltb, ◌==◌, if◌then◌else◌, length, take, drop, spliced, first_duplicate, str_eq, Result,
  ok, err, JsNumber, nan, neg_infinity, pos_infinity, finite, pos, negsuc, of_ℕ, trunc, safe_index,
}

-- The inbox reads a message's identity and carries the rest.
pub record UserMessage : Type 0 where
  pub id : String
  pub content : String

pub data InboxTarget : Type 0 where
  next_turn next_step : InboxTarget

pub record InboxState : Type 0 where
  pub turns : List UserMessage
  pub steps : List UserMessage

pub data SpliceOutcome : Type 0 where
  canceled : SpliceOutcome

-- The payload of `agent/inbox/spliced`.
pub record Splice : Type 0 where
  pub target : InboxTarget
  pub start : JsNumber
  pub removed_count : Option JsNumber
  pub inserted : List UserMessage
  pub outcome : Option SpliceOutcome

pub data LogEvent : Type 0 where
  spliced_event : Splice → LogEvent
  other_event : LogEvent

pub data Notification : Type 0 where
  inserted discarded : UserMessage → Notification
  claimed : UserMessage → ℕ → Notification

pub record Inbox : Type 0 where
  pub state : InboxState
  pub log : List LogEvent
  pub published : List Notification

pub data InboxError : Type 0 where
  invalid_splice append_rejected : InboxError
  already_pending : String → InboxError
  invalid_persisted : ℕ → InboxError → InboxError

abbrev pub Outcome : Type 0 → Type 0
Outcome A = Result InboxError A

abbrev pub ids : List UserMessage → List String
ids ms = map (λ m. m.id) ms

-- `this.state[target]`.
abbrev pub list_at : InboxState → InboxTarget → List UserMessage
list_at s next_turn = s.turns
list_at s next_step = s.steps

abbrev pub set_list : InboxState → InboxTarget → List UserMessage → InboxState
set_list s next_turn ms = record { turns = ms; steps = s.steps }
set_list s next_step ms = record { turns = s.turns; steps = ms }

abbrev pub pending_ids : InboxState → List String
pending_ids s = ids (s.turns ++ s.steps)

abbrev pub has_pending : InboxState → Bool
has_pending s = ltb 0 (length s.turns) || ltb 0 (length s.steps)

-- `splice.removedCount ?? 0`, checked as `validate` checks it.
abbrev pub removed_index : Option JsNumber → Option ℕ
removed_index none = some 0
removed_index (some n) = safe_index n

-- The lists after a splice of one of them.
pub candidate : InboxState → InboxTarget → ℕ → ℕ → List UserMessage → InboxState
candidate s target start removed ms =
    set_list s target (spliced (list_at s target) start removed ms)

-- The result is the checked pair of start and removed count.
pub check_ids : InboxState → Splice → ℕ → ℕ → Outcome (ℕ × ℕ)
check_ids s sp start removed =
    elim (first_duplicate [] (pending_ids (candidate s sp.target start removed sp.inserted))) [
      | none ↦ ok (start, removed)
      | some id ↦ err (already_pending id)
    ]

pub check_range : InboxState → Splice → ℕ → ℕ → Outcome (ℕ × ℕ)
check_range s sp start removed =
    if ltb (length (list_at s sp.target)) start
      || ltb (length (list_at s sp.target)) (start + removed)
    then err invalid_splice
    else check_ids s sp start removed

pub validate : InboxState → Splice → Outcome (ℕ × ℕ)
unfolding check_range
validate s sp = elim (safe_index sp.start) [
  | none ↦ err invalid_splice
  | some start ↦ elim (removed_index sp.removed_count) [
    | none ↦ err invalid_splice
    | some removed ↦ check_range s sp start removed
  ]
]

pub apply : InboxState → Splice → Outcome InboxState
apply s sp = elim (validate s sp) [
  | ok (start, removed) ↦ ok (candidate s sp.target start removed sp.inserted)
  | err e ↦ err e
]

-- The constructor's loop; `seq` is the sequence number of the first event.
pub replay_event : InboxState → ℕ → LogEvent → Outcome InboxState
replay_event s seq other_event = ok s
replay_event s seq (spliced_event sp) = elim (apply s sp) [
  | ok t ↦ ok t
  | err e ↦ err (invalid_persisted seq e)
]

pub replay_from : InboxState → ℕ → List LogEvent → Outcome InboxState
replay_from s seq [] = ok s
replay_from s seq (e ∷ es) = elim (replay_event s seq e) [
  | ok t ↦ replay_from t (suc seq) es
  | err x ↦ err x
]

abbrev pub empty_state : InboxState
empty_state = record { turns = []; steps = [] }

pub construct : ℕ → List LogEvent → Outcome InboxState
unfolding replay_event replay_from
construct seed_length events = replay_from empty_state seed_length (drop seed_length events)

-- `actualStart` and `actualDeleteCount` of `mutate`.
pub actual_start : ℕ → JsNumber → ℕ
actual_start len nan = 0
actual_start len neg_infinity = 0
actual_start len pos_infinity = len
actual_start len (finite (pos n) fractional) = min n len
actual_start len (finite (negsuc n) fractional) = len - suc n

pub actual_delete_count : ℕ → JsNumber → ℕ
actual_delete_count room nan = 0
actual_delete_count room neg_infinity = 0
actual_delete_count room pos_infinity = room
actual_delete_count room (finite (pos n) fractional) = min n room
actual_delete_count room (finite (negsuc n) fractional) = 0

pub normalized : InboxTarget → ℕ → ℕ → List UserMessage → Bool → Splice
normalized target start count ms discard = record {
  target = target;
  start = of_ℕ start;
  removed_count = if count == 0 then none else some (of_ℕ count);
  inserted = ms;
  outcome = if discard && ltb 0 count then some canceled else none;
}

pub is_empty : List UserMessage → Bool
is_empty [] = true
is_empty (m ∷ ms) = false

-- The lines of `mutate` after the durable event is in the log.
pub committed : Inbox → Splice → ℕ → ℕ → Bool → Outcome (List UserMessage) × Inbox
committed s sp start count discard =
    let old = list_at s.state sp.target in
    let removed = take count (drop start old) in
    (
      ok removed,
      record {
        state = candidate s.state sp.target start count sp.inserted;
        log = s.log ++ spliced_event sp ∷ [];
        published =
            s.published
            ++ ((if discard then map Notification.discarded removed else [])
                ++ map Notification.inserted sp.inserted);
      },
    )

-- `findIndex(message => message.id === messageId)`.
pub find_index : String → List UserMessage → Option ℕ
find_index id [] = none
find_index id (m ∷ ms) = if str_eq m.id id then some 0 else Option.map suc (find_index id ms)

pub locate : InboxState → String → Option (InboxTarget × ℕ)
unfolding find_index
locate s id = elim (find_index id s.turns) [
  | some index ↦ some (next_turn, index)
  | none ↦ Option.map (λ index. (next_step, index)) (find_index id s.steps)
]

-- `return true` behind a call that may throw.
abbrev pub then_true : Outcome (List UserMessage) × Inbox → Outcome Bool × Inbox
then_true (ok removed, s) = (ok true, s)
then_true (err e, s) = (err e, s)

-- Claimed messages are announced after both deletions.
pub announce : ℕ → List UserMessage → Inbox → Outcome (List UserMessage) × Inbox
announce turn ms s = (ok ms, record s { published = s.published ++ map (λ m. claimed m turn) ms })

module _ (admits : List LogEvent → LogEvent → Bool) where
  pub commit : Inbox → Splice → ℕ → ℕ → Bool → Outcome (List UserMessage) × Inbox
  commit s sp start count discard = elim (validate s.state sp) [
    | err e ↦ (err e, s)
    | ok _ ↦
        if admits s.log (spliced_event sp)
        then committed s sp start count discard
        else (err append_rejected, s)
  ]

  pub mutate :
      Inbox
      → InboxTarget
      → JsNumber
      → JsNumber
      → List UserMessage
      → Bool
      → Outcome (List UserMessage) × Inbox
  mutate s target start delete_count ms discard =
      let len = length (list_at s.state target) in
      let first = actual_start len (trunc start) in
      let count = actual_delete_count (len - first) (trunc delete_count) in
      if count == 0 && is_empty ms
      then (ok [], s)
      else commit s (normalized target first count ms discard) first count discard

  pub splice :
      Inbox
      → InboxTarget
      → JsNumber
      → JsNumber
      → List UserMessage
      → Outcome (List UserMessage) × Inbox
  splice s target start delete_count ms = mutate s target start delete_count ms true

  pub append : Inbox → InboxTarget → UserMessage → Outcome (List UserMessage) × Inbox
  append s target m = splice s target (of_ℕ (length (list_at s.state target))) (of_ℕ 0) (m ∷ [])

  pub replace : Inbox → String → UserMessage → Outcome Bool × Inbox
  replace s id m = elim (locate s.state id) [
    | none ↦ (ok false, s)
    | some (target, index) ↦ then_true (splice s target (of_ℕ index) (of_ℕ 1) (m ∷ []))
  ]

  pub remove : Inbox → String → Outcome Bool × Inbox
  remove s id = elim (locate s.state id) [
    | none ↦ (ok false, s)
    | some (target, index) ↦ then_true (splice s target (of_ℕ index) (of_ℕ 1) [])
  ]

  -- The list that is cleared last is measured after the first splice.
  pub clear_turns : Outcome (List UserMessage) × Inbox → Outcome (List UserMessage) × Inbox
  clear_turns (ok removed, s) = splice s next_turn (of_ℕ 0) (of_ℕ (length s.state.turns)) []
  clear_turns (err e, s) = (err e, s)

  pub clear : Inbox → Outcome (List UserMessage) × Inbox
  unfolding clear_turns
  clear s = clear_turns (splice s next_step (of_ℕ 0) (of_ℕ (length s.state.steps)) [])

  pub claim_queued :
      ℕ → List UserMessage → Outcome (List UserMessage) × Inbox → Outcome (List UserMessage) × Inbox
  claim_queued turn ms (ok queued, s) = announce turn (ms ++ queued) s
  claim_queued turn ms (err e, s) = (err e, s)

  pub claim_from :
      InboxTarget → ℕ → Outcome (List UserMessage) × Inbox → Outcome (List UserMessage) × Inbox
  claim_from next_turn turn (ok ms, s) =
      claim_queued turn ms (mutate s next_turn (of_ℕ 0) (of_ℕ 1) [] false)
  claim_from next_step turn (ok ms, s) = announce turn ms s
  claim_from target turn (err e, s) = (err e, s)

  pub claim : Inbox → InboxTarget → ℕ → Outcome (List UserMessage) × Inbox
  unfolding claim_from claim_queued announce
  claim s target turn =
      claim_from target turn (mutate s next_step (of_ℕ 0) (of_ℕ (length s.state.steps)) [] false)

  pub prepend : Inbox → InboxTarget → UserMessage → Outcome (List UserMessage) × Inbox
  prepend s target m = splice s target (of_ℕ 0) (of_ℕ 0) (m ∷ [])

-- One call of a method, or an event that another part of the program puts in the log.
pub data Command : Type 0 where
  do_clear foreign_event : Command
  do_claim : InboxTarget → ℕ → Command
  do_append do_prepend : InboxTarget → UserMessage → Command
  do_replace : String → UserMessage → Command
  do_remove : String → Command
  do_splice : InboxTarget → JsNumber → JsNumber → List UserMessage → Command

module _ (admits : List LogEvent → LogEvent → Bool) where
  -- The state after one call, whether it returned or threw.
  pub execute : Inbox → Command → Inbox
  execute s do_clear = (clear admits s).1
  execute s foreign_event = record s { log = s.log ++ other_event ∷ [] }
  execute s (do_claim target turn) = (claim admits s target turn).1
  execute s (do_append target m) = (append admits s target m).1
  execute s (do_prepend target m) = (prepend admits s target m).1
  execute s (do_replace id m) = (replace admits s id m).1
  execute s (do_remove id) = (remove admits s id).1
  execute s (do_splice target start delete_count ms) =
      (splice admits s target start delete_count ms).1

  pub run : Inbox → List Command → Inbox
  unfolding execute
  run s [] = s
  run s (c ∷ cs) = run (execute s c) cs
