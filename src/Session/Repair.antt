-- ===== src/Session/Repair.antt =====
-- Crash repair: 04-code-samples/packages/core/session/src/repair.ts.
-- The `Map` of pending calls is its entries in insertion order.
use agent_runtime_notes.Base.{
  ℕ, suc, ◌+◌, String, true, Option, none, some, List, [], ◌∷◌, if◌then◌else◌, str_eq,
}
use agent_runtime_notes.Session.{
  Block, tool_call_block, other_block, interrupted_id, ErrorCode, interrupted, EventData,
  turn_start, turn_end, step_start, step_end, assistant_message, tool_call, tool_result, append,
  cited, SessionEvent,
}
use agent_runtime_notes.Session.Trace.{tool_not_started}

abbrev pub tool_outcome_unknown : String
tool_outcome_unknown = "TOOL_OUTCOME_UNKNOWN"

pub record PendingCall : Type 0 where
  pub step : ℕ
  pub call_seq : Option ℕ

pub record RepairScan : Type 0 where
  pub open_turn : Option ℕ
  pub open_step : Option ℕ
  pub pending : List (String × PendingCall)

-- `map.set(id, call)`: a key that is there keeps its place.
unfoldable pub set_call :
    String → PendingCall → List (String × PendingCall) → List (String × PendingCall)
set_call id call [] = (id, call) ∷ []
set_call id call ((k, c) ∷ m) = if str_eq k id then (k, call) ∷ m else (k, c) ∷ set_call id call m

-- `const entry = map.get(id); if (entry) entry.callSeq = seq`.
unfoldable pub cite_call : String → ℕ → List (String × PendingCall) → List (String × PendingCall)
cite_call id seq [] = []
cite_call id seq ((k, c) ∷ m) =
    if str_eq k id then (k, record c { call_seq = some seq }) ∷ m else (k, c) ∷ cite_call id seq m

unfoldable pub delete_call : String → List (String × PendingCall) → List (String × PendingCall)
delete_call id [] = []
delete_call id ((k, c) ∷ m) = if str_eq k id then m else (k, c) ∷ delete_call id m

-- The loop over the blocks of an assistant message.
unfoldable pub register : ℕ → List Block → List (String × PendingCall) → List (String × PendingCall)
register step [] m = m
register step (tool_call_block id ∷ blocks) m =
    register step blocks (set_call id (record { step = step; call_seq = none }) m)
register step (other_block text ∷ blocks) m = register step blocks m

-- One round of the loop over the events.
unfoldable pub scan_data : RepairScan → ℕ → EventData → RepairScan
scan_data s seq (turn_start turn) = record { open_turn = some turn; open_step = none; pending = [] }
scan_data s seq (turn_end turn reason) = record { open_turn = none; open_step = none; pending = [] }
scan_data s seq (step_start turn step) = record s { open_step = some step }
scan_data s seq (step_end turn step) = record s { open_step = none; pending = [] }
scan_data s seq (assistant_message turn step blocks) = record s {
  pending = register step blocks s.pending;
}
scan_data s seq (tool_call turn step id) = record s { pending = cite_call id seq s.pending }
scan_data s seq (tool_result r) = record s { pending = delete_call r.call_id s.pending }
scan_data s seq _ = s

abbrev pub initial_scan : RepairScan
initial_scan = record { open_turn = none; open_step = none; pending = [] }

unfoldable pub scan : RepairScan → List SessionEvent → RepairScan
scan s [] = s
scan s (event ∷ events) = scan (scan_data s event.seq event.body) events

abbrev pub outcome_unknown_text : String
outcome_unknown_text =
    "The tool call was interrupted after it was recorded, but no result was durably recorded. Its outcome is unknown. Decide whether to retry from the tool semantics: retry only if the operation is read-only or idempotent; if it may have side effects, first verify external state or ask the user. Do not retry blindly."

abbrev pub not_started_text : String
not_started_text =
    "The tool call was interrupted before the Harness recorded it as started. Retry it if it is still needed."

-- What a synthetic result says of a call, by whether its start was recorded.
abbrev pub closer_text : Option ℕ → String
closer_text none = not_started_text
closer_text (some seq) = outcome_unknown_text

abbrev pub closer_error : Option ℕ → ErrorCode
closer_error none = record { name = "ToolNotStartedError"; code = tool_not_started }
closer_error (some seq) = record { name = "ToolOutcomeUnknownError"; code = tool_outcome_unknown }

unfoldable pub close_call : (turn time seq : ℕ) → String → PendingCall → SessionEvent
close_call turn time seq id call = record {
  seq = seq;
  time = time;
  body = tool_result (record {
    turn = turn;
    step = call.step;
    message_id = interrupted_id id seq;
    call_id = id;
    is_error = some true;
    content = closer_text call.call_seq;
    error = some (closer_error call.call_seq);
    meta = none;
  });
  surface_op = some append;
  source_event_seqs = elim call.call_seq [ none ↦ none | some cs ↦ some (cited (some cs ∷ [])) ];
}

abbrev pub boundary : ℕ → ℕ → EventData → SessionEvent
boundary seq time body = record {
  seq = seq;
  time = time;
  body = body;
  surface_op = none;
  source_event_seqs = none;
}

unfoldable pub close_turn : (turn time seq : ℕ) → Option ℕ → List SessionEvent
close_turn turn time seq none = boundary seq time (turn_end turn interrupted) ∷ []
close_turn turn time seq (some step) =
    boundary seq time (step_end turn step)
    ∷ boundary (suc seq) time (turn_end turn interrupted)
    ∷ []

unfoldable pub close_calls :
    (turn time seq : ℕ) → List (String × PendingCall) → Option ℕ → List SessionEvent
close_calls turn time seq [] open_step = close_turn turn time seq open_step
close_calls turn time seq ((id, call) ∷ m) open_step =
    close_call turn time seq id call ∷ close_calls turn time (suc seq) m open_step

-- `events.at(-1)`.
abbrev pub last : List SessionEvent → Option SessionEvent
last [] = none
last (event ∷ []) = some event
last (event ∷ next ∷ events) = last (next ∷ events)

abbrev pub closers_of : RepairScan → Option SessionEvent → List SessionEvent
closers_of s none = []
closers_of s (some final) = elim s.open_turn [
  | none ↦ []
  | some turn ↦ close_calls turn final.time (final.seq + 1) s.pending s.open_step
]

unfoldable pub interrupted_turn_closers : List SessionEvent → List SessionEvent
interrupted_turn_closers events = closers_of (scan initial_scan events) (last events)
