-- ===== src/Session/Tests.antt =====
-- A log that ends in a crash.
use agent_runtime_notes.Base.{ℕ, ◌≡◌, refl, List, [], ◌∷◌, ◌++◌, Option, none, some, ok}
use agent_runtime_notes.Session.{
  EventData, tool_call_block, other_block, turn_start, step_start, assistant_message, tool_call,
  user_message, append, SessionEvent, SurfaceOp,
}
use agent_runtime_notes.Session.Trace.{
  SessionTrace, admit_all, admit, validate_event, apply_transition, fresh_trace,
}
use agent_runtime_notes.Session.Repair.{
  scan, interrupted_turn_closers, close_calls, close_call, close_turn, scan_data, register,
  set_call, cite_call, delete_call,
}
use agent_runtime_notes.Session.Closing.{admit_all-closers, closers_idempotent}
use agent_runtime_notes.Session.Answers.{answered, Continues, closers-answered}

opened : Unit {0}
unfolding admit_all admit validate_event apply_transition scan interrupted_turn_closers close_calls
    close_call close_turn scan_data register set_call cite_call delete_call
opened = tt

abbrev event : ℕ → Option SurfaceOp → EventData → SessionEvent
event seq op body = record {
  seq = seq;
  time = 5;
  body = body;
  surface_op = op;
  source_event_seqs = none;
}

-- Two calls are requested, and one of them is recorded as started.
abbrev crashed : List SessionEvent
crashed =
    event 0 none (turn_start 1)
    ∷ event 1 (some append) (user_message "go")
    ∷ event 2 none (step_start 1 1)
    ∷ event 3 (some append) (
        assistant_message 1 1 (tool_call_block "a" ∷ other_block "text" ∷ tool_call_block "b" ∷ []))
    ∷ event 4 none (tool_call 1 1 "b")
    ∷ []

abbrev crashed_trace : SessionTrace
crashed_trace = record {
  last_seq = some 4;
  open_turn = some 1;
  open_step = some 1;
  next_turn = 1;
  next_step = 1;
  pending_calls = "b" ∷ [];
}

crashed-admitted : admit_all fresh_trace crashed ≡ ok crashed_trace
unfolding opened
crashed-admitted = refl

admit_all-closers_example :
    (u : SessionTrace) × (admit_all fresh_trace (crashed ++ interrupted_turn_closers crashed)
      ≡ ok u)
    × (u.open_turn ≡ none)
    × (u.open_step ≡ none)
admit_all-closers_example = admit_all-closers crashed crashed_trace crashed-admitted

closers_idempotent_example :
    interrupted_turn_closers (crashed ++ interrupted_turn_closers crashed) ≡ []
closers_idempotent_example = closers_idempotent crashed crashed_trace crashed-admitted

closers-answered_example :
    (answered (interrupted_turn_closers crashed) ≡ "a" ∷ "b" ∷ [])
    × Continues 5 5 (interrupted_turn_closers crashed)
unfolding opened
closers-answered_example = closers-answered crashed (event 4 none (tool_call 1 1 "b")) 1 refl refl
