-- ===== src/Session/Trace.antt =====
-- The session invariant: 04-code-samples/packages/core/session/src/invariant.ts.
-- `fail` throws; its message is a constructor of `Violation`. A `Set` is a list of its elements.
use agent_runtime_notes.Base.{
  ℕ, ◌+◌, String, Bool, true, false, not, ◌&&◌, ◌||◌, Option, none, some, List, [], ◌∷◌, leb, ◌==◌,
  if◌then◌else◌, Result, ok, err, ◌>>=◌, ◌>>◌, throw_unless, has, str_eq,
}
use agent_runtime_notes.Session.{
  ToolResult, EventData, turn_start, turn_end, step_start, step_end, assistant_chunk, user_message,
  assistant_message, tool_call, tool_result, todo_write, request_header, request_context, end_seed,
  plugin_event, SurfaceOp, append, SessionEvent, ErrorCode,
}

-- `last_seq` is `none` for -1.
pub record SessionTrace : Type 0 where
  pub last_seq : Option ℕ
  pub open_turn : Option ℕ
  pub open_step : Option ℕ
  pub next_turn : ℕ
  pub next_step : ℕ
  pub pending_calls : List String

pub data PendingChange : Type 0 where
  keep clear_all : PendingChange
  add delete : String → PendingChange

pub record Transition : Type 0 where
  pub last_seq : Option ℕ
  pub open_turn : Option ℕ
  pub open_step : Option ℕ
  pub next_turn : ℕ
  pub next_step : ℕ
  pub pending_calls : PendingChange

pub data Violation : Type 0 where
  seq_not_increasing turn_still_open unexpected_turn turn_not_open step_still_open : Violation
  unexpected_step not_open_step rewrite_outside_turn result_without_call outside_turn : Violation

abbrev pub tool_not_started : String
tool_not_started = "TOOL_NOT_STARTED"

-- `open === n`, where `open` may be null.
abbrev pub is_open : Option ℕ → ℕ → Bool
is_open none n = false
is_open (some k) n = k == n

abbrev pub is_null : Option ℕ → Bool
is_null none = true
is_null (some k) = false

abbrev pub increases : Option ℕ → ℕ → Bool
increases none seq = true
increases (some last) seq = not (leb seq last)

unfoldable pub require_open_step : SessionTrace → ℕ → ℕ → Result Violation (Unit {0})
require_open_step trace turn step =
    throw_unless (is_open trace.open_turn turn && is_open trace.open_step step) not_open_step

-- The scalars as they stand, with a change of the pending calls.
abbrev pub unchanged : SessionTrace → ℕ → PendingChange → Transition
unchanged trace seq change = record {
  last_seq = some seq;
  open_turn = trace.open_turn;
  open_step = trace.open_step;
  next_turn = trace.next_turn;
  next_step = trace.next_step;
  pending_calls = change;
}

abbrev pub is_append : Option SurfaceOp → Bool
is_append (some append) = true
is_append op = false

abbrev pub is_not_started : Option ErrorCode → Bool
is_not_started none = false
is_not_started (some error) = str_eq error.code tool_not_started

-- `isError === true`.
abbrev pub is_true : Option Bool → Bool
is_true none = false
is_true (some b) = b

unfoldable pub validate_result :
    SessionTrace → ℕ → Option SurfaceOp → ToolResult → Result Violation Transition
validate_result trace seq op r =
    if is_append op
    then (do
      require_open_step trace r.turn r.step
      throw_unless
          (has trace.pending_calls r.call_id || (is_true r.is_error && is_not_started r.error))
          result_without_call
      ok (unchanged trace seq (delete r.call_id)))
    else (do
      throw_unless (not (is_null trace.open_turn)) rewrite_outside_turn
      ok (unchanged trace seq keep))

abbrev pub in_turn : SessionTrace → ℕ → Result Violation Transition
in_turn trace seq =
    throw_unless (not (is_null trace.open_turn)) outside_turn >> ok (unchanged trace seq keep)

unfoldable pub validate_data :
    SessionTrace → ℕ → Option SurfaceOp → EventData → Result Violation Transition
unfolding require_open_step validate_result
validate_data trace seq op (turn_start turn) = do
  throw_unless (is_null trace.open_turn) turn_still_open
  throw_unless (turn == trace.next_turn) unexpected_turn
  ok (record (unchanged trace seq keep) { open_turn = some turn; next_step = 1 })
validate_data trace seq op (turn_end turn reason) = do
  throw_unless (is_open trace.open_turn turn) turn_not_open
  throw_unless (is_null trace.open_step) step_still_open
  ok (record (unchanged trace seq keep) { open_turn = none; next_turn = trace.next_turn + 1 })
validate_data trace seq op (step_start turn step) = do
  throw_unless (is_open trace.open_turn turn) turn_not_open
  throw_unless (is_null trace.open_step) step_still_open
  throw_unless (step == trace.next_step) unexpected_step
  ok (record (unchanged trace seq keep) { open_step = some step })
validate_data trace seq op (step_end turn step) = do
  require_open_step trace turn step
  ok (record (unchanged trace seq clear_all) { open_step = none; next_step = trace.next_step + 1 })
validate_data trace seq op (assistant_chunk turn step) =
    require_open_step trace turn step >> ok (unchanged trace seq keep)
validate_data trace seq op (assistant_message turn step blocks) =
    require_open_step trace turn step >> ok (unchanged trace seq keep)
validate_data trace seq op (tool_call turn step id) =
    require_open_step trace turn step >> ok (unchanged trace seq (add id))
validate_data trace seq op (tool_result r) = validate_result trace seq op r
validate_data trace seq op (user_message text) = ok (unchanged trace seq keep)
validate_data trace seq op end_seed = ok (unchanged trace seq keep)
validate_data trace seq op todo_write = in_turn trace seq
validate_data trace seq op request_header = in_turn trace seq
validate_data trace seq op request_context = in_turn trace seq
validate_data trace seq op (plugin_event kind) = ok (unchanged trace seq keep)

unfoldable pub validate_event : SessionTrace → SessionEvent → Result Violation Transition
unfolding validate_data
validate_event trace event = do
  throw_unless (increases trace.last_seq event.seq) seq_not_increasing
  validate_data trace event.seq event.surface_op event.body

-- `set.delete(id)`.
unfoldable pub without : List String → String → List String
without [] id = []
without (x ∷ xs) id = if str_eq x id then without xs id else x ∷ without xs id

unfoldable pub change_pending : List String → PendingChange → List String
unfolding without
change_pending ids keep = ids
change_pending ids clear_all = []
change_pending ids (add id) = if has ids id then ids else id ∷ ids
change_pending ids (delete id) = without ids id

unfoldable pub apply_transition : SessionTrace → Transition → SessionTrace
unfolding change_pending
apply_transition trace t = record {
  last_seq = t.last_seq;
  open_turn = t.open_turn;
  open_step = t.open_step;
  next_turn = t.next_turn;
  next_step = t.next_step;
  pending_calls = change_pending trace.pending_calls t.pending_calls;
}

abbrev pub fresh_trace : SessionTrace
fresh_trace = record {
  last_seq = none;
  open_turn = none;
  open_step = none;
  next_turn = 1;
  next_step = 1;
  pending_calls = [];
}

-- One round of the loop of `seedSession`.
unfoldable pub admit : SessionTrace → SessionEvent → Result Violation SessionTrace
admit trace event = validate_event trace event >>= λ t. ok (apply_transition trace t)

unfoldable pub admit_all : SessionTrace → List SessionEvent → Result Violation SessionTrace
admit_all trace [] = ok trace
admit_all trace (event ∷ events) = elim (admit trace event) [
  | ok next ↦ admit_all next events
  | err v ↦ err v
]
