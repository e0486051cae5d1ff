-- ===== src/Session.antt =====
-- The session log: 04-code-samples/packages/core/session/src/types.ts. The payloads hold what the
-- modelled code reads of them; an event of a plugin is `plugin_event` with its type.
use agent_runtime_notes.Base.{ℕ, String, Bool, Option, List}
pub mod Trace
pub mod Repair
pub mod Pending
pub mod Tracking
pub mod Recovery
pub mod Answers
pub mod Tests
pub mod Closing

-- A block of an assistant message.
pub data Block : Type 0 where
  tool_call_block : String → Block
  other_block : String → Block

pub data MessageId : Type 0 where
  given_id : String → MessageId
  interrupted_id : String → ℕ → MessageId

pub record ErrorCode : Type 0 where
  pub name : String
  pub code : String

-- The payload of `tool/result`; `meta` is the tool's private payload, and an absent `isError` is
-- `none`. The call of its source and of its block are one: the session refuses others
-- (core/session/src/index.ts).
pub record ToolResult : Type 0 where
  pub turn : ℕ
  pub step : ℕ
  pub message_id : MessageId
  pub call_id : String
  pub is_error : Option Bool
  pub content : String
  pub error : Option ErrorCode
  pub meta : Option String

pub data TurnEndReason : Type 0 where
  interrupted : TurnEndReason
  ended : String → TurnEndReason

pub data EventData : Type 0 where
  turn_start : ℕ → EventData
  turn_end : ℕ → TurnEndReason → EventData
  step_start step_end assistant_chunk : (turn step : ℕ) → EventData
  user_message : String → EventData
  assistant_message : (turn step : ℕ) → List Block → EventData
  tool_call : (turn step : ℕ) → String → EventData
  tool_result : ToolResult → EventData
  todo_write request_header request_context end_seed : EventData
  plugin_event : String → EventData

-- A raw `surfaceOp`: a value that is not an object, and an object that is no replacement, are kept
-- apart as the code keeps them.
pub data SurfaceOp : Type 0 where
  append : SurfaceOp
  replace : (start end : ℕ) → SurfaceOp
  not_object not_replace : SurfaceOp

-- A raw `sourceEventSeqs`; an entry that is no event sequence is `none`.
pub data SourceSeqs : Type 0 where
  not_array : SourceSeqs
  cited : List (Option ℕ) → SourceSeqs

pub record SessionEvent : Type 0 where
  pub seq : ℕ
  pub time : ℕ
  pub body : EventData
  pub surface_op : Option SurfaceOp
  pub source_event_seqs : Option SourceSeqs
