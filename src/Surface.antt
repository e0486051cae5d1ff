-- ===== src/Surface.antt =====
-- The model-visible surface of a session: 04-code-samples/packages/core/session/src/surface.ts.
-- A thrown message is a constructor of `SurfaceError`, a `Set` a list of its elements. Event objects
-- are frozen; whether two references are one object, `===`, is the runtime's: `same`.
use agent_runtime_notes.Base.{
  ℕ, ◌+◌, ◌-◌, Bool, true, false, not, ◌&&◌, ◌||◌, Option, none, some, List, [], ◌∷◌, ◌++◌, leb,
  ltb, ◌==◌, str_eq, if◌then◌else◌, length, get_elem?, take, drop, spliced, max_safe_integer,
  Result, ok, err, ◌>>=◌, ◌>>◌, throw_unless,
}
use agent_runtime_notes.Session.{
  MessageId, given_id, interrupted_id, ErrorCode, ToolResult, EventData, user_message,
  assistant_message, tool_result, SurfaceOp, append, replace, not_object, not_replace, SourceSeqs,
  not_array, cited, SessionEvent,
}
pub mod Provenance
pub mod Planning
pub mod Manager
pub mod Counting
pub mod Refinement
pub mod Accounts
pub mod Growth
pub mod Prefixes
pub mod Incremental
pub mod Live
pub mod Balances
pub mod Messages
pub mod Tests

pub data SurfaceError : Type 0 where
  not_contiguous op_not_eligible sources_not_eligible op_missing : SurfaceError
  invalid_op invalid_replace sources_not_array empty_sources : SurfaceError
  not_event_seqs duplicate_sources later_source shadowed_not_cited : SurfaceError
  start_not_found end_not_found range_reversed : SurfaceError
  rewrites_several not_a_result changes_more : SurfaceError

pub record SurfaceFoldReplacement : Type 0 where
  pub seq : ℕ
  pub start : ℕ
  pub end : ℕ
  pub shadowed_seqs : List ℕ

pub record SurfaceFoldState : Type 0 where
  pub nodes : List ℕ
  pub replace_generation : ℕ

pub record ReplacementRange : Type 0 where
  pub start_idx : ℕ
  pub end_idx : ℕ
  pub shadowed_seqs : List ℕ

-- `no_plan` is undefined.
pub data SurfacePlan : Type 0 where
  no_plan : SurfacePlan
  append_plan : ℕ → SurfacePlan
  replace_plan : (seq start end : ℕ) → ReplacementRange → SurfacePlan

abbrev pub create_fold_state : SurfaceFoldState
create_fold_state = record { nodes = []; replace_generation = 0 }

abbrev pub is_surface_eligible_type : EventData → Bool
is_surface_eligible_type (user_message text) = true
is_surface_eligible_type (assistant_message turn step blocks) = true
is_surface_eligible_type (tool_result result) = true
is_surface_eligible_type body = false

abbrev pub is_defined {ℓ} : {A : Type ℓ} → Option A → Bool
is_defined none = false
is_defined (some a) = true

abbrev pub is_append_op : Option SurfaceOp → Bool
is_append_op (some append) = true
is_append_op op = false

abbrev pub is_surface_event : SessionEvent → Bool
is_surface_event event = is_surface_eligible_type event.body && is_defined event.surface_op

abbrev pub is_append_surface_event : SessionEvent → Bool
is_append_surface_event event = is_surface_event event && is_append_op event.surface_op

abbrev pub is_replacement_surface_event : SessionEvent → Bool
is_replacement_surface_event event = is_surface_event event && not (is_append_op event.surface_op)

abbrev pub is_event_seq : Option ℕ → Bool
is_event_seq none = false
is_event_seq (some n) = leb n max_safe_integer

abbrev pub is_replace_op : ℕ → ℕ → Bool
is_replace_op start end = is_event_seq (some start) && is_event_seq (some end)

-- The operation of an eligible event.
unfoldable pub marked_op : Option SurfaceOp → Result SurfaceError (Option SurfaceOp)
marked_op none = err op_missing
marked_op (some append) = ok (some append)
marked_op (some not_object) = err invalid_op
marked_op (some not_replace) = err invalid_replace
marked_op (some (replace start end)) =
    if is_replace_op start end then ok (some (replace start end)) else err invalid_replace

unfoldable pub surface_op_of : SessionEvent → Result SurfaceError (Option SurfaceOp)
surface_op_of event =
    if is_surface_eligible_type event.body
    then marked_op event.surface_op
    else if is_defined event.surface_op
    then err op_not_eligible
    else if is_defined event.source_event_seqs
    then err sources_not_eligible
    else ok none
