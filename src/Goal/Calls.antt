-- ===== src/Goal/Calls.antt =====
-- The public methods of the goal service as one type of calls: goal/goal/src/index.ts below
-- 04-code-samples/packages. What a call returns is left out here, what it throws is kept.
use agent_runtime_notes.Base.{
  ℕ, String, Bool, Option, none, some, List, JsNumber, length, Result, ok, err,
}
use agent_runtime_notes.Goal.{GoalRef, GoalBlockReason, GoalEvent}
use agent_runtime_notes.Goal.Decode.{FoldError}
use agent_runtime_notes.Goal.Fold.{fold_goal}
use agent_runtime_notes.Goal.Service.{
  GoalActivation, armed, disarmed, Hub, Outcome, CreateGoalRequest, EditGoalRequest, get, disarm,
  create, edit, pause, complete_goal, resume, block, clear,
}

-- The cache of a session that the service meets for the first time.
unfoldable pub open_session : (String → String) → List GoalEvent → Result FoldError Hub
open_session trim log = elim (fold_goal trim log) [
  | err e ↦ err e
  | ok state ↦ ok (record {
    log = log;
    cache = record {
      state = state;
      activation = disarmed;
      observed_seq = length log;
      pending_activation = none;
    };
  })
]

-- The listener for `agent/session-start`, for a session whose cache is there.
abbrev pub on_session_start : Hub → Hub
on_session_start s = record { log = s.log; cache = record s.cache { activation = disarmed } }

pub data Call : Type 0 where
  call_get call_disarm : Call
  -- With the identity that `randomUUID` gives.
  call_create : CreateGoalRequest → String → Call
  call_edit : GoalRef → EditGoalRequest → Call
  call_pause call_complete call_resume call_clear : GoalRef → Call
  call_block : GoalRef → GoalBlockReason → Call

-- The revision that a call expects to be current.
abbrev pub expected_ref : Call → Option GoalRef
expected_ref call_get = none
expected_ref call_disarm = none
expected_ref (call_create request new_id) = none
expected_ref (call_edit ref request) = some ref
expected_ref (call_pause ref) = some ref
expected_ref (call_complete ref) = some ref
expected_ref (call_resume ref) = some ref
expected_ref (call_clear ref) = some ref
expected_ref (call_block ref reason) = some ref

-- The activation after a call that succeeds, from the one before it.
abbrev pub activation_after : Call → GoalActivation → GoalActivation
activation_after call_get a = a
activation_after (call_edit ref request) a = a
activation_after (call_create request new_id) a = armed
activation_after (call_resume ref) a = armed
activation_after call a = disarmed

abbrev pub forget : {A : Type 0} → Outcome A → Outcome (Unit {0})
forget (ok a, s) = (ok tt, s)
forget (err e, s) = (err e, s)

module _ (trim : String → String) (admits : List GoalEvent → GoalEvent → Bool) (live : Bool)
    (default_rounds : JsNumber) where
  unfoldable pub perform : Hub → Call → ℕ → Outcome (Unit {0})
  perform s call_get now = forget (get trim admits live s)
  perform s call_disarm now = forget (disarm trim admits live s)
  perform s (call_create request new_id) now =
      forget (create trim admits live default_rounds s request new_id now)
  perform s (call_edit ref request) now = forget (edit trim admits live s ref request now)
  perform s (call_pause ref) now = forget (pause trim admits live s ref now)
  perform s (call_complete ref) now = forget (complete_goal trim admits live s ref now)
  perform s (call_resume ref) now = forget (resume trim admits live s ref now)
  perform s (call_clear ref) now = forget (clear trim admits live s ref now)
  perform s (call_block ref reason) now = forget (block trim admits live s ref reason now)
