-- ===== src/WriteBehind.antt =====
-- Write batching of one live session: class SessionWriteBehind of
-- 04-code-samples/packages/session/session-persistence/src/write-behind.ts. The backend, the clock
-- and the order of jobs are the environment's, which takes the steps.
use agent_runtime_notes.Base.{
  Bool, true, false, not, ◌&&◌, ◌||◌, List, [], ◌∷◌, ◌++◌, if◌then◌else◌,
}
use agent_runtime_notes.Session.{SessionEvent}
pub mod Conservation
pub mod Runs
pub mod Draining
pub mod Tests

-- `active`: a batch at the backend, or one that has settled before `finally` has run.
pub data ActiveWrite : Type 0 where
  no_write : ActiveWrite
  writing : List SessionEvent → (background : Bool) → ActiveWrite
  write_settled : (failed background : Bool) → ActiveWrite

-- `barrier`, with the place where `drainBarrier` waits: for an overlapping write, for its own one,
-- or for its next job.
pub data Barrier : Type 0 where
  no_barrier overlapping draining : Barrier
  resuming looping failing : Barrier

-- `written` is what the backend has taken for durable, `enqueued` all that producers gave, and
-- `continuing` says that `continueAutomatic` is a queued job.
pub record Controller : Type 0 where
  pub pending : List SessionEvent
  pub timer : Bool
  pub active : ActiveWrite
  pub barrier : Barrier
  pub deadline_expired : Bool
  pub automatic_paused : Bool
  pub continuing : Bool
  pub written : List SessionEvent
  pub enqueued : List SessionEvent

abbrev pub new_controller : Controller
new_controller = record {
  pending = [];
  timer = false;
  active = no_write;
  barrier = no_barrier;
  deadline_expired = false;
  automatic_paused = false;
  continuing = false;
  written = [];
  enqueued = [];
}

abbrev pub is_idle : ActiveWrite → Bool
is_idle no_write = true
is_idle _ = false

abbrev pub has_barrier : Barrier → Bool
has_barrier no_barrier = false
has_barrier _ = true

abbrev pub awaits_job : Barrier → Bool
awaits_job resuming = true
awaits_job looping = true
awaits_job failing = true
awaits_job _ = false

abbrev pub is_empty : List SessionEvent → Bool
is_empty [] = true
is_empty (event ∷ events) = false

abbrev pub has_work : Controller → Bool
has_work s = not (is_empty s.pending) || not (is_idle s.active)

abbrev pub queued : Controller → SessionEvent → Controller
queued s event = record s { pending = s.pending ++ event ∷ []; enqueued = s.enqueued ++ event ∷ [] }

unfoldable pub enqueue : Controller → SessionEvent → Controller
enqueue s event =
    if has_barrier s.barrier
    then queued s event
    else if s.automatic_paused
    then record (queued s event) {
      automatic_paused = false;
      deadline_expired = false;
      timer = true;
    }
    else if is_empty s.pending
    then record (queued s event) { timer = true }
    else queued s event

unfoldable pub start_write : Bool → Controller → Controller
start_write background s = record s {
  pending = [];
  active = writing s.pending background;
  timer = false;
  deadline_expired = false;
}

-- The test of the loop in `drainBarrier`.
unfoldable pub drain_loop : Controller → Controller
drain_loop s =
    if is_empty s.pending
    then record s { barrier = no_barrier }
    else record (start_write false s) { barrier = draining }

unfoldable pub flush : Controller → Controller
flush s =
    let quiet = record s { timer = false; deadline_expired = false; automatic_paused = false } in
    if has_barrier s.barrier
    then s
    else if is_idle s.active
    then drain_loop quiet
    else record quiet { barrier = overlapping }

unfoldable pub cancel_automatic_wait : Controller → Controller
cancel_automatic_wait s = record s { timer = false; deadline_expired = false }

unfoldable pub on_deadline : Controller → Controller
on_deadline s =
    let fired = record s { timer = false } in
    if is_idle s.active then start_write true fired else record fired { deadline_expired = true }

unfoldable pub continue_automatic : Controller → Controller
continue_automatic s =
    let run = record s { continuing = false } in
    if has_barrier s.barrier || is_empty s.pending
    then run
    else if s.deadline_expired
    then start_write true run
    else run

-- The backend takes the batch, or refuses it: then the batch goes back before what came since.
unfoldable pub write_resolved : Controller → List SessionEvent → Bool → Controller
write_resolved s batch background = record s {
  active = write_settled false background;
  written = s.written ++ batch;
}

unfoldable pub write_rejected : Controller → List SessionEvent → Bool → Controller
write_rejected s batch background = record s {
  pending = batch ++ s.pending;
  active = write_settled true background;
  timer = false;
  deadline_expired = false;
  automatic_paused = true;
}

-- Where the settling of the active write leaves the barrier.
abbrev pub after_write : Bool → Barrier → Barrier
after_write failed overlapping = resuming
after_write false draining = looping
after_write true draining = failing
after_write failed b = b

unfoldable pub finish_write : Controller → (failed background : Bool) → Controller
finish_write s failed background = record s {
  active = no_write;
  barrier = after_write failed s.barrier;
  continuing = s.continuing || (background && not failed);
}

unfoldable pub resume_barrier : Controller → Controller
resume_barrier s = drain_loop (record s { automatic_paused = false })

unfoldable pub fail_barrier : Controller → Controller
fail_barrier s = record s { barrier = no_barrier }

-- What the environment does next; where it cannot, nothing happens.
pub data Turn : Type 0 where
  produce : SessionEvent → Turn
  call_flush call_cancel timer_fires : Turn
  backend_takes backend_refuses finally_runs : Turn
  continuation_runs barrier_runs : Turn

abbrev pub taken : Controller → ActiveWrite → Controller
taken s (writing batch background) = write_resolved s batch background
taken s _ = s

abbrev pub refused : Controller → ActiveWrite → Controller
refused s (writing batch background) = write_rejected s batch background
refused s _ = s

abbrev pub finished : Controller → ActiveWrite → Controller
finished s (write_settled failed background) = finish_write s failed background
finished s _ = s

abbrev pub barrier_job : Controller → Barrier → Controller
barrier_job s resuming = resume_barrier s
barrier_job s looping = drain_loop s
barrier_job s failing = fail_barrier s
barrier_job s _ = s

-- A timer fires only when no job is queued.
unfoldable pub react : Controller → Turn → Controller
react s (produce event) = enqueue s event
react s call_flush = flush s
react s call_cancel = cancel_automatic_wait s
react s timer_fires =
    if s.timer && not s.continuing && not (awaits_job s.barrier) then on_deadline s else s
react s backend_takes = taken s s.active
react s backend_refuses = refused s s.active
react s finally_runs = finished s s.active
react s continuation_runs = if s.continuing then continue_automatic s else s
react s barrier_runs = barrier_job s s.barrier

unfoldable pub run : Controller → List Turn → Controller
run s [] = s
run s (turn ∷ turns) = run (react s turn) turns
