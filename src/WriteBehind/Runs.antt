-- ===== src/WriteBehind/Runs.antt =====
-- The write-behind queue (write-behind.ts) under any order of calls, timers, jobs and answers.
use mathlib.Core.List.{append-nil}
use agent_runtime_notes.Base.{
  ◌≡◌, ◌≢◌, refl, sym, ap, ◌∙◌, Bool, true, false, not, ◌&&◌, List, [], ◌∷◌, ◌++◌, arith, inl, inr,
  Bool-cases, append_assoc,
}
use agent_runtime_notes.Session.{SessionEvent}
use agent_runtime_notes.WriteBehind.{
  ActiveWrite, no_write, writing, write_settled, Barrier, no_barrier, overlapping, draining,
  resuming, looping, failing, Controller, new_controller, is_idle, awaits_job, has_barrier,
  is_empty, drain_loop, cancel_automatic_wait, write_resolved, write_rejected, after_write,
  finish_write, resume_barrier, fail_barrier, Turn, produce, call_flush, call_cancel, timer_fires,
  backend_takes, backend_refuses, finally_runs, continuation_runs, barrier_runs, taken, refused,
  finished, barrier_job, react, run,
}
use agent_runtime_notes.WriteBehind.Conservation.{
  in_flight, IsConserved, is_idle-in_flight, ite-IsConserved, new_controller-IsConserved,
  quiet-IsConserved, enqueue-IsConserved, flush-IsConserved, drain_loop-IsConserved,
  on_deadline-IsConserved, continue_automatic-IsConserved,
}

taken-IsConserved :
    (s : Controller) (a : ActiveWrite) → s.active ≡ a → IsConserved s → IsConserved (taken s a)
unfolding write_resolved
taken-IsConserved s no_write e i = i
taken-IsConserved s (write_settled failed background) e i = i
taken-IsConserved s (writing batch background) e i = record {
  conserved =
      append_assoc s.written batch s.pending
      ∙ (ap (λ a. s.written ++ (in_flight a ++ s.pending)) (sym e) ∙ i.conserved);
  timer_off = i.timer_off;
  at_rest = rw e at i.at_rest;
  may_continue = rw e at i.may_continue;
}

refused-IsConserved :
    (s : Controller) (a : ActiveWrite) → s.active ≡ a → IsConserved s → IsConserved (refused s a)
unfolding write_rejected
refused-IsConserved s no_write e i = i
refused-IsConserved s (write_settled failed background) e i = i
refused-IsConserved s (writing batch background) e i = record {
  conserved = ap (λ a. s.written ++ (in_flight a ++ s.pending)) (sym e) ∙ i.conserved;
  timer_off = let t = i.timer_off in ground arith;
  at_rest = rw e at i.at_rest;
  may_continue = rw e at i.may_continue;
}

has_barrier-after_write :
    (failed : Bool) (b : Barrier) → has_barrier (after_write failed b) ≡ has_barrier b
has_barrier-after_write failed overlapping = refl
has_barrier-after_write false draining = refl
has_barrier-after_write true draining = refl
has_barrier-after_write failed no_barrier = refl
has_barrier-after_write failed resuming = refl
has_barrier-after_write failed looping = refl
has_barrier-after_write failed failing = refl

finished-IsConserved :
    (s : Controller) (a : ActiveWrite) → s.active ≡ a → IsConserved s → IsConserved (finished s a)
unfolding finish_write
finished-IsConserved s no_write e i = i
finished-IsConserved s (writing batch background) e i = i
finished-IsConserved s (write_settled failed background) e i = record {
  conserved = ap (λ a. s.written ++ (in_flight a ++ s.pending)) (sym e) ∙ i.conserved;
  timer_off = rw (has_barrier-after_write failed s.barrier) i.timer_off;
  at_rest = let t = i.at_rest in ground arith;
  may_continue = ground arith;
}

barrier_job-IsConserved :
    (s : Controller) (b : Barrier) → s.barrier ≡ b → IsConserved s → IsConserved (barrier_job s b)
unfolding resume_barrier fail_barrier
barrier_job-IsConserved s no_barrier e i = i
barrier_job-IsConserved s overlapping e i = i
barrier_job-IsConserved s draining e i = i
barrier_job-IsConserved s looping e i = drain_loop-IsConserved s i (rw e at i.at_rest)
barrier_job-IsConserved s resuming e i =
    drain_loop-IsConserved _
      (record {
        conserved = i.conserved;
        timer_off = i.timer_off;
        at_rest = i.at_rest;
        may_continue = i.may_continue;
      })
      (rw e at i.at_rest)
barrier_job-IsConserved s failing e i =
    let idle : is_idle s.active ≡ true = rw e at i.at_rest in
    record {
      conserved = i.conserved;
      timer_off = refl;
      at_rest = refl;
      may_continue = ground arith;
    }

pub react-IsConserved : (s : Controller) (turn : Turn) → IsConserved s → IsConserved (react s turn)
unfolding react cancel_automatic_wait
react-IsConserved s (produce event) i = enqueue-IsConserved s event i
react-IsConserved s call_flush i = flush-IsConserved s i
react-IsConserved s call_cancel i = quiet-IsConserved s false s.automatic_paused i
react-IsConserved s timer_fires i =
    ite-IsConserved (s.timer && not s.continuing && not (awaits_job s.barrier)) _ _
      (λ h. on_deadline-IsConserved s i (ground arith) (ground arith)) λ h. i
react-IsConserved s backend_takes i = taken-IsConserved s s.active refl i
react-IsConserved s backend_refuses i = refused-IsConserved s s.active refl i
react-IsConserved s finally_runs i = finished-IsConserved s s.active refl i
react-IsConserved s continuation_runs i =
    ite-IsConserved s.continuing _ _ (λ h. continue_automatic-IsConserved s i h) λ h. i
react-IsConserved s barrier_runs i = barrier_job-IsConserved s s.barrier refl i

pub run-IsConserved :
    (s : Controller) (turns : List Turn) → IsConserved s → IsConserved (run s turns)
unfolding run
run-IsConserved s [] i = i
run-IsConserved s (turn ∷ turns) i =
    run-IsConserved (react s turn) turns (react-IsConserved s turn i)

-- After any sequence of turns (enqueued events, flushes, cancelled waits, timers, answers of the
-- backend and queued jobs in any order, timers only while no job is queued), the batches that the
-- backend has taken, then the batch at the backend, then the pending events are exactly the
-- enqueued events in their order.
pub run-conserved :
    (turns : List Turn)
    → (run new_controller turns).written
        ++ (in_flight (run new_controller turns).active ++ (run new_controller turns).pending)
      ≡ (run new_controller turns).enqueued
run-conserved turns = (run-IsConserved new_controller turns new_controller-IsConserved).conserved

is_empty_nil : (events : List SessionEvent) → is_empty events ≡ true → events ≡ []
is_empty_nil [] h = refl
is_empty_nil (event ∷ events) h = absurd (ground arith)

-- A loop that ends leaves nothing behind.
drain_loop-durable :
    (s : Controller)
    → IsConserved s
    → is_idle s.active ≡ true
    → has_barrier (drain_loop s).barrier ≡ false
    → (drain_loop s).written ≡ s.enqueued
unfolding drain_loop
drain_loop-durable s i e h = elim (Bool-cases (is_empty s.pending)) [
  | inr full ↦ absurd (ground arith)
  | inl done ↦
      let z : in_flight s.active ++ s.pending ≡ [] =
        ap (λ f. f ++ s.pending) (is_idle-in_flight s.active e) ∙ is_empty_nil s.pending done in
      rw done (sym (append-nil s.written) ∙ (ap (λ r. s.written ++ r) (sym z) ∙ i.conserved))
]

barrier_job-durable :
    (s : Controller) (b : Barrier)
    → s.barrier ≡ b
    → IsConserved s
    → awaits_job b ≡ true
    → b ≢ failing
    → has_barrier (barrier_job s b).barrier ≡ false
    → (barrier_job s b).written ≡ s.enqueued
unfolding resume_barrier
barrier_job-durable s looping e i w n h = drain_loop-durable s i (rw e at i.at_rest) h
barrier_job-durable s resuming e i w n h =
    drain_loop-durable _
      (record {
        conserved = i.conserved;
        timer_off = i.timer_off;
        at_rest = i.at_rest;
        may_continue = i.may_continue;
      })
      (rw e at i.at_rest) h
barrier_job-durable s failing e i w n h = absurd (n refl)
barrier_job-durable s _ e i w n h = absurd (ground arith)

-- After any sequence of turns, when a job of a barrier that does not fail ends the barrier, the
-- backend has taken every event that was enqueued.
pub run-durable :
    (turns : List Turn)
    → awaits_job (run new_controller turns).barrier ≡ true
    → (run new_controller turns).barrier ≢ failing
    → has_barrier (react (run new_controller turns) barrier_runs).barrier ≡ false
    → (react (run new_controller turns) barrier_runs).written ≡ (run new_controller turns).enqueued
unfolding react
run-durable turns w n h =
    barrier_job-durable (run new_controller turns) (run new_controller turns).barrier refl
      (run-IsConserved new_controller turns new_controller-IsConserved) w n h
