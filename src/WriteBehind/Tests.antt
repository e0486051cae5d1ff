-- ===== src/WriteBehind/Tests.antt =====
-- A queue with a write that fails once.
use agent_runtime_notes.Base.{◌≡◌, ◌≢◌, refl, true, false, List, [], ◌∷◌, ◌++◌, none, some, ℕ}
use agent_runtime_notes.Session.{user_message, append, SessionEvent}
use agent_runtime_notes.WriteBehind.{
  failing, looping, new_controller, awaits_job, has_barrier, enqueue, start_write, drain_loop,
  flush, cancel_automatic_wait, on_deadline, continue_automatic, write_resolved, write_rejected,
  finish_write, resume_barrier, fail_barrier, Turn, produce, call_flush, timer_fires, backend_takes,
  backend_refuses, finally_runs, barrier_runs, react, run, no_barrier,
}
use agent_runtime_notes.WriteBehind.Conservation.{in_flight}
use agent_runtime_notes.WriteBehind.Runs.{run-conserved, run-durable}
use agent_runtime_notes.WriteBehind.Draining.{IsDrained, flush_drains, let_run}

opened : Unit {0}
unfolding enqueue start_write drain_loop flush cancel_automatic_wait on_deadline continue_automatic
    write_resolved write_rejected finish_write resume_barrier fail_barrier react run
opened = tt

abbrev event : ℕ → SessionEvent
event seq = record {
  seq = seq;
  time = 1;
  body = user_message "hi";
  surface_op = some append;
  source_event_seqs = none;
}

-- A background write fails, and a flush retries it with what came since.
abbrev turns : List Turn
turns =
    produce (event 0)
    ∷ timer_fires
    ∷ produce (event 1)
    ∷ backend_refuses
    ∷ finally_runs
    ∷ call_flush
    ∷ backend_takes
    ∷ finally_runs
    ∷ []

turns_write : (run new_controller turns).written ≡ event 0 ∷ event 1 ∷ []
unfolding opened
turns_write = refl

turns_wait : awaits_job (run new_controller turns).barrier ≡ true
unfolding opened
turns_wait = refl

turns_loop : (run new_controller turns).barrier ≡ looping
unfolding opened
turns_loop = refl

turns_not_failing : (run new_controller turns).barrier ≢ failing
unfolding opened
turns_not_failing h = cc h

turns_resolve : has_barrier (react (run new_controller turns) barrier_runs).barrier ≡ false
unfolding opened
turns_resolve = refl

run-conserved_example :
    (run new_controller turns).written
      ++ (in_flight (run new_controller turns).active ++ (run new_controller turns).pending)
    ≡ (run new_controller turns).enqueued
run-conserved_example = run-conserved turns

run-durable_example :
    (react (run new_controller turns) barrier_runs).written ≡ (run new_controller turns).enqueued
run-durable_example = run-durable turns turns_wait turns_not_failing turns_resolve

-- Two events wait behind a write at the backend.
abbrev waiting : List Turn
waiting = produce (event 0) ∷ timer_fires ∷ produce (event 1) ∷ produce (event 2) ∷ []

waiting_has_no_barrier : (run new_controller waiting).barrier ≡ no_barrier
unfolding opened
waiting_has_no_barrier = refl

flush_drains_example :
    IsDrained (let_run 6 (flush (run new_controller waiting))) (run new_controller waiting).enqueued
    × ((let_run 6 (flush (run new_controller waiting))).written
        ≡ (run new_controller waiting).enqueued)
flush_drains_example = flush_drains waiting waiting_has_no_barrier
