-- ===== src/WriteBehind/Draining.antt =====
-- A flush of the write-behind queue (write-behind.ts) while the backend takes what it is given.
use agent_runtime_notes.WriteBehind.{
  ActiveWrite, Controller, Turn, backend_takes, barrier_runs, drain_loop, finally_runs,
  finish_write, flush, no_barrier, no_write, react, resume_barrier, start_write, write_resolved,
  write_settled, writing, new_controller, run,
}
use agent_runtime_notes.Base.{List, [], refl, suc, zero, ℕ, ◌∷◌, ◌≡◌, ap, sym, ◌++◌, ◌∙◌}
use agent_runtime_notes.Session.{SessionEvent}
use agent_runtime_notes.WriteBehind.Conservation.{
  IsConserved, flush-IsConserved, in_flight, new_controller-IsConserved,
}
use mathlib.Core.List.{append-nil}
use agent_runtime_notes.WriteBehind.Runs.{react-IsConserved, run-IsConserved}
use mathlib.Core.Path.{subst}

-- What happens next when nothing fails and nothing else is called.
abbrev pub next_turn : ActiveWrite → Turn
next_turn (writing batch background) = backend_takes
next_turn (write_settled failed background) = finally_runs
next_turn no_write = barrier_runs

unfoldable pub let_run : ℕ → Controller → Controller
let_run zero s = s
let_run (suc n) s = let_run n (react s (next_turn s.active))

-- A controller that no flush waits on.
abbrev without_barrier : Controller → List SessionEvent → ActiveWrite → Controller
without_barrier s pending active = record s {
  pending = pending;
  active = active;
  barrier = no_barrier;
}

-- At rest, with nothing left to write.
abbrev pub IsDrained : Controller → List SessionEvent → Type 0
IsDrained s enqueued =
    (s.barrier ≡ no_barrier) × (s.active ≡ no_write) × (s.pending ≡ []) × (s.enqueued ≡ enqueued)

flush-IsDrained :
    (s : Controller) (pending : List SessionEvent) (active : ActiveWrite)
    → IsDrained (let_run 6 (flush (without_barrier s pending active))) s.enqueued
unfolding let_run flush react drain_loop start_write write_resolved finish_write resume_barrier
flush-IsDrained s [] no_write = (refl, refl, refl, refl)
flush-IsDrained s (event ∷ events) no_write = (refl, refl, refl, refl)
flush-IsDrained s [] (writing batch background) = (refl, refl, refl, refl)
flush-IsDrained s (event ∷ events) (writing batch background) = (refl, refl, refl, refl)
flush-IsDrained s [] (write_settled failed background) = (refl, refl, refl, refl)
flush-IsDrained s (event ∷ events) (write_settled failed background) = (refl, refl, refl, refl)

let_run-IsConserved : (n : ℕ) (s : Controller) → IsConserved s → IsConserved (let_run n s)
unfolding let_run
let_run-IsConserved zero s i = i
let_run-IsConserved (suc n) s i =
    let_run-IsConserved n (react s (next_turn s.active))
      (react-IsConserved s (next_turn s.active) i)

drained-written :
    (s : Controller) (enqueued : List SessionEvent)
    → IsConserved s
    → IsDrained s enqueued
    → s.written ≡ enqueued
drained-written s enqueued i (barrier, active, pending, same) =
    sym (append-nil s.written)
    ∙ (ap (λ a. s.written ++ (in_flight a ++ [])) (sym active)
        ∙ (ap (λ p. s.written ++ (in_flight s.active ++ p)) (sym pending) ∙ (i.conserved ∙ same)))

-- After any turns that leave no barrier, a flush drains the queue while the backend takes what it
-- is given: within six turns of the backend and the queued jobs there is no barrier, no active
-- write and no pending event, and the backend has taken every event that was enqueued.
pub flush_drains :
    (turns : List Turn)
    → (run new_controller turns).barrier ≡ no_barrier
    → IsDrained (let_run 6 (flush (run new_controller turns))) (run new_controller turns).enqueued
      × ((let_run 6 (flush (run new_controller turns))).written
          ≡ (run new_controller turns).enqueued)
flush_drains turns h =
    let s = run new_controller turns in
    let free : without_barrier s s.pending s.active ≡ s = cc h in
    let drained =
      subst (λ c. IsDrained (let_run 6 (flush c)) (run new_controller turns).enqueued) free
        (flush-IsDrained s s.pending s.active) in
    let i = run-IsConserved new_controller turns new_controller-IsConserved in
    (
      drained,
      drained-written (let_run 6 (flush s)) s.enqueued
          (let_run-IsConserved 6 (flush s) (flush-IsConserved s i)) drained,
    )
