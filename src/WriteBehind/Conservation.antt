-- ===== src/WriteBehind/Conservation.antt =====
-- The invariant of the write-behind queue (write-behind.ts), operation by operation.
use mathlib.Core.List.{append-nil}
use agent_runtime_notes.Base.{
  ◌≡◌, refl, sym, ap, ◌∙◌, Bool, true, false, not, ◌||◌, List, [], ◌∷◌, ◌++◌, if◌then◌else◌, arith,
  append_assoc,
}
use agent_runtime_notes.Session.{SessionEvent}
use agent_runtime_notes.WriteBehind.{
  ActiveWrite, no_write, writing, write_settled, Barrier, no_barrier, draining, Controller,
  new_controller, is_idle, awaits_job, has_barrier, is_empty, queued, enqueue, start_write,
  drain_loop, flush, on_deadline, continue_automatic,
}

abbrev pub in_flight : ActiveWrite → List SessionEvent
in_flight (writing batch background) = batch
in_flight _ = []

pub record IsConserved (s : Controller) : Type 0 where
  pub conserved : s.written ++ (in_flight s.active ++ s.pending) ≡ s.enqueued
  pub timer_off : not (has_barrier s.barrier) || not s.timer ≡ true
  pub at_rest : not (awaits_job s.barrier) || is_idle s.active ≡ true
  pub may_continue : not s.continuing || has_barrier s.barrier || is_idle s.active ≡ true

pub new_controller-IsConserved : IsConserved new_controller
new_controller-IsConserved = record {
  conserved = refl;
  timer_off = refl;
  at_rest = refl;
  may_continue = refl;
}

queued-conserved :
    (s : Controller) (event : SessionEvent)
    → IsConserved s
    → s.written ++ (in_flight s.active ++ (s.pending ++ event ∷ [])) ≡ s.enqueued ++ event ∷ []
queued-conserved s event i =
    ap (λ r. s.written ++ r) (sym (append_assoc (in_flight s.active) s.pending (event ∷ [])))
    ∙ (sym (append_assoc s.written (in_flight s.active ++ s.pending) (event ∷ []))
        ∙ ap (λ r. r ++ event ∷ []) i.conserved)

pub ite-IsConserved :
    (b : Bool) (x y : Controller)
    → (b ≡ true → IsConserved x)
    → (b ≡ false → IsConserved y)
    → IsConserved (if b then x else y)
ite-IsConserved true x y f g = f refl
ite-IsConserved false x y f g = g refl

pub enqueue-IsConserved :
    (s : Controller) (event : SessionEvent) → IsConserved s → IsConserved (enqueue s event)
unfolding enqueue
enqueue-IsConserved s event i =
    ite-IsConserved (has_barrier s.barrier) _ _ (λ h. kept)
      λ n.
        ite-IsConserved s.automatic_paused _ _ (λ p. armed n false false)
          λ q.
            ite-IsConserved (is_empty s.pending) _ _
              (λ e. armed n s.deadline_expired s.automatic_paused) λ e. kept
  where
    kept : IsConserved (queued s event)
    kept = record {
      conserved = queued-conserved s event i;
      timer_off = i.timer_off;
      at_rest = i.at_rest;
      may_continue = i.may_continue;
    }

    armed :
        has_barrier s.barrier ≡ false
        → (deadline paused : Bool)
        → IsConserved (record (queued s event) {
          automatic_paused = paused;
          deadline_expired = deadline;
          timer = true;
        })
    armed n deadline paused = record {
      conserved = queued-conserved s event i;
      timer_off = rw n refl;
      at_rest = i.at_rest;
      may_continue = i.may_continue;
    }

pub is_idle-in_flight : (a : ActiveWrite) → is_idle a ≡ true → in_flight a ≡ []
is_idle-in_flight no_write h = refl
is_idle-in_flight (writing batch background) h = cc h
is_idle-in_flight (write_settled failed background) h = cc h

or_true : (b : Bool) → (b || true) ≡ true
or_true true = refl
or_true false = refl

-- A write that starts when none is active.
started-IsConserved :
    (s : Controller) (background : Bool) (b : Barrier)
    → IsConserved s
    → is_idle s.active ≡ true
    → awaits_job b ≡ false
    → not s.continuing || has_barrier b ≡ true
    → IsConserved (record (start_write background s) { barrier = b })
unfolding start_write
started-IsConserved s background b i e n c = record {
  conserved =
      ap (λ r. s.written ++ r) (append-nil s.pending)
      ∙ (ap (λ f. s.written ++ (f ++ s.pending)) (sym (is_idle-in_flight s.active e))
          ∙ i.conserved);
  timer_off = or_true (not (has_barrier b));
  at_rest = rw n refl;
  may_continue = ground arith;
}

pub drain_loop-IsConserved :
    (s : Controller) → IsConserved s → is_idle s.active ≡ true → IsConserved (drain_loop s)
unfolding drain_loop
drain_loop-IsConserved s i e =
    ite-IsConserved (is_empty s.pending) _ _
      (λ h. record {
        conserved = i.conserved;
        timer_off = refl;
        at_rest = refl;
        may_continue = ground arith;
      })
      λ h. started-IsConserved s false draining i e refl (ground arith)

-- Without the timer and the flags of the automatic path.
pub quiet-IsConserved :
    (s : Controller) (deadline paused : Bool)
    → IsConserved s
    → IsConserved
        (record s { timer = false; deadline_expired = deadline; automatic_paused = paused })
quiet-IsConserved s deadline paused i = record {
  conserved = i.conserved;
  timer_off = or_true (not (has_barrier s.barrier));
  at_rest = i.at_rest;
  may_continue = i.may_continue;
}

pub flush-IsConserved : (s : Controller) → IsConserved s → IsConserved (flush s)
unfolding flush
flush-IsConserved s i =
    ite-IsConserved (has_barrier s.barrier) _ _ (λ h. i)
      λ n.
        let q = quiet-IsConserved s false false i in
        ite-IsConserved (is_idle s.active) _ _ (λ e. drain_loop-IsConserved _ q e)
          λ e. record {
            conserved = i.conserved;
            timer_off = refl;
            at_rest = refl;
            may_continue = ground arith;
          }

no_barrier-awaits_job : (b : Barrier) → has_barrier b ≡ false → awaits_job b ≡ false
no_barrier-awaits_job no_barrier h = refl
no_barrier-awaits_job _ h = absurd (ground arith)

pub on_deadline-IsConserved :
    (s : Controller)
    → IsConserved s
    → s.continuing ≡ false
    → awaits_job s.barrier ≡ false
    → IsConserved (on_deadline s)
unfolding on_deadline start_write
on_deadline-IsConserved s i c a =
    let q = quiet-IsConserved s s.deadline_expired s.automatic_paused i in
    ite-IsConserved (is_idle s.active) _ _
      (λ e. started-IsConserved _ true s.barrier q e a (rw c refl))
      λ e. quiet-IsConserved s true s.automatic_paused i

pub continue_automatic-IsConserved :
    (s : Controller) → IsConserved s → s.continuing ≡ true → IsConserved (continue_automatic s)
unfolding continue_automatic start_write
continue_automatic-IsConserved s i c =
    let q : IsConserved (record s { continuing = false }) = record {
      conserved = i.conserved;
      timer_off = i.timer_off;
      at_rest = i.at_rest;
      may_continue = refl;
    } in
    ite-IsConserved (has_barrier s.barrier || is_empty s.pending) _ _ (λ h. q)
      λ n.
        ite-IsConserved s.deadline_expired _ _
          (λ d.
            started-IsConserved (record s { continuing = false }) true s.barrier q
              (let m = i.may_continue in ground arith)
              (no_barrier-awaits_job s.barrier (ground arith)) refl)
          λ d. q
