-- ===== src/Surface/Manager.antt =====
-- The incremental surface view and append validator: class SurfaceManager of
-- 04-code-samples/packages/core/session/src/surface.ts. The log is the session's, which appends to it.
use agent_runtime_notes.Base.{
  Bool, List, Option, Result, drop, err, if◌then◌else◌, leb, length, ltb, none, ok, some, ℕ, ◌&&◌,
  ◌+◌, ◌-◌, ◌==◌, ◌>>=◌, ◌∷◌, [],
}
use agent_runtime_notes.Session.{SessionEvent}
use agent_runtime_notes.Surface.{SurfaceError, SurfaceFoldState, SurfacePlan, create_fold_state}
use agent_runtime_notes.Surface.Planning.{
  apply_surface_event, apply_surface_plan, plan_surface_event,
}

pub record PendingPlan : Type 0 where
  pub event : SessionEvent
  pub expected_seq : ℕ
  pub plan : SurfacePlan

-- `next_seq` is `_lastProcessedSeq` + 1.
pub record SurfaceManager : Type 0 where
  pub state : SurfaceFoldState
  pub next_seq : ℕ
  pub pending : Option PendingPlan

abbrev pub new_manager : ℕ → SurfaceManager
new_manager base = record { state = create_fold_state; next_seq = base; pending = none }

-- What a call leaves, and what it returns or throws.
abbrev pub Outcome : Type 0 → Type 0
Outcome A = SurfaceManager × Result SurfaceError A

abbrev pub kept_pending : Option PendingPlan → ℕ → Option PendingPlan
kept_pending none seq = none
kept_pending (some p) seq = if leb p.expected_seq seq then none else some p

-- A round that throws leaves the manager as the round before did.
abbrev pub with_state :
    SurfaceManager
    → Result SurfaceError SurfaceFoldState
    → (SurfaceFoldState → Outcome (Unit {0}))
    → Outcome (Unit {0})
with_state m (err thrown) later = (m, err thrown)
with_state m (ok state) later = later state

abbrev pub after_round : SurfaceManager → SurfaceFoldState → SurfaceManager
after_round m state = record {
  state = state;
  next_seq = m.next_seq + 1;
  pending = kept_pending m.pending m.next_seq;
}

abbrev pub with_plan :
    SurfaceManager → SessionEvent → ℕ → Result SurfaceError SurfacePlan → Outcome (Unit {0})
with_plan m event expected_seq (err thrown) = (m, err thrown)
with_plan m event expected_seq (ok plan) = (
  record m { pending = some (record { event = event; expected_seq = expected_seq; plan = plan }) },
  ok tt,
)

-- `validateNext` after the manager has caught up.
abbrev pub plan_next :
    List SessionEvent → ℕ → SessionEvent → Outcome (Unit {0}) → Outcome (Unit {0})
plan_next log base event (m, err thrown) = (m, err thrown)
plan_next log base event (m, ok _) =
    with_plan m event (base + length log)
      (plan_surface_event m.state event (base + length log) log base)

abbrev pub read_state : {A : Type 0} → (SurfaceFoldState → A) → Outcome (Unit {0}) → Outcome A
read_state field (m, err thrown) = (m, err thrown)
read_state field (m, ok _) = (m, ok (field m.state))

module _ (same : SessionEvent → SessionEvent → Bool) where
  -- The transition of one round of the loop: the pending plan, or a new one.
  unfoldable pub round_state :
      List SessionEvent
      → ℕ
      → SurfaceFoldState
      → Option PendingPlan
      → SessionEvent
      → ℕ
      → Result SurfaceError SurfaceFoldState
  round_state log base state none event seq =
      apply_surface_event state event seq log base >>= λ next. ok (next.0)
  round_state log base state (some p) event seq =
      if same p.event event && p.expected_seq == seq
      then ok ((apply_surface_plan state p.plan).0)
      else (apply_surface_event state event seq log base >>= λ next. ok (next.0))

  -- The loop of `_processDelta` over the events from `next_seq`.
  unfoldable pub process_rest :
      List SessionEvent → ℕ → SurfaceManager → List SessionEvent → Outcome (Unit {0})
  process_rest log base m [] = (m, ok tt)
  process_rest log base m (event ∷ rest) =
      with_state m (round_state log base m.state m.pending event m.next_seq)
        λ state. process_rest log base (after_round m state) rest

  unfoldable pub process_delta : List SessionEvent → ℕ → SurfaceManager → Outcome (Unit {0})
  process_delta log base m = process_rest log base m (drop (m.next_seq - base) log)

  unfoldable pub catch_up : List SessionEvent → ℕ → SurfaceManager → Outcome (Unit {0})
  catch_up log base m =
      if ltb m.next_seq (base + length log) then process_delta log base m else (m, ok tt)

  unfoldable pub validate_next :
      List SessionEvent → ℕ → SurfaceManager → SessionEvent → Outcome (Unit {0})
  validate_next log base m event = plan_next log base event (catch_up log base m)

  unfoldable pub replace_generation_of : List SessionEvent → ℕ → SurfaceManager → Outcome ℕ
  replace_generation_of log base m = read_state (λ s. s.replace_generation) (catch_up log base m)

  unfoldable pub nodes_of : List SessionEvent → ℕ → SurfaceManager → Outcome (List ℕ)
  nodes_of log base m = read_state (λ s. s.nodes) (catch_up log base m)
