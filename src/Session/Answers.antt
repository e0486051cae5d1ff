-- ===== src/Session/Answers.antt =====
-- The closers one by one: whom they answer, and how they continue the log.
use agent_runtime_notes.Base.{ℕ, suc, ◌+◌, ◌≡◌, refl, ap, String, List, [], ◌∷◌, Option, none, some}
use agent_runtime_notes.Session.{EventData, tool_result, SessionEvent}
use agent_runtime_notes.Session.Repair.{
  PendingCall, scan, initial_scan, close_call, close_turn, close_calls, last,
  interrupted_turn_closers,
}
use agent_runtime_notes.Session.Pending.{keys}

-- The calls that a result in the list answers, in order.
abbrev pub answer : EventData → List String → List String
answer (tool_result r) ids = r.call_id ∷ ids
answer _ ids = ids

abbrev pub answered : List SessionEvent → List String
answered [] = []
answered (event ∷ events) = answer event.body (answered events)

-- Consecutive sequence numbers from `seq` on, all at one time.
abbrev pub Continues : ℕ → ℕ → List SessionEvent → Type 0
Continues time seq [] = Unit
Continues time seq (event ∷ events) =
    (event.seq ≡ seq) × (event.time ≡ time) × Continues time (suc seq) events

module _ (turn time : ℕ) where
  close_calls-answered :
      (seq : ℕ) (m : List (String × PendingCall)) (open_step : Option ℕ)
      → answered (close_calls turn time seq m open_step) ≡ keys m
  unfolding close_calls close_call close_turn
  close_calls-answered seq [] none = refl
  close_calls-answered seq [] (some step) = refl
  close_calls-answered seq ((id, call) ∷ m) open_step =
      ap (λ ids. id ∷ ids) (close_calls-answered (suc seq) m open_step)

  close_calls-Continues :
      (seq : ℕ) (m : List (String × PendingCall)) (open_step : Option ℕ)
      → Continues time seq (close_calls turn time seq m open_step)
  unfolding close_calls close_call close_turn
  close_calls-Continues seq [] none = (refl, refl, tt)
  close_calls-Continues seq [] (some step) = (refl, refl, (refl, refl, tt))
  close_calls-Continues seq ((id, call) ∷ m) open_step =
      (refl, refl, close_calls-Continues (suc seq) m open_step)

-- For a log that ends in a given event and whose scan has a turn open, the closers answer exactly
-- the calls that the scan has pending, in their order, and carry the sequence numbers that follow
-- the last event, one by one, at its time.
pub closers-answered :
    (events : List SessionEvent) (final : SessionEvent) (turn : ℕ)
    → last events ≡ some final
    → (scan initial_scan events).open_turn ≡ some turn
    → (answered (interrupted_turn_closers events) ≡ keys (scan initial_scan events).pending)
      × Continues final.time (final.seq + 1) (interrupted_turn_closers events)
unfolding interrupted_turn_closers
closers-answered events final turn l o =
    let s = scan initial_scan events in
    rw (l, o)
      (
        close_calls-answered turn final.time (final.seq + 1) s.pending s.open_step,
        close_calls-Continues turn final.time (final.seq + 1) s.pending s.open_step,
      )
