-- ===== src/Session/Closing.antt =====
-- A repaired log: `interruptedTurnClosers` against the session invariant.
use agent_runtime_notes.Base.{
  ℕ, suc, ◌+◌, ◌≡◌, refl, sym, ap, ◌∙◌, String, true, List, [], ◌∷◌, ◌++◌, arith, inl, inr, Option,
  none, some, All, IsDistinct, ok, ok-injective, Option-cases, count, str_eq_refl,
}
use agent_runtime_notes.Session.{SessionEvent}
use agent_runtime_notes.Session.Trace.{
  SessionTrace, increases, validate_data, validate_event, validate_result, require_open_step,
  apply_transition, admit, admit_all, fresh_trace, delete, unchanged,
}
use agent_runtime_notes.Session.Repair.{
  PendingCall, RepairScan, initial_scan, close_call, close_turn, close_calls, closers_of, last,
  interrupted_turn_closers,
}
use agent_runtime_notes.Session.Pending.{keys, others-All}
use agent_runtime_notes.Session.Tracking.{IsKnown, IsKnown-other, Tracks}
use agent_runtime_notes.Session.Recovery.{scan-Tracks, last_seq_of_admitted, admit_all-append}

module _ (turn time : ℕ) where
  close_call-admitted_at :
      (t : SessionTrace) (seq : ℕ) (id : String) (step : ℕ) (call_seq : Option ℕ)
      → t.open_turn ≡ some turn
      → increases t.last_seq seq ≡ true
      → IsKnown t (id, record { step = step; call_seq = call_seq })
      → admit t (close_call turn time seq id (record { step = step; call_seq = call_seq }))
        ≡ ok (apply_transition t (unchanged t seq (delete id)))
  unfolding admit validate_event validate_data validate_result require_open_step close_call
  close_call-admitted_at t seq id step none e l k = ground arith
  close_call-admitted_at t seq id step (some cs) e l k = ground arith

  close_call-admitted :
      (t : SessionTrace) (seq : ℕ) (id : String) (call : PendingCall)
      → t.open_turn ≡ some turn
      → increases t.last_seq seq ≡ true
      → IsKnown t (id, call)
      → admit t (close_call turn time seq id call)
        ≡ ok (apply_transition t (unchanged t seq (delete id)))
  close_call-admitted t seq id call = close_call-admitted_at t seq id call.step call.call_seq

  -- The invariant takes the events and has no turn and no step open after them.
  abbrev pub IsClosing : SessionTrace → List SessionEvent → Type 0
  IsClosing t events =
      (u : SessionTrace) × (admit_all t events ≡ ok u) × (u.open_turn ≡ none) × (u.open_step ≡ none)

  close_turn-IsClosing :
      (t : SessionTrace) (seq : ℕ) (open_step : Option ℕ)
      → t.open_turn ≡ some turn
      → t.open_step ≡ open_step
      → increases t.last_seq seq ≡ true
      → IsClosing t (close_turn turn time seq open_step)
  unfolding close_turn admit_all admit validate_event validate_data require_open_step
      apply_transition
  close_turn-IsClosing t seq none e s l = (
    record {
      last_seq = some seq;
      open_turn = none;
      open_step = none;
      next_turn = t.next_turn + 1;
      next_step = t.next_step;
      pending_calls = t.pending_calls;
    },
    ground arith,
    refl,
    refl,
  )
  close_turn-IsClosing t seq (some step) e s l = (
    record {
      last_seq = some (suc seq);
      open_turn = none;
      open_step = none;
      next_turn = t.next_turn + 1;
      next_step = t.next_step + 1;
      pending_calls = [];
    },
    ground arith,
    refl,
    refl,
  )

  close_calls-IsClosing :
      (t : SessionTrace) (seq : ℕ) (m : List (String × PendingCall)) (open_step : Option ℕ)
      → t.open_turn ≡ some turn
      → t.open_step ≡ open_step
      → increases t.last_seq seq ≡ true
      → All (IsKnown t) m
      → IsDistinct (keys m)
      → IsClosing t (close_calls turn time seq m open_step)
  unfolding close_calls admit_all apply_transition
  close_calls-IsClosing t seq [] open_step e s l k d = close_turn-IsClosing t seq open_step e s l
  close_calls-IsClosing t seq ((id, call) ∷ m) open_step e s l k d =
      let u = apply_transition t (unchanged t seq (delete id)) in
      let once : count id (keys m) ≡ 0 = ground (arith, d id, str_eq_refl id) in
      let known =
        others-All (IsKnown t) (IsKnown u) id (λ j c. IsKnown-other t seq id j c) m once k.1 in
      let rest =
        close_calls-IsClosing u (suc seq) m open_step (unfold apply_transition in e)
          (unfold apply_transition in s) (unfold apply_transition in ground arith) known
          (λ j. omega (arith, d j)) in
      (rest.0, rw (close_call-admitted t seq id call e l k.0, admit_all) rest.1, rest.2, rest.3)

Tracks-initial : Tracks initial_scan fresh_trace
Tracks-initial = record {
  turn = refl;
  step = refl;
  nested = λ e. refl;
  known = tt;
  distinct = λ id. omega arith;
}

closers_of-IsClosing :
    (s : RepairScan) (t : SessionTrace) (final : SessionEvent)
    → Tracks s t
    → t.last_seq ≡ some final.seq
    → (u : SessionTrace) × (admit_all t (closers_of s (some final)) ≡ ok u)
      × (u.open_turn ≡ none)
      × (u.open_step ≡ none)
unfolding admit_all
closers_of-IsClosing s t final k l = elim (Option-cases s.open_turn) [
  | inl e ↦ let n = sym k.turn ∙ e in (t, rw e refl, n, k.nested n)
  | inr (turn, e) ↦
      let c =
        close_calls-IsClosing turn final.time t (final.seq + 1) s.pending s.open_step
          (sym k.turn ∙ e) (sym k.step) (rw l (ground arith)) k.known k.distinct in
      (c.0, rw e c.1, c.2, c.3)
]

-- An empty log leaves the invariant as it began.
admitted_of_no_last :
    (t : SessionTrace) (events : List SessionEvent)
    → admit_all fresh_trace events ≡ ok t
    → last events ≡ none
    → fresh_trace ≡ t
unfolding admit_all
admitted_of_no_last t [] h l = ok-injective _ _ h
admitted_of_no_last t (event ∷ []) h l = cc
admitted_of_no_last t (event ∷ next ∷ events) h l = absurd (last-ne-none next events l)
  where
    last-ne-none : (e : SessionEvent) (es : List SessionEvent) → last (e ∷ es) ≡ none → ⊥
    last-ne-none e [] = cc
    last-ne-none e (f ∷ fs) = last-ne-none f fs

-- If the session invariant accepts a log, it accepts the log with the crash repair's closers
-- appended, and then no turn and no step is open.
pub admit_all-closers :
    (events : List SessionEvent) (t : SessionTrace)
    → admit_all fresh_trace events ≡ ok t
    → (u : SessionTrace) × (admit_all fresh_trace (events ++ interrupted_turn_closers events)
        ≡ ok u)
      × (u.open_turn ≡ none)
      × (u.open_step ≡ none)
unfolding interrupted_turn_closers admit_all
admit_all-closers events t h =
    let k = scan-Tracks initial_scan fresh_trace t events h Tracks-initial in
    let split = admit_all-append fresh_trace t events (interrupted_turn_closers events) h in
    elim (Option-cases (last events)) [
      | inl e ↦
          let q = admitted_of_no_last t events h e in
          (
            t,
            split ∙ rw e refl,
            ap (λ (v : SessionTrace). v.open_turn) (sym q),
            ap (λ (v : SessionTrace). v.open_step) (sym q),
          )
      | inr (final, e) ↦
          let c =
            closers_of-IsClosing _ t final k
              (last_seq_of_admitted fresh_trace t events final h e) in
          (c.0, split ∙ rw e c.1, c.2, c.3)
    ]

closers_of_settled :
    (s : RepairScan) (final : Option SessionEvent) → s.open_turn ≡ none → closers_of s final ≡ []
closers_of_settled s none e = refl
closers_of_settled s (some final) e = rw e refl

-- For a log that the invariant accepts, the log with its closers appended needs no closers.
pub closers_idempotent :
    (events : List SessionEvent) (t : SessionTrace)
    → admit_all fresh_trace events ≡ ok t
    → interrupted_turn_closers (events ++ interrupted_turn_closers events) ≡ []
unfolding interrupted_turn_closers
closers_idempotent events t h =
    let c = admit_all-closers events t h in
    let k = scan-Tracks initial_scan fresh_trace c.0 _ c.1 Tracks-initial in
    closers_of_settled _ _ (k.turn ∙ c.2)
