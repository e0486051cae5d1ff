-- ===== src/Session/Tracking.antt =====
-- The repair scan beside the session invariant: what the scan holds of every admitted log.
use agent_runtime_notes.Base.{
  ℕ, ◌+◌, ◌≡◌, refl, sym, ◌∙◌, String, true, false, ◌||◌, List, [], ◌∷◌, arith, none, some, All,
  IsDistinct, has, str_eq, ok, str_eq_refl,
}
use agent_runtime_notes.Session.{
  Block, ToolResult, TurnEndReason, turn_start, turn_end, step_start, step_end, assistant_message,
  tool_call, tool_result,
}
use agent_runtime_notes.Session.Trace.{
  SessionTrace, is_null, require_open_step, apply_transition, keep, add, delete, clear_all,
  unchanged,
}
use agent_runtime_notes.Session.Repair.{PendingCall, RepairScan, scan_data}
use agent_runtime_notes.Session.Pending.{
  keys, register-IsDistinct, keys-cite_call, count-keys-delete_call, register-All, delete_call-All,
  cite_call-All, delete_call-others, has-without,
}

-- A pending call belongs to the open step, and if its start is cited the invariant knows it.
abbrev pub IsKnown : SessionTrace → String × PendingCall → Type 0
IsKnown t e =
    (t.open_step ≡ some e.1.step) × ((is_null e.1.call_seq || has t.pending_calls e.0) ≡ true)

pub record Tracks (s : RepairScan) (t : SessionTrace) : Type 0 where
  pub turn : s.open_turn ≡ t.open_turn
  pub step : s.open_step ≡ t.open_step
  pub nested : t.open_turn ≡ none → t.open_step ≡ none
  pub known : All (IsKnown t) s.pending
  pub distinct : IsDistinct (keys s.pending)

-- What the guards of a step-scoped event have established.
require_open_step-ok :
    (t : SessionTrace) (turn step : ℕ)
    → require_open_step t turn step ≡ ok tt
    → (t.open_turn ≡ some turn) × (t.open_step ≡ some step)
unfolding require_open_step
require_open_step-ok t turn step h = ground arith

IsKnown-add :
    (t : SessionTrace) (seq : ℕ) (id : String) (e : String × PendingCall)
    → IsKnown t e
    → IsKnown (apply_transition t (unchanged t seq (add id))) e
unfolding apply_transition
IsKnown-add t seq id e h = (h.0, ground arith)

IsKnown-cited :
    (t : SessionTrace) (seq : ℕ) (id : String) (c : PendingCall)
    → IsKnown t (id, c)
    → IsKnown (apply_transition t (unchanged t seq (add id))) (id, record c { call_seq = some seq })
unfolding apply_transition
IsKnown-cited t seq id c h = (h.0, ground (arith, str_eq_refl id))

pub IsKnown-other :
    (t : SessionTrace) (seq : ℕ) (id k : String) (c : PendingCall)
    → str_eq k id ≡ false
    → IsKnown t (k, c)
    → IsKnown (apply_transition t (unchanged t seq (delete id))) (k, c)
unfolding apply_transition
IsKnown-other t seq id k c ne h = (h.0, ground (arith, has-without t.pending_calls id k ne))

-- No event leaves the scan and the invariant apart.
module _ (s : RepairScan) (t : SessionTrace) (seq : ℕ) (k : Tracks s t) where
  pub keep-Tracks : Tracks s (apply_transition t (unchanged t seq keep))
  unfolding apply_transition
  keep-Tracks = record {
    turn = k.turn;
    step = k.step;
    nested = k.nested;
    known = k.known;
    distinct = k.distinct;
  }

  pub turn_start-Tracks :
      (turn : ℕ)
      → t.open_turn ≡ none
      → Tracks (scan_data s seq (turn_start turn)) (
          apply_transition t
            (record (unchanged t seq keep) { open_turn = some turn; next_step = 1 }))
  unfolding apply_transition scan_data
  turn_start-Tracks turn e = record {
    turn = refl;
    step = sym (k.nested e);
    nested = λ n. cc;
    known = tt;
    distinct = λ id. omega arith;
  }

  pub turn_end-Tracks :
      (turn : ℕ) (reason : TurnEndReason)
      → t.open_step ≡ none
      → Tracks (scan_data s seq (turn_end turn reason)) (
          apply_transition t
            (record (unchanged t seq keep) { open_turn = none; next_turn = t.next_turn + 1 }))
  unfolding apply_transition scan_data
  turn_end-Tracks turn reason e = record {
    turn = refl;
    step = sym e;
    nested = λ n. e;
    known = tt;
    distinct = λ id. omega arith;
  }

  -- Nothing is pending while no step is open.
  none_pending : t.open_step ≡ none → (m : List (String × PendingCall)) → All (IsKnown t) m → m ≡ []
  none_pending e [] h = refl
  none_pending e (x ∷ m) h = cc (e, h.0.0)

  pub step_start-Tracks :
      (turn step : ℕ)
      → t.open_turn ≡ some turn
      → t.open_step ≡ none
      → Tracks
          (scan_data s seq (step_start turn step))
          (apply_transition t (record (unchanged t seq keep) { open_step = some step }))
  unfolding apply_transition scan_data
  step_start-Tracks turn step e n = record {
    turn = k.turn;
    step = refl;
    nested = λ o. cc;
    known = rw (none_pending n s.pending k.known) tt;
    distinct = k.distinct;
  }

  pub step_end-Tracks :
      (turn step : ℕ)
      → Tracks (scan_data s seq (step_end turn step)) (
          apply_transition t
            (record (unchanged t seq clear_all) { open_step = none; next_step = t.next_step + 1 }))
  unfolding apply_transition scan_data
  step_end-Tracks turn step = record {
    turn = k.turn;
    step = refl;
    nested = λ o. refl;
    known = tt;
    distinct = λ id. omega arith;
  }

  pub message-Tracks :
      (turn step : ℕ) (blocks : List Block)
      → t.open_step ≡ some step
      → Tracks
          (scan_data s seq (assistant_message turn step blocks))
          (apply_transition t (unchanged t seq keep))
  unfolding apply_transition scan_data
  message-Tracks turn step blocks e = record {
    turn = k.turn;
    step = k.step;
    nested = k.nested;
    known = register-All (IsKnown t) step (λ id. (e, refl)) blocks s.pending k.known;
    distinct = register-IsDistinct step blocks s.pending k.distinct;
  }

  pub call-Tracks :
      (turn step : ℕ) (id : String)
      → Tracks
          (scan_data s seq (tool_call turn step id))
          (apply_transition t (unchanged t seq (add id)))
  unfolding scan_data
  call-Tracks turn step id = record {
    turn = k.turn ∙ unfold apply_transition in refl;
    step = k.step ∙ unfold apply_transition in refl;
    nested = unfold apply_transition in k.nested;
    known =
        cite_call-All (IsKnown t) _ id seq (λ e. IsKnown-add t seq id e)
          (λ c. IsKnown-cited t seq id c) s.pending k.known;
    distinct = rw (keys-cite_call id seq s.pending) k.distinct;
  }

  pub result-Tracks :
      (r : ToolResult)
      → Tracks
          (scan_data s seq (tool_result r))
          (apply_transition t (unchanged t seq (delete r.call_id)))
  unfolding scan_data
  result-Tracks r = record {
    turn = k.turn ∙ unfold apply_transition in refl;
    step = k.step ∙ unfold apply_transition in refl;
    nested = unfold apply_transition in k.nested;
    known =
        delete_call-others (IsKnown t) _ r.call_id (λ j c. IsKnown-other t seq r.call_id j c)
          s.pending k.distinct k.known;
    distinct = λ id. omega (arith, k.distinct id, count-keys-delete_call r.call_id id s.pending);
  }

  pub rewrite-Tracks :
      (r : ToolResult)
      → Tracks (scan_data s seq (tool_result r)) (apply_transition t (unchanged t seq keep))
  unfolding apply_transition scan_data
  rewrite-Tracks r = record {
    turn = k.turn;
    step = k.step;
    nested = k.nested;
    known = delete_call-All (IsKnown t) r.call_id s.pending k.known;
    distinct = λ id. omega (arith, k.distinct id, count-keys-delete_call r.call_id id s.pending);
  }
