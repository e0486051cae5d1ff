-- ===== src/Session/Recovery.antt =====
-- The closers of an interrupted log (repair.ts) as the session invariant (invariant.ts) sees them.
use mathlib.Core.Option.{some-injective}
use agent_runtime_notes.Base.{
  ℕ, ◌+◌, ◌≡◌, ap, List, [], ◌∷◌, ◌++◌, arith, inl, inr, Option, none, some, Bool-cases, ok,
  Result-cases, ok-injective,
}
use agent_runtime_notes.Session.{
  ToolResult, EventData, turn_start, turn_end, step_start, step_end, assistant_chunk, user_message,
  assistant_message, tool_call, tool_result, todo_write, request_header, request_context, end_seed,
  plugin_event, SurfaceOp, SessionEvent,
}
use agent_runtime_notes.Session.Trace.{
  SessionTrace, Transition, validate_data, validate_event, validate_result, apply_transition, admit,
  admit_all, keep, add, delete, clear_all, unchanged, is_append,
}
use agent_runtime_notes.Session.Repair.{RepairScan, scan_data, scan, last}
use agent_runtime_notes.Session.Tracking.{
  Tracks, keep-Tracks, turn_start-Tracks, turn_end-Tracks, step_start-Tracks, step_end-Tracks,
  message-Tracks, call-Tracks, result-Tracks, rewrite-Tracks,
}

module _ (s : RepairScan) (t : SessionTrace) (seq : ℕ) (op : Option SurfaceOp) (tr : Transition)
    (k : Tracks s t) where
  validate_result-Tracks :
      (r : ToolResult)
      → validate_result t seq op r ≡ ok tr
      → Tracks (scan_data s seq (tool_result r)) (apply_transition t tr)
  unfolding validate_result
  validate_result-Tracks r h = elim (Bool-cases (is_append op)) [
    | inl appended ↦
        let e : unchanged t seq (delete r.call_id) ≡ tr = ground arith in
        rw (← e) (result-Tracks s t seq k r)
    | inr rewriting ↦
        let e : unchanged t seq keep ≡ tr = ground arith in rw (← e) (rewrite-Tracks s t seq k r)
  ]

  kept : unchanged t seq keep ≡ tr → Tracks s (apply_transition t tr)
  kept e = rw (← e) (keep-Tracks s t seq k)

  scan_data-Tracks :
      (d : EventData)
      → validate_data t seq op d ≡ ok tr
      → Tracks (scan_data s seq d) (apply_transition t tr)
  unfolding validate_data scan_data
  scan_data-Tracks (turn_start turn) h =
      let e : (t.open_turn ≡ none)
          × (record (unchanged t seq keep) { open_turn = some turn; next_step = 1 } ≡ tr) =
        ground arith in
      rw (← e.1) (turn_start-Tracks s t seq k turn e.0)
  scan_data-Tracks (turn_end turn reason) h =
      let e : (t.open_step ≡ none)
          × (record (unchanged t seq keep) { open_turn = none; next_turn = t.next_turn + 1 } ≡ tr) =
        ground arith in
      rw (← e.1) (turn_end-Tracks s t seq k turn reason e.0)
  scan_data-Tracks (step_start turn step) h =
      let e : (t.open_turn ≡ some turn)
          × (t.open_step ≡ none)
          × (record (unchanged t seq keep) { open_step = some step } ≡ tr) =
        ground arith in
      rw (← e.2) (step_start-Tracks s t seq k turn step e.0 e.1)
  scan_data-Tracks (step_end turn step) h =
      let e : record (unchanged t seq clear_all) { open_step = none; next_step = t.next_step + 1 }
          ≡ tr =
        ground arith in
      rw (← e) (step_end-Tracks s t seq k turn step)
  scan_data-Tracks (assistant_message turn step blocks) h =
      let e : (t.open_step ≡ some step) × (unchanged t seq keep ≡ tr) = ground arith in
      rw (← e.1) (message-Tracks s t seq k turn step blocks e.0)
  scan_data-Tracks (tool_call turn step id) h =
      let e : unchanged t seq (add id) ≡ tr = ground arith in
      rw (← e) (call-Tracks s t seq k turn step id)
  scan_data-Tracks (tool_result r) h = validate_result-Tracks r h
  scan_data-Tracks (assistant_chunk turn step) h = kept (ground arith)
  scan_data-Tracks (user_message text) h = kept (ground arith)
  scan_data-Tracks todo_write h = kept (ground arith)
  scan_data-Tracks request_header h = kept (ground arith)
  scan_data-Tracks request_context h = kept (ground arith)
  scan_data-Tracks end_seed h = kept (ground arith)
  scan_data-Tracks (plugin_event kind) h = kept (ground arith)

validate_data-last_seq :
    (t : SessionTrace) (seq : ℕ) (op : Option SurfaceOp) (tr : Transition) (d : EventData)
    → validate_data t seq op d ≡ ok tr
    → tr.last_seq ≡ some seq
unfolding validate_data validate_result
validate_data-last_seq t seq op tr (turn_start turn) h = ground arith
validate_data-last_seq t seq op tr _ h = ground arith

admit-ok :
    (t u : SessionTrace) (event : SessionEvent)
    → admit t event ≡ ok u
    → (tr : Transition) × (validate_data t event.seq event.surface_op event.body ≡ ok tr)
      × (apply_transition t tr ≡ u)
unfolding admit validate_event
admit-ok t u event h = elim (Result-cases (validate_data t event.seq event.surface_op event.body)) [
  | inl (tr, e) ↦ (tr, e, ground arith)
  | inr (x, e) ↦ absurd (ground arith)
]

admit-Tracks :
    (s : RepairScan) (t u : SessionTrace) (event : SessionEvent)
    → admit t event ≡ ok u
    → Tracks s t
    → Tracks (scan_data s event.seq event.body) u
unfolding apply_transition
admit-Tracks s t u event h k =
    let (tr, e, q) = admit-ok t u event h in
    rw (← q) (scan_data-Tracks s t event.seq event.surface_op tr k event.body e)

pub scan-Tracks :
    (s : RepairScan) (t u : SessionTrace) (events : List SessionEvent)
    → admit_all t events ≡ ok u
    → Tracks s t
    → Tracks (scan s events) u
unfolding scan admit_all
scan-Tracks s t u [] h k = rw (ok-injective _ _ h) at k
scan-Tracks s t u (event ∷ events) h k = elim (Result-cases (admit t event)) [
  | inl (v, e) ↦
      scan-Tracks (scan_data s event.seq event.body) v u events (rw (e, admit_all) at h)
        (admit-Tracks s t v event e k)
  | inr (x, e) ↦ cc (rw (e, admit_all) at h)
]

admit-last_seq :
    (t u : SessionTrace) (event : SessionEvent) → admit t event ≡ ok u → u.last_seq ≡ some event.seq
unfolding apply_transition
admit-last_seq t u event h =
    let (tr, e, q) = admit-ok t u event h in
    rw (← q) (validate_data-last_seq t event.seq event.surface_op tr event.body e)

-- The invariant has seen the last event's sequence number.
pub last_seq_of_admitted :
    (t u : SessionTrace) (events : List SessionEvent) (final : SessionEvent)
    → admit_all t events ≡ ok u
    → last events ≡ some final
    → u.last_seq ≡ some final.seq
unfolding admit_all
last_seq_of_admitted t u [] final h l = cc
last_seq_of_admitted t u (event ∷ []) final h l = elim (Result-cases (admit t event)) [
  | inl (v, e) ↦
      let q = ok-injective _ _ (rw (e, admit_all) at h) in
      rw (← q) (
        rw (ap (λ (x : SessionEvent). x.seq) (some-injective _ _ l)) at
          (admit-last_seq t v event e))
  | inr (x, e) ↦ cc (rw (e, admit_all) at h)
]
last_seq_of_admitted t u (event ∷ next ∷ events) final h l = elim (Result-cases (admit t event)) [
  | inl (v, e) ↦ last_seq_of_admitted v u (next ∷ events) final (rw (e, admit_all) at h) l
  | inr (x, e) ↦ cc (rw (e, admit_all) at h)
]

pub admit_all-append :
    (t u : SessionTrace) (xs ys : List SessionEvent)
    → admit_all t xs ≡ ok u
    → admit_all t (xs ++ ys) ≡ admit_all u ys
unfolding admit_all
admit_all-append t u [] ys h = ap (λ v. admit_all v ys) (ok-injective _ _ h)
admit_all-append t u (x ∷ xs) ys h = elim (Result-cases (admit t x)) [
  | inl (v, e) ↦ rw (e, admit_all) (admit_all-append v u xs ys (rw (e, admit_all) at h))
  | inr (y, e) ↦ cc (rw (e, admit_all) at h)
]
