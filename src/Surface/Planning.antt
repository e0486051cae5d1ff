-- ===== src/Surface/Planning.antt =====
-- One event's transition of the surface, and the fold of a whole log: surface.ts from
-- `planSurfaceEvent` to `foldSurface`.
-- The plan of an operation that `surface_op_of` let through.
use agent_runtime_notes.Base.{
  List, Option, Result, none, ok, some, spliced, throw_unless, ℕ, ◌++◌, ◌+◌, ◌-◌, ◌==◌, ◌>>=◌, ◌>>◌,
  ◌∷◌, [],
}
use agent_runtime_notes.Session.{SessionEvent, SurfaceOp, append, replace}
use agent_runtime_notes.Surface.{
  SurfaceError, SurfaceFoldReplacement, SurfaceFoldState, SurfacePlan, append_plan,
  create_fold_state, no_plan, not_contiguous, replace_plan, surface_op_of,
}
use agent_runtime_notes.Surface.Provenance.{
  assert_provenance, assert_tool_result_rewrite, replacement_range,
}

unfoldable pub plan_op :
    SurfaceFoldState
    → SessionEvent
    → List SessionEvent
    → ℕ
    → Option SurfaceOp
    → Result SurfaceError SurfacePlan
plan_op state event events base (some append) =
    assert_provenance event [] >> ok (append_plan event.seq)
plan_op state event events base (some (replace start end)) = do
  range ← replacement_range state start end
  assert_provenance event range.shadowed_seqs
  assert_tool_result_rewrite event range.shadowed_seqs events base
  ok (replace_plan event.seq start end range)
plan_op state event events base op = ok no_plan

unfoldable pub plan_surface_event :
    SurfaceFoldState → SessionEvent → ℕ → List SessionEvent → ℕ → Result SurfaceError SurfacePlan
plan_surface_event state event expected_seq events base = do
  throw_unless (event.seq == expected_seq) not_contiguous
  op ← surface_op_of event
  plan_op state event events base op

unfoldable pub apply_surface_plan :
    SurfaceFoldState → SurfacePlan → SurfaceFoldState × Option SurfaceFoldReplacement
apply_surface_plan state no_plan = (state, none)
apply_surface_plan state (append_plan seq) =
    (record state { nodes = state.nodes ++ seq ∷ [] }, none)
apply_surface_plan state (replace_plan seq start end range) = (
  record {
    nodes = spliced state.nodes range.start_idx (range.end_idx - range.start_idx + 1) (seq ∷ []);
    replace_generation = state.replace_generation + 1;
  },
  some (record { seq = seq; start = start; end = end; shadowed_seqs = range.shadowed_seqs }),
)

unfoldable pub apply_surface_event :
    SurfaceFoldState
    → SessionEvent
    → ℕ
    → List SessionEvent
    → ℕ
    → Result SurfaceError (SurfaceFoldState × Option SurfaceFoldReplacement)
apply_surface_event state event expected_seq events base = do
  plan ← plan_surface_event state event expected_seq events base
  ok (apply_surface_plan state plan)

abbrev pub push_replacement :
    List SurfaceFoldReplacement → Option SurfaceFoldReplacement → List SurfaceFoldReplacement
push_replacement replacements none = replacements
push_replacement replacements (some replacement) = replacements ++ replacement ∷ []

abbrev pub SurfaceFold : Type 0
SurfaceFold = SurfaceFoldState × List SurfaceFoldReplacement

-- The loop of `foldSurface`, at `seq` in a window that starts at `base`.
unfoldable pub fold_events :
    List SessionEvent → ℕ → ℕ → SurfaceFold → List SessionEvent → Result SurfaceError SurfaceFold
fold_events events base seq fold [] = ok fold
fold_events events base seq fold (event ∷ rest) =
    apply_surface_event fold.0 event seq events base >>= λ next.
    fold_events events base (seq + 1) (next.0, push_replacement fold.1 next.1) rest

unfoldable pub fold_window : ℕ → List SessionEvent → Result SurfaceError SurfaceFold
fold_window base events = fold_events events base base (create_fold_state, []) events

-- The result has the nodes and the replacements of the fold.
unfoldable pub fold_surface :
    List SessionEvent → Result SurfaceError (List ℕ × List SurfaceFoldReplacement)
fold_surface events = fold_window 0 events >>= λ fold. ok (fold.0.nodes, fold.1)
