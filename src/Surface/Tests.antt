-- ===== src/Surface/Tests.antt =====
-- Runs of the surface code of surface.ts on a small log, and the theorems on it.
use agent_runtime_notes.Session.{
  EventData, SessionEvent, SourceSeqs, SurfaceOp, ToolResult, append, assistant_message, cited,
  given_id, replace, tool_call_block, tool_result, user_message,
}
use agent_runtime_notes.Base.{
  List, Option, String, [], arith, false, none, some, ℕ, ◌∷◌, ◌≡◌, Bool, Option-cases, ap, eq_iff,
  err, inl, inr, ok, refl, str_eq, sym, true, ◌&&◌, ◌+◌, ◌==◌, ◌∙◌, ◌≤◌, ◌++◌, ◌>>=◌, get_elem?,
}
use agent_runtime_notes.Surface.{
  SurfaceFoldReplacement, changes_more, is_append_op, marked_op, shadowed_not_cited, surface_op_of,
  SurfaceFoldState,
}
use agent_runtime_notes.Surface.Accounts.{all_shadowed, fold_surface-occurrences, surface_seqs}
use agent_runtime_notes.Surface.Planning.{
  apply_surface_event, apply_surface_plan, fold_events, fold_surface, fold_window, plan_op,
  plan_surface_event, SurfaceFold,
}
use agent_runtime_notes.Surface.Provenance.{
  assert_provenance, assert_rewrite_of, assert_tool_result_rewrite, event_at, index_in,
  read_sources, replacement_range, same_but_content, sources_of,
}
use agent_runtime_notes.Surface.Manager.{
  catch_up, nodes_of, process_delta, process_rest, replace_generation_of, round_state,
  validate_next,
}
use agent_runtime_notes.Surface.Counting.{occurrences}
use agent_runtime_notes.Pairing.{
  BalanceCache, add_delta, count_calls, event_delta, event_for_seq, extend_cache, next_count,
  rebuild, set_indices, tool_pairing_balanced_after, tool_pairing_balanced_before, walk,
}
use agent_runtime_notes.Surface.Refinement.{IsStep, apply_surface_event-IsStep}
use agent_runtime_notes.Surface.Live.{
  Live, SurfaceAction, act_all, log_grows, opened, read, surface_reads-fold_window, validate,
}
use agent_runtime_notes.Surface.Balances.{as_surface, tool_pairing_balanced_grown}
use agent_runtime_notes.Surface.Messages.{IsShown, fold_surface-IsShown}

abbrev message_event : ℕ → EventData → SurfaceOp → Option SourceSeqs → SessionEvent
message_event seq body op sources = record {
  seq = seq;
  time = seq;
  body = body;
  surface_op = some op;
  source_event_seqs = sources;
}

abbrev prompt : SessionEvent
prompt = message_event 0 (user_message "fix it") append none

abbrev calling : SessionEvent
calling = message_event 1 (assistant_message 1 1 (tool_call_block "c" ∷ [])) append none

abbrev result_of : String → ToolResult
result_of content = record {
  turn = 1;
  step = 1;
  message_id = given_id "m";
  call_id = "c";
  is_error = some false;
  content = content;
  error = none;
  meta = none;
}

abbrev answer : SessionEvent
answer = message_event 2 (tool_result (result_of "long")) append none

-- The result is rewritten, and then all but it is summed up.
abbrev rewrite : SessionEvent
rewrite = message_event 3 (tool_result (result_of "cut")) (replace 2 2) (some (cited (some 2 ∷ [])))

abbrev summary : SessionEvent
summary =
    message_event 4 (user_message "so far") (replace 0 3)
      (some (cited (some 0 ∷ some 3 ∷ some 1 ∷ [])))

abbrev log : List SessionEvent
log = prompt ∷ calling ∷ answer ∷ rewrite ∷ summary ∷ []

abbrev plain_text : EventData → Option String
plain_text (user_message text) = some text
plain_text body = none

plain_text-some : (body : EventData) (t : String) → plain_text body ≡ some t → body ≡ user_message t
plain_text-some body t h = ground arith

-- One reading of `===`: references to equal user messages that are appended and cite nothing.
abbrev same_texts : Option String → Option String → Bool
same_texts (some a) (some b) = str_eq a b
same_texts a b = false

abbrev cites_nothing : Option SourceSeqs → Bool
cites_nothing none = true
cites_nothing raw = false

abbrev same_prompt : SessionEvent → SessionEvent → Bool
same_prompt a b =
    a.seq == b.seq
    && a.time == b.time
    && same_texts (plain_text a.body) (plain_text b.body)
    && (is_append_op a.surface_op && is_append_op b.surface_op)
    && (cites_nothing a.source_event_seqs && cites_nothing b.source_event_seqs)

same_texts-body : (a b : EventData) → same_texts (plain_text a) (plain_text b) ≡ true → a ≡ b
same_texts-body a b h = elim (Option-cases (plain_text a)) [
  | inl e ↦ absurd (ground (arith, e))
  | inr (s, e) ↦ elim (Option-cases (plain_text b)) [
    | inl d ↦ absurd (ground (arith, e, d))
    | inr (t, d) ↦
        let q : str_eq s t ≡ true = rw (e, d) at h in
        plain_text-some a s e ∙ (ap user_message ((eq_iff s t).0 q) ∙ sym (plain_text-some b t d))
  ]
]

same_prompt-equal : (a b : SessionEvent) → same_prompt a b ≡ true → a ≡ b
same_prompt-equal a b h =
    let body = same_texts-body a.body b.body (ground arith) in
    let seq : a.seq ≡ b.seq = ground arith in
    let time : a.time ≡ b.time = ground arith in
    let op : a.surface_op ≡ b.surface_op = ground arith in
    let sources : a.source_event_seqs ≡ b.source_event_seqs = ground arith in
    cc (body, seq, time, op, sources)

opened_surface : Unit {0}
unfolding marked_op surface_op_of index_in read_sources sources_of assert_provenance
    replacement_range same_but_content event_at assert_rewrite_of assert_tool_result_rewrite plan_op
    plan_surface_event apply_surface_plan apply_surface_event fold_events fold_window fold_surface
    round_state process_rest process_delta catch_up validate_next nodes_of replace_generation_of
opened_surface = tt

abbrev rewritten : SurfaceFoldReplacement
rewritten = record { seq = 3; start = 2; end = 2; shadowed_seqs = 2 ∷ [] }

abbrev summed_up : SurfaceFoldReplacement
summed_up = record { seq = 4; start = 0; end = 3; shadowed_seqs = 0 ∷ 1 ∷ 3 ∷ [] }

log_folds : fold_surface log ≡ ok (4 ∷ [], rewritten ∷ summed_up ∷ [])
unfolding opened_surface
log_folds = refl

-- A replacement that does not cite what it shadows is refused, as is one of a result's call.
uncited_is_refused :
    fold_surface (prompt ∷ message_event 1 (user_message "x") (replace 0 0) none ∷ [])
    ≡ err shadowed_not_cited
unfolding opened_surface
uncited_is_refused = refl

abbrev answer_at_0 : SessionEvent
answer_at_0 = message_event 0 (tool_result (result_of "long")) append none

other_call_is_refused :
    fold_surface (
      answer_at_0
      ∷ message_event 1
          (tool_result (record (result_of "x") { call_id = "d" }))
          (replace 0 0)
          (some (cited (some 0 ∷ [])))
      ∷ [])
    ≡ err changes_more
unfolding opened_surface
other_call_is_refused = refl

fold_surface-occurrences_example :
    (occurrences 2 (4 ∷ []) + occurrences 2 (all_shadowed (rewritten ∷ summed_up ∷ []))
      ≡ occurrences 2 (surface_seqs log))
    × (occurrences 2 (surface_seqs log) ≤ 1)
fold_surface-occurrences_example =
    fold_surface-occurrences log (4 ∷ []) (rewritten ∷ summed_up ∷ []) 2 log_folds

-- The prompt is validated and then enters the log, so its pending plan is used.
abbrev actions : List SurfaceAction
actions = validate prompt ∷ log_grows prompt ∷ read ∷ log_grows calling ∷ []

pending_plan_is_used :
    (nodes_of same_prompt
      (prompt ∷ calling ∷ [])
      0
      (act_all same_prompt 0 (opened same_prompt 0 []) actions).manager).1
    ≡ ok (0 ∷ 1 ∷ [])
unfolding opened_surface
pending_plan_is_used = refl

surface_reads-fold_window_example :
    let s : Live = act_all same_prompt 0 (opened same_prompt 0 []) actions in
    ((nodes_of same_prompt s.log 0 s.manager).1
      ≡ fold_window 0 s.log >>= (λ fold. ok (fold.0.nodes)))
    × ((replace_generation_of same_prompt s.log 0 s.manager).1
        ≡ fold_window 0 s.log >>= (λ fold. ok (fold.0.replace_generation)))
    × ((validate_next same_prompt s.log 0 s.manager answer).1
        ≡ fold_window 0 (s.log ++ answer ∷ []) >>= (λ fold. ok tt))
surface_reads-fold_window_example =
    surface_reads-fold_window same_prompt same_prompt-equal 0 [] actions answer

abbrev after_result : SurfaceFold
after_result = (record { nodes = 0 ∷ 1 ∷ 2 ∷ []; replace_generation = 0 }, [])

abbrev after_summary : SurfaceFold
after_summary = (record { nodes = 4 ∷ []; replace_generation = 2 }, rewritten ∷ summed_up ∷ [])

abbrev early : List SessionEvent
early = prompt ∷ calling ∷ answer ∷ []

early_folds : fold_window 0 early ≡ ok after_result
unfolding opened_surface
early_folds = refl

whole_folds : fold_window 0 (early ++ rewrite ∷ summary ∷ []) ≡ ok after_summary
unfolding opened_surface
whole_folds = refl

abbrev early_cache : BalanceCache
early_cache = record {
  generation = 0;
  cut_balanced = true ∷ true ∷ false ∷ true ∷ [];
  index_by_seq = (2, 2) ∷ (1, 1) ∷ (0, 0) ∷ [];
  in_progress = 0;
}

early_rebuilt : rebuild early (as_surface after_result.0) ≡ ok early_cache
unfolding count_calls event_delta add_delta event_for_seq next_count walk set_indices extend_cache
    rebuild
early_rebuilt = refl

tool_pairing_balanced_grown_example :
    (tool_pairing_balanced_before
        (some early_cache)
        (early ++ rewrite ∷ summary ∷ [])
        (as_surface after_summary.0)
        4
      ≡ tool_pairing_balanced_before none
          (early ++ rewrite ∷ summary ∷ [])
          (as_surface after_summary.0)
          4)
    × (tool_pairing_balanced_after
          (some early_cache)
          (early ++ rewrite ∷ summary ∷ [])
          (as_surface after_summary.0)
          4
        ≡ tool_pairing_balanced_after none
            (early ++ rewrite ∷ summary ∷ [])
            (as_surface after_summary.0)
            4)
tool_pairing_balanced_grown_example =
    tool_pairing_balanced_grown early (rewrite ∷ summary ∷ []) after_result after_summary
      early_cache 4 early_folds whole_folds early_rebuilt

abbrev before_rewrite : SurfaceFoldState
before_rewrite = record { nodes = 0 ∷ 1 ∷ 2 ∷ []; replace_generation = 0 }

abbrev after_rewrite : SurfaceFoldState × Option SurfaceFoldReplacement
after_rewrite = (record { nodes = 0 ∷ 1 ∷ 3 ∷ []; replace_generation = 1 }, some rewritten)

rewrite_applies : apply_surface_event before_rewrite rewrite 3 log 0 ≡ ok after_rewrite
unfolding opened_surface
rewrite_applies = refl

apply_surface_event-IsStep_example : (rewrite.seq ≡ 3) × IsStep before_rewrite rewrite after_rewrite
apply_surface_event-IsStep_example =
    apply_surface_event-IsStep before_rewrite rewrite 3 log 0 after_rewrite rewrite_applies

fold_surface-IsShown_example :
    (event : SessionEvent) × (get_elem? log 4 ≡ some event) × IsShown event
fold_surface-IsShown_example =
    fold_surface-IsShown log (4 ∷ []) (rewritten ∷ summed_up ∷ []) 4 log_folds (omega arith)
