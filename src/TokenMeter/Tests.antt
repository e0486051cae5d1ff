-- ===== src/TokenMeter/Tests.antt =====
-- Runs of the token meter (token-meter) on small logs.
use agent_runtime_notes.Surface.{SurfaceFoldState, SurfaceFoldReplacement, surface_op_of, marked_op}
use agent_runtime_notes.Surface.Provenance.{
  index_in, replacement_range, assert_provenance, sources_of, read_sources,
  assert_tool_result_rewrite,
}
use agent_runtime_notes.Surface.Planning.{
  plan_op, apply_surface_plan, plan_surface_event, apply_surface_event,
}
use agent_runtime_notes.Session.{SessionEvent, user_message, replace, cited}
use agent_runtime_notes.TokenMeter.Surfaces.{seqs, apply_surface_event-priced}
use agent_runtime_notes.TokenMeter.{
  blocks, text_block, no_blocks, Content, ContextBreakdownState, ShadowPriceClaim, SurfaceTokenFold,
  TokenEvent, TokenSurfaceEvent, TokenSurfaceNode, append_op, estimate_content, find_node,
  fold_surface_projection, fold_surface_tokens, init_breakdown, invalid_range, metering,
  no_shadow_price, off_surface, on_surface, replace_op, total_tokens,
}
use agent_runtime_notes.Base.{
  List, Option, [], arith, err, none, ok, pos, refl, some, ◌+ℤ◌, ◌∷◌, ◌≡◌,
}
use agent_runtime_notes.TokenMeter.Agreement.{
  Metered, ends, joins, meter, metered_agreement, passes, prices, rewrites, run_breakdown,
}
use agent_runtime_notes.TokenMeter.Accounts.{fold_surface_tokens-total}

abbrev hello : Option Content
hello = some (blocks (text_block (104 ∷ 101 ∷ 108 ∷ 108 ∷ 111 ∷ [])) no_blocks)

abbrev question : TokenSurfaceEvent
question = record { seq = 0; message = hello; op = append_op }

abbrev answer : TokenSurfaceEvent
answer = record { seq = 1; message = none; op = append_op }

abbrev summary : TokenSurfaceEvent
summary = record { seq = 3; message = hello; op = replace_op 0 1 }

abbrev priced : List TokenSurfaceNode
priced = record { seq = 0; tokens = 10 } ∷ record { seq = 1; tokens = 0 } ∷ []

abbrev summarised : SurfaceTokenFold
summarised = record {
  tokens = 10;
  nodes = record { seq = 3; tokens = 10 } ∷ [];
  delta_tokens = pos 0;
}

abbrev price : ShadowPriceClaim
price = record { start = 0; end = 1; tokens = 10 }

abbrev metered_log : List TokenEvent
metered_log =
    on_surface question ∷ off_surface ∷ on_surface answer ∷ metering price ∷ on_surface summary ∷ []

summary_folds : fold_surface_tokens priced summary ≡ ok summarised
unfolding fold_surface_tokens estimate_content find_node
summary_folds = refl

absent_range : fold_surface_tokens [] summary ≡ err (invalid_range 3)
unfolding fold_surface_tokens find_node
absent_range = refl

wrong_claim :
    fold_surface_projection (some (record { start = 0; end = 2; tokens = 10 })) (on_surface summary)
    ≡ err (no_shadow_price 3)
unfolding fold_surface_projection
wrong_claim = refl

unpriced : fold_surface_projection none (on_surface summary) ≡ ok (pos 0, none)
unfolding fold_surface_projection
unpriced = refl

fold_surface_tokens-total_example :
    pos (total_tokens priced) +ℤ summarised.delta_tokens ≡ pos (total_tokens summarised.nodes)
fold_surface_tokens-total_example =
    fold_surface_tokens-total priced summary summarised summary_folds

metered_log-Metered : Metered [] none metered_log
unfolding estimate_content find_node
metered_log-Metered = joins [] none 0 hello _ (
    passes _ none _ (
      joins _ none 1 none _ (
        prices _ none price _
          (rewrites priced 3 0 1 0 1 hello [] refl refl (omega arith) (ends _ none)))))

metered_agreement_example :
    (nodes : List TokenSurfaceNode) × (last : ContextBreakdownState) × (meter [] metered_log
      ≡ ok nodes)
    × (run_breakdown init_breakdown metered_log ≡ ok last)
    × (last.message_tokens ≡ pos (total_tokens nodes))
metered_agreement_example = metered_agreement metered_log metered_log-Metered

abbrev session_state : SurfaceFoldState
session_state = record { nodes = 0 ∷ 1 ∷ []; replace_generation = 0 }

abbrev summary_event : SessionEvent
summary_event = record {
  seq = 3;
  time = 5;
  body = user_message "summary";
  surface_op = some (replace 0 1);
  source_event_seqs = some (cited (some 0 ∷ some 1 ∷ []));
}

abbrev summarised_state : SurfaceFoldState × Option SurfaceFoldReplacement
summarised_state = (
  record { nodes = 3 ∷ []; replace_generation = 1 },
  some (record { seq = 3; start = 0; end = 1; shadowed_seqs = 0 ∷ 1 ∷ [] }),
)

summary_applies : apply_surface_event session_state summary_event 3 [] 0 ≡ ok summarised_state
unfolding surface_op_of marked_op apply_surface_event plan_surface_event plan_op apply_surface_plan
    replacement_range index_in assert_provenance sources_of read_sources assert_tool_result_rewrite
summary_applies = refl

apply_surface_event-priced_example :
    (fold : SurfaceTokenFold) × (fold_surface_tokens priced summary ≡ ok fold)
    × (seqs fold.nodes ≡ 3 ∷ [])
apply_surface_event-priced_example =
    apply_surface_event-priced session_state summary_event 3 [] 0 summarised_state (replace_op 0 1)
      priced hello summary_applies refl refl refl
