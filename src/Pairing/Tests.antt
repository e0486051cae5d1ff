-- ===== src/Pairing/Tests.antt =====
-- A surface with one call and its result.
use agent_runtime_notes.Base.{
  ℕ, ◌≡◌, refl, true, false, List, [], ◌∷◌, ◌++◌, none, some, ok, get_elem?, ◌==◌,
}
use agent_runtime_notes.Session.{
  EventData, tool_call_block, assistant_message, tool_result, user_message, append, SessionEvent,
  given_id,
}
use agent_runtime_notes.Pairing.{
  BalanceCache, count_calls, event_delta, add_delta, event_for_seq, next_count, walk, set_indices,
  extend_cache, rebuild, balance_cache, index_of, cut_balance, tool_pairing_balanced_before,
  tool_pairing_balanced_after,
}
use agent_runtime_notes.Pairing.Incremental.{surface_of, tool_pairing_balanced_rebuild}
use agent_runtime_notes.Pairing.Balance.{rebuild_balance, total, calls_of, results_of}

opened : Unit {0}
unfolding count_calls event_delta add_delta event_for_seq next_count walk set_indices extend_cache
    rebuild balance_cache index_of cut_balance tool_pairing_balanced_before
    tool_pairing_balanced_after
opened = tt

abbrev event : ℕ → EventData → SessionEvent
event seq body = record {
  seq = seq;
  time = 1;
  body = body;
  surface_op = some append;
  source_event_seqs = none;
}

abbrev request : List SessionEvent
request = event 0 (assistant_message 1 1 (tool_call_block "a" ∷ [])) ∷ []

abbrev answer : List SessionEvent
answer =
    event 1 (
      tool_result (record {
        turn = 1;
        step = 1;
        message_id = given_id "m";
        call_id = "a";
        is_error = none;
        content = "done";
        error = none;
        meta = none;
      }))
    ∷ event 2 (user_message "go on")
    ∷ []

abbrev requested : BalanceCache
requested = record {
  generation = 4;
  cut_balanced = true ∷ false ∷ [];
  index_by_seq = (0, 0) ∷ [];
  in_progress = 1;
}

requested_rebuilt : rebuild request (surface_of 4 (0 ∷ [])) ≡ ok requested
unfolding opened
requested_rebuilt = refl

not_before_the_result :
    tool_pairing_balanced_before
      (some requested)
      (request ++ answer)
      (surface_of 4 (0 ∷ 1 ∷ 2 ∷ []))
      1
    ≡ ok false
unfolding opened
not_before_the_result = refl

tool_pairing_balanced_rebuild_example :
    (tool_pairing_balanced_before
        (some requested)
        (request ++ answer)
        (surface_of 4 (0 ∷ 1 ∷ 2 ∷ []))
        2
      ≡ tool_pairing_balanced_before none (request ++ answer) (surface_of 4 (0 ∷ 1 ∷ 2 ∷ [])) 2)
    × (tool_pairing_balanced_after
          (some requested)
          (request ++ answer)
          (surface_of 4 (0 ∷ 1 ∷ 2 ∷ []))
          2
        ≡ tool_pairing_balanced_after none (request ++ answer) (surface_of 4 (0 ∷ 1 ∷ 2 ∷ [])) 2)
tool_pairing_balanced_rebuild_example =
    tool_pairing_balanced_rebuild request answer 4 (0 ∷ []) requested
      (surface_of 4 (0 ∷ 1 ∷ 2 ∷ [])) 2 requested_rebuilt (λ e. (1 ∷ 2 ∷ [], refl))

rebuild_balance_example :
    get_elem? requested.cut_balanced 1
    ≡ some (total calls_of request (0 ∷ []) == total results_of request (0 ∷ []))
rebuild_balance_example = rebuild_balance request 4 (0 ∷ []) [] requested requested_rebuilt
