-- ===== src/Goal/Tests.antt =====
-- The goal service on concrete input.
use agent_runtime_notes.Goal.References.{times, change_refs, fold_goal-references}
use agent_runtime_notes.Goal.Decode.{
  is_kebab, kebab_rest, decode_goal_change, decode_snapshot, decode_ref, decode_reason,
  decode_block_reason, positive_integer, non_negative_integer,
}
use agent_runtime_notes.Base.{
  ℕ, ◌<◌, ◌≡◌, refl, Bool, true, String, List, [], ◌∷◌, ◌++◌, none, some, arith, ok, err, of_ℕ,
  Option, take, ◌≤◌,
}
use agent_runtime_notes.Goal.{
  active, paused, GoalRef, GoalSnapshot, SnapshotChange, snapshot_change, encode, GoalEvent,
  goal_change, user_message, goal_source, to_create, to_pause, GoalBlockReason, blocked,
  other_source, to_block,
}
use agent_runtime_notes.Goal.Fold.{
  GoalFoldState, empty_goal_fold_state, admit_change, apply_clear, apply_goal_change,
  apply_goal_event, apply_round, apply_source, fold_from, fold_goal, validate_snapshot_transition,
  validate_operation, require_next_revision, require_same_definition, require_updated_at,
}
use agent_runtime_notes.Goal.Service.{
  armed, disarmed, Hub, stale_revision, resolve_max_goal_rounds, view, view_with, includes,
  resolve_objective, resolve_block_reason, edited_objective, edited_rounds, sync, sync_from,
  expect_current, commit, commit_snapshot, prepare_mutation, commit_at, commit_current, get, disarm,
  create, create_goal, edit, transition, pause, complete_goal, resume, block, clear, clear_at,
}
use agent_runtime_notes.Goal.Calls.{
  Call, call_create, call_pause, call_block, perform, open_session,
}
use agent_runtime_notes.Goal.Soundness.{IsSoundChange, decode-encode}
use agent_runtime_notes.Goal.Standing.{IsSoundState, fold_goal-IsSoundState}
use agent_runtime_notes.Goal.Commits.{IsUpToDate, IsKept}
use agent_runtime_notes.Goal.Upkeep.{perform-IsKept}
use agent_runtime_notes.Goal.Syncing.{sync-IsUpToDate}
use agent_runtime_notes.Goal.Projection.{Shows, project_from, fold_goal-Shows}
use agent_runtime_notes.Goal.Runs.{
  Run, a_session_start, at_rest, a_call, an_event, Run-folded, perform-stale, Run-reopened,
  with_event,
}
use agent_runtime_notes.Goal.Cache.{GoalView}

opened : Unit {0}
unfolding decode_goal_change decode_snapshot decode_ref decode_reason decode_block_reason
    positive_integer non_negative_integer admit_change apply_clear apply_goal_change
    apply_goal_event apply_round apply_source fold_from fold_goal validate_snapshot_transition
    validate_operation require_next_revision require_same_definition require_updated_at
    resolve_max_goal_rounds view view_with includes resolve_objective resolve_block_reason
    edited_objective edited_rounds sync sync_from expect_current commit commit_snapshot
    prepare_mutation commit_at commit_current get disarm create create_goal edit transition pause
    complete_goal resume block clear clear_at perform open_session
opened = tt

abbrev trim : String → String
trim x = x

abbrev admit_all : List GoalEvent → GoalEvent → Bool
admit_all log e = true

abbrev goal_a : GoalSnapshot
goal_a = record {
  id = "goal-a";
  revision = 1;
  objective = "ship";
  phase = active;
  blocked_reason = none;
  max_goal_rounds = 3;
}

abbrev created_a : SnapshotChange
created_a = record {
  operation = to_create;
  goal = goal_a;
  rounds_started = 0;
  created_at = 7;
  updated_at = 7;
}

abbrev state_a : GoalFoldState
state_a = record {
  goal = some goal_a;
  rounds_started = 0;
  created_at = some 7;
  updated_at = some 7;
  last_ref = some (record { id = "goal-a"; revision = 1 });
  seen_goal_ids = "goal-a" ∷ [];
}

-- After a create.
abbrev hub_a : Hub
hub_a = record {
  log = goal_change (encode (snapshot_change created_a)) ∷ [];
  cache = record {
    state = state_a;
    activation = armed;
    observed_seq = 1;
    pending_activation = none;
  };
}

abbrev empty_hub : Hub
empty_hub = record {
  log = [];
  cache = record {
    state = empty_goal_fold_state;
    activation = disarmed;
    observed_seq = 0;
    pending_activation = none;
  };
}

abbrev create_a : Call
create_a = call_create (record { objective = "ship"; max_goal_rounds = some (of_ℕ 3) }) "goal-a"

abbrev ref_a : ℕ → GoalRef
ref_a revision = record { id = "goal-a"; revision = revision }

create_a_lem : perform trim admit_all true (of_ℕ 256) empty_hub create_a 7 ≡ (ok tt, hub_a)
unfolding opened
create_a_lem = refl

hub_a-IsUpToDate : IsUpToDate trim hub_a
unfolding opened
hub_a-IsUpToDate = record { folded = refl; observed = refl; idle = refl }

perform-stale_example :
    perform trim admit_all true (of_ℕ 256) hub_a (call_pause (ref_a 2)) 9
    ≡ (err stale_revision, hub_a)
perform-stale_example =
    perform-stale trim admit_all hub_a hub_a-IsUpToDate goal_a (ref_a 2) refl refl (of_ℕ 256)
      (call_pause (ref_a 2)) 9 refl

abbrev stuck : GoalBlockReason
stuck = record { code = "no-network"; message = "offline" }

room_a : (g : GoalSnapshot) → hub_a.cache.state.goal ≡ some g → g.revision < 9007199254740991
room_a g e = ground arith

perform-IsKept_example :
    IsKept trim hub_a disarmed
      (perform trim admit_all true (of_ℕ 256) hub_a (call_block (ref_a 1) stuck) 9)
perform-IsKept_example =
    perform-IsKept trim admit_all true hub_a hub_a-IsUpToDate (λ x. refl) (of_ℕ 256)
      (call_block (ref_a 1) stuck) 9 (omega arith) room_a refl

abbrev round_1 : GoalEvent
round_1 = user_message (goal_source "goal-a" (of_ℕ 1) (of_ℕ 1))

abbrev hub_b : Hub
hub_b = record {
  log = hub_a.log ++ round_1 ∷ [];
  cache = record hub_a.cache { state = record state_a { rounds_started = 1 }; observed_seq = 2 };
}

abbrev paused_b : GoalSnapshot
paused_b = record goal_a { revision = 2; phase = paused }

abbrev hub_c : Hub
hub_c = record {
  log =
      hub_b.log
      ++ goal_change (
          encode (
            snapshot_change (record {
              operation = to_pause;
              goal = paused_b;
              rounds_started = 1;
              created_at = 7;
              updated_at = 9;
            })))
        ∷ [];
  cache = record {
    state = record {
      goal = some paused_b;
      rounds_started = 1;
      created_at = some 7;
      updated_at = some 9;
      last_ref = some (ref_a 2);
      seen_goal_ids = "goal-a" ∷ [];
    };
    activation = disarmed;
    observed_seq = 3;
    pending_activation = none;
  };
}

abbrev hub_d : Hub
hub_d = with_event hub_c (user_message other_source)

room_b : (g : GoalSnapshot) → hub_b.cache.state.goal ≡ some g → g.revision < 9007199254740991
room_b g e = ground arith

abbrev empty_state : GoalFoldState
empty_state = empty_goal_fold_state

-- A create, a round of the driver that the service has not seen, a pause, a start of the session,
-- and another event that the service has not seen.
life : Run trim admit_all (of_ℕ 256) empty_hub hub_d
unfolding opened
life =
    a_call empty_hub hub_d true create_a 7 empty_state refl (omega arith)
      (λ g e. absurd (ground arith)) refl
      (an_event hub_a hub_d round_1 hub_b.cache.state refl (
        a_call (with_event hub_a round_1) hub_d true (call_pause (ref_a 1)) 9 hub_b.cache.state refl
          (omega arith) room_b refl
          (a_session_start hub_c hub_d (
            an_event hub_c hub_d (user_message other_source) hub_c.cache.state refl
              (at_rest hub_d)))))

open_empty : open_session trim [] ≡ ok empty_hub
unfolding opened
open_empty = refl

Run-folded_example :
    (current : GoalFoldState) × (v : Option GoalView) × (u : Hub) × (fold_goal trim hub_d.log
      ≡ ok current)
    × (fold_goal trim (take 3 hub_d.log) ≡ ok hub_d.cache.state)
    × (get trim admit_all true hub_d ≡ (ok v, u))
    × (view u.cache ≡ ok v)
    × (u.cache.state ≡ current)
    × (u.log ≡ hub_d.log)
Run-folded_example =
    Run-folded trim admit_all (of_ℕ 256) (λ x. refl) [] empty_hub hub_d open_empty life

Run-reopened_example :
    (v : Option GoalView) × (u : Hub) × (disarm trim admit_all true hub_d ≡ (ok v, u))
    × (open_session trim hub_d.log ≡ ok u)
Run-reopened_example =
    Run-reopened trim admit_all (of_ℕ 256) (λ x. refl) [] empty_hub hub_d open_empty life

round_1-folds : fold_from trim state_a (round_1 ∷ []) ≡ ok hub_b.cache.state
unfolding opened
round_1-folds = refl

sync-IsUpToDate_example :
    (u : Hub) × (sync trim (record hub_a { log = hub_b.log }) ≡ (ok tt, u))
    × (u.log ≡ hub_b.log)
    × (u.cache.state ≡ hub_b.cache.state)
    × (u.cache.activation ≡ armed)
    × IsUpToDate trim u
sync-IsUpToDate_example =
    sync-IsUpToDate trim hub_a (round_1 ∷ []) hub_b.cache.state hub_a-IsUpToDate round_1-folds

abbrev blocked_a : GoalSnapshot
blocked_a = record goal_a {
  revision = 2;
  phase = blocked;
  blocked_reason = some (record { code = "no-key"; message = "no key" });
}

abbrev change_b : SnapshotChange
change_b = record {
  operation = to_block;
  goal = blocked_a;
  rounds_started = 1;
  created_at = 7;
  updated_at = 9;
}

change_b-IsSoundChange : IsSoundChange trim change_b
unfolding opened is_kebab kebab_rest
change_b-IsSoundChange = record {
  goal = record {
    named = refl;
    normal = (refl, refl);
    fields = refl;
    revision_pos = omega arith;
    revision_safe = omega arith;
    rounds_pos = omega arith;
    rounds_safe = omega arith;
    reason = (refl, (refl, refl));
  };
  ordered = omega arith;
  updated_safe = omega arith;
  rounds_safe = omega arith;
}

decode-encode_example :
    decode_goal_change trim (encode (snapshot_change change_b))
    ≡ ok (some (snapshot_change change_b))
decode-encode_example = decode-encode trim change_b change_b-IsSoundChange

hub_a-folds : fold_goal trim hub_a.log ≡ ok state_a
unfolding opened
hub_a-folds = refl

fold_goal-IsSoundState_example : IsSoundState trim state_a
fold_goal-IsSoundState_example = fold_goal-IsSoundState trim hub_a.log state_a hub_a-folds

hub_c-folds : fold_goal trim hub_c.log ≡ ok hub_c.cache.state
unfolding opened
hub_c-folds = refl

fold_goal-Shows_example : Shows hub_c.cache.state (project_from trim none hub_c.log)
fold_goal-Shows_example = fold_goal-Shows trim hub_c.log hub_c.cache.state hub_c-folds

fold_goal-references_example : times (ref_a 2) (change_refs trim hub_c.log) ≤ 1
fold_goal-references_example =
    fold_goal-references trim hub_c.log hub_c.cache.state (ref_a 2) hub_c-folds
