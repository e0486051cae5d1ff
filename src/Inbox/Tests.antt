-- ===== src/Inbox/Tests.antt =====
-- The inbox on concrete input.
use agent_runtime_notes.Base.{
  ◌≡◌, refl, Bool, true, String, List, [], ◌∷◌, arith, ok, err, IsDistinct, of_ℕ, nan,
}
use agent_runtime_notes.Inbox.{
  UserMessage, next_turn, next_step, LogEvent, spliced_event, other_event, Inbox, pending_ids,
  already_pending, empty_state, construct, append, claim, claimed, run, Command, do_append,
  do_prepend, do_replace, do_remove, do_splice, foreign_event, normalized, Notification, mutate,
  commit, committed, validate, apply, candidate, check_ids, actual_start, actual_delete_count,
  is_empty, execute, replace, remove, clear, splice, prepend, locate,
}
use agent_runtime_notes.Inbox.Replay.{construct-run}
use agent_runtime_notes.Inbox.Identity.{construct-IsDistinct, run-IsDistinct}
use agent_runtime_notes.Inbox.Insertion.{append_lem}
use agent_runtime_notes.Inbox.Claiming.{claim_lem}

opened : Unit {0}
unfolding run execute construct append prepend replace remove clear claim splice mutate commit
    committed validate apply candidate check_ids actual_start actual_delete_count is_empty
    normalized locate
opened = tt

abbrev message : String → UserMessage
message id = record { id = id; content = "" }

abbrev admit_all : List LogEvent → LogEvent → Bool
admit_all log e = true

abbrev fresh : Inbox
fresh = record { state = empty_state; log = other_event ∷ []; published = [] }

abbrev calls : List Command
calls =
    do_append next_turn (message "a")
    ∷ do_append next_step (message "b")
    ∷ do_append next_step (message "a")
    ∷ do_prepend next_turn (message "c")
    ∷ foreign_event
    ∷ do_replace "a" (message "d")
    ∷ do_remove "b"
    ∷ []

calls_leave :
    (run admit_all fresh calls).state
    ≡ record { turns = message "c" ∷ message "d" ∷ []; steps = [] }
unfolding opened
calls_leave = refl

calls_publish :
    (run admit_all fresh calls).published
    ≡ Notification.inserted (message "a")
      ∷ Notification.inserted (message "b")
      ∷ Notification.inserted (message "c")
      ∷ Notification.discarded (message "a")
      ∷ Notification.inserted (message "d")
      ∷ Notification.discarded (message "b")
      ∷ []
unfolding opened
calls_publish = refl

-- A start that is no number counts as 0, one before the list as its beginning.
odd_starts :
    (run admit_all fresh
      (do_splice next_turn nan (of_ℕ 9) (message "x" ∷ message "y" ∷ []) ∷ [])).state
    ≡ record { turns = message "x" ∷ message "y" ∷ []; steps = [] }
unfolding opened
odd_starts = refl

abbrev two_pending : Inbox
two_pending = record {
  state = record { turns = message "t" ∷ message "u" ∷ []; steps = message "s" ∷ [] };
  log = [];
  published = [];
}

two_pending-IsDistinct : IsDistinct (pending_ids two_pending.state)
unfolding opened
two_pending-IsDistinct =
    construct-IsDistinct 0
      (spliced_event (normalized next_turn 0 0 (message "t" ∷ message "u" ∷ []) true)
        ∷ spliced_event (normalized next_step 0 0 (message "s" ∷ []) true)
        ∷ [])
      two_pending.state refl

construct-run_example :
    construct 1 (run admit_all fresh calls).log ≡ ok (run admit_all fresh calls).state
unfolding opened
construct-run_example = construct-run admit_all 1 fresh calls (omega arith) refl

construct-IsDistinct_example : IsDistinct (pending_ids two_pending.state)
unfolding opened
construct-IsDistinct_example =
    construct-IsDistinct 0
      (spliced_event (normalized next_turn 0 0 (message "t" ∷ message "u" ∷ []) true)
        ∷ spliced_event (normalized next_step 0 0 (message "s" ∷ []) true)
        ∷ [])
      two_pending.state refl

run-IsDistinct_example : IsDistinct (pending_ids (run admit_all two_pending calls).state)
run-IsDistinct_example = run-IsDistinct admit_all two_pending calls two_pending-IsDistinct

append_lem_example :
    append admit_all two_pending next_step (message "u") ≡ (err (already_pending "u"), two_pending)
append_lem_example =
    append_lem admit_all two_pending next_step (message "u") two_pending-IsDistinct (omega arith)

claim_lem_example :
    ((claim admit_all two_pending next_turn 7).0 ≡ ok (message "s" ∷ message "t" ∷ []))
    × ((claim admit_all two_pending next_turn 7).1.state
        ≡ record { turns = message "u" ∷ []; steps = [] })
    × ((claim admit_all two_pending next_turn 7).1.published
        ≡ claimed (message "s") 7 ∷ claimed (message "t") 7 ∷ [])
claim_lem_example =
    claim_lem admit_all (λ log e. refl) two_pending next_turn 7 two_pending-IsDistinct (omega arith)
      (omega arith)
