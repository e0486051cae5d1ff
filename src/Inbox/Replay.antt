-- ===== src/Inbox/Replay.antt =====
-- Replaying the durable splices against the live lists.
use agent_runtime_notes.Base.{
  ℕ, zero, suc, ◌+◌, ◌≤◌, ◌≡◌, refl, Bool, inl, inr, Result-cases, ok, List, [], ◌∷◌, ◌++◌, arith,
  length, drop, length-append,
}
use agent_runtime_notes.Inbox.{
  UserMessage, InboxTarget, InboxState, LogEvent, spliced_event, other_event, Inbox, ok, validate,
  apply, Splice, normalized, committed, replay_event, replay_from, empty_state, construct, Command,
  run, announce,
}
use agent_runtime_notes.Inbox.Steps.{apply-normalized, mutate_induction, run_induction}

drop-append :
    {A : Type 0} (n : ℕ) (xs ys : List A) → n ≤ length xs → drop n (xs ++ ys) ≡ drop n xs ++ ys
drop-append zero xs ys h = refl
drop-append (suc n) [] ys h = absurd (omega arith)
drop-append (suc n) (x ∷ xs) ys h = drop-append n xs ys (omega arith)

shift : (a b : ℕ) → a + suc b ≡ suc a + b
shift a b = omega arith

-- One more event goes on from where the replay stood.
replay_from-snoc :
    (s t u : InboxState) (seq : ℕ) (es : List LogEvent) (e : LogEvent)
    → replay_from s seq es ≡ ok t
    → replay_event t (seq + length es) e ≡ ok u
    → replay_from s seq (es ++ e ∷ []) ≡ ok u
unfolding replay_from
replay_from-snoc s t u seq [] e h k = ground arith
replay_from-snoc s t u seq (x ∷ es) e h k = elim (Result-cases (replay_event s seq x)) [
  | inl (mid, r) ↦
      rw (r, replay_from)
        (replay_from-snoc mid t u (suc seq) es e (rw (r, replay_from) at h)
          (rw (shift seq (length es)) at k))
  | inr (x', r) ↦ cc (rw (r, replay_from) at h)
]

-- The log from `seed_length` on replays to the live lists.
pub record IsReplayed (seed_length : ℕ) (s : Inbox) : Type 0 where
  pub fits : seed_length ≤ length s.log
  pub replays : construct seed_length s.log ≡ ok s.state

construct-snoc :
    (seed : ℕ) (es : List LogEvent) (e : LogEvent) (t u : InboxState)
    → seed ≤ length es
    → construct seed es ≡ ok t
    → replay_event t (seed + length (drop seed es)) e ≡ ok u
    → construct seed (es ++ e ∷ []) ≡ ok u
unfolding construct
construct-snoc seed es e t u fits h k =
    rw (drop-append seed es (e ∷ []) fits) (replay_from-snoc empty_state t u seed _ e h k)

-- An applied splice replays, and so does every foreign event.
replay-applied :
    (s t : InboxState) (seq : ℕ) (sp : Splice)
    → apply s sp ≡ ok t
    → replay_event s seq (spliced_event sp) ≡ ok t
unfolding replay_event
replay-applied s t seq sp h = ground arith

replay-other : (s : InboxState) (seq : ℕ) → replay_event s seq other_event ≡ ok s
unfolding replay_event
replay-other s seq = refl

module _ (seed : ℕ) where
  committed-IsReplayed :
      (s : Inbox) (target : InboxTarget) (start count : ℕ) (ms : List UserMessage) (d : Bool)
      (p : ℕ × ℕ)
      → IsReplayed seed s
      → validate s.state (normalized target start count ms d) ≡ ok p
      → IsReplayed seed (committed s (normalized target start count ms d) start count d).1
  unfolding committed normalized
  committed-IsReplayed s target start count ms d p r h = record {
    fits = omega (
      arith,
      r.fits,
      length-append s.log (spliced_event (normalized target start count ms d) ∷ []),
    );
    replays =
        construct-snoc seed s.log _ s.state _ r.fits r.replays
          (replay-applied s.state _ _ _ (apply-normalized s.state target start count ms d p h));
  }

  foreign-IsReplayed :
      (s : Inbox)
      → IsReplayed seed s
      → IsReplayed seed (record s { log = s.log ++ other_event ∷ [] })
  foreign-IsReplayed s r = record {
    fits = omega (arith, r.fits, length-append s.log (other_event ∷ []));
    replays = construct-snoc seed s.log _ s.state _ r.fits r.replays (replay-other s.state _);
  }

  announce-IsReplayed :
      (turn : ℕ) (ms : List UserMessage) (s : Inbox)
      → IsReplayed seed s
      → IsReplayed seed (announce turn ms s).1
  unfolding announce
  announce-IsReplayed turn ms s r = record { fits = r.fits; replays = r.replays }

  run-IsReplayed :
      (admits : List LogEvent → LogEvent → Bool) (s : Inbox) (cs : List Command)
      → IsReplayed seed s
      → IsReplayed seed (run admits s cs)
  run-IsReplayed admits =
      run_induction admits (IsReplayed seed)
        (mutate_induction admits (IsReplayed seed) committed-IsReplayed) announce-IsReplayed
        foreign-IsReplayed

-- If the durable log replays to the two pending lists, it still does after any sequence of calls,
-- whichever of them return or throw and whichever events the session refuses.
pub construct-run :
    (admits : List LogEvent → LogEvent → Bool) (seed_length : ℕ) (s : Inbox) (cs : List Command)
    → seed_length ≤ length s.log
    → construct seed_length s.log ≡ ok s.state
    → construct seed_length (run admits s cs).log ≡ ok (run admits s cs).state
construct-run admits seed s cs fits h =
    (run-IsReplayed seed admits s cs (record { fits = fits; replays = h })).replays
