-- ===== src/Inbox/Insertion.antt =====
-- `append` on every branch.
use agent_runtime_notes.Base.{
  ℕ, zero, suc, ◌+◌, ◌≤◌, ◌≡◌, ◌∙◌, refl, Bool, true, List, [], ◌∷◌, ◌++◌, arith, length, inl, inr,
  IsDistinct, first_duplicate, first_duplicate_iff, count, none, some, max_safe_integer,
  Option-cases, String, has, drop, take_all, if◌then◌else◌, ok, err, Bool-cases, count-of-has,
  eq_iff, str_eq, str_eq_refl, count-of-not-has, ap,
}
use agent_runtime_notes.Inbox.{
  UserMessage, InboxTarget, next_turn, next_step, InboxState, LogEvent, spliced_event, Inbox,
  list_at, set_list, normalized, committed, pending_ids, ids, already_pending, append_rejected,
  candidate, append, splice, Notification, is_empty,
}
use agent_runtime_notes.Inbox.Ranges.{mutate-in_range, commit-in_range}

drop-past : {A : Type 0} (n : ℕ) (xs : List A) → length xs ≤ n → drop n xs ≡ []
drop-past zero [] h = refl
drop-past zero (x ∷ xs) h = absurd (omega arith)
drop-past (suc n) [] h = refl
drop-past (suc n) (x ∷ xs) h = drop-past n xs (omega arith)

pub count-map-append :
    (id : String) (xs ys : List UserMessage)
    → count id (ids (xs ++ ys)) ≡ count id (ids xs) + count id (ids ys)
count-map-append id [] ys = omega arith
count-map-append id (x ∷ xs) ys = omega (arith, count-map-append id xs ys)

-- What the loop over the identities throws for occurs twice.
count-of-first_duplicate :
    (seen xs : List String) (id : String)
    → first_duplicate seen xs ≡ some id
    → 2 ≤ count id seen + count id xs
count-of-first_duplicate seen [] id h = cc
count-of-first_duplicate seen (x ∷ xs) id h = elim (Bool-cases (has seen x)) [
  | inl old ↦ ground (arith, count-of-has seen x old, str_eq_refl x, eq_iff x id)
  | inr new ↦ omega (arith, count-of-first_duplicate (x ∷ seen) xs id (rw new at h))
]

-- The lists with one more message at the end of one of them.
abbrev pub appended : InboxState → InboxTarget → UserMessage → InboxState
appended s target m = set_list s target (list_at s target ++ m ∷ [])

count-appended :
    (s : InboxState) (target : InboxTarget) (m : UserMessage) (id : String)
    → count id (pending_ids (appended s target m))
      ≡ count id (pending_ids s) + (if str_eq m.id id then 1 else 0)
count-appended s next_turn m id = omega (
  arith,
  count-map-append id (s.turns ++ m ∷ []) s.steps,
  count-map-append id s.turns (m ∷ []),
  count-map-append id s.turns s.steps,
)
count-appended s next_step m id = omega (
  arith,
  count-map-append id s.turns (s.steps ++ m ∷ []),
  count-map-append id s.steps (m ∷ []),
  count-map-append id s.turns s.steps,
)

first_duplicate-appended :
    (s : InboxState) (target : InboxTarget) (m : UserMessage)
    → IsDistinct (pending_ids s)
    → first_duplicate [] (pending_ids (appended s target m))
      ≡ (if has (pending_ids s) m.id then some m.id else none)
first_duplicate-appended s target m d =
    let old = pending_ids s in
    let new = pending_ids (appended s target m) in
    elim (Bool-cases (has old m.id)) [
      | inl known ↦ elim (Option-cases (first_duplicate [] new)) [
        | inl e ↦ absurd (
            ground (
              arith,
              (first_duplicate_iff new).0 e m.id,
              count-appended s target m m.id,
              count-of-has old m.id known,
              str_eq_refl m.id,
            ))
        | inr (id, e) ↦
            rw (known, e)
              (ground (
                arith,
                count-of-first_duplicate [] new id e,
                count-appended s target m id,
                d id,
                eq_iff m.id id,
              ))
      ]
      | inr fresh ↦ rw fresh (
          (first_duplicate_iff new).1 (λ id. ground (
            arith,
            count-appended s target m id,
            d id,
            eq_iff m.id id,
            count-of-not-has old m.id fresh,
          )))
    ]

candidate-append :
    (s : InboxState) (target : InboxTarget) (m : UserMessage)
    → candidate s target (length (list_at s target)) 0 (m ∷ []) ≡ appended s target m
unfolding candidate
candidate-append s target m =
    let old = list_at s target in
    ap (set_list s target) (rw (take_all old, drop-past (length old + 0) old (omega arith)) refl)

-- From distinct pending identities and a list of at most 2^53 - 1 messages, append throws for a
-- message whose identity is pending and changes nothing; otherwise it puts the message at the end
-- of the list, logs the insertion, and publishes it, unless the session refuses the event, which
-- changes nothing.
pub append_lem :
    (admits : List LogEvent → LogEvent → Bool) (s : Inbox) (target : InboxTarget) (m : UserMessage)
    → IsDistinct (pending_ids s.state)
    → length (list_at s.state target) ≤ max_safe_integer
    → append admits s target m ≡ (
        if has (pending_ids s.state) m.id
        then (err (already_pending m.id), s)
        else if admits s.log
            (spliced_event (normalized target (length (list_at s.state target)) 0 (m ∷ []) true))
        then (
          ok [],
          record {
            state = appended s.state target m;
            log =
                s.log
                ++ spliced_event
                    (normalized target (length (list_at s.state target)) 0 (m ∷ []) true)
                  ∷ [];
            published = s.published ++ Notification.inserted m ∷ [];
          },
        )
        else (err append_rejected, s))
unfolding append splice is_empty committed normalized
append_lem admits s target m d short =
    let n = length (list_at s.state target) in
    mutate-in_range admits s target n 0 (m ∷ []) true (omega arith)
    ∙ commit-in_range admits s target n 0 (m ∷ []) true (omega arith) short
    ∙ rw (candidate-append s.state target m, first_duplicate-appended s.state target m d, committed)
        (elim (Bool-cases (has (pending_ids s.state) m.id)) [
          | inl known ↦ rw known
          | inr fresh ↦ rw (fresh, committed) (rw (candidate-append s.state target m) refl)
        ])
