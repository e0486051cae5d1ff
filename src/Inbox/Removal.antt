-- ===== src/Inbox/Removal.antt =====
-- Deletions at the head of a list.
use mathlib.Core.List.{append-nil}
use agent_runtime_notes.Base.{
  ℕ, zero, suc, ◌+◌, ◌≤◌, ◌≡◌, refl, sym, ap, ◌∙◌, Bool, true, false, List, [], ◌∷◌, ◌++◌, arith,
  length, IsDistinct, first_duplicate_iff, count, max_safe_integer, map, String, take, drop, min,
  ◌-◌, if◌then◌else◌, ok, of_ℕ, ◌==◌,
}
use agent_runtime_notes.Inbox.{
  UserMessage, InboxTarget, next_turn, next_step, InboxState, LogEvent, Inbox, Outcome, list_at,
  set_list, normalized, committed, pending_ids, ids, candidate, mutate, commit, Notification,
  is_empty, actual_start, actual_delete_count,
}
use agent_runtime_notes.Inbox.Ranges.{mutate-in_range, commit-in_range}
use agent_runtime_notes.Inbox.Insertion.{count-map-append}

count-drop-le :
    (id : String) (a b : ℕ) (xs : List UserMessage)
    → a ≤ b
    → count id (ids (drop b xs)) ≤ count id (ids (drop a xs))
count-drop-le id zero zero xs h = omega arith
count-drop-le id zero (suc b) [] h = omega arith
count-drop-le id zero (suc b) (x ∷ xs) h = omega (arith, count-drop-le id zero b xs)
count-drop-le id (suc a) zero xs h = absurd (omega arith)
count-drop-le id (suc a) (suc b) [] h = omega arith
count-drop-le id (suc a) (suc b) (x ∷ xs) h = count-drop-le id a b xs (omega arith)

count-take-drop :
    (id : String) (n : ℕ) (xs : List UserMessage)
    → count id (ids (take n xs)) + count id (ids (drop n xs)) ≡ count id (ids xs)
count-take-drop id zero xs = omega arith
count-take-drop id (suc n) [] = omega arith
count-take-drop id (suc n) (x ∷ xs) = omega (arith, count-take-drop id n xs)

-- A deletion makes no identity pending more often.
count-deleted :
    (s : InboxState) (target : InboxTarget) (start removed : ℕ) (id : String)
    → count id (pending_ids (candidate s target start removed [])) ≤ count id (pending_ids s)
unfolding candidate
count-deleted s next_turn start removed id =
    let kept = take start s.turns in
    let rest = drop (start + removed) s.turns in
    omega (
      arith,
      count-map-append id (kept ++ rest) s.steps,
      count-map-append id kept rest,
      count-map-append id s.turns s.steps,
      count-take-drop id start s.turns,
      count-drop-le id start (start + removed) s.turns,
    )
count-deleted s next_step start removed id =
    let kept = take start s.steps in
    let rest = drop (start + removed) s.steps in
    omega (
      arith,
      count-map-append id s.turns (kept ++ rest),
      count-map-append id kept rest,
      count-map-append id s.turns s.steps,
      count-take-drop id start s.steps,
      count-drop-le id start (start + removed) s.steps,
    )

-- The list without its first `k` messages, which are the result.
pub record IsPrefixTaken (s : Inbox) (target : InboxTarget) (k : ℕ) (d : Bool)
    (r : Outcome (List UserMessage) × Inbox) : Type 0 where
  pub taken : r.0 ≡ ok (take k (list_at s.state target))
  pub left : r.1.state ≡ set_list s.state target (drop k (list_at s.state target))
  pub announced :
      r.1.published
      ≡ s.published
        ++ (if d then map Notification.discarded (take k (list_at s.state target)) else [])

take-clamped : (m k : ℕ) (xs : List UserMessage) → m ≡ min k (length xs) → take m xs ≡ take k xs
take-clamped zero zero xs h = refl
take-clamped zero (suc k) [] h = refl
take-clamped zero (suc k) (x ∷ xs) h = absurd (omega arith)
take-clamped (suc m) zero xs h = absurd (omega arith)
take-clamped (suc m) (suc k) [] h = refl
take-clamped (suc m) (suc k) (x ∷ xs) h = ap (λ r. x ∷ r) (take-clamped m k xs (omega arith))

drop-clamped : (m k : ℕ) (xs : List UserMessage) → m ≡ min k (length xs) → drop m xs ≡ drop k xs
drop-clamped zero zero xs h = refl
drop-clamped zero (suc k) [] h = refl
drop-clamped zero (suc k) (x ∷ xs) h = absurd (omega arith)
drop-clamped (suc m) zero xs h = absurd (omega arith)
drop-clamped (suc m) (suc k) [] h = refl
drop-clamped (suc m) (suc k) (x ∷ xs) h = drop-clamped m k xs (omega arith)

set_list_self : (s : InboxState) (target : InboxTarget) → s ≡ set_list s target (list_at s target)
set_list_self s next_turn = refl
set_list_self s next_step = refl

published-none :
    (ns : List Notification) (d : Bool)
    → ns ≡ ns ++ (if d then map Notification.discarded [] else [])
published-none ns true = sym (append-nil ns)
published-none ns false = sym (append-nil ns)

suc-eq-zero : (k : ℕ) → (suc k == 0) ≡ false
suc-eq-zero k = ground arith

candidate_prefix :
    (s : InboxState) (target : InboxTarget) (k : ℕ)
    → candidate s target 0 k [] ≡ set_list s target (drop k (list_at s target))
unfolding candidate
candidate_prefix s target k = ap (λ n. set_list s target (drop n (list_at s target))) (omega arith)

committed_prefix :
    (s : Inbox) (target : InboxTarget) (k : ℕ) (d : Bool)
    → IsPrefixTaken s target (suc k) d (committed s (normalized target 0 (suc k) [] d) 0 (suc k) d)
unfolding committed normalized
committed_prefix s target k d = record {
  taken = refl;
  left = candidate_prefix s.state target (suc k);
  announced = ap (λ ns. s.published ++ ns) (append-nil _);
}

module _ (admits : List LogEvent → LogEvent → Bool)
    (admitting : (log : List LogEvent) (e : LogEvent) → admits log e ≡ true) where
  commit_prefix :
      (s : Inbox) (target : InboxTarget) (k : ℕ) (d : Bool)
      → IsDistinct (pending_ids s.state)
      → k ≤ length (list_at s.state target)
      → length (list_at s.state target) ≤ max_safe_integer
      → commit admits s (normalized target 0 k [] d) 0 k d
        ≡ committed s (normalized target 0 k [] d) 0 k d
  commit_prefix s target k d i h short =
      let fresh =
        (first_duplicate_iff (pending_ids (candidate s.state target 0 k []))).1
          (λ id. omega (arith, count-deleted s.state target 0 k id, i id)) in
      commit-in_range admits s target 0 k [] d (omega arith) short ∙ rw (fresh, admitting) refl

  mutate_prefix :
      (s : Inbox) (target : InboxTarget) (k : ℕ) (d : Bool)
      → IsDistinct (pending_ids s.state)
      → k ≤ length (list_at s.state target)
      → length (list_at s.state target) ≤ max_safe_integer
      → IsPrefixTaken s target k d (mutate admits s target (of_ℕ 0) (of_ℕ k) [] d)
  unfolding is_empty
  mutate_prefix s target zero d i h short =
      rw (mutate-in_range admits s target 0 0 [] d (omega arith)) (record {
        taken = refl;
        left = set_list_self s.state target;
        announced = published-none s.published d;
      })
  mutate_prefix s target (suc k) d i h short =
      rw (mutate-in_range admits s target 0 (suc k) [] d (omega arith)) (
        rw (commit_prefix s target (suc k) d i h short, suc-eq-zero k)
          (committed_prefix s target k d))

  -- The removed count is clamped to the list's length.
  mutate-clamped :
      (s : Inbox) (target : InboxTarget) (k : ℕ) (d : Bool)
      → mutate admits s target (of_ℕ 0) (of_ℕ k) [] d
        ≡ mutate admits s target (of_ℕ 0) (of_ℕ (min k (length (list_at s.state target)))) [] d
  unfolding mutate actual_start actual_delete_count
  mutate-clamped s target k d =
      let len = length (list_at s.state target) in
      let e : min k (len - min 0 len) ≡ min (min k len) (len - min 0 len) = omega arith in
      rw (e, mutate)

  pub mutate_first :
      (s : Inbox) (target : InboxTarget) (k : ℕ) (d : Bool)
      → IsDistinct (pending_ids s.state)
      → length (list_at s.state target) ≤ max_safe_integer
      → IsPrefixTaken s target k d (mutate admits s target (of_ℕ 0) (of_ℕ k) [] d)
  mutate_first s target k d i short =
      let old = list_at s.state target in
      let p = mutate_prefix s target (min k (length old)) d i (omega arith) short in
      let t = take-clamped (min k (length old)) k old refl in
      rw (mutate-clamped s target k d) (record {
        taken = p.taken ∙ ap ok t;
        left = p.left ∙ ap (set_list s.state target) (drop-clamped (min k (length old)) k old refl);
        announced =
            p.announced
            ∙ ap (λ ms. s.published ++ (if d then map Notification.discarded ms else [])) t;
      })
