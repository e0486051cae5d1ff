-- ===== src/Goal/Renewals.antt =====
-- What an accepted change (fold.ts) does to the references that may still come.
use agent_runtime_notes.Base.{
  Bool, Bool-cases, List, String, ap, arith, eq_iff, false, has, inl, inr, refl, some, str_eq,
  str_eq_refl, sym, true, ℕ, ◌&&◌, ◌+◌, ◌<◌, ◌==◌, ◌∙◌, ◌∷◌, ◌≡◌, ◌⊎◌, Option-cases, Result-cases,
  none, ok,
}
use agent_runtime_notes.Goal.Fold.{
  GoalFoldState, snapshot_ref, admit_change, apply_clear, apply_goal_change, apply_round,
  apply_source, goal_change_ref, require_next_revision, require_updated_at,
}
use agent_runtime_notes.Goal.{
  GoalRef, GoalSnapshot, GoalChange, GoalOperation, MessageSource, SnapshotChange, clear_change,
  goal_source, other_source, snapshot_change, to_create,
}
use agent_runtime_notes.Goal.Standing.{
  admit_change-fresh, admit_change-transition, validate_snapshot_transition-IsAdvance,
}

abbrev pub same_ref : GoalRef → GoalRef → Bool
same_ref a b = str_eq a.id b.id && a.revision == b.revision

-- A reference that no change so far has had: of a new identity, or a later revision of the current
-- goal.
abbrev pub IsLater : GoalFoldState → GoalRef → Type 0
IsLater s r =
    (has s.seen_goal_ids r.id ≡ false)
    ⊎ ((g : GoalSnapshot) × (s.goal ≡ some g) × (r.id ≡ g.id) × (g.revision < r.revision))

-- A change with the reference `ref` between two states.
pub record IsRenewal (s t : GoalFoldState) (ref : GoalRef) : Type 0 where
  pub later : IsLater s ref
  pub before : (r : GoalRef) → IsLater t r → IsLater s r
  pub other : (r : GoalRef) → IsLater t r → same_ref ref r ≡ false

abbrev pub HasSeen : GoalFoldState → Type 0
HasSeen s = (g : GoalSnapshot) → s.goal ≡ some g → has s.seen_goal_ids g.id ≡ true

same_ref-revision : (a b : GoalRef) → a.revision < b.revision → same_ref a b ≡ false
same_ref-revision a b h = ground (arith, h)

same_ref-unseen :
    (ids : List String) (a b : GoalRef)
    → has ids a.id ≡ true
    → has ids b.id ≡ false
    → same_ref a b ≡ false
same_ref-unseen ids a b p q = elim (Bool-cases (str_eq a.id b.id)) [
  | inr e ↦ rw e refl
  | inl e ↦
      let same : a.id ≡ b.id = ground (arith, e, eq_iff a.id b.id) in
      let clash : true ≡ false = sym p ∙ (ap (has ids) same ∙ q) in absurd (ground (arith, clash))
]

has-tail : (id x : String) (ids : List String) → has (id ∷ ids) x ≡ false → has ids x ≡ false
has-tail id x ids h = ground (arith, h)

-- A create that is let through.
created-IsRenewal :
    (s t : GoalFoldState) (goal : GoalSnapshot)
    → has s.seen_goal_ids goal.id ≡ false
    → t.seen_goal_ids ≡ goal.id ∷ s.seen_goal_ids
    → t.goal ≡ some goal
    → IsRenewal s t (snapshot_ref goal)
created-IsRenewal s t goal fresh ids now = record {
  later = inl fresh;
  before = λ r l. elim l [
    | inl unseen ↦
        inl (has-tail goal.id r.id s.seen_goal_ids (sym (ap (λ i. has i r.id) ids) ∙ unseen))
    | inr (g, e, same, more) ↦
        let known : goal ≡ g = ground (arith, sym now ∙ e) in
        inl (ap (has s.seen_goal_ids) (same ∙ ap (λ k. k.id) (sym known)) ∙ fresh)
  ];
  other = λ r l. elim l [
    | inl unseen ↦
        same_ref-unseen t.seen_goal_ids (snapshot_ref goal) r
          (rw ids (rw (str_eq_refl goal.id) refl)) unseen
    | inr (g, e, same, more) ↦
        let known : goal ≡ g = ground (arith, sym now ∙ e) in
        same_ref-revision (snapshot_ref goal) r (rw known more)
  ];
}

-- A change of the current goal that is let through leads to the next revision of it, or to none.
advanced-IsRenewal :
    (s t : GoalFoldState) (current : GoalSnapshot) (ref : GoalRef)
    → HasSeen s
    → s.goal ≡ some current
    → ref.id ≡ current.id
    → ref.revision ≡ current.revision + 1
    → t.seen_goal_ids ≡ s.seen_goal_ids
    → ((g : GoalSnapshot) → t.goal ≡ some g → snapshot_ref g ≡ ref)
    → IsRenewal s t ref
advanced-IsRenewal s t current ref seen e same next ids now = record {
  later = inr (current, e, same, omega (arith, next));
  before = λ r l. elim l [
    | inl unseen ↦ inl (sym (ap (λ i. has i r.id) ids) ∙ unseen)
    | inr (g, f, own, more) ↦
        let id : g.id ≡ ref.id = ap (λ k. k.id) (now g f) in
        let revision : g.revision ≡ ref.revision = ap (λ k. k.revision) (now g f) in
        inr (current, e, own ∙ (id ∙ same), omega (arith, next, revision, more))
  ];
  other = λ r l. elim l [
    | inl unseen ↦
        same_ref-unseen s.seen_goal_ids ref r (ap (has s.seen_goal_ids) same ∙ seen current e)
          (sym (ap (λ i. has i r.id) ids) ∙ unseen)
    | inr (g, f, own, more) ↦
        let revision : g.revision ≡ ref.revision = ap (λ k. k.revision) (now g f) in
        same_ref-revision ref r (omega (arith, revision, more))
  ];
}

snapshot-IsRenewal :
    (s t : GoalFoldState) (c : SnapshotChange) (op : GoalOperation) (ids : List String)
    → HasSeen s
    → c.operation ≡ op
    → admit_change s c op ≡ ok ids
    → t.seen_goal_ids ≡ ids
    → t.goal ≡ some c.goal
    → IsRenewal s t (snapshot_ref c.goal)
unfolding admit_change
snapshot-IsRenewal s t c to_create ids seen o a i now =
    let (fresh, grown) = admit_change-fresh s c ids o (rw o a) in
    created-IsRenewal s t c.goal fresh (i ∙ grown) now
snapshot-IsRenewal s t c op ids seen o a i now =
    let (current, e, v, kept) = admit_change-transition s c op ids (ground arith) a in
    let step = validate_snapshot_transition-IsAdvance s c current v in
    advanced-IsRenewal s t current (snapshot_ref c.goal) seen e step.same_id step.next_revision
      (i ∙ kept)
      λ g f. let known : c.goal ≡ g = ground (arith, sym now ∙ f) in sym (ap snapshot_ref known)

clear-IsRenewal :
    (s t : GoalFoldState) (current : GoalSnapshot) (ref : GoalRef) (at : ℕ)
    → HasSeen s
    → s.goal ≡ some current
    → apply_clear s ref at current ≡ ok t
    → IsRenewal s t ref
unfolding apply_clear require_next_revision require_updated_at
clear-IsRenewal s t current ref at seen e h =
    let same : ref.id ≡ current.id = ground (arith, eq_iff ref.id current.id) in
    let next : ref.revision ≡ current.revision + 1 = ground arith in
    let ids : t.seen_goal_ids ≡ s.seen_goal_ids = ground arith in
    let gone : t.goal ≡ none = ground arith in
    advanced-IsRenewal s t current ref seen e same next ids
      λ g f. let clash : none ≡ some g = sym gone ∙ f in absurd (ground (arith, clash))

pub apply_goal_change-IsRenewal :
    (s t : GoalFoldState) (change : GoalChange)
    → HasSeen s
    → apply_goal_change s change ≡ ok t
    → IsRenewal s t (goal_change_ref change)
unfolding apply_goal_change apply_clear
apply_goal_change-IsRenewal s t (clear_change ref at) seen h = elim (Option-cases s.goal) [
  | inl n ↦ absurd (ground arith)
  | inr (current, n) ↦ clear-IsRenewal s t current ref at seen n (rw n at h)
]
apply_goal_change-IsRenewal s t (snapshot_change c) seen h =
    elim (Result-cases (admit_change s c c.operation)) [
      | inr (x, a) ↦ absurd (ground arith)
      | inl (ids, a) ↦
          let q : (t.goal ≡ some c.goal) × (t.seen_goal_ids ≡ ids) = ground arith in
          snapshot-IsRenewal s t c c.operation ids seen refl a q.1 q.0
    ]

-- A message, of a round or not, leaves the goal and the identities.
pub apply_source-same :
    (s t : GoalFoldState) (source : MessageSource)
    → apply_source s source ≡ ok t
    → (t.goal ≡ s.goal) × (t.seen_goal_ids ≡ s.seen_goal_ids)
unfolding apply_source apply_round
apply_source-same s t other_source h = ground arith
apply_source-same s t (goal_source id revision round) h = ground arith

pub same-IsLater :
    (s t : GoalFoldState) (r : GoalRef)
    → t.goal ≡ s.goal
    → t.seen_goal_ids ≡ s.seen_goal_ids
    → IsLater t r
    → IsLater s r
same-IsLater s t r goal ids (inl unseen) = inl (sym (ap (λ i. has i r.id) ids) ∙ unseen)
same-IsLater s t r goal ids (inr (g, e, own, more)) = inr (g, sym goal ∙ e, own, more)
