-- ===== src/Goal/Standing.antt =====
-- The states that the strict fold (fold.ts) reaches: a well-formedness invariant.
use mathlib.Core.Logic.{◌≢◌}
use agent_runtime_notes.Base.{
  ℕ, ◌≤◌, ◌+◌, ◌≡◌, refl, String, true, false, List, [], ◌∷◌, some, arith, eq_iff, max_safe_integer,
  ok, Result-cases, ok-injective, Option-cases, inl, inr, has, str_eq_refl,
}
use agent_runtime_notes.Goal.{
  GoalSnapshot, SnapshotChange, GoalChange, GoalOperation, to_create, snapshot_change, clear_change,
  RawChange, MessageSource, goal_source, other_source, GoalEvent, goal_change, user_message,
  other_event,
}
use agent_runtime_notes.Goal.Decode.{decode_goal_change}
use agent_runtime_notes.Goal.Fold.{
  GoalFoldState, empty_goal_fold_state, admit_change, apply_clear, apply_goal_change, apply_source,
  apply_round, apply_goal_event, fold_from, fold_goal, validate_snapshot_transition,
  require_next_revision, require_updated_at, positive_index,
}
use agent_runtime_notes.Goal.Soundness.{IsSoundGoal, decode_goal_change-IsSoundChange}

-- The facts of a state with a current goal.
pub record IsStanding (trim : String → String) (state : GoalFoldState) (g : GoalSnapshot)
    : Type 0 where
  pub sound : IsSoundGoal trim g
  pub created : ℕ
  pub updated : ℕ
  pub created_at : state.created_at ≡ some created
  pub updated_at : state.updated_at ≡ some updated
  pub ordered : created ≤ updated
  pub updated_safe : updated ≤ max_safe_integer
  pub rounds_safe : state.rounds_started ≤ max_safe_integer
  pub seen : has state.seen_goal_ids g.id ≡ true

abbrev pub IsSoundState : (String → String) → GoalFoldState → Type 0
IsSoundState trim state = (g : GoalSnapshot) → state.goal ≡ some g → IsStanding trim state g

-- What an accepted change keeps of the goal before it, and how it advances it.
pub record IsAdvance (state : GoalFoldState) (c : SnapshotChange) (current : GoalSnapshot)
    : Type 0 where
  pub same_id : c.goal.id ≡ current.id
  pub next_revision : c.goal.revision ≡ current.revision + 1
  pub created_kept : state.created_at ≡ some c.created_at
  pub rounds_kept : c.rounds_started ≡ state.rounds_started
  pub updated : ℕ
  pub updated_before : state.updated_at ≡ some updated
  pub updated_ordered : updated ≤ c.updated_at

pub validate_snapshot_transition-IsAdvance :
    (state : GoalFoldState) (c : SnapshotChange) (current : GoalSnapshot)
    → validate_snapshot_transition state c current ≡ ok tt
    → IsAdvance state c current
unfolding validate_snapshot_transition require_next_revision require_updated_at
validate_snapshot_transition-IsAdvance state c current h = elim (Option-cases state.updated_at) [
  | inl e ↦ absurd (ground arith)
  | inr (at, e) ↦ record {
    same_id = ground (arith, eq_iff c.goal.id current.id);
    next_revision = ground arith;
    created_kept = ground arith;
    rounds_kept = ground arith;
    updated = at;
    updated_before = e;
    updated_ordered = ground arith;
  }
]

-- Any operation but a create goes through the transition's checks.
pub admit_change-transition :
    (state : GoalFoldState) (c : SnapshotChange) (op : GoalOperation) (ids : List String)
    → op ≢ to_create
    → admit_change state c op ≡ ok ids
    → (current : GoalSnapshot) × (state.goal ≡ some current)
      × (validate_snapshot_transition state c current ≡ ok tt)
      × (ids ≡ state.seen_goal_ids)
unfolding admit_change
admit_change-transition state c to_create ids ne h = absurd (ne refl)
admit_change-transition state c _ ids ne h = ground arith

-- A create that is let through brings an identity that no earlier goal of the log had.
pub admit_change-fresh :
    (state : GoalFoldState) (c : SnapshotChange) (ids : List String)
    → c.operation ≡ to_create
    → admit_change state c c.operation ≡ ok ids
    → (has state.seen_goal_ids c.goal.id ≡ false) × (ids ≡ c.goal.id ∷ state.seen_goal_ids)
unfolding admit_change
admit_change-fresh state c ids e h = created state c ids (rw e at h)
  where
    created :
        (state : GoalFoldState) (c : SnapshotChange) (ids : List String)
        → admit_change state c to_create ≡ ok ids
        → (has state.seen_goal_ids c.goal.id ≡ false) × (ids ≡ c.goal.id ∷ state.seen_goal_ids)
    created state c ids h = ground arith

-- An admitted change leaves its own goal among the seen ones.
admit_change-seen :
    (state : GoalFoldState) (c : SnapshotChange) (op : GoalOperation) (ids : List String)
    → ((g : GoalSnapshot) → state.goal ≡ some g → has state.seen_goal_ids g.id ≡ true)
    → admit_change state c op ≡ ok ids
    → has ids c.goal.id ≡ true
unfolding admit_change
admit_change-seen state c to_create ids k h =
    let e : c.goal.id ∷ state.seen_goal_ids ≡ ids = ground arith in
    rw (← e) (rw (str_eq_refl c.goal.id) refl)
admit_change-seen state c op ids k h =
    let (current, e, v, q) = admit_change-transition state c op ids (ground arith) h in
    rw (q, (validate_snapshot_transition-IsAdvance state c current v).same_id) (k current e)

module _ (trim : String → String) where
  apply_goal_change-IsSoundState :
      (s t : GoalFoldState) (change : GoalChange) (raw : RawChange)
      → decode_goal_change trim raw ≡ ok (some change)
      → apply_goal_change s change ≡ ok t
      → IsSoundState trim s
      → IsSoundState trim t
  unfolding apply_goal_change apply_clear
  apply_goal_change-IsSoundState s t (clear_change ref at) raw d h k g e = absurd (ground arith)
  apply_goal_change-IsSoundState s t (snapshot_change c) raw d h k g e =
      elim (Result-cases (admit_change s c c.operation)) [
        | inl (ids, a) ↦
            let q : (c.goal ≡ g)
                × (t.rounds_started ≡ c.rounds_started)
                × (t.created_at ≡ some c.created_at)
                × (t.updated_at ≡ some c.updated_at)
                × (t.seen_goal_ids ≡ ids) =
              ground arith in
            let sound = decode_goal_change-IsSoundChange trim raw c d in
            record {
              sound = rw (← q.0) sound.goal;
              created = c.created_at;
              updated = c.updated_at;
              created_at = q.2;
              updated_at = q.3;
              ordered = sound.ordered;
              updated_safe = sound.updated_safe;
              rounds_safe = rw q.1 sound.rounds_safe;
              seen =
                  rw (q.4, ← q.0) (admit_change-seen s c c.operation ids (λ j p. (k j p).seen) a);
            }
        | inr (x, a) ↦ absurd (ground arith)
      ]

  -- A round moves the counter and nothing else.
  apply_round-IsSoundState :
      (s t : GoalFoldState) (id : String) (revision round : ℕ)
      → apply_round s id revision round ≡ ok t
      → IsSoundState trim s
      → IsSoundState trim t
  unfolding apply_round
  apply_round-IsSoundState s t id revision round h k g e = elim (Option-cases s.goal) [
    | inl n ↦ absurd (ground arith)
    | inr (current, n) ↦
        let q : (record s { rounds_started = round } ≡ t) × (round ≤ current.max_goal_rounds) =
          ground arith in
        let same : s.goal ≡ some g = rw (← q.0) at e in
        let b = k g same in
        let cap = (k current n).sound.rounds_safe in
        rw (← q.0) (record {
          sound = b.sound;
          created = b.created;
          updated = b.updated;
          created_at = b.created_at;
          updated_at = b.updated_at;
          ordered = b.ordered;
          updated_safe = b.updated_safe;
          rounds_safe = omega (arith, q.1, cap);
          seen = b.seen;
        })
  ]

  apply_source-IsSoundState :
      (s t : GoalFoldState) (source : MessageSource)
      → apply_source s source ≡ ok t
      → IsSoundState trim s
      → IsSoundState trim t
  unfolding apply_source
  apply_source-IsSoundState s t other_source h k = rw (ok-injective _ _ h) at k
  apply_source-IsSoundState s t (goal_source id revision round) h k =
      elim (Option-cases (positive_index revision)) [
        | inl n ↦ absurd (ground arith)
        | inr (r, n) ↦ elim (Option-cases (positive_index round)) [
          | inl m ↦ absurd (ground arith)
          | inr (i, m) ↦ apply_round-IsSoundState s t id r i (ground arith) k
        ]
      ]

  pub apply_goal_event-IsSoundState :
      (s t : GoalFoldState) (event : GoalEvent)
      → apply_goal_event trim s event ≡ ok t
      → IsSoundState trim s
      → IsSoundState trim t
  unfolding apply_goal_event
  apply_goal_event-IsSoundState s t other_event h k = rw (ok-injective _ _ h) at k
  apply_goal_event-IsSoundState s t (user_message source) h k =
      apply_source-IsSoundState s t source h k
  apply_goal_event-IsSoundState s t (goal_change raw) h k =
      elim (Result-cases (decode_goal_change trim raw)) [
        | inr (x, e) ↦ absurd (ground arith)
        | inl (found, e) ↦ elim (Option-cases found) [
          | inl n ↦ absurd (ground arith)
          | inr (change, n) ↦
              apply_goal_change-IsSoundState s t change raw (rw n at e) (ground arith) k
        ]
      ]

  pub fold_from-IsSoundState :
      (s t : GoalFoldState) (events : List GoalEvent)
      → fold_from trim s events ≡ ok t
      → IsSoundState trim s
      → IsSoundState trim t
  unfolding fold_from
  fold_from-IsSoundState s t [] h k = rw (ok-injective _ _ h) at k
  fold_from-IsSoundState s t (event ∷ events) h k =
      elim (Result-cases (apply_goal_event trim s event)) [
        | inr (x, e) ↦ absurd (ground arith)
        | inl (u, e) ↦
            fold_from-IsSoundState u t events (rw (e, fold_from) at h)
              (apply_goal_event-IsSoundState s u event e k)
      ]

  -- In the state of every log that the strict fold accepts, a current goal is sound (non-empty
  -- identity, trimmed objective, a canonical reason exactly while blocked, revision and cap
  -- between 1 and 2^53 - 1), has ordered timestamps, a round counter of at most 2^53 - 1, and an
  -- identity among those seen.
  pub fold_goal-IsSoundState :
      (log : List GoalEvent) (t : GoalFoldState) → fold_goal trim log ≡ ok t → IsSoundState trim t
  unfolding fold_goal
  fold_goal-IsSoundState log t h =
      fold_from-IsSoundState empty_goal_fold_state t log h (λ g e. absurd (ground arith))
