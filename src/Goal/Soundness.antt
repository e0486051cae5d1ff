-- ===== src/Goal/Soundness.antt =====
-- The strict decoder (`decodeGoalChange` of fold.ts) and the changes that the service encodes.
use agent_runtime_notes.Base.{
  ℕ, ◌≤◌, ◌≡◌, String, true, false, Option, none, some, arith, str_eq, JsNumber, of_ℕ,
  max_safe_integer, ok, Result-cases, inl, inr, Bool, ap, eq_iff, refl, str_eq_refl, sym, ◌∙◌,
}
use agent_runtime_notes.Goal.{
  GoalRef, GoalBlockReason, GoalSnapshot, SnapshotChange, snapshot_change, clear_change,
  RawSnapshot, RawChange, other_kind, malformed, raw_clear, raw_snapshot, encode, to_raw, GoalPhase,
  blocked, is_phase,
}
use agent_runtime_notes.Goal.Decode.{
  decode_goal_change, decode_snapshot, decode_ref, decode_reason, decode_block_reason,
  positive_integer, non_negative_integer, is_trimmed, has_expected_fields, is_kebab,
}

positive_integer-ok :
    (n : JsNumber) (k : ℕ) → positive_integer n ≡ ok k → (1 ≤ k) × (k ≤ max_safe_integer)
unfolding positive_integer
positive_integer-ok n k h = ground arith

non_negative_integer-ok :
    (n : JsNumber) (k : ℕ) → non_negative_integer n ≡ ok k → k ≤ max_safe_integer
unfolding non_negative_integer
non_negative_integer-ok n k h = ground arith

positive_integer-of_ℕ : (k : ℕ) → 1 ≤ k → k ≤ max_safe_integer → positive_integer (of_ℕ k) ≡ ok k
unfolding positive_integer
positive_integer-of_ℕ k h l = ground arith

non_negative_integer-of_ℕ : (k : ℕ) → k ≤ max_safe_integer → non_negative_integer (of_ℕ k) ≡ ok k
unfolding non_negative_integer
non_negative_integer-of_ℕ k l = ground arith

abbrev pub has_reason : Option GoalBlockReason → Bool
has_reason none = false
has_reason (some reason) = true

has_reason-has_expected_fields :
    (phase : GoalPhase) (reason : Option GoalBlockReason)
    → has_reason reason ≡ is_phase phase blocked
    → has_expected_fields phase reason ≡ true
has_reason-has_expected_fields blocked none h = absurd (ground arith)
has_reason-has_expected_fields blocked (some reason) h = refl
has_reason-has_expected_fields _ none h = refl
has_reason-has_expected_fields _ (some reason) h = absurd (ground arith)

has_expected_fields-has_reason :
    (phase : GoalPhase) (reason : Option GoalBlockReason)
    → has_expected_fields phase reason ≡ true
    → has_reason reason ≡ is_phase phase blocked
has_expected_fields-has_reason blocked none h = absurd (ground arith)
has_expected_fields-has_reason blocked (some reason) h = refl
has_expected_fields-has_reason _ none h = refl
has_expected_fields-has_reason _ (some reason) h = absurd (ground arith)

module _ (trim : String → String) where
  -- A text that is not empty and that trimming leaves alone.
  abbrev pub IsNormal : String → Type 0
  IsNormal text = (trim text ≡ text) × (str_eq text "" ≡ false)

  -- A reason, when there is one, has a kebab-case code and a normal message.
  abbrev pub IsSoundReason : Option GoalBlockReason → Type 0
  IsSoundReason none = Unit
  IsSoundReason (some reason) = (is_kebab reason.code ≡ true) × IsNormal reason.message

  pub IsNormal-is_trimmed : (text : String) → IsNormal text → is_trimmed trim text ≡ true
  IsNormal-is_trimmed text (same, full) = rw (same, full, str_eq_refl text) refl

  pub is_trimmed-IsNormal : (text : String) → is_trimmed trim text ≡ true → IsNormal text
  is_trimmed-IsNormal text h =
      let same : text ≡ trim text = ground (arith, eq_iff text (trim text)) in
      let full : str_eq (trim text) "" ≡ false = ground arith in
      (sym same, ap (λ t. str_eq t "") same ∙ full)

  IsSoundReason-decode_reason :
      (reason : Option GoalBlockReason)
      → IsSoundReason reason
      → decode_reason trim reason ≡ ok reason
  unfolding decode_reason decode_block_reason
  IsSoundReason-decode_reason none h = refl
  IsSoundReason-decode_reason (some reason) (code, message) =
      rw (code, IsNormal-is_trimmed reason.message message) refl

  pub decode_reason-IsSoundReason :
      (reason q : Option GoalBlockReason) → decode_reason trim reason ≡ ok q → IsSoundReason reason
  unfolding decode_reason decode_block_reason
  decode_reason-IsSoundReason none q h = tt
  decode_reason-IsSoundReason (some reason) q h =
      let kebab : is_kebab reason.code ≡ true = ground arith in
      let trimmed : is_trimmed trim reason.message ≡ true = ground arith in
      (kebab, is_trimmed-IsNormal reason.message trimmed)

  -- A reason stands exactly beside the phase `blocked`.
  pub record IsSoundGoal (g : GoalSnapshot) : Type 0 where
    pub named : str_eq g.id "" ≡ false
    pub normal : IsNormal g.objective
    pub fields : has_reason g.blocked_reason ≡ is_phase g.phase blocked
    pub revision_pos : 1 ≤ g.revision
    pub revision_safe : g.revision ≤ max_safe_integer
    pub rounds_pos : 1 ≤ g.max_goal_rounds
    pub rounds_safe : g.max_goal_rounds ≤ max_safe_integer
    pub reason : IsSoundReason g.blocked_reason

  pub record IsSoundChange (c : SnapshotChange) : Type 0 where
    pub goal : IsSoundGoal c.goal
    pub ordered : c.created_at ≤ c.updated_at
    pub updated_safe : c.updated_at ≤ max_safe_integer
    pub rounds_safe : c.rounds_started ≤ max_safe_integer

  decode_reason-ok : (r q : Option GoalBlockReason) → decode_reason trim r ≡ ok q → (q ≡ r)
  unfolding decode_reason decode_block_reason
  decode_reason-ok none q h = ground arith
  decode_reason-ok (some reason) q h = ground arith

  decode_snapshot-ok :
      (raw : RawSnapshot) (g : GoalSnapshot)
      → decode_snapshot trim raw ≡ ok g
      → (rev : ℕ) × (most : ℕ) × (reason : Option GoalBlockReason) × (positive_integer raw.revision
          ≡ ok rev)
        × (positive_integer raw.max_goal_rounds ≡ ok most)
        × (decode_reason trim raw.blocked_reason ≡ ok reason)
        × (str_eq raw.id "" ≡ false)
        × (is_trimmed trim raw.objective ≡ true)
        × (has_expected_fields raw.phase raw.blocked_reason ≡ true)
        × (g ≡ record {
          id = raw.id;
          revision = rev;
          objective = raw.objective;
          phase = raw.phase;
          blocked_reason = reason;
          max_goal_rounds = most;
        })
  unfolding decode_snapshot
  decode_snapshot-ok raw g h = ground arith

  decode_snapshot-IsSoundGoal :
      (raw : RawSnapshot) (g : GoalSnapshot) → decode_snapshot trim raw ≡ ok g → IsSoundGoal g
  decode_snapshot-IsSoundGoal raw g h =
      let (rev, most, reason, e_rev, e_most, e_reason, named, trimmed, fields, q) =
        decode_snapshot-ok raw g h in
      let same = decode_reason-ok raw.blocked_reason reason e_reason in
      rw q (record {
        named = named;
        normal = is_trimmed-IsNormal raw.objective trimmed;
        fields = has_expected_fields-has_reason raw.phase reason (rw same fields);
        revision_pos = (positive_integer-ok raw.revision rev e_rev).0;
        revision_safe = (positive_integer-ok raw.revision rev e_rev).1;
        rounds_pos = (positive_integer-ok raw.max_goal_rounds most e_most).0;
        rounds_safe = (positive_integer-ok raw.max_goal_rounds most e_most).1;
        reason = decode_reason-IsSoundReason reason reason (rw same (rw same at e_reason));
      })

  pub decode-encode_snapshot :
      (g : GoalSnapshot) → IsSoundGoal g → decode_snapshot trim (to_raw g) ≡ ok g
  unfolding decode_snapshot
  decode-encode_snapshot g s = ground (
    arith,
    IsNormal-is_trimmed g.objective s.normal,
    has_reason-has_expected_fields g.phase g.blocked_reason s.fields,
    IsSoundReason-decode_reason g.blocked_reason s.reason,
    positive_integer-of_ℕ g.revision s.revision_pos s.revision_safe,
    positive_integer-of_ℕ g.max_goal_rounds s.rounds_pos s.rounds_safe,
  )

  pub decode_goal_change-IsSoundChange :
      (raw : RawChange) (c : SnapshotChange)
      → decode_goal_change trim raw ≡ ok (some (snapshot_change c))
      → IsSoundChange c
  unfolding decode_goal_change
  decode_goal_change-IsSoundChange other_kind c h = absurd (ground arith)
  decode_goal_change-IsSoundChange malformed c h = absurd (ground arith)
  decode_goal_change-IsSoundChange (raw_clear id revision at) c h = absurd (ground arith)
  decode_goal_change-IsSoundChange (raw_snapshot op raw rounds created updated) c h =
      elim (Result-cases (decode_snapshot trim raw)) [
        | inl (g, e) ↦
            let q : (g ≡ c.goal)
                × (non_negative_integer created ≡ ok c.created_at)
                × (non_negative_integer updated ≡ ok c.updated_at)
                × (non_negative_integer rounds ≡ ok c.rounds_started)
                × (c.created_at ≤ c.updated_at) =
              ground arith in
            record {
              goal = rw (← q.0) (decode_snapshot-IsSoundGoal raw g e);
              ordered = q.4;
              updated_safe = non_negative_integer-ok updated c.updated_at q.2;
              rounds_safe = non_negative_integer-ok rounds c.rounds_started q.3;
            }
        | inr (x, e) ↦ absurd (ground arith)
      ]

  -- The strict decoder gives back every snapshot change that was encoded for the log, when its
  -- identity is not empty, its objective is not empty and trimmed, it has a reason exactly in the
  -- phase blocked, with a kebab-case code and a trimmed message that is not empty, its revision
  -- and cap are between 1 and 2^53 - 1, its round counter is at most 2^53 - 1, and its creation is
  -- not after its update, at most at 2^53 - 1.
  pub decode-encode :
      (c : SnapshotChange)
      → IsSoundChange c
      → decode_goal_change trim (encode (snapshot_change c)) ≡ ok (some (snapshot_change c))
  unfolding decode_goal_change
  decode-encode c s = ground (
    arith,
    decode-encode_snapshot c.goal s.goal,
    non_negative_integer-of_ℕ c.created_at,
    non_negative_integer-of_ℕ c.updated_at s.updated_safe,
    non_negative_integer-of_ℕ c.rounds_started s.rounds_safe,
  )

  pub decode-encode_clear :
      (ref : GoalRef) (at : ℕ)
      → str_eq ref.id "" ≡ false
      → 1 ≤ ref.revision
      → ref.revision ≤ max_safe_integer
      → at ≤ max_safe_integer
      → decode_goal_change trim (encode (clear_change ref at)) ≡ ok (some (clear_change ref at))
  unfolding decode_goal_change decode_ref
  decode-encode_clear ref at named positive safe at_safe = ground (
    arith,
    positive_integer-of_ℕ ref.revision positive safe,
    non_negative_integer-of_ℕ at at_safe,
  )
