-- ===== src/Goal/Decode.antt =====
-- The strict decoder: `decodeGoalChange` and its helpers in
-- 04-code-samples/packages/goal/goal/src/fold.ts. `String.prototype.trim` is the parameter `trim`.
use Prim.Native.Char.{Char, code}
use agent_runtime_notes.Base.{
  ℕ, String, Bool, true, false, not, ◌&&◌, ◌||◌, Option, none, some, leb, if◌then◌else◌, str_eq,
  JsNumber, safe_index, Result, ok, err, ◌>>=◌, ◌>>◌, throw_unless,
}
use agent_runtime_notes.Goal.{
  GoalPhase, blocked, GoalRef, GoalBlockReason, GoalSnapshot, GoalChange, snapshot_change,
  clear_change, RawSnapshot, RawChange, other_kind, malformed, raw_clear, raw_snapshot,
}

-- What replay throws, by its message.
pub data FoldError : Type 0 where
  invalid_payload not_positive not_natural no_id bad_objective bad_reason time_reversed : FoldError
  no_current_goal not_next_revision counters_changed definition_changed : FoldError
  bad_transition bad_create bad_source bad_round lacks_updated_at : FoldError

abbrev pub is_lower : Char → Bool
is_lower c = leb b'a' (code c) && leb (code c) b'z'

abbrev pub is_word : Char → Bool
is_word c = is_lower c || (leb b'0' (code c) && leb (code c) b'9')

-- `/^[a-z][a-z0-9]*(?:-[a-z0-9]+)*$/`: the rest of a word, and a place where a word must begin.
unfoldable mutual
  pub kebab_rest : String → Bool
  kebab_rest String.[] = true
  kebab_rest (String.◌∷◌ c s) =
      if is_word c then kebab_rest s else (leb (code c) b'-' && leb b'-' (code c)) && kebab_word s

  pub kebab_word : String → Bool
  kebab_word String.[] = false
  kebab_word (String.◌∷◌ c s) = is_word c && kebab_rest s

unfoldable pub is_kebab : String → Bool
is_kebab String.[] = false
is_kebab (String.◌∷◌ c s) = is_lower c && kebab_rest s

unfoldable pub non_negative_integer : JsNumber → Result FoldError ℕ
non_negative_integer n = elim (safe_index n) [ none ↦ err not_natural | some k ↦ ok k ]

unfoldable pub positive_integer : JsNumber → Result FoldError ℕ
positive_integer n = elim (safe_index n) [
  | none ↦ err not_positive
  | some k ↦ if leb 1 k then ok k else err not_positive
]

unfoldable pub decode_ref : String → JsNumber → Result FoldError GoalRef
decode_ref id revision = do
  throw_unless (not (str_eq id "")) no_id
  n ← positive_integer revision
  ok (record { id = id; revision = n })

-- The fields that the phase calls for: a reason exactly in the phase `blocked`.
abbrev pub has_expected_fields : GoalPhase → Option GoalBlockReason → Bool
has_expected_fields blocked (some reason) = true
has_expected_fields blocked none = false
has_expected_fields phase (some reason) = false
has_expected_fields phase none = true

module _ (trim : String → String) where
  -- Non-empty and normalized.
  abbrev pub is_trimmed : String → Bool
  is_trimmed text = not (str_eq (trim text) "") && str_eq text (trim text)

  unfoldable pub decode_block_reason : GoalBlockReason → Result FoldError GoalBlockReason
  decode_block_reason reason = do
    throw_unless (is_kebab reason.code) bad_reason
    throw_unless (is_trimmed reason.message) bad_reason
    ok reason

  unfoldable pub decode_reason : Option GoalBlockReason → Result FoldError (Option GoalBlockReason)
  decode_reason none = ok none
  decode_reason (some reason) = decode_block_reason reason >>= λ r. ok (some r)

  unfoldable pub decode_snapshot : RawSnapshot → Result FoldError GoalSnapshot
  decode_snapshot raw = do
    throw_unless (not (str_eq raw.id "")) no_id
    throw_unless (is_trimmed raw.objective) bad_objective
    throw_unless (has_expected_fields raw.phase raw.blocked_reason) invalid_payload
    revision ← positive_integer raw.revision
    max_goal_rounds ← positive_integer raw.max_goal_rounds
    reason ← decode_reason raw.blocked_reason
    ok (record {
      id = raw.id;
      revision = revision;
      objective = raw.objective;
      phase = raw.phase;
      blocked_reason = reason;
      max_goal_rounds = max_goal_rounds;
    })

  -- `none` is for a value of another kind.
  unfoldable pub decode_goal_change : RawChange → Result FoldError (Option GoalChange)
  decode_goal_change other_kind = ok none
  decode_goal_change malformed = err invalid_payload
  decode_goal_change (raw_clear id revision cleared_at) = do
    ref ← decode_ref id revision
    at ← non_negative_integer cleared_at
    ok (some (clear_change ref at))
  decode_goal_change (raw_snapshot operation raw rounds created updated) = do
    created_at ← non_negative_integer created
    updated_at ← non_negative_integer updated
    throw_unless (leb created_at updated_at) time_reversed
    goal ← decode_snapshot raw
    rounds_started ← non_negative_integer rounds
    ok (
        some (
          snapshot_change (record {
            operation = operation;
            goal = goal;
            rounds_started = rounds_started;
            created_at = created_at;
            updated_at = updated_at;
          })))
