-- ===== src/Retention/Utf8.antt =====
-- The cuts at UTF-8 boundaries, and `finish`: trimTrailingPartialUtf8, trimLeadingContinuationUtf8
-- and TextRetainer.finish of output-retention's index.ts.
use agent_runtime_notes.Base.{
  Bool, List, Option, String, [], false, get_elem?, if◌then◌else◌, leb, length, ltb, none, some,
  str_append, suc, take, zero, ℕ, ◌&&◌, ◌++◌, ◌-◌, ◌==◌, ◌∷◌,
}
use agent_runtime_notes.Retention.{RetainedText, TextRetainer, held_bytes, omission, omitted_at}

-- `(byte & 0xc0) === 0x80`.
abbrev pub is_continuation : ℕ → Bool
is_continuation byte = leb 128 byte && ltb byte 192

abbrev pub byte_continues : Option ℕ → Bool
byte_continues none = false
byte_continues (some byte) = is_continuation byte

-- The loop over `i`, from `i + 1`; zero where the code's `i` is negative.
unfoldable pub walk_back : List ℕ → ℕ → ℕ
walk_back bytes zero = 0
walk_back bytes (suc i) =
    let rest = walk_back bytes i in
    if byte_continues (get_elem? bytes i) && leb (length bytes - i) 3 then rest else suc i

abbrev pub expected_length : ℕ → ℕ
expected_length lead =
    if ltb lead 128
    then 1
    else if ltb lead 224
    then 2
    else if ltb lead 240
    then 3
    else if ltb lead 248
    then 4
    else 0

abbrev pub cut_at_lead : List ℕ → ℕ → Option ℕ → List ℕ
cut_at_lead bytes i none = bytes
cut_at_lead bytes i (some lead) =
    if expected_length lead == 0
    then bytes
    else if ltb (length bytes - i) (expected_length lead)
    then take i bytes
    else bytes

abbrev pub trimmed_from : List ℕ → ℕ → List ℕ
trimmed_from bytes zero = bytes
trimmed_from bytes (suc i) = cut_at_lead bytes i (get_elem? bytes i)

unfoldable pub trim_trailing_partial_utf8 : List ℕ → List ℕ
trim_trailing_partial_utf8 bytes = trimmed_from bytes (walk_back bytes (length bytes))

unfoldable pub trim_leading_continuation_utf8 : List ℕ → List ℕ
trim_leading_continuation_utf8 [] = []
trim_leading_continuation_utf8 (byte ∷ bytes) =
    let rest = trim_leading_continuation_utf8 bytes in
    if is_continuation byte then rest else byte ∷ bytes

-- The prefix and the suffix that `finish` gives.
unfoldable pub kept_bytes : TextRetainer → List ℕ × List ℕ
kept_bytes r =
    if ltb 0 (omitted_at r r.total)
    then (
      trim_trailing_partial_utf8 (held_bytes r).0,
      trim_leading_continuation_utf8 (held_bytes r).1,
    )
    else held_bytes r

abbrev pub omitted_bytes_of : TextRetainer → ℕ
omitted_bytes_of r = r.total - length (kept_bytes r).0 - length (kept_bytes r).1

unfoldable pub finish : (List ℕ → String) → TextRetainer → RetainedText
finish decode r = record {
  text =
      if ltb 0 (omitted_at r r.total)
      then str_append (decode (kept_bytes r).0) (decode (kept_bytes r).1)
      else decode ((kept_bytes r).0 ++ (kept_bytes r).1);
  truncated = ltb 0 (omitted_bytes_of r);
  omitted_bytes = omission (omitted_bytes_of r);
}
