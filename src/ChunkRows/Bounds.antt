-- ===== src/ChunkRows/Bounds.antt =====
-- What the decoder of chunk-rows.ts takes: the numbers of the events that it gives.
use agent_runtime_notes.ChunkRows.{ChunkRow, StoredEvent, chunk_event, other_event}
use agent_runtime_notes.Base.{
  List, String, [], arith, false, is_safe_integer, length, max_safe_integer, ok, refl, true, ℕ, ℤ,
  ◌+ℤ◌, ◌+◌, ◌-◌, ◌∷◌, ◌≡◌, ◌≤◌, Bool, Option, Option-cases, ap, bind_ok, inl, inr, none, not,
  ok-injective, some, throw_unless-ok, ◌==◌, Bool-cases, leb, sym, ◌∙◌,
}
use agent_runtime_notes.ChunkRows.Decoding.{
  RawData, RawRow, RunData, expand_rest, expand_row, is_empty_list, times_safe, validate_row,
  validate_run_data, Malformed, all_entries, any_entry, bad_arity, bad_dt, bad_envelope,
  bad_numbers, bad_payload, check_members, no_data, required, row_of, safe_seq, safe_time,
  validate_keys, bad_seqs, bad_times, expand_members,
}
use mathlib.Core.Path.{subst}

-- Events of a run from a sequence number on, with safe numbers.
abbrev pub IsSafeFrom : ℕ → List StoredEvent → Type 0
IsSafeFrom n [] = Unit {0}
IsSafeFrom n (chunk_event event ∷ events) =
    (event.seq ≡ n)
    × (n ≤ max_safe_integer)
    × (is_safe_integer event.time ≡ true)
    × IsSafeFrom (n + 1) events
IsSafeFrom n (other_event json ∷ events) = ⊥

expand_rest-IsSafeFrom :
    (row : ChunkRow) (seq : ℕ) (time : ℤ) (members : List String) (dt : List ℤ)
    → length dt ≡ length members
    → seq + length members ≤ max_safe_integer + 1
    → times_safe time dt ≡ true
    → IsSafeFrom seq (expand_rest row seq time members dt)
      × (length (expand_rest row seq time members dt) ≡ length members)
unfolding expand_rest times_safe
expand_rest-IsSafeFrom row seq time [] dt l b t = (tt, refl)
expand_rest-IsSafeFrom row seq time (member ∷ members) [] l b t = absurd (omega (arith, l))
expand_rest-IsSafeFrom row seq time (member ∷ members) (gap ∷ dt) l b t =
    let (safe, n) =
      expand_rest-IsSafeFrom row (seq + 1) (time +ℤ gap) members dt (omega (arith, l))
        (omega (arith, b)) (ground arith) in
    ((refl, omega (arith, b), ground arith, safe), omega (arith, n))

all_entries-inhabited :
    {A : Type 0} (allowed : A → Bool) (xs : List (Option A)) (ys : List A)
    → is_empty_list xs ≡ false
    → all_entries allowed xs ≡ some ys
    → is_empty_list ys ≡ false
unfolding all_entries
all_entries-inhabited allowed [] ys e h = absurd (ground arith)
all_entries-inhabited allowed (none ∷ xs) ys e h = absurd (ground arith)
all_entries-inhabited allowed (some x ∷ xs) [] e h = elim (Option-cases (all_entries allowed xs)) [
  | inl q ↦ absurd (ground (arith, q))
  | inr (zs, q) ↦ absurd (ground (arith, q))
]
all_entries-inhabited allowed (some x ∷ xs) (y ∷ ys) e h = refl

required-ok :
    {A : Type 0} (thrown : Malformed) (o : Option A) (a : A) → required thrown o ≡ ok a → o ≡ some a
required-ok thrown none a h = absurd (ground arith)
required-ok thrown (some b) a h = ap (λ c. some c) (ok-injective b a h)

-- A row whose gaps and members fit.
abbrev pub Fits : List ℤ → List String → Type 0
Fits dt members = (is_empty_list members ≡ false) × (length dt ≡ length members - 1)

abbrev gaps_of : RunData → List ℤ
gaps_of (turn, step, index, dt, members) = dt

abbrev members_of : RunData → List String
members_of (turn, step, index, dt, members) = members

validate_run_data-Fits :
    (fields : RawData) (run : RunData)
    → validate_run_data fields ≡ ok run
    → Fits (gaps_of run) (members_of run)
unfolding validate_run_data
validate_run_data-Fits fields run h =
    let (turn, e1, h1) = bind_ok (required bad_numbers fields.turn) _ run h in
    let (step, e2, h2) = bind_ok (required bad_numbers fields.step) _ run h1 in
    let (index, e3, h3) = bind_ok (required bad_numbers fields.index) _ run h2 in
    let (entries, e4, h4) = bind_ok (required bad_payload fields.payload) _ run h3 in
    let (some_entries, h5) = throw_unless-ok (not (is_empty_list entries)) bad_payload _ run h4 in
    let (members, e6, h6) =
      bind_ok (required bad_payload (all_entries any_entry entries)) _ run h5 in
    let (raw_gaps, e7, h7) = bind_ok (required bad_dt fields.dt) _ run h6 in
    let (dt, e8, h8) = bind_ok (required bad_dt (all_entries is_safe_integer raw_gaps)) _ run h7 in
    let (arity, h9) = throw_unless-ok (length dt == length members - 1) bad_arity _ run h8 in
    subst (λ r. Fits (gaps_of r) (members_of r))
      (ok-injective (turn, step, index, dt, members) run h9)
      (
        all_entries-inhabited any_entry entries members (ground (arith, some_entries))
            (required-ok bad_payload (all_entries any_entry entries) members e6),
        ground (arith, arity),
      )

check_members-ok :
    (checked row : ChunkRow)
    → check_members checked ≡ ok row
    → (checked ≡ row)
      × (checked.seq0 + length checked.members - 1 ≤ max_safe_integer)
      × (times_safe checked.time0 checked.dt ≡ true)
check_members-ok checked row h =
    let (seqs, h1) =
      throw_unless-ok (leb (checked.seq0 + length checked.members - 1) max_safe_integer) bad_seqs _
        row h in
    let (times, h2) = throw_unless-ok (times_safe checked.time0 checked.dt) bad_times _ row h1 in
    (ok-injective checked row h2, ground (arith, seqs), times)

members-IsSafeFrom :
    (row : ChunkRow) (members : List String)
    → is_safe_integer row.time0 ≡ true
    → Fits row.dt members
    → row.seq0 + length members - 1 ≤ max_safe_integer
    → times_safe row.time0 row.dt ≡ true
    → IsSafeFrom row.seq0 (expand_members row members)
      × (length (expand_members row members) ≡ length members)
members-IsSafeFrom row [] t (e, l) s h = absurd (ground arith)
members-IsSafeFrom row (member ∷ members) t (e, l) s h =
    let (safe, n) =
      expand_rest-IsSafeFrom row (row.seq0 + 1) row.time0 members row.dt (omega (arith, l))
        (omega (arith, s)) h in
    ((refl, omega (arith, s), t, safe), omega (arith, n))

safe_time-safe : (raw : Option ℤ) (time : ℤ) → safe_time raw ≡ ok time → is_safe_integer time ≡ true
unfolding safe_time
safe_time-safe none time h = absurd (ground arith)
safe_time-safe (some t) time h = elim (Bool-cases (is_safe_integer t)) [
  | inl e ↦ ap is_safe_integer (sym (ok-injective t time (rw e at h))) ∙ e
  | inr e ↦ absurd (ground (arith, e))
]

-- A row that the decoder takes gives as many events as it has members, with consecutive sequence
-- numbers from its first, and all their sequence numbers and times are safe integers.
pub validate_row-IsSafeFrom :
    (raw : RawRow) (row : ChunkRow)
    → validate_row raw ≡ ok row
    → IsSafeFrom row.seq0 (expand_row row) × (length (expand_row row) ≡ length row.members)
unfolding validate_row row_of expand_row
validate_row-IsSafeFrom raw row h =
    let (exact, h1) = throw_unless-ok raw.exact_envelope bad_envelope _ row h in
    let (seq0, e2, h2) = bind_ok (safe_seq raw.seq0) _ row h1 in
    let (time0, e3, h3) = bind_ok (safe_time raw.time0) _ row h2 in
    let (fields, e4, h4) = bind_ok (required no_data raw.run_data) _ row h3 in
    let (kind, e5, h5) = bind_ok (validate_keys raw.tag fields) _ row h4 in
    let (run, e6, h6) = bind_ok (validate_run_data fields) _ row h5 in
    let (same, seqs, times) = check_members-ok (row_of kind seq0 time0 run) row h6 in
    let safe =
      members-IsSafeFrom (row_of kind seq0 time0 run) (members_of run)
        (safe_time-safe raw.time0 time0 e3) (validate_run_data-Fits fields run e6) seqs times in
    subst
      (λ r.
        IsSafeFrom r.seq0 (expand_members r r.members)
        × (length (expand_members r r.members) ≡ length r.members))
      same safe
