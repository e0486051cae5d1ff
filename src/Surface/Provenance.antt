-- ===== src/Surface/Provenance.antt =====
-- What a surface event may cite and rewrite: surface.ts from `assertProvenance` to
-- `assertToolResultRewrite`.
-- `set.has(seq)` and `nodes.indexOf(seq)`.
use agent_runtime_notes.Base.{
  Bool, List, Option, Result, String, drop, err, false, get_elem?, if◌then◌else◌, leb, length, ltb,
  none, not, ok, some, str_eq, take, throw_unless, true, ℕ, ◌&&◌, ◌+◌, ◌-◌, ◌==◌, ◌>>=◌, ◌>>◌, ◌||◌,
  ◌∷◌, [],
}
use agent_runtime_notes.Session.{
  ErrorCode, EventData, MessageId, SessionEvent, SourceSeqs, ToolResult, assistant_message, cited,
  given_id, interrupted_id, not_array, tool_result,
}
use agent_runtime_notes.Surface.{
  ReplacementRange, SurfaceError, SurfaceFoldState, changes_more, duplicate_sources, empty_sources,
  end_not_found, is_defined, is_event_seq, later_source, not_a_result, not_event_seqs,
  range_reversed, rewrites_several, shadowed_not_cited, sources_not_array, start_not_found,
}

abbrev pub includes : List ℕ → ℕ → Bool
includes [] seq = false
includes (x ∷ xs) seq = x == seq || includes xs seq

unfoldable pub index_in : List ℕ → ℕ → Option ℕ
index_in [] seq = none
index_in (x ∷ xs) seq =
    let rest = index_in xs seq in
    if x == seq then some 0 else elim rest [ none ↦ none | some i ↦ some (i + 1) ]

abbrev pub is_assistant_message : EventData → Bool
is_assistant_message (assistant_message turn step blocks) = true
is_assistant_message body = false

abbrev pub is_empty_sources : List (Option ℕ) → Bool
is_empty_sources [] = true
is_empty_sources (x ∷ xs) = false

-- The loop over `sourceEventSeqs`: the set, and the first source that is not earlier.
unfoldable pub read_sources :
    ℕ → List (Option ℕ) → List ℕ → Option ℕ → Result SurfaceError (List ℕ × Option ℕ)
read_sources seq [] sources non_earlier = ok (sources, non_earlier)
read_sources seq (none ∷ raw) sources non_earlier = err not_event_seqs
read_sources seq (some source ∷ raw) sources non_earlier =
    let rest =
      read_sources seq raw (if includes sources source then sources else source ∷ sources)
        (if not (is_defined non_earlier) && leb seq source then some source else non_earlier) in
    if is_event_seq (some source) then rest else err not_event_seqs

abbrev pub checked_sources : List (Option ℕ) → List ℕ × Option ℕ → Result SurfaceError (List ℕ)
checked_sources raw (sources, non_earlier) = do
  throw_unless (length sources == length raw) duplicate_sources
  throw_unless (not (is_defined non_earlier)) later_source
  ok sources

unfoldable pub sources_of : SessionEvent → Option SourceSeqs → Result SurfaceError (List ℕ)
sources_of event none = ok []
sources_of event (some not_array) = err sources_not_array
sources_of event (some (cited raw)) = do
  throw_unless (not (is_empty_sources raw) || is_assistant_message event.body) empty_sources
  read ← read_sources event.seq raw [] none
  checked_sources raw read

abbrev pub includes_all : List ℕ → List ℕ → Bool
includes_all sources [] = true
includes_all sources (seq ∷ seqs) = includes sources seq && includes_all sources seqs

unfoldable pub assert_provenance : SessionEvent → List ℕ → Result SurfaceError (Unit {0})
assert_provenance event shadowed = do
  sources ← sources_of event event.source_event_seqs
  throw_unless (includes_all sources shadowed) shadowed_not_cited

abbrev pub range_between : List ℕ → ℕ → Option ℕ → Result SurfaceError ReplacementRange
range_between nodes i none = err end_not_found
range_between nodes i (some j) =
    if ltb j i
    then err range_reversed
    else ok (record { start_idx = i; end_idx = j; shadowed_seqs = take (j + 1 - i) (drop i nodes) })

abbrev pub range_from : List ℕ → Option ℕ → Option ℕ → Result SurfaceError ReplacementRange
range_from nodes none j = err start_not_found
range_from nodes (some i) j = range_between nodes i j

unfoldable pub replacement_range : SurfaceFoldState → ℕ → ℕ → Result SurfaceError ReplacementRange
replacement_range state start end =
    range_from state.nodes (index_in state.nodes start) (index_in state.nodes end)

-- `isDeepEqualJson`, on the values that a tool result holds.
abbrev pub same_id : MessageId → MessageId → Bool
same_id (given_id a) (given_id b) = str_eq a b
same_id (interrupted_id a m) (interrupted_id b n) = str_eq a b && m == n
same_id a b = false

abbrev pub same_flag : Option Bool → Option Bool → Bool
same_flag none none = true
same_flag (some true) (some b) = b
same_flag (some false) (some b) = not b
same_flag a b = false

abbrev pub same_error : Option ErrorCode → Option ErrorCode → Bool
same_error none none = true
same_error (some a) (some b) = str_eq a.name b.name && str_eq a.code b.code
same_error a b = false

abbrev pub same_meta : Option String → Option String → Bool
same_meta none none = true
same_meta (some a) (some b) = str_eq a b
same_meta a b = false

unfoldable pub same_but_content : ToolResult → ToolResult → Bool
same_but_content a b =
    a.turn == b.turn
    && a.step == b.step
    && same_id a.message_id b.message_id
    && str_eq a.call_id b.call_id
    && same_flag a.is_error b.is_error
    && same_error a.error b.error
    && same_meta a.meta b.meta

-- `events[seq - baseSeq]`, undefined before the window and after it.
unfoldable pub event_at : List SessionEvent → ℕ → ℕ → Option SessionEvent
event_at events base seq = if leb base seq then get_elem? events (seq - base) else none

abbrev pub tool_result_of : EventData → Option ToolResult
tool_result_of (tool_result result) = some result
tool_result_of body = none

abbrev pub rewrites : Option SessionEvent → ToolResult → Result SurfaceError (Unit {0})
rewrites none result = err not_a_result
rewrites (some event) result = elim (tool_result_of event.body) [
  | some original ↦ throw_unless (same_but_content original result) changes_more
  | none ↦ err not_a_result
]

unfoldable pub assert_rewrite_of :
    ToolResult → List ℕ → List SessionEvent → ℕ → Result SurfaceError (Unit {0})
assert_rewrite_of result (seq ∷ []) events base = rewrites (event_at events base seq) result
assert_rewrite_of result shadowed events base = err rewrites_several

unfoldable pub assert_tool_result_rewrite :
    SessionEvent → List ℕ → List SessionEvent → ℕ → Result SurfaceError (Unit {0})
assert_tool_result_rewrite event shadowed events base = elim (tool_result_of event.body) [
  | some result ↦ assert_rewrite_of result shadowed events base
  | none ↦ ok tt
]
