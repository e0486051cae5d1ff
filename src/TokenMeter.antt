-- ===== src/TokenMeter.antt =====
-- The token meter: 04-code-samples/packages/llm/token-meter/src. estimate.ts, surface-fold.ts,
-- surface-projection.ts and the fold of breakdown-projection.ts. A string is the list of its UTF-16
-- units. Of an event the code reads its number, the content of its derived message and its operation.
use Prim.Native.Nat.{◌/◌}
use agent_runtime_notes.Base.{
  Bool, List, Option, Result, [], count, difference, drop, err, false, if◌then◌else◌, length, ltb,
  negsuc, none, ok, pos, some, spliced, take, true, ℕ, ℤ, ◌&&◌, ◌++◌, ◌+ℤ◌, ◌+◌, ◌-◌, ◌==◌, ◌>>=◌,
  ◌∷◌,
}
pub mod Accounts
pub mod Agreement
pub mod Surfaces
pub mod Tests

abbrev pub Text : Type 0
Text = List ℕ

-- A block of another type is its JSON text.
mutual
  pub data MessageBlock : Type 0 where
    text_block reasoning_block : Text → MessageBlock
    tool_call_block : (name arguments : Text) → MessageBlock
    tool_result_block : Content → MessageBlock
    json_block : Text → MessageBlock

  pub data Content : Type 0 where
    no_blocks : Content
    blocks : MessageBlock → Content → Content

-- `Math.ceil(text.length / CHARS_PER_TOKEN)`.
abbrev pub text_tokens : Text → ℕ
text_tokens text = (length text + 3) / 4

unfoldable mutual
  pub estimate_content : Content → ℕ
  estimate_content no_blocks = 0
  estimate_content (blocks block rest) = estimate_block block + estimate_content rest

  pub estimate_block : MessageBlock → ℕ
  estimate_block (text_block text) = text_tokens text + 4
  estimate_block (reasoning_block text) = text_tokens text + 4
  estimate_block (tool_call_block name arguments) = text_tokens name + text_tokens arguments + 4
  estimate_block (tool_result_block content) = estimate_content content + 4
  estimate_block (json_block json) = 4 + text_tokens json

abbrev pub estimate_message : Content → ℕ
estimate_message content = estimate_content content + 4

-- A canonical request envelope; the tools as their number and their JSON text.
pub record EpochHeader : Type 0 where
  pub system : Option Text
  pub tools : Option (ℕ × Text)

abbrev pub estimate_system : Option Text → ℕ
estimate_system none = 0
estimate_system (some system) = text_tokens system + 4

abbrev pub estimate_tools : Option (ℕ × Text) → ℕ
estimate_tools none = 0
estimate_tools (some (count, json)) = if count == 0 then 0 else text_tokens json + 4

pub data TokenSurfaceOp : Type 0 where
  append_op : TokenSurfaceOp
  replace_op : (start end : ℕ) → TokenSurfaceOp

-- A surface event with the content of the message that it derives.
pub record TokenSurfaceEvent : Type 0 where
  pub seq : ℕ
  pub message : Option Content
  pub op : TokenSurfaceOp

pub record TokenSurfaceNode : Type 0 where
  pub seq : ℕ
  pub tokens : ℕ

pub record SurfaceTokenFold : Type 0 where
  pub tokens : ℕ
  pub nodes : List TokenSurfaceNode
  pub delta_tokens : ℤ

pub data TokenError : Type 0 where
  invalid_range : ℕ → TokenError
  no_shadow_price : ℕ → TokenError

abbrev pub message_price : Option Content → ℕ
message_price none = 0
message_price (some content) = estimate_message content

abbrev pub total_tokens : List TokenSurfaceNode → ℕ
total_tokens [] = 0
total_tokens (node ∷ nodes) = node.tokens + total_tokens nodes

-- `nodes.findIndex(node => node.seq === seq)`.
unfoldable pub find_node : List TokenSurfaceNode → ℕ → Option ℕ
find_node [] seq = none
find_node (node ∷ nodes) seq =
    let rest = find_node nodes seq in
    if node.seq == seq then some 0 else elim rest [ none ↦ none | some i ↦ some (i + 1) ]

abbrev pub priced_range : List TokenSurfaceNode → ℕ → ℕ → ℕ
priced_range nodes i j = total_tokens (take (j + 1 - i) (drop i nodes))

abbrev pub replace_nodes :
    List TokenSurfaceNode
    → TokenSurfaceNode
    → Option ℕ
    → Option ℕ
    → Result TokenError SurfaceTokenFold
replace_nodes nodes node (some i) (some j) =
    if ltb j i
    then err (invalid_range node.seq)
    else ok (record {
      tokens = node.tokens;
      nodes = spliced nodes i (j - i + 1) (node ∷ []);
      delta_tokens = difference node.tokens (priced_range nodes i j);
    })
replace_nodes nodes node i j = err (invalid_range node.seq)

abbrev pub fold_op :
    List TokenSurfaceNode → TokenSurfaceNode → TokenSurfaceOp → Result TokenError SurfaceTokenFold
fold_op nodes node append_op =
    ok (record { tokens = node.tokens; nodes = nodes ++ node ∷ []; delta_tokens = pos node.tokens })
fold_op nodes node (replace_op start end) =
    replace_nodes nodes node (find_node nodes start) (find_node nodes end)

unfoldable pub fold_surface_tokens :
    List TokenSurfaceNode → TokenSurfaceEvent → Result TokenError SurfaceTokenFold
fold_surface_tokens nodes event =
    fold_op nodes (record { seq = event.seq; tokens = message_price event.message }) event.op

pub record ShadowPriceClaim : Type 0 where
  pub start : ℕ
  pub end : ℕ
  pub tokens : ℕ

-- `metering` is `compaction/summary` or `compaction/prune`; `off_surface` any event besides.
pub data TokenEvent : Type 0 where
  metering : ShadowPriceClaim → TokenEvent
  on_surface : TokenSurfaceEvent → TokenEvent
  header_event : EpochHeader → TokenEvent
  off_surface : TokenEvent

abbrev pub SurfaceTokensFold : Type 0
SurfaceTokensFold = ℤ × Option ShadowPriceClaim

abbrev pub consume_claim :
    ℕ → ℕ → ℕ → ℕ → Option ShadowPriceClaim → Result TokenError SurfaceTokensFold
consume_claim seq tokens start end none = ok (pos 0, none)
consume_claim seq tokens start end (some claim) =
    if claim.start == start && claim.end == end
    then ok (difference tokens claim.tokens, none)
    else err (no_shadow_price seq)

abbrev pub project_op :
    Option ShadowPriceClaim → ℕ → ℕ → TokenSurfaceOp → Result TokenError SurfaceTokensFold
project_op claim seq tokens append_op = ok (pos tokens, none)
project_op claim seq tokens (replace_op start end) = consume_claim seq tokens start end claim

unfoldable pub fold_surface_projection :
    Option ShadowPriceClaim → TokenEvent → Result TokenError SurfaceTokensFold
fold_surface_projection claim (metering price) = ok (pos 0, some price)
fold_surface_projection claim (on_surface event) =
    project_op claim event.seq (message_price event.message) event.op
fold_surface_projection claim event = ok (pos 0, none)

pub record ContextBreakdownState : Type 0 where
  pub system_tokens : ℕ
  pub tools_tokens : ℕ
  pub message_tokens : ℤ
  pub claim : Option ShadowPriceClaim

abbrev pub init_breakdown : ContextBreakdownState
init_breakdown = record {
  system_tokens = 0;
  tools_tokens = 0;
  message_tokens = pos 0;
  claim = none;
}

abbrev pub is_zero : ℤ → Bool
is_zero (pos n) = n == 0
is_zero (negsuc n) = false

abbrev pub is_absent : Option ShadowPriceClaim → Bool
is_absent none = true
is_absent (some claim) = false

abbrev pub next_header : ℕ × ℕ → TokenEvent → ℕ × ℕ
next_header tokens (header_event header) =
    (estimate_system header.system, estimate_tools header.tools)
next_header tokens event = tokens

abbrev pub moved_breakdown :
    ContextBreakdownState → ℕ × ℕ → SurfaceTokensFold → ContextBreakdownState
moved_breakdown s (system, tools) (delta, claim) =
    if system == s.system_tokens
      && tools == s.tools_tokens
      && is_zero delta
      && is_absent claim
      && is_absent s.claim
    then s
    else record {
      system_tokens = system;
      tools_tokens = tools;
      message_tokens = s.message_tokens +ℤ delta;
      claim = claim;
    }

unfoldable pub apply_breakdown :
    ContextBreakdownState → TokenEvent → Result TokenError ContextBreakdownState
apply_breakdown s event = fold_surface_projection s.claim event >>= λ fold.
    ok (moved_breakdown s (next_header (s.system_tokens, s.tools_tokens) event) fold)
