-- ===== src/TokenMeter/Surfaces.antt =====
-- The priced surface against the surface of the session: surface-fold.ts and surface.ts of core/session.
use agent_runtime_notes.Surface.Refinement.{marked_op-same}
use agent_runtime_notes.Surface.{
  SurfacePlan, SurfaceFoldState, ReplacementRange, marked_op, append_plan, replace_plan,
  surface_op_of, is_surface_eligible_type, SurfaceFoldReplacement,
}
use agent_runtime_notes.Surface.Provenance.{
  index_in, replacement_range, range_between, assert_provenance, assert_tool_result_rewrite,
}
use agent_runtime_notes.Surface.Planning.{
  plan_op, apply_surface_plan, plan_surface_event, apply_surface_event,
}
use agent_runtime_notes.TokenMeter.Accounts.{replace_nodes-ordered}
use agent_runtime_notes.TokenMeter.{
  Content, SurfaceTokenFold, TokenSurfaceEvent, TokenSurfaceNode, TokenSurfaceOp, append_op,
  find_node, fold_surface_tokens, replace_op, message_price, priced_range, replace_nodes,
}
use agent_runtime_notes.Base.{
  List, Option, Option-cases, [], ap, arith, count, drop, inl, inr, none, ok, ok-injective, refl,
  some, spliced, suc, take, zero, ℕ, ◌++◌, ◌+◌, ◌∙◌, ◌∷◌, ◌≡◌, ◌≤◌, bind_ok, difference, pos, sym,
  throw_unless-ok, true, ◌-◌, ◌==◌,
}
use agent_runtime_notes.Session.{SessionEvent, SurfaceOp, append, replace}
use mathlib.Core.Path.{subst}
use agent_runtime_notes.Session.Repair.{last}

abbrev pub seqs : List TokenSurfaceNode → List ℕ
seqs [] = []
seqs (node ∷ nodes) = node.seq ∷ seqs nodes

find_node-index_in :
    (nodes : List TokenSurfaceNode) (n : ℕ) → find_node nodes n ≡ index_in (seqs nodes) n
unfolding find_node index_in
find_node-index_in [] n = refl
find_node-index_in (node ∷ nodes) n = rw (find_node-index_in nodes n) refl

seqs-append : (xs ys : List TokenSurfaceNode) → seqs (xs ++ ys) ≡ seqs xs ++ seqs ys
seqs-append [] ys = refl
seqs-append (x ∷ xs) ys = ap (λ l. x.seq ∷ l) (seqs-append xs ys)

seqs-take : (k : ℕ) (xs : List TokenSurfaceNode) → seqs (take k xs) ≡ take k (seqs xs)
seqs-take zero xs = refl
seqs-take (suc k) [] = refl
seqs-take (suc k) (x ∷ xs) = ap (λ l. x.seq ∷ l) (seqs-take k xs)

seqs-drop : (k : ℕ) (xs : List TokenSurfaceNode) → seqs (drop k xs) ≡ drop k (seqs xs)
seqs-drop zero xs = refl
seqs-drop (suc k) [] = refl
seqs-drop (suc k) (x ∷ xs) = seqs-drop k xs

seqs-spliced :
    (xs : List TokenSurfaceNode) (start count : ℕ) (ys : List TokenSurfaceNode)
    → seqs (spliced xs start count ys) ≡ spliced (seqs xs) start count (seqs ys)
seqs-spliced xs start count ys =
    seqs-append (take start xs) (ys ++ drop (start + count) xs)
    ∙ (ap (λ l. l ++ seqs (ys ++ drop (start + count) xs)) (seqs-take start xs)
        ∙ ap (λ l. take start (seqs xs) ++ l)
            (seqs-append ys (drop (start + count) xs)
              ∙ ap (λ l. seqs ys ++ l) (seqs-drop (start + count) xs)))

-- The operation of a marked event, as the meter reads it.
abbrev pub token_op : Option SurfaceOp → Option TokenSurfaceOp
token_op (some append) = some append_op
token_op (some (replace start end)) = some (replace_op start end)
token_op op = none

replacement_range-indices :
    (state : SurfaceFoldState) (start end : ℕ) (range : ReplacementRange)
    → replacement_range state start end ≡ ok range
    → (index_in state.nodes start ≡ some range.start_idx)
      × (index_in state.nodes end ≡ some range.end_idx)
      × (range.start_idx ≤ range.end_idx)
unfolding replacement_range
replacement_range-indices state start end range h =
    elim (Option-cases (index_in state.nodes start)) [
      | inl e ↦ absurd (ground (arith, e))
      | inr (i, e) ↦ elim (Option-cases (index_in state.nodes end)) [
        | inl d ↦ absurd (ground (arith, d, e))
        | inr (j, d) ↦
            let between : range_between state.nodes i (some j) ≡ ok range = rw (e, d) at h in
            let first : i ≡ range.start_idx = ground (arith, between) in
            let last : j ≡ range.end_idx = ground (arith, between) in
            let order : i ≤ j = ground (arith, between) in
            (
              e ∙ ap (λ k. some k) first,
              d ∙ ap (λ k. some k) last,
              omega (arith, first, last, order),
            )
      ]
    ]

-- The priced surface takes the event, and is still the surface with prices.
abbrev Follows : List TokenSurfaceNode → TokenSurfaceEvent → List ℕ → Type 0
Follows nodes event after =
    (fold : SurfaceTokenFold) × (fold_surface_tokens nodes event ≡ ok fold)
    × (seqs fold.nodes ≡ after)

-- The priced surface follows the plan of an event.
abbrev FollowsPlan :
    SurfaceFoldState
    → List TokenSurfaceNode
    → ℕ
    → Option Content
    → TokenSurfaceOp
    → SurfacePlan
    → Type 0
FollowsPlan state nodes seq message op plan =
    Follows nodes (record { seq = seq; message = message; op = op })
      (apply_surface_plan state plan).0.nodes

append_plan-Follows :
    (state : SurfaceFoldState) (seq : ℕ) (nodes : List TokenSurfaceNode) (message : Option Content)
    → seqs nodes ≡ state.nodes
    → Follows nodes
        (record { seq = seq; message = message; op = append_op })
        (apply_surface_plan state (append_plan seq)).0.nodes
unfolding apply_surface_plan fold_surface_tokens
append_plan-Follows state seq nodes message same =
    let node : TokenSurfaceNode = record { seq = seq; tokens = message_price message } in
    (
      record { tokens = node.tokens; nodes = nodes ++ node ∷ []; delta_tokens = pos node.tokens },
      refl,
      seqs-append nodes (node ∷ []) ∙ ap (λ l. l ++ seq ∷ []) same,
    )

replace_plan-Follows :
    (state : SurfaceFoldState) (seq start end : ℕ) (range : ReplacementRange)
    (nodes : List TokenSurfaceNode) (message : Option Content)
    → replacement_range state start end ≡ ok range
    → seqs nodes ≡ state.nodes
    → Follows nodes
        (record { seq = seq; message = message; op = replace_op start end })
        (apply_surface_plan state (replace_plan seq start end range)).0.nodes
unfolding apply_surface_plan fold_surface_tokens
replace_plan-Follows state seq start end range nodes message found same =
    let node : TokenSurfaceNode = record { seq = seq; tokens = message_price message } in
    let (first, last, order) = replacement_range-indices state start end range found in
    let i = range.start_idx in
    let j = range.end_idx in
    let at_start : find_node nodes start ≡ some i =
      find_node-index_in nodes start ∙ (ap (λ l. index_in l start) same ∙ first) in
    let at_end : find_node nodes end ≡ some j =
      find_node-index_in nodes end ∙ (ap (λ l. index_in l end) same ∙ last) in
    (
      record {
        tokens = node.tokens;
        nodes = spliced nodes i (j - i + 1) (node ∷ []);
        delta_tokens = difference node.tokens (priced_range nodes i j);
      },
      ap (λ a. replace_nodes nodes node a (find_node nodes end)) at_start
          ∙ (ap (λ b. replace_nodes nodes node (some i) b) at_end
              ∙ replace_nodes-ordered nodes node i j order),
      seqs-spliced nodes i (j - i + 1) (node ∷ [])
          ∙ ap (λ l. spliced l i (j - i + 1) (seq ∷ [])) same,
    )

plan_op-Follows :
    (state : SurfaceFoldState) (event : SessionEvent) (events : List SessionEvent) (base : ℕ)
    (raw : Option SurfaceOp) (op : TokenSurfaceOp) (plan : SurfacePlan)
    (nodes : List TokenSurfaceNode) (message : Option Content)
    → token_op raw ≡ some op
    → plan_op state event events base raw ≡ ok plan
    → seqs nodes ≡ state.nodes
    → Follows nodes
        (record { seq = event.seq; message = message; op = op })
        (apply_surface_plan state plan).0.nodes
unfolding plan_op
plan_op-Follows state event events base (some append) op plan nodes message v h same =
    let (done, _, q) =
      bind_ok (assert_provenance event []) (λ _. ok (append_plan event.seq)) plan h in
    let made = ok-injective (append_plan event.seq) plan q in
    let read : append_op ≡ op = ground (arith, v) in
    subst
      (λ o.
        Follows nodes (record { seq = event.seq; message = message; op = o })
          (apply_surface_plan state plan).0.nodes)
      read
      (subst
        (λ p.
          Follows nodes (record { seq = event.seq; message = message; op = append_op })
            (apply_surface_plan state p).0.nodes)
        made (append_plan-Follows state event.seq nodes message same))
plan_op-Follows state event events base (some (replace start end)) op plan nodes message v h same =
    let (range, found, q) = bind_ok (replacement_range state start end) _ plan h in
    let (a, _, q₁) = bind_ok (assert_provenance event range.shadowed_seqs) _ plan q in
    let (b, _, q₂) =
      bind_ok (assert_tool_result_rewrite event range.shadowed_seqs events base) _ plan q₁ in
    let made = ok-injective (replace_plan event.seq start end range) plan q₂ in
    let read : replace_op start end ≡ op = ground (arith, v) in
    subst
      (λ o.
        Follows nodes (record { seq = event.seq; message = message; op = o })
          (apply_surface_plan state plan).0.nodes)
      read
      (subst
        (λ p.
          Follows nodes (record { seq = event.seq; message = message; op = replace_op start end })
            (apply_surface_plan state p).0.nodes)
        made (replace_plan-Follows state event.seq start end range nodes message found same))
plan_op-Follows state event events base _ op plan nodes message v h same =
    absurd (ground (arith, v))

surface_op_of-marked :
    (event : SessionEvent)
    → is_surface_eligible_type event.body ≡ true
    → surface_op_of event ≡ marked_op event.surface_op
unfolding surface_op_of
surface_op_of-marked event eligible = rw eligible refl

-- When the session surface takes an event of an eligible type, whose operation the meter reads,
-- and the priced nodes have the numbers of the surface, then the priced surface takes the event
-- too, whatever message is derived from it, and its nodes have the numbers of the surface after
-- it.
pub apply_surface_event-priced :
    (state : SurfaceFoldState) (event : SessionEvent) (seq : ℕ) (events : List SessionEvent)
    (base : ℕ) (next : SurfaceFoldState × Option SurfaceFoldReplacement) (op : TokenSurfaceOp)
    (nodes : List TokenSurfaceNode) (message : Option Content)
    → apply_surface_event state event seq events base ≡ ok next
    → is_surface_eligible_type event.body ≡ true
    → token_op event.surface_op ≡ some op
    → seqs nodes ≡ state.nodes
    → (fold : SurfaceTokenFold) × (fold_surface_tokens nodes
          (record { seq = event.seq; message = message; op = op })
        ≡ ok fold)
      × (seqs fold.nodes ≡ next.0.nodes)
unfolding apply_surface_event plan_surface_event
apply_surface_event-priced state event seq events base next op nodes message h eligible v same =
    let (plan, p, q) = bind_ok (plan_surface_event state event seq events base) _ next h in
    let (placed, p₁) = throw_unless-ok (event.seq == seq) _ _ plan p in
    let (raw, marked, r) =
      bind_ok (surface_op_of event) (plan_op state event events base) plan p₁ in
    let raw_same =
      marked_op-same event.surface_op raw (sym (surface_op_of-marked event eligible) ∙ marked) in
    let read = ap token_op (sym raw_same) ∙ v in
    let applied = ok-injective (apply_surface_plan state plan) next q in
    subst (λ n. Follows nodes (record { seq = event.seq; message = message; op = op }) n.0.nodes)
      applied (plan_op-Follows state event events base raw op plan nodes message read r same)
