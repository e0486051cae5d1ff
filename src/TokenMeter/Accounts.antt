-- ===== src/TokenMeter/Accounts.antt =====
-- The total of the priced surface: foldSurfaceTokens of surface-fold.ts.
use agent_runtime_notes.Base.{
  Bool-cases, List, [], ap, arith, count, difference, drop, drop-drop, inl, inr, ltb, ok,
  ok-injective, pos, some, spliced, sym, take, take-append-drop, ℕ, ◌++◌, ◌+ℤ◌, ◌+◌, ◌-◌, ◌∷◌, ◌≡◌,
  Option, none, ◌∙◌, false, refl, ◌≤◌,
}
use agent_runtime_notes.TokenMeter.{
  SurfaceTokenFold, TokenSurfaceEvent, TokenSurfaceNode, fold_surface_tokens, priced_range,
  replace_nodes, total_tokens, TokenSurfaceOp, append_op, find_node, fold_op, message_price,
  replace_op,
}
use mathlib.Core.Path.{subst}

total_tokens-append :
    (xs ys : List TokenSurfaceNode) → total_tokens (xs ++ ys) ≡ total_tokens xs + total_tokens ys
total_tokens-append [] ys = omega arith
total_tokens-append (x ∷ xs) ys = omega (arith, total_tokens-append xs ys)

total_tokens-take-drop :
    (k : ℕ) (xs : List TokenSurfaceNode)
    → total_tokens (take k xs) + total_tokens (drop k xs) ≡ total_tokens xs
total_tokens-take-drop k xs =
    omega
      (arith, total_tokens-append (take k xs) (drop k xs), ap total_tokens (take-append-drop k xs))

total_tokens-spliced :
    (xs : List TokenSurfaceNode) (start count : ℕ) (ys : List TokenSurfaceNode)
    → total_tokens (spliced xs start count ys) + total_tokens (take count (drop start xs))
      ≡ total_tokens xs + total_tokens ys
total_tokens-spliced xs start count ys =
    let whole = total_tokens-take-drop start xs in
    let tail = total_tokens-take-drop count (drop start xs) in
    let rest = ap total_tokens (drop-drop start count xs) in
    let outer = total_tokens-append (take start xs) (ys ++ drop (start + count) xs) in
    let inner = total_tokens-append ys (drop (start + count) xs) in omega arith

-- A balance of natural numbers, as integers.
pub pos-difference :
    (after before added removed : ℕ)
    → after + removed ≡ before + added
    → pos before +ℤ difference added removed ≡ pos after
pos-difference after before added removed h = ground (arith, h)

replace_nodes-total :
    (nodes : List TokenSurfaceNode) (node : TokenSurfaceNode) (i j : ℕ) (out : SurfaceTokenFold)
    → replace_nodes nodes node (some i) (some j) ≡ ok out
    → (total_tokens out.nodes + priced_range nodes i j ≡ total_tokens nodes + node.tokens)
      × (out.delta_tokens ≡ difference node.tokens (priced_range nodes i j))
replace_nodes-total nodes node i j out h = elim (Bool-cases (ltb j i)) [
  | inl e ↦ absurd (ground (arith, e, h))
  | inr e ↦
      let count : j - i + 1 ≡ j + 1 - i = ground (arith, e) in
      let spliced_total = total_tokens-spliced nodes i (j - i + 1) (node ∷ []) in
      let priced = ap (λ n. total_tokens (take n (drop i nodes))) count in
      let made : record {
        tokens = node.tokens;
        nodes = spliced nodes i (j - i + 1) (node ∷ []);
        delta_tokens = difference node.tokens (priced_range nodes i j);
      }
          ≡ out =
        ok-injective _ out (rw e at h) in
      (
        omega (arith, spliced_total, priced, ap (λ o. total_tokens o.nodes) made),
        sym (ap (λ o. o.delta_tokens) made),
      )
]

abbrev Balances : List TokenSurfaceNode → SurfaceTokenFold → Type 0
Balances nodes out = pos (total_tokens nodes) +ℤ out.delta_tokens ≡ pos (total_tokens out.nodes)

replace_nodes-Balances :
    (nodes : List TokenSurfaceNode) (node : TokenSurfaceNode) (i j : Option ℕ)
    (out : SurfaceTokenFold)
    → replace_nodes nodes node i j ≡ ok out
    → Balances nodes out
replace_nodes-Balances nodes node none j out h = absurd (ground (arith, h))
replace_nodes-Balances nodes node (some i) none out h = absurd (ground (arith, h))
replace_nodes-Balances nodes node (some i) (some j) out h =
    let (balance, delta) = replace_nodes-total nodes node i j out h in
    ap (λ d. pos (total_tokens nodes) +ℤ d) delta
    ∙ pos-difference (total_tokens out.nodes) (total_tokens nodes) node.tokens
        (priced_range nodes i j) balance

fold_op-Balances :
    (nodes : List TokenSurfaceNode) (node : TokenSurfaceNode) (op : TokenSurfaceOp)
    (out : SurfaceTokenFold)
    → fold_op nodes node op ≡ ok out
    → Balances nodes out
fold_op-Balances nodes node append_op out h =
    let appended : SurfaceTokenFold = record {
      tokens = node.tokens;
      nodes = nodes ++ node ∷ [];
      delta_tokens = pos node.tokens;
    } in
    let total : total_tokens nodes + node.tokens ≡ total_tokens (nodes ++ node ∷ []) =
      omega (arith, total_tokens-append nodes (node ∷ [])) in
    subst (Balances nodes) (ok-injective appended out h) (ap (λ n. pos n) total)
fold_op-Balances nodes node (replace_op start end) out h =
    replace_nodes-Balances nodes node (find_node nodes start) (find_node nodes end) out h

-- When the priced surface takes an event, the total of its nodes and the signed delta, which may
-- be negative, add up to the total of the nodes after it.
pub fold_surface_tokens-total :
    (nodes : List TokenSurfaceNode) (event : TokenSurfaceEvent) (out : SurfaceTokenFold)
    → fold_surface_tokens nodes event ≡ ok out
    → pos (total_tokens nodes) +ℤ out.delta_tokens ≡ pos (total_tokens out.nodes)
unfolding fold_surface_tokens
fold_surface_tokens-total nodes event out h =
    fold_op-Balances nodes (record { seq = event.seq; tokens = message_price event.message })
      event.op out h

pub replace_nodes-ordered :
    (nodes : List TokenSurfaceNode) (node : TokenSurfaceNode) (i j : ℕ)
    → i ≤ j
    → replace_nodes nodes node (some i) (some j)
      ≡ ok (record {
        tokens = node.tokens;
        nodes = spliced nodes i (j - i + 1) (node ∷ []);
        delta_tokens = difference node.tokens (priced_range nodes i j);
      })
replace_nodes-ordered nodes node i j h =
    let in_order : ltb j i ≡ false = ground (arith, h) in rw in_order refl
