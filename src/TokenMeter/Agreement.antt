-- ===== src/TokenMeter/Agreement.antt =====
-- The bounded projection against the priced surface: breakdown-projection.ts with
-- surface-projection.ts, and surface-fold.ts under the replay of index.ts.
use agent_runtime_notes.TokenMeter.Accounts.{replace_nodes-ordered, fold_surface_tokens-total}
use agent_runtime_notes.Base.{
  Bool-cases, List, Option, Result, [], ap, arith, inl, inr, negsuc, none, ok, pos, refl, some,
  spliced, sym, true, ℕ, ℤ, ◌&&◌, ◌++◌, ◌+ℤ◌, ◌+◌, ◌-◌, ◌==◌, ◌>>=◌, ◌∙◌, ◌∷◌, ◌≡◌, ◌≤◌, difference,
}
use agent_runtime_notes.TokenMeter.{
  Content, ContextBreakdownState, EpochHeader, ShadowPriceClaim, TokenError, TokenEvent,
  TokenSurfaceNode, append_op, apply_breakdown, find_node, fold_surface_tokens, header_event,
  is_absent, is_zero, message_price, metering, moved_breakdown, off_surface, on_surface,
  priced_range, replace_op, consume_claim, fold_surface_projection, next_header, replace_nodes,
  total_tokens, SurfaceTokenFold, TokenSurfaceEvent, init_breakdown,
}

-- What the measurement service does with the surface events of a log, one by one.
unfoldable pub meter :
    List TokenSurfaceNode → List TokenEvent → Result TokenError (List TokenSurfaceNode)
meter nodes [] = ok nodes
meter nodes (on_surface event ∷ events) =
    fold_surface_tokens nodes event >>= λ fold. meter fold.nodes events
meter nodes (event ∷ events) = meter nodes events

unfoldable pub run_breakdown :
    ContextBreakdownState → List TokenEvent → Result TokenError ContextBreakdownState
run_breakdown s [] = ok s
run_breakdown s (event ∷ events) = apply_breakdown s event >>= λ next. run_breakdown next events

-- From a priced surface and the claim of the event before: each replacement comes right after the
-- price of the range that it replaces.
pub data Metered : List TokenSurfaceNode → Option ShadowPriceClaim → List TokenEvent → Type 0 where
  ends : (nodes : List TokenSurfaceNode) (claim : Option ShadowPriceClaim) → Metered nodes claim []
  prices :
      (nodes : List TokenSurfaceNode) (claim : Option ShadowPriceClaim) (price : ShadowPriceClaim)
      (events : List TokenEvent)
      → Metered nodes (some price) events
      → Metered nodes claim (metering price ∷ events)
  heads :
      (nodes : List TokenSurfaceNode) (claim : Option ShadowPriceClaim) (header : EpochHeader)
      (events : List TokenEvent)
      → Metered nodes none events
      → Metered nodes claim (header_event header ∷ events)
  passes :
      (nodes : List TokenSurfaceNode) (claim : Option ShadowPriceClaim) (events : List TokenEvent)
      → Metered nodes none events
      → Metered nodes claim (off_surface ∷ events)
  joins :
      (nodes : List TokenSurfaceNode) (claim : Option ShadowPriceClaim) (seq : ℕ)
      (message : Option Content) (events : List TokenEvent)
      → Metered (nodes ++ record { seq = seq; tokens = message_price message } ∷ []) none events
      → Metered nodes claim
          (on_surface (record { seq = seq; message = message; op = append_op }) ∷ events)
  rewrites :
      (nodes : List TokenSurfaceNode) (seq start end i j : ℕ) (message : Option Content)
      (events : List TokenEvent)
      → find_node nodes start ≡ some i
      → find_node nodes end ≡ some j
      → i ≤ j
      → Metered
          (spliced nodes i (j - i + 1) (record { seq = seq; tokens = message_price message } ∷ []))
          none
          events
      → Metered nodes
          (some (record { start = start; end = end; tokens = priced_range nodes i j }))
          (on_surface (record { seq = seq; message = message; op = replace_op start end }) ∷ events)

add_zero : (a : ℤ) → a +ℤ pos 0 ≡ a
add_zero (pos m) = ground arith
add_zero (negsuc m) = ground arith

add_is_zero : (a d : ℤ) → is_zero d ≡ true → a ≡ a +ℤ d
add_is_zero a (pos n) h =
    let nothing : n ≡ 0 = ground (arith, h) in sym (ap (λ k. a +ℤ pos k) nothing ∙ add_zero a)
add_is_zero a (negsuc n) h = absurd (ground (arith, h))

absent-none : (claim : Option ShadowPriceClaim) → is_absent claim ≡ true → claim ≡ none
absent-none none h = refl
absent-none (some claim) h = absurd (ground (arith, h))

moved_breakdown-lem :
    (s : ContextBreakdownState) (header : ℕ × ℕ) (delta : ℤ) (claim : Option ShadowPriceClaim)
    → ((moved_breakdown s header (delta, claim)).message_tokens ≡ s.message_tokens +ℤ delta)
      × ((moved_breakdown s header (delta, claim)).claim ≡ claim)
moved_breakdown-lem s (system, tools) delta claim =
    let same =
      system == s.system_tokens
      && tools == s.tools_tokens
      && is_zero delta
      && is_absent claim
      && is_absent s.claim in
    elim (Bool-cases same) [
      | inl e ↦
          let zero_delta : is_zero delta ≡ true = ground (arith, e) in
          let gone : is_absent claim ≡ true = ground (arith, e) in
          let was_gone : is_absent s.claim ≡ true = ground (arith, e) in
          rw e (
            add_is_zero s.message_tokens delta zero_delta,
            absent-none s.claim was_gone ∙ sym (absent-none claim gone),
          )
      | inr e ↦ rw e (refl, refl)
    ]

-- The total of the projection is that of the priced surface, and the claim is the armed one.
abbrev Agrees : ContextBreakdownState → List TokenSurfaceNode → Option ShadowPriceClaim → Type 0
Agrees s nodes claim = (s.message_tokens ≡ pos (total_tokens nodes)) × (s.claim ≡ claim)

apply_breakdown-Agrees :
    (s : ContextBreakdownState) (event : TokenEvent) (nodes after : List TokenSurfaceNode)
    (armed claim : Option ShadowPriceClaim) (delta : ℤ)
    → Agrees s nodes armed
    → fold_surface_projection armed event ≡ ok (delta, claim)
    → pos (total_tokens nodes) +ℤ delta ≡ pos (total_tokens after)
    → (next : ContextBreakdownState) × (apply_breakdown s event ≡ ok next) × Agrees next after claim
unfolding apply_breakdown
apply_breakdown-Agrees s event nodes after armed claim delta (total, held) f balance =
    let header = next_header (s.system_tokens, s.tools_tokens) event in
    let (moved, kept) = moved_breakdown-lem s header delta claim in
    (
      moved_breakdown s header (delta, claim),
      ap (λ r. r >>= λ fold. ok (moved_breakdown s header fold))
          (ap (λ c. fold_surface_projection c event) held ∙ f),
      (moved ∙ (ap (λ t. t +ℤ delta) total ∙ balance), kept),
    )

abbrev Outcome : ContextBreakdownState → List TokenSurfaceNode → List TokenEvent → Type 0
Outcome s nodes events =
    (after : List TokenSurfaceNode) × (last : ContextBreakdownState) × (meter nodes events
      ≡ ok after)
    × (run_breakdown s events ≡ ok last)
    × (last.message_tokens ≡ pos (total_tokens after))

-- A step of both folds, with what follows it.
Outcome-after :
    (s next : ContextBreakdownState) (nodes after : List TokenSurfaceNode) (event : TokenEvent)
    (events : List TokenEvent)
    → meter nodes (event ∷ events) ≡ meter after events
    → apply_breakdown s event ≡ ok next
    → Outcome next after events
    → Outcome s nodes (event ∷ events)
unfolding run_breakdown
Outcome-after s next nodes after event events m q (end, last, metered, ran, total) =
    (end, last, m ∙ metered, ap (λ r. r >>= λ n. run_breakdown n events) q ∙ ran, total)

consume_claim-own :
    (seq tokens start end price : ℕ)
    → consume_claim seq tokens start end
        (some (record { start = start; end = end; tokens = price }))
      ≡ ok (difference tokens price, none)
consume_claim-own seq tokens start end price = ground arith

-- An event that leaves the priced surface.
off_surface-Outcome :
    (s : ContextBreakdownState) (nodes : List TokenSurfaceNode) (event : TokenEvent)
    (events : List TokenEvent) (armed claim : Option ShadowPriceClaim)
    → meter nodes (event ∷ events) ≡ meter nodes events
    → fold_surface_projection armed event ≡ ok (pos 0, claim)
    → Agrees s nodes armed
    → ((next : ContextBreakdownState) → Agrees next nodes claim → Outcome next nodes events)
    → Outcome s nodes (event ∷ events)
off_surface-Outcome s nodes event events armed claim m f agrees later =
    let (next, q, agreed) =
      apply_breakdown-Agrees s event nodes nodes armed claim (pos 0) agrees f
        (add_zero (pos (total_tokens nodes))) in
    Outcome-after s next nodes nodes event events m q (later next agreed)

-- A surface event that the priced surface takes.
on_surface-Outcome :
    (s : ContextBreakdownState) (nodes : List TokenSurfaceNode) (event : TokenSurfaceEvent)
    (events : List TokenEvent) (armed : Option ShadowPriceClaim) (fold : SurfaceTokenFold)
    → fold_surface_tokens nodes event ≡ ok fold
    → fold_surface_projection armed (on_surface event) ≡ ok (fold.delta_tokens, none)
    → Agrees s nodes armed
    → ((next : ContextBreakdownState)
        → Agrees next fold.nodes none
        → Outcome next fold.nodes events)
    → Outcome s nodes (on_surface event ∷ events)
unfolding meter
on_surface-Outcome s nodes event events armed fold t f agrees later =
    let (next, q, agreed) =
      apply_breakdown-Agrees s (on_surface event) nodes fold.nodes armed none fold.delta_tokens
        agrees f (fold_surface_tokens-total nodes event fold t) in
    Outcome-after s next nodes fold.nodes (on_surface event) events
      (ap (λ r. r >>= λ g. meter g.nodes events) t) q (later next agreed)

metered-Outcome :
    (nodes : List TokenSurfaceNode) (claim : Option ShadowPriceClaim) (events : List TokenEvent)
    → Metered nodes claim events
    → (s : ContextBreakdownState) → Agrees s nodes claim
    → Outcome s nodes events
unfolding meter run_breakdown fold_surface_projection fold_surface_tokens
metered-Outcome _ _ _ (ends nodes claim) s agrees = (nodes, s, refl, refl, agrees.0)
metered-Outcome _ _ _ (prices nodes claim price events h) s agrees =
    off_surface-Outcome s nodes (metering price) events claim (some price) refl refl agrees
      (metered-Outcome nodes (some price) events h)
metered-Outcome _ _ _ (heads nodes claim header events h) s agrees =
    off_surface-Outcome s nodes (header_event header) events claim none refl refl agrees
      (metered-Outcome nodes none events h)
metered-Outcome _ _ _ (passes nodes claim events h) s agrees =
    off_surface-Outcome s nodes off_surface events claim none refl refl agrees
      (metered-Outcome nodes none events h)
metered-Outcome _ _ _ (joins nodes claim seq message events h) s agrees =
    let tokens = message_price message in
    let event : TokenSurfaceEvent = record { seq = seq; message = message; op = append_op } in
    let fold : SurfaceTokenFold = record {
      tokens = tokens;
      nodes = nodes ++ record { seq = seq; tokens = tokens } ∷ [];
      delta_tokens = pos tokens;
    } in
    on_surface-Outcome s nodes event events claim fold refl refl agrees
      (metered-Outcome fold.nodes none events h)
metered-Outcome _ _ _ (rewrites nodes seq start end i j message events first last order h) s
      agrees =
    let tokens = message_price message in
    let price = priced_range nodes i j in
    let node : TokenSurfaceNode = record { seq = seq; tokens = tokens } in
    let event : TokenSurfaceEvent = record {
      seq = seq;
      message = message;
      op = replace_op start end;
    } in
    let fold : SurfaceTokenFold = record {
      tokens = tokens;
      nodes = spliced nodes i (j - i + 1) (node ∷ []);
      delta_tokens = difference tokens price;
    } in
    let taken : fold_surface_tokens nodes event ≡ ok fold =
      ap (λ a. replace_nodes nodes node a (find_node nodes end)) first
      ∙ (ap (λ b. replace_nodes nodes node (some i) b) last
          ∙ replace_nodes-ordered nodes node i j order) in
    on_surface-Outcome s nodes event events
      (some (record { start = start; end = end; tokens = price })) fold taken
      (consume_claim-own seq tokens start end price) agrees
      (metered-Outcome fold.nodes none events h)

-- For a log from the start in which each replacement comes right after the price of the range that
-- it replaces, neither the priced surface nor the breakdown projection throws, and the message
-- tokens of the projection, which keeps no nodes, are the total of the priced surface.
pub metered_agreement :
    (events : List TokenEvent)
    → Metered [] none events
    → (nodes : List TokenSurfaceNode) × (last : ContextBreakdownState) × (meter [] events
        ≡ ok nodes)
      × (run_breakdown init_breakdown events ≡ ok last)
      × (last.message_tokens ≡ pos (total_tokens nodes))
metered_agreement events h = metered-Outcome [] none events h init_breakdown (refl, refl)
