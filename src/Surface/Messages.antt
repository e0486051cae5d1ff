-- ===== src/Surface/Messages.antt =====
-- The messages of the events on the surface: `deriveEventMessage` of surface.ts.
use agent_runtime_notes.Session.{
  Block, EventData, SessionEvent, SurfaceOp, ToolResult, assistant_message, tool_result,
  user_message,
}
use agent_runtime_notes.Base.{
  Bool-cases, List, Option, Result-cases, String, false, [], ap, arith, get_elem?, inl, inr, ltb,
  none, ok, refl, some, suc, true, ℕ, ◌+◌, ◌-◌, ◌<◌, ◌∙◌, ◌∷◌, ◌≡◌,
}
use agent_runtime_notes.Surface.Planning.{
  SurfaceFold, apply_surface_event, fold_events, fold_surface, fold_window, plan_surface_event,
  push_replacement,
}
use agent_runtime_notes.Surface.{
  SurfaceFoldReplacement, SurfaceFoldState, create_fold_state, is_defined, is_surface_eligible_type,
  is_surface_event, marked_op, surface_op_of,
}
use agent_runtime_notes.Surface.Refinement.{apply_surface_event-IsStep}
use agent_runtime_notes.Surface.Growth.{fold_events-cons}
use agent_runtime_notes.Surface.Accounts.{fold_events-seqs, fold_surface-occurrences, surface_seqs}
use agent_runtime_notes.Surface.Counting.{occurrences}

-- The message nested in an event, as far as the events hold it.
pub data Message : Type 0 where
  user_said : String → Message
  assistant_said : List Block → Message
  tool_said : ToolResult → Message

abbrev pub unless_empty : List Block → Option Message
unless_empty [] = none
unless_empty (block ∷ blocks) = some (assistant_said (block ∷ blocks))

abbrev pub derive_event_message : EventData → Option Message
derive_event_message (user_message text) = some (user_said text)
derive_event_message (assistant_message turn step blocks) = unless_empty blocks
derive_event_message (tool_result result) = some (tool_said result)
derive_event_message body = none

-- A message, or an assistant message without content.
pub data HasMessage (body : EventData) : Type 0 where
  shown : (message : Message) → derive_event_message body ≡ some message → HasMessage body
  hollow : (turn step : ℕ) → body ≡ assistant_message turn step [] → HasMessage body

abbrev pub IsShown : SessionEvent → Type 0
IsShown event = (is_surface_event event ≡ true) × HasMessage event.body

eligible-HasMessage : (body : EventData) → is_surface_eligible_type body ≡ true → HasMessage body
eligible-HasMessage (user_message text) e = shown (user_said text) refl
eligible-HasMessage (tool_result result) e = shown (tool_said result) refl
eligible-HasMessage (assistant_message turn step []) e = hollow turn step refl
eligible-HasMessage (assistant_message turn step (block ∷ blocks)) e =
    shown (assistant_said (block ∷ blocks)) refl
eligible-HasMessage _ e = absurd (ground arith)

marked_op-defined : (raw op : Option SurfaceOp) → marked_op raw ≡ ok op → is_defined raw ≡ true
unfolding marked_op
marked_op-defined none op h = absurd (ground arith)
marked_op-defined (some raw) op h = refl

apply_surface_event-IsShown :
    (state : SurfaceFoldState) (event : SessionEvent) (seq : ℕ) (events : List SessionEvent)
    (base : ℕ) (next : SurfaceFoldState × Option SurfaceFoldReplacement)
    → apply_surface_event state event seq events base ≡ ok next
    → is_surface_eligible_type event.body ≡ true
    → IsShown event
unfolding apply_surface_event plan_surface_event surface_op_of
apply_surface_event-IsShown state event seq events base next h e =
    elim (Result-cases (marked_op event.surface_op)) [
      | inr (failed, m) ↦ absurd (ground (arith, e, m))
      | inl (op, m) ↦
          let marked = marked_op-defined event.surface_op op m in
          (ground (arith, e, marked), eligible-HasMessage event.body e)
    ]

surface_seqs-here :
    (n : ℕ) (event : SessionEvent) (rest : List SessionEvent)
    → 0 < occurrences n (surface_seqs (event ∷ rest))
    → ltb 0 (occurrences n (surface_seqs rest)) ≡ false
    → (is_surface_eligible_type event.body ≡ true) × (event.seq ≡ n)
surface_seqs-here n event rest p not_there =
    (ground (arith, p, not_there), ground (arith, p, not_there))

fold_events-IsShown :
    (n : ℕ) (events : List SessionEvent) (base seq : ℕ) (fold out : SurfaceFold)
    (rest : List SessionEvent)
    → fold_events events base seq fold rest ≡ ok out
    → 0 < occurrences n (surface_seqs rest)
    → (event : SessionEvent) × (get_elem? rest (n - seq) ≡ some event) × IsShown event
fold_events-IsShown n events base seq fold out [] h p = absurd (omega (arith, p))
fold_events-IsShown n events base seq fold out (event ∷ rest) h p =
    let ((state, next), q, h') = fold_events-cons events base seq fold out event rest h in
    let (s, step) = apply_surface_event-IsStep fold.0 event seq events base (state, next) q in
    let (once, within) =
      fold_events-seqs n events base (seq + 1) (state, push_replacement fold.1 next) out rest h' in
    let later =
      fold_events-IsShown n events base (seq + 1) (state, push_replacement fold.1 next) out rest
        h' in
    elim (Bool-cases (ltb 0 (occurrences n (surface_seqs rest)))) [
      | inl there ↦
          let inside = within (ground (arith, there)) in
          let (found, at, visible) = later (ground (arith, there)) in
          let place : n - seq ≡ suc (n - (seq + 1)) = omega (arith, inside) in
          (found, ap (get_elem? (event ∷ rest)) place ∙ at, visible)
      | inr not_there ↦
          let (eligible, named) = surface_seqs-here n event rest p not_there in
          let here : n - seq ≡ 0 = omega (arith, s, named) in
          (
            event,
            ap (get_elem? (event ∷ rest)) here,
            apply_surface_event-IsShown fold.0 event seq events base (state, next) q eligible,
          )
    ]

-- Every node of the surface of a log that the fold takes is the place of an event of the log that
-- is a surface event, and either a message is derived from it or it is an assistant message
-- without content.
pub fold_surface-IsShown :
    (events : List SessionEvent) (nodes : List ℕ) (replacements : List SurfaceFoldReplacement)
    (n : ℕ)
    → fold_surface events ≡ ok (nodes, replacements)
    → 0 < occurrences n nodes
    → (event : SessionEvent) × (get_elem? events n ≡ some event) × IsShown event
unfolding fold_surface fold_window
fold_surface-IsShown events nodes replacements n h p =
    let (account, once) = fold_surface-occurrences events nodes replacements n h in
    elim (Result-cases (fold_window 0 events)) [
      | inr (failed, q) ↦ absurd (ground (arith, q))
      | inl (fold, q) ↦
          let start : SurfaceFold = (create_fold_state, []) in
          let (event, at, visible) =
            fold_events-IsShown n events 0 0 start fold events q (omega (arith, account, p)) in
          let place : n ≡ n - 0 = omega arith in (event, ap (get_elem? events) place ∙ at, visible)
    ]
