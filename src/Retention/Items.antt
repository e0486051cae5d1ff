-- ===== src/Retention/Items.antt =====
-- Bounded lists of units: class ItemRetainer of output-retention's index.ts.
use agent_runtime_notes.Base.{
  Bool, List, [], false, if◌then◌else◌, length, ltb, take, true, ℕ, ◌++◌, ◌+◌, ◌-◌, ◌∷◌, ◌≡◌,
  Bool-cases, ap, append_assoc, arith, inl, inr, length-append, length-take, min, sym, take-append,
  take_short, ◌∙◌, ◌≤◌, take-nil,
}
use agent_runtime_notes.Retention.{Omitted, PushDecision, omission}
use mathlib.Core.List.{append-nil}

pub record RetainedItems (A : Type 0) : Type 0 where
  pub items : List A
  pub truncated : Bool
  pub seen : ℕ
  pub kept : ℕ
  pub omitted : Omitted

pub record ItemRetainer (A : Type 0) : Type 0 where
  pub max_items : ℕ
  pub items : List A
  pub seen : ℕ
  pub omitted_count : ℕ

module _ {A : Type 0} where
  abbrev pub new_item_retainer : ℕ → ItemRetainer A
  new_item_retainer max_items = record {
    max_items = max_items;
    items = [];
    seen = 0;
    omitted_count = 0;
  }

  unfoldable pub push_item : ItemRetainer A → A → ItemRetainer A × PushDecision
  push_item r item =
      if ltb (length r.items) r.max_items
      then (
        record r { items = r.items ++ item ∷ []; seen = r.seen + 1 },
        record { kept = true; truncated = false },
      )
      else (
        record r { seen = r.seen + 1; omitted_count = r.omitted_count + 1 },
        record { kept = false; truncated = true },
      )

  unfoldable pub finish_items : ItemRetainer A → RetainedItems A
  finish_items r = record {
    items = r.items;
    truncated = ltb 0 r.omitted_count;
    seen = r.seen;
    kept = length r.items;
    omitted = omission r.omitted_count;
  }

  abbrev pub push_items : ItemRetainer A → List A → ItemRetainer A
  push_items r [] = r
  push_items r (item ∷ items) = push_items ((push_item r item).0) items

  -- What a retainer of `max_items` holds after some units.
  abbrev pub holding : ℕ → List A → ItemRetainer A
  holding max_items seen = record {
    max_items = max_items;
    items = take max_items seen;
    seen = length seen;
    omitted_count = length seen - max_items;
  }

  push_item-holding :
      (max_items : ℕ) (seen : List A) (item : A)
      → (push_item (holding max_items seen) item).0 ≡ holding max_items (seen ++ item ∷ [])
  unfolding push_item
  push_item-holding max_items seen item =
      let items = take-append max_items seen (item ∷ []) in
      let held = length-take max_items seen in
      let count : length seen + 1 ≡ length (seen ++ item ∷ []) =
        omega (arith, length-append seen (item ∷ [])) in
      elim (Bool-cases (ltb (length (take max_items seen)) max_items)) [
        | inl room ↦
            let place : 1 ≤ max_items - length seen = ground (arith, held, room) in
            let new = take_short (max_items - length seen) (item ∷ []) place in
            let none_left : length seen - max_items ≡ length (seen ++ item ∷ []) - max_items =
              omega (arith, place, count) in
            rw room (cc (items, new, count, none_left))
        | inr full ↦
            let none_more : max_items - length seen ≡ 0 = ground (arith, held, full) in
            let same : take max_items seen ≡ take max_items (seen ++ item ∷ []) =
              sym (append-nil (take max_items seen))
              ∙ (ap (λ n. take max_items seen ++ take n (item ∷ [])) (sym none_more) ∙ sym items) in
            let one_more : length seen - max_items + 1 ≡ length (seen ++ item ∷ []) - max_items =
              omega (arith, none_more, count) in
            rw full (cc (same, count, one_more))
      ]

  push_items-holding :
      (max_items : ℕ) (seen items : List A)
      → push_items (holding max_items seen) items ≡ holding max_items (seen ++ items)
  push_items-holding max_items seen [] = ap (holding max_items) (sym (append-nil seen))
  push_items-holding max_items seen (item ∷ items) =
      ap (λ r. push_items r items) (push_item-holding max_items seen item)
      ∙ (push_items-holding max_items (seen ++ item ∷ []) items
          ∙ ap (holding max_items) (append_assoc seen (item ∷ []) items))

  new-holding : (max_items : ℕ) → new_item_retainer max_items ≡ holding max_items []
  new-holding max_items =
      let nothing = take-nil {A = A} max_items in
      let none_left : 0 ≡ 0 - max_items = omega arith in cc (nothing, none_left)

  -- After any units, a new item retainer gives the first of them up to its budget, says how many
  -- it saw and kept, and is truncated with the exact number of omitted units where there are more
  -- than the budget.
  pub finish_items-push_items :
      (max_items : ℕ) (items : List A)
      → finish_items (push_items (new_item_retainer max_items) items) ≡ record {
        items = take max_items items;
        truncated = ltb max_items (length items);
        seen = length items;
        kept = min max_items (length items);
        omitted = omission (length items - max_items);
      }
  unfolding finish_items
  finish_items-push_items max_items items =
      let start : new_item_retainer max_items ≡ holding max_items [] = new-holding max_items in
      let done = ap (λ r. push_items r items) start ∙ push_items-holding max_items [] items in
      let any : ltb 0 (length items - max_items) ≡ ltb max_items (length items) = ground arith in
      let kept = length-take max_items items in ap finish_items done ∙ cc (any, kept)
