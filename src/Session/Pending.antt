-- ===== src/Session/Pending.antt =====
-- The map of pending calls: what its operations keep of its entries and keys.
use agent_runtime_notes.Base.{
  ℕ, ◌≤◌, ◌≡◌, refl, String, false, List, [], ◌∷◌, map, none, some, arith, max, inl, inr, All,
  Bool-cases, IsDistinct, count, has, str_eq, eq_iff, if◌then◌else◌,
}
use agent_runtime_notes.Session.{Block, tool_call_block, other_block}
use agent_runtime_notes.Session.Trace.{without}
use agent_runtime_notes.Session.Repair.{PendingCall, set_call, cite_call, delete_call, register}

abbrev pub keys : List (String × PendingCall) → List String
keys m = map (λ e. e.0) m

pub count-keys-set_call :
    (id j : String) (c : PendingCall) (m : List (String × PendingCall))
    → count j (keys (set_call id c m))
      ≡ (if str_eq id j then max 1 (count j (keys m)) else count j (keys m))
unfolding set_call
count-keys-set_call id j c [] = ground arith
count-keys-set_call id j c ((k, d) ∷ m) =
    ground (arith, count-keys-set_call id j c m, eq_iff k id, eq_iff id j, eq_iff k j)

pub register-IsDistinct :
    (step : ℕ) (blocks : List Block) (m : List (String × PendingCall))
    → IsDistinct (keys m)
    → IsDistinct (keys (register step blocks m))
unfolding register
register-IsDistinct step [] m h = h
register-IsDistinct step (other_block text ∷ blocks) m h = register-IsDistinct step blocks m h
register-IsDistinct step (tool_call_block id ∷ blocks) m h =
    let c : PendingCall = record { step = step; call_seq = none } in
    register-IsDistinct step blocks (set_call id c m)
      (λ j. ground (arith, count-keys-set_call id j c m, h j))

pub keys-cite_call :
    (id : String) (seq : ℕ) (m : List (String × PendingCall)) → keys (cite_call id seq m) ≡ keys m
unfolding cite_call
keys-cite_call id seq [] = refl
keys-cite_call id seq ((k, c) ∷ m) = ground (arith, keys-cite_call id seq m)

pub count-keys-delete_call :
    (id j : String) (m : List (String × PendingCall))
    → count j (keys (delete_call id m)) ≤ count j (keys m)
unfolding delete_call
count-keys-delete_call id j [] = omega arith
count-keys-delete_call id j ((k, c) ∷ m) = ground (arith, count-keys-delete_call id j m)

module _ (P : String × PendingCall → Type 0) where
  set_call-All :
      (id : String) (c : PendingCall) (m : List (String × PendingCall))
      → P (id, c)
      → All P m
      → All P (set_call id c m)
  unfolding set_call
  set_call-All id c [] p h = (p, tt)
  set_call-All id c ((k, d) ∷ m) p h = elim (Bool-cases (str_eq k id)) [
    | inl same ↦ rw (same, set_call) (rw ((eq_iff k id).0 same) p, h.1)
    | inr other ↦ rw (other, set_call) (h.0, set_call-All id c m p h.1)
  ]

  pub register-All :
      (step : ℕ)
      → ((id : String) → P (id, record { step = step; call_seq = none }))
      → (blocks : List Block) (m : List (String × PendingCall)) → All P m
      → All P (register step blocks m)
  unfolding register
  register-All step p [] m h = h
  register-All step p (other_block text ∷ blocks) m h = register-All step p blocks m h
  register-All step p (tool_call_block id ∷ blocks) m h =
      register-All step p blocks _ (set_call-All id _ m (p id) h)

  pub delete_call-All :
      (id : String) (m : List (String × PendingCall)) → All P m → All P (delete_call id m)
  unfolding delete_call
  delete_call-All id [] h = tt
  delete_call-All id ((k, c) ∷ m) h = elim (Bool-cases (str_eq k id)) [
    | inl same ↦ rw (same, delete_call) h.1
    | inr other ↦ rw (other, delete_call) (h.0, delete_call-All id m h.1)
  ]

pub All-map :
    (P Q : String × PendingCall → Type 0)
    → ((e : String × PendingCall) → P e → Q e)
    → (m : List (String × PendingCall)) → All P m
    → All Q m
All-map P Q f [] h = tt
All-map P Q f (e ∷ m) h = (f e h.0, All-map P Q f m h.1)

pub cite_call-All :
    (P Q : String × PendingCall → Type 0) (id : String) (seq : ℕ)
    → ((e : String × PendingCall) → P e → Q e)
    → ((c : PendingCall) → P (id, c) → Q (id, record c { call_seq = some seq }))
    → (m : List (String × PendingCall)) → All P m
    → All Q (cite_call id seq m)
unfolding cite_call
cite_call-All P Q id seq f g [] h = tt
cite_call-All P Q id seq f g ((k, c) ∷ m) h = elim (Bool-cases (str_eq k id)) [
  | inl same ↦
      let e = (eq_iff k id).0 same in
      rw (same, cite_call) (rw e (g c (rw e at h.0)), All-map P Q f m h.1)
  | inr other ↦ rw (other, cite_call) (f (k, c) h.0, cite_call-All P Q id seq f g m h.1)
]

-- Entries under another key than `id`.
pub others-All :
    (P Q : String × PendingCall → Type 0) (id : String)
    → ((k : String) (c : PendingCall) → str_eq k id ≡ false → P (k, c) → Q (k, c))
    → (m : List (String × PendingCall)) → count id (keys m) ≡ 0
    → All P m
    → All Q m
others-All P Q id f [] none_left h = tt
others-All P Q id f ((k, c) ∷ m) none_left h =
    (f k c (ground arith) h.0, others-All P Q id f m (ground arith) h.1)

pub delete_call-others :
    (P Q : String × PendingCall → Type 0) (id : String)
    → ((k : String) (c : PendingCall) → str_eq k id ≡ false → P (k, c) → Q (k, c))
    → (m : List (String × PendingCall)) → IsDistinct (keys m)
    → All P m
    → All Q (delete_call id m)
unfolding delete_call
delete_call-others P Q id f [] d h = tt
delete_call-others P Q id f ((k, c) ∷ m) d h = elim (Bool-cases (str_eq k id)) [
  | inl same ↦ rw (same, delete_call) (others-All P Q id f m (ground (arith, d id)) h.1)
  | inr other ↦
      rw (other, delete_call)
        (f k c other h.0, delete_call-others P Q id f m (λ j. omega (arith, d j)) h.1)
]

pub has-without :
    (ids : List String) (id k : String) → str_eq k id ≡ false → has (without ids id) k ≡ has ids k
unfolding without
has-without [] id k h = refl
has-without (x ∷ xs) id k h =
    ground (arith, has-without xs id k, eq_iff x id, eq_iff x k, eq_iff k id)
