-- ===== src/Base/Ids.antt =====
-- Lists of identities: how often one occurs, and the first that a `Set` of seen ones rejects.
use Prim.Native.Nat.{ℕ, zero, suc, ◌+◌, ◌≤◌, ◌<◌}
use Prim.Native.String.{String}
use mathlib.Core.Path.{◌≡◌, refl}
use mathlib.Core.Logic.{inl, inr, ◌↔◌}
use mathlib.Core.Bool.{Bool, true, false, ◌||◌}
use mathlib.Core.Option.{Option, none, some}
use mathlib.Core.List.{List, [], ◌∷◌, ◌++◌}
use native.Mathlib.Omega.{arith}
use text.Mathlib.Text.{◌==◌ as str_eq}
use text.Mathlib.TextEquality.{eq_iff}
use agent_runtime_notes.Base.Tests.{if◌then◌else◌, Bool-cases}
use agent_runtime_notes.Base.Lists.{take, drop}

abbrev pub count : String → List String → ℕ
count id [] = 0
count id (x ∷ xs) = (if str_eq x id then 1 else 0) + count id xs

-- `set.has(id)`, for a set given by its elements.
abbrev pub has : List String → String → Bool
has [] id = false
has (x ∷ xs) id = str_eq x id || has xs id

-- The loop `if (seen.has(x)) throw …; seen.add(x)`: the identity that it throws for.
abbrev pub first_duplicate : List String → List String → Option String
first_duplicate seen [] = none
first_duplicate seen (x ∷ xs) = if has seen x then some x else first_duplicate (x ∷ seen) xs

abbrev pub IsDistinct : List String → Type 0
IsDistinct xs = (id : String) → count id xs ≤ 1

pub count-append :
    (id : String) (xs ys : List String) → count id (xs ++ ys) ≡ count id xs + count id ys
count-append id [] ys = omega arith
count-append id (x ∷ xs) ys = omega (arith, count-append id xs ys)

pub count-take-drop :
    (id : String) (n : ℕ) (xs : List String)
    → count id (take n xs) + count id (drop n xs) ≡ count id xs
count-take-drop id zero xs = omega arith
count-take-drop id (suc n) [] = omega arith
count-take-drop id (suc n) (x ∷ xs) = omega (arith, count-take-drop id n xs)

pub str_eq_refl : (s : String) → str_eq s s ≡ true
str_eq_refl s = (eq_iff s s).1 refl

pub has-of-count : (xs : List String) (id : String) → 0 < count id xs → has xs id ≡ true
has-of-count [] id h = absurd (omega arith)
has-of-count (x ∷ xs) id h = ground (arith, has-of-count xs id)

pub count-of-has : (xs : List String) (id : String) → has xs id ≡ true → 0 < count id xs
count-of-has [] id h = cc
count-of-has (x ∷ xs) id h = ground (arith, count-of-has xs id)

pub count-of-not-has : (xs : List String) (id : String) → has xs id ≡ false → count id xs ≡ 0
count-of-not-has [] id h = refl
count-of-not-has (x ∷ xs) id h = ground (arith, count-of-not-has xs id)

IsDistinct-cons :
    (x : String) (xs : List String) → has xs x ≡ false → IsDistinct xs → IsDistinct (x ∷ xs)
IsDistinct-cons x xs h d id = ground (arith, d id, eq_iff x id, count-of-not-has xs x h)

-- What the loop lets through is distinct, if what it has seen is.
pub first_duplicate-none :
    (seen xs : List String)
    → first_duplicate seen xs ≡ none
    → IsDistinct seen
    → (id : String) → count id seen + count id xs ≤ 1
first_duplicate-none seen [] e d id = omega (arith, d id)
first_duplicate-none seen (x ∷ xs) e d id = elim (Bool-cases (has seen x)) [
  | inl old ↦ cc (rw old at e)
  | inr new ↦
      omega
        (arith, first_duplicate-none (x ∷ seen) xs (rw new at e) (IsDistinct-cons x seen new d) id)
]

pub first_duplicate-of-distinct :
    (seen xs : List String)
    → ((id : String) → count id seen + count id xs ≤ 1)
    → first_duplicate seen xs ≡ none
first_duplicate-of-distinct seen [] d = refl
first_duplicate-of-distinct seen (x ∷ xs) d = elim (Bool-cases (has seen x)) [
  | inl old ↦ ground (arith, d x, str_eq_refl x, count-of-has seen x)
  | inr new ↦ rw new (first_duplicate-of-distinct (x ∷ seen) xs (λ id. omega (arith, d id)))
]

pub first_duplicate_iff : (xs : List String) → (first_duplicate [] xs ≡ none) ↔ IsDistinct xs
first_duplicate_iff xs = (
  λ e id. omega (arith, first_duplicate-none [] xs e (λ j. omega arith) id),
  λ d. first_duplicate-of-distinct [] xs (λ id. omega (arith, d id)),
)
