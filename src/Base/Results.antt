-- ===== src/Base/Results.antt =====
-- What a function that may throw gives back: its value or what it throws.
use mathlib.Core.Path.{◌≡◌, refl}
use mathlib.Core.Logic.{◌⊎◌, inl, inr}
use mathlib.Core.Bool.{Bool, true, false}
use native.Mathlib.Omega.{arith}

pub data Result (E A : Type 0) : Type 0 where
  ok : A → Result E A
  err : E → Result E A

module _ {E A : Type 0} where
  pub Result-cases : (r : Result E A) → ((a : A) × (r ≡ ok a)) ⊎ ((e : E) × (r ≡ err e))
  Result-cases (ok a) = inl (a, refl)
  Result-cases (err e) = inr (e, refl)

  pub ok-injective : (a b : A) → ◌≡◌ {A = Result E A} (ok a) (ok b) → a ≡ b
  ok-injective a b h = cc

-- `if (!allowed) throw thrown`.
abbrev pub throw_unless : {E : Type 0} → Bool → E → Result E (Unit {0})
throw_unless allowed thrown = elim allowed [ true ↦ ok tt | false ↦ err thrown ]

-- Statements in sequence: a throw skips what follows.
infixl 8 ◌>>=◌ ◌>>◌
abbrev pub ◌>>=◌ : {E A B : Type 0} → Result E A → (A → Result E B) → Result E B
first >>= later = elim first [ err thrown ↦ err thrown | ok value ↦ later value ]

abbrev pub ◌>>◌ : {E A B : Type 0} → Result E A → Result E B → Result E B
first >> later = first >>= (λ _. later)

-- A sequence that has not thrown, taken apart.
module _ {E A B : Type 0} where
  pub bind_ok :
      (first : Result E A) (later : A → Result E B) (b : B)
      → first >>= later ≡ ok b
      → (a : A) × (first ≡ ok a) × (later a ≡ ok b)
  bind_ok (ok a) later b h = (a, refl, h)
  bind_ok (err e) later b h = absurd (ground arith)

module _ {E B : Type 0} where
  pub throw_unless-ok :
      (allowed : Bool) (thrown : E) (later : Result E B) (b : B)
      → throw_unless allowed thrown >> later ≡ ok b
      → (allowed ≡ true) × (later ≡ ok b)
  throw_unless-ok true thrown later b h = (refl, h)
  throw_unless-ok false thrown later b h = absurd (ground arith)
