-- ===== src/Surface/Growth.antt =====
-- What a growing log leaves of its surface: `planSurfaceEvent` and `foldSurface` of surface.ts.
use agent_runtime_notes.Base.{
  List, Option, Result-cases, arith, inl, inr, ok, ℕ, ◌+◌, ◌∷◌, ◌≡◌, [], ap, append_assoc,
  ok-injective, refl, sym, ◌++◌, ◌∙◌, ◌≤◌,
}
use agent_runtime_notes.Session.{SessionEvent}
use agent_runtime_notes.Surface.Planning.{
  SurfaceFold, apply_surface_event, fold_events, push_replacement,
}
use agent_runtime_notes.Surface.{SurfaceFoldReplacement, SurfaceFoldState}
use agent_runtime_notes.Surface.Refinement.{
  Steps, appends, apply_surface_event-IsStep, replaces, skips,
}
use mathlib.Core.List.{append-nil}
use mathlib.Core.Path.{subst}

-- One round of the loop of `foldSurface` that has not thrown.
pub fold_events-cons :
    (events : List SessionEvent) (base seq : ℕ) (fold out : SurfaceFold) (event : SessionEvent)
    (rest : List SessionEvent)
    → fold_events events base seq fold (event ∷ rest) ≡ ok out
    → (next : SurfaceFoldState × Option SurfaceFoldReplacement) × (apply_surface_event fold.0 event
          seq events base
        ≡ ok next)
      × (fold_events events base (seq + 1) (next.0, push_replacement fold.1 next.1) rest ≡ ok out)
unfolding fold_events
fold_events-cons events base seq fold out event rest h =
    elim (Result-cases (apply_surface_event fold.0 event seq events base)) [
      | inr (thrown, q) ↦ absurd (ground (arith, q))
      | inl (next, q) ↦ (next, q, rw (fold_events, q) at h)
    ]

-- The surface has only been appended to since, if its generation is still the same.
abbrev pub Appended : SurfaceFoldState → SurfaceFoldState → Type 0
Appended old new =
    (old.replace_generation ≤ new.replace_generation)
    × (new.replace_generation ≡ old.replace_generation
        → (added : List ℕ) × (new.nodes ≡ old.nodes ++ added))

Appended-trans : (a b c : SurfaceFoldState) → Appended a b → Appended b c → Appended a c
Appended-trans a b c (l, f) (m, g) = (
  omega (arith, l, m),
  λ e.
      let (xs, p) = f (omega (arith, l, m, e)) in
      let (ys, q) = g (omega (arith, l, m, e)) in
      (xs ++ ys, q ∙ (ap (λ n. n ++ ys) p ∙ append_assoc a.nodes xs ys)),
)

Steps-Appended :
    (state next : SurfaceFoldState) (event : SessionEvent)
    (replacement : Option SurfaceFoldReplacement)
    → Steps state event next replacement
    → Appended state next
Steps-Appended state next event replacement (skips e) =
    (omega arith, λ q. ([], sym (append-nil state.nodes)))
Steps-Appended state next event replacement (appends e m) =
    (omega arith, λ q. (event.seq ∷ [], refl))
Steps-Appended state next event replacement (replaces start end i k e m a b c) =
    (omega arith, λ q. absurd (omega (arith, q)))

pub fold_events-Appended :
    (events : List SessionEvent) (base seq : ℕ) (fold out : SurfaceFold) (rest : List SessionEvent)
    → fold_events events base seq fold rest ≡ ok out
    → Appended fold.0 out.0
unfolding fold_events
fold_events-Appended events base seq fold out [] h =
    let q = ok-injective fold out h in
    subst (λ f. Appended fold.0 f.0) q (omega arith, λ e. ([], sym (append-nil fold.0.nodes)))
fold_events-Appended events base seq fold out (event ∷ rest) h =
    let ((state, next), q, h') = fold_events-cons events base seq fold out event rest h in
    let (s, step) = apply_surface_event-IsStep fold.0 event seq events base (state, next) q in
    Appended-trans fold.0 state out.0 (Steps-Appended fold.0 state event next step)
      (fold_events-Appended events base (seq + 1) (state, push_replacement fold.1 next) out rest h')
