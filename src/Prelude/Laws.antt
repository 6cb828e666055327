-- ===== src/Prelude/Laws.antt =====
-- Inversion of the actions, and what they leave alone.
use mathlib.Core.Path.{◌≡◌, refl, ◌∙◌}
use mathlib.Core.Logic.{◌≢◌}
use kube_dtn.Prelude.Monad.{
  Error, Result, ok, err, panic, Action, and_then, ◌>>=◌, outcome_of, attempt, error_mapped,
  map_error, error_ignored, ignore,
}

module _ {S A B : Type 0} where
  and_then-eq-ok :
      (f : A → Action S B) (r : Result A × S) {b : B} {s' : S}
      → and_then f r ≡ (ok b, s')
      → (a : A) × (s₁ : S) × (r ≡ (ok a, s₁)) × (f a s₁ ≡ (ok b, s'))
  and_then-eq-ok f (ok a, s₁) h = (a, s₁, refl, h)
  and_then-eq-ok f (err e, s₁) h = absurd (cc)
  and_then-eq-ok f (panic, s₁) h = absurd (cc)

  -- A chain that succeeds: its first part does, and the rest from where that ended.
  pub bind-eq-ok :
      (m : Action S A) (f : A → Action S B) (s : S) {b : B} {s' : S}
      → (m >>= f) s ≡ (ok b, s')
      → (a : A) × (s₁ : S) × (m s ≡ (ok a, s₁)) × (f a s₁ ≡ (ok b, s'))
  bind-eq-ok m f s h = and_then-eq-ok f (m s) h

module _ {S A V : Type 0} (view : S → V) where
  -- An action leaves a view of the state alone, however it ends.
  abbrev pub Keeps : Action S A → Type 0
  Keeps m = (s : S) → view (m s).1 ≡ view s

  outcome_of-state : (r : Result A × S) → view (outcome_of r).1 ≡ view r.1
  outcome_of-state (ok a, s) = refl
  outcome_of-state (err e, s) = refl
  outcome_of-state (panic, s) = refl

  pub Keeps-attempt : (m : Action S A) → Keeps m → (s : S) → view (attempt m s).1 ≡ view s
  Keeps-attempt m h s = outcome_of-state (m s) ∙ h s

  error_mapped-state : (f : Error → Error) (r : Result A × S) → view (error_mapped f r).1 ≡ view r.1
  error_mapped-state f (ok a, s) = refl
  error_mapped-state f (err e, s) = refl
  error_mapped-state f (panic, s) = refl

  pub Keeps-map_error :
      (f : Error → Error) (m : Action S A) → Keeps m → (s : S) → view (map_error f m s).1 ≡ view s
  Keeps-map_error f m h s = error_mapped-state f (m s) ∙ h s

module _ {S V : Type 0} (view : S → V) where
  error_ignored-state : (r : Result (Unit {0}) × S) → view (error_ignored r).1 ≡ view r.1
  error_ignored-state (ok a, s) = refl
  error_ignored-state (err e, s) = refl
  error_ignored-state (panic, s) = refl

  pub Keeps-ignore : (m : Action S (Unit {0})) → Keeps view m → Keeps view (ignore m)
  Keeps-ignore m h s = error_ignored-state (m s) ∙ h s

module _ {S A B V : Type 0} (view : S → V) where
  and_then-state :
      (f : A → Action S B)
      → ((a : A) → Keeps view (f a))
      → (r : Result A × S) → view (and_then f r).1 ≡ view r.1
  and_then-state f k (ok a, s) = k a s
  and_then-state f k (err e, s) = refl
  and_then-state f k (panic, s) = refl

  -- A chain leaves alone what both parts leave alone.
  pub Keeps-bind :
      (m : Action S A) (f : A → Action S B)
      → Keeps view m
      → ((a : A) → Keeps view (f a))
      → Keeps view (m >>= f)
  Keeps-bind m f h k s = and_then-state f k (m s) ∙ h s

-- The same of an action that does not panic.
module _ {S A V : Type 0} (view : S → V) where
  abbrev pub KeepsCalm : Action S A → Type 0
  KeepsCalm m = (s : S) → (m s).0 ≢ panic → view (m s).1 ≡ view s

module _ {S A B V : Type 0} (view : S → V) where
  and_then-calm :
      (f : A → Action S B)
      → ((a : A) → KeepsCalm view (f a))
      → (r : Result A × S) → (and_then f r).0 ≢ panic
      → view (and_then f r).1 ≡ view r.1
  and_then-calm f k (ok a, s) calm = k a s calm
  and_then-calm f k (err e, s) calm = refl
  and_then-calm f k (panic, s) calm = absurd (calm refl)

  -- A chain of calls of which only the first is known to leave the view alone at a panic too.
  pub KeepsCalm-bind :
      (m : Action S A) (f : A → Action S B)
      → Keeps view m
      → ((a : A) → KeepsCalm view (f a))
      → KeepsCalm view (m >>= f)
  KeepsCalm-bind m f h k s calm = and_then-calm f k (m s) calm ∙ h s
