-- ===== src/Prelude/Lists.antt =====
-- Lists: lengths by native numbers, selection by a Boolean test, membership and predicates by
-- recursion.
use Prim.Native.Nat.{ℕ, suc, ◌+◌}
use mathlib.Core.Path.{◌≡◌, refl}
use mathlib.Core.Logic.{◌⊎◌, inl, inr, ◌↔◌}
use mathlib.Core.Bool.{Bool, true, false, ◌||◌}
use mathlib.Core.List.{List, [], ◌∷◌, ◌++◌, map}
use native.Mathlib.Omega.{arith}
use kube_dtn.Prelude.Tests.{Eq, ◌==◌, if◌then◌else◌, Bool-cases}

module _ {ℓ} {A : Type ℓ} where
  abbrev pub length : List A → ℕ
  length [] = 0
  length (x ∷ xs) = suc (length xs)

  abbrev pub any : (A → Bool) → List A → Bool
  any p [] = false
  any p (x ∷ xs) = p x || any p xs

  abbrev pub keep : (A → Bool) → List A → List A
  keep p [] = []
  keep p (x ∷ xs) = if p x then x ∷ keep p xs else keep p xs

  pub length-append : (xs ys : List A) → length (xs ++ ys) ≡ length xs + length ys
  length-append [] ys = omega arith
  length-append (x ∷ xs) ys = omega (arith, length-append xs ys)

module _ {ℓ κ} {A : Type ℓ} (P : A → Type κ) where
  abbrev pub All : List A → Type κ
  All [] = Unit
  All (x ∷ xs) = P x × All xs

module _ {A : Type 0} where
  abbrev pub In : A → List A → Type 0
  In a [] = ⊥
  In a (x ∷ xs) = (a ≡ x) ⊎ In a xs

  pub In-append : (a : A) (xs ys : List A) → In a (xs ++ ys) ↔ (In a xs ⊎ In a ys)
  In-append a [] ys = ground arith
  In-append a (x ∷ xs) ys = ground (arith, In-append a xs ys)

  pub In-keep : (p : A → Bool) (a : A) (xs : List A) → In a (keep p xs) ↔ (In a xs × (p a ≡ true))
  In-keep p a [] = ground arith
  In-keep p a (x ∷ xs) = elim (Bool-cases (p x)) [
    | inl e ↦ rw (e, keep) (ground (arith, In-keep p a xs))
    | inr e ↦ rw (e, keep) (ground (arith, In-keep p a xs))
  ]

  pub All_In {κ} : (P : A → Type κ) (xs : List A) {a : A} → All P xs → In a xs → P a
  All_In P [] h i = elim i [ ]
  All_In P (x ∷ xs) (p, h) (inl e) = rw e p
  All_In P (x ∷ xs) (p, h) (inr i) = All_In P xs h i

  abbrev pub contains : ⦃e : Eq A⦄ → A → List A → Bool
  contains a xs = any (λ x. a == x) xs

  pub contains_iff : ⦃e : Eq A⦄ (a : A) (xs : List A) → (contains a xs ≡ true) ↔ In a xs
  contains_iff a [] = ground arith
  contains_iff ⦃e⦄ a (x ∷ xs) = ground (arith, e.test_iff a x, contains_iff a xs)

module _ {A B : Type 0} (f : A → B) where
  pub In-map_intro : (a : A) (xs : List A) → In a xs → In (f a) (map f xs)
  In-map_intro a [] i = elim i [ ]
  In-map_intro a (x ∷ xs) (inl e) = inl (rw e)
  In-map_intro a (x ∷ xs) (inr i) = inr (In-map_intro a xs i)

  pub In-map_elim : (b : B) (xs : List A) → In b (map f xs) → (a : A) × In a xs × (b ≡ f a)
  In-map_elim b [] i = elim i [ ]
  In-map_elim b (x ∷ xs) (inl e) = (x, inl refl, e)
  In-map_elim b (x ∷ xs) (inr i) = let (a, j, e) = In-map_elim b xs i in (a, inr j, e)

module _ {ℓ κ ν} {A : Type ℓ} {P : A → Type κ} {Q : A → Type ν} where
  pub All-map : ((a : A) → P a → Q a) → (xs : List A) → All P xs → All Q xs
  All-map f [] h = tt
  All-map f (x ∷ xs) (p, h) = (f x p, All-map f xs h)
