-- ===== src/Prelude/Tests.antt =====
-- Boolean tests, the conditional, and equality tests by instances.
use Prim.Native.Nat.{ℕ, compare, Ordering}
use Prim.Native.String.{String}
use mathlib.Core.Path.{◌≡◌, refl}
use mathlib.Core.Logic.{◌↔◌, ◌⊎◌, inl, inr}
use mathlib.Core.Bool.{Bool, true, false, ◌&&◌}
use mathlib.Core.Option.{Option, none, some}
use mathlib.Core.List.{List, [], ◌∷◌}
use native.Mathlib.Omega.{arith}
use text.Mathlib.Text.{◌==◌ as str_eq}
use text.Mathlib.TextEquality.{eq_iff}

abbrev pub ltb : ℕ → ℕ → Bool
ltb a b = elim (compare a b) [ Ordering.lt ↦ true | _ ↦ false ]

abbrev pub leb : ℕ → ℕ → Bool
leb a b = elim (compare a b) [ Ordering.gt ↦ false | _ ↦ true ]

abbrev pub nat_eq : ℕ → ℕ → Bool
nat_eq a b = elim (compare a b) [ Ordering.eq ↦ true | _ ↦ false ]

infix 1 if◌then◌else◌
abbrev pub if◌then◌else◌ {ℓ} : {A : Type ℓ} → Bool → A → A → A
if true then x else _ = x
if false then _ else y = y

pub Bool-cases : (b : Bool) → (b ≡ true) ⊎ (b ≡ false)
Bool-cases true = inl refl
Bool-cases false = inr refl

pub Option-cases {ℓ} : {A : Type ℓ} (o : Option A) → (o ≡ none) ⊎ ((a : A) × (o ≡ some a))
Option-cases none = inl refl
Option-cases (some a) = inr (a, refl)

pub nat_eq_iff : (a b : ℕ) → (nat_eq a b ≡ true) ↔ (a ≡ b)
nat_eq_iff a b = ground arith

-- Go's `==` on a comparable type.
pub record Eq (A : Type 0) : Type 0 where
  pub test : A → A → Bool
  pub test_iff : (a b : A) → (test a b ≡ true) ↔ (a ≡ b)

infix 50 ◌==◌
abbrev pub ◌==◌ : {A : Type 0} ⦃e : Eq A⦄ → A → A → Bool
◌==◌ ⦃e⦄ = e.test

instance abbrev pub ℕ_eq : Eq ℕ
ℕ_eq = record { test = nat_eq; test_iff = nat_eq_iff }

instance abbrev pub String_eq : Eq String
String_eq = record { test = str_eq; test_iff = eq_iff }

abbrev pub pair_test : {A B : Type 0} ⦃e : Eq A⦄ ⦃f : Eq B⦄ → A × B → A × B → Bool
pair_test (a, b) (c, d) = a == c && b == d

pub pair_test_iff :
    {A B : Type 0} ⦃e : Eq A⦄ ⦃f : Eq B⦄ (p q : A × B) → (pair_test p q ≡ true) ↔ (p ≡ q)
pair_test_iff ⦃e⦄ ⦃f⦄ (a, b) (c, d) = ground (arith, e.test_iff a c, f.test_iff b d)

instance abbrev pub pair_eq : {A B : Type 0} ⦃e : Eq A⦄ ⦃f : Eq B⦄ → Eq (A × B)
pair_eq = record { test = pair_test; test_iff = pair_test_iff }

abbrev pub list_test : {A : Type 0} ⦃e : Eq A⦄ → List A → List A → Bool
list_test [] [] = true
list_test [] (y ∷ ys) = false
list_test (x ∷ xs) [] = false
list_test (x ∷ xs) (y ∷ ys) = x == y && list_test xs ys

pub list_test_iff : {A : Type 0} ⦃e : Eq A⦄ (xs ys : List A) → (list_test xs ys ≡ true) ↔ (xs ≡ ys)
list_test_iff [] [] = ground arith
list_test_iff [] (y ∷ ys) = ground arith
list_test_iff (x ∷ xs) [] = ground arith
list_test_iff ⦃e⦄ (x ∷ xs) (y ∷ ys) = ground (arith, e.test_iff x y, list_test_iff xs ys)

instance abbrev pub list_eq : {A : Type 0} ⦃e : Eq A⦄ → Eq (List A)
list_eq = record { test = list_test; test_iff = list_test_iff }

abbrev pub option_test : {A : Type 0} ⦃e : Eq A⦄ → Option A → Option A → Bool
option_test none none = true
option_test none (some b) = false
option_test (some a) none = false
option_test (some a) (some b) = a == b

pub option_test_iff : {A : Type 0} ⦃e : Eq A⦄ (o p : Option A) → (option_test o p ≡ true) ↔ (o ≡ p)
option_test_iff none none = ground arith
option_test_iff none (some b) = ground arith
option_test_iff (some a) none = ground arith
option_test_iff ⦃e⦄ (some a) (some b) = ground (arith, e.test_iff a b)

instance abbrev pub option_eq : {A : Type 0} ⦃e : Eq A⦄ → Eq (Option A)
option_eq = record { test = option_test; test_iff = option_test_iff }

pub test_refl : {A : Type 0} ⦃e : Eq A⦄ (a : A) → (a == a) ≡ true
test_refl ⦃e⦄ a = (e.test_iff a a).1 refl
