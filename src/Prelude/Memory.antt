-- ===== src/Prelude/Memory.antt =====
-- Go's slices: arrays in a memory, and windows into them. A new array has an address that no array
-- had before.
use Prim.Native.Nat.{ℕ, zero, suc, ◌+◌, ◌≤◌, ◌<◌}
use mathlib.Core.Path.{◌≡◌, refl, ap}
use mathlib.Core.Option.{Option, none, some}
use mathlib.Core.List.{List, [], ◌∷◌}
use native.Mathlib.Omega.{arith}
use kube_dtn.Prelude.Tests.{◌==◌, ℕ_eq, if◌then◌else◌}
use kube_dtn.Prelude.Lists.{length}

pub record Slice : Type 0 where
  pub base : ℕ
  pub offset : ℕ
  pub len : ℕ

-- An element of an array; a variable that has an address is an array of one.
pub record Pointer : Type 0 where
  pub base : ℕ
  pub index : ℕ

pub record Store (A : Type 0) : Type 0 where
  pub next : ℕ
  pub array : ℕ → List A

module _ {A : Type 0} where
  -- `xs[offset : offset + len]`, which stops at the end of the array
  abbrev pub window : ℕ → ℕ → List A → List A
  window zero zero xs = []
  window zero (suc n) [] = []
  window zero (suc n) (x ∷ xs) = x ∷ window zero n xs
  window (suc o) n [] = []
  window (suc o) n (x ∷ xs) = window o n xs

  -- The array with values written from an index on, as many as it has room for.
  abbrev pub overwrite : ℕ → List A → List A → List A
  overwrite n vs [] = []
  overwrite zero [] (x ∷ xs) = x ∷ xs
  overwrite zero (v ∷ vs) (x ∷ xs) = v ∷ overwrite zero vs xs
  overwrite (suc n) vs (x ∷ xs) = x ∷ overwrite n vs xs

  abbrev pub replicate : ℕ → A → List A
  replicate zero a = []
  replicate (suc n) a = a ∷ replicate n a

  abbrev pub at : ℕ → List A → Option A
  at n [] = none
  at zero (x ∷ xs) = some x
  at (suc n) (x ∷ xs) = at n xs

  abbrev pub read : Store A → Slice → List A
  read m s = window s.offset s.len (m.array s.base)

  abbrev pub set_array : ℕ → List A → Store A → Store A
  set_array a xs m = record m { array = λ b. if b == a then xs else m.array b }

  abbrev pub fresh : List A → Store A → Store A
  fresh xs m = record (set_array m.next xs m) { next = suc m.next }

  -- `make([]A, n)`
  abbrev pub make : A → ℕ → Store A → Slice × Store A
  make z n m = (record { base = m.next; offset = 0; len = n }, fresh (replicate n z) m)

  -- `copy(dst, src)`, which copies as many elements as the shorter one has
  abbrev pub copy : Slice → Slice → Store A → Store A
  copy dst src m =
      set_array dst.base (overwrite dst.offset (window 0 dst.len (read m src)) (m.array dst.base)) m

  abbrev pub load : Store A → Pointer → Option A
  load m p = at p.index (m.array p.base)

  -- `*p = a`
  abbrev pub assign : Pointer → A → Store A → Store A
  assign p a m = set_array p.base (overwrite p.index (a ∷ []) (m.array p.base)) m

  -- A slice in an array that is there; a nil slice is one.
  abbrev pub IsWindow : Store A → Slice → Type 0
  IsWindow m s = (s.base < m.next) × (s.offset + s.len ≤ length (m.array s.base))

  abbrev pub IsSlice : Store A → Option Slice → Type 0
  IsSlice m none = Unit
  IsSlice m (some s) = IsWindow m s

  abbrev pub read_slice : Store A → Option Slice → Option (List A)
  read_slice m none = none
  read_slice m (some s) = some (read m s)

  -- The arrays below an address, or from it on, are the same in both.
  abbrev pub SameBelow : ℕ → Store A → Store A → Type 0
  SameBelow n m m' = (a : ℕ) → a < n → m'.array a ≡ m.array a

  abbrev pub SameFrom : ℕ → Store A → Store A → Type 0
  SameFrom n m m' = (a : ℕ) → n ≤ a → m'.array a ≡ m.array a

  pub window_all : (n : ℕ) (xs : List A) → length xs ≤ n → window 0 n xs ≡ xs
  window_all zero [] h = refl
  window_all zero (x ∷ xs) h = absurd (omega (arith, h))
  window_all (suc n) [] h = refl
  window_all (suc n) (x ∷ xs) h = ap (λ r. x ∷ r) (window_all n xs (omega (arith, h)))

  pub length-window : (o n : ℕ) (xs : List A) → o + n ≤ length xs → length (window o n xs) ≡ n
  length-window zero zero xs h = refl
  length-window zero (suc n) [] h = absurd (omega (arith, h))
  length-window zero (suc n) (x ∷ xs) h = ap suc (length-window zero n xs (omega (arith, h)))
  length-window (suc o) n [] h = absurd (omega (arith, h))
  length-window (suc o) n (x ∷ xs) h = length-window o n xs (omega (arith, h))

  pub overwrite-replicate : (z : A) (xs : List A) → overwrite 0 xs (replicate (length xs) z) ≡ xs
  overwrite-replicate z [] = refl
  overwrite-replicate z (x ∷ xs) = ap (λ r. x ∷ r) (overwrite-replicate z xs)
