-- ===== src/Api/DeepCopy/Slices.antt =====
-- What the copy of a slice shows, and what it leaves alone.
use kube_dtn.Prelude.{◌≡◌, refl, ap, sym, ◌∙◌, ℕ, ◌≤◌, ◌<◌, Option, none, some, List, arith}
use kube_dtn.Prelude.Lists.{length}
use kube_dtn.Prelude.Memory.{
  Slice, Store, window, overwrite, replicate, read, read_slice, IsWindow, IsSlice, SameBelow,
  window_all, length-window, overwrite-replicate,
}
use kube_dtn.Api.DeepCopy.{clone}

module _ {A : Type 0} (z : A) where
  -- The array that the copy ends with.
  filled :
      (n : ℕ) (xs : List A)
      → length xs ≡ n
      → window 0 n (overwrite 0 (window 0 n xs) (replicate n z)) ≡ xs
  filled n xs e =
      rw
        (
          sym e,
          window_all (length xs) xs (omega arith),
          overwrite-replicate z xs,
          window_all (length xs) xs (omega arith),
        )
        refl

  pub clone-below : (o : Option Slice) (m : Store A) → SameBelow m.next m (clone z o m).1
  unfolding clone
  clone-below none m a h = refl
  clone-below (some s) m a h = ground arith

  pub clone-next : (o : Option Slice) (m : Store A) → m.next ≤ (clone z o m).1.next
  unfolding clone
  clone-next none m = omega arith
  clone-next (some s) m = omega arith

  module _ (s : Slice) (m : Store A) where
    array-copy :
        IsWindow m s
        → (clone z (some s) m).1.array m.next
          ≡ overwrite 0 (window 0 s.len (read m s)) (replicate s.len z)
    unfolding clone
    array-copy v = ground (arith, v)

  -- The copy shows what the slice did, also after changes that spare its array.
  pub clone-read :
      (o : Option Slice) (m m' : Store A)
      → IsSlice m o
      → ((a : ℕ) → m.next ≤ a → a < (clone z o m).1.next → m'.array a ≡ (clone z o m).1.array a)
      → read_slice m' (clone z o m).0 ≡ read_slice m o
  unfolding clone
  clone-read none m m' v same = refl
  clone-read (some s) m m' (h, l) same =
      ap (λ xs. some (window 0 s.len xs))
        (same m.next (omega arith) (omega arith) ∙ array-copy s m (h, l))
      ∙ ap some (filled s.len (read m s) (length-window s.offset s.len (m.array s.base) l))

  -- A slice of old arrays shows the same while these are the same.
  pub read-below :
      (o : Option Slice) (m m' : Store A)
      → IsSlice m o
      → SameBelow m.next m m'
      → read_slice m' o ≡ read_slice m o
  read-below none m m' v same = refl
  read-below (some s) m m' (h, l) same = rw (same s.base h) refl

  pub IsSlice-below :
      (o : Option Slice) (m m' : Store A)
      → IsSlice m o
      → m.next ≤ m'.next
      → SameBelow m.next m m'
      → IsSlice m' o
  IsSlice-below none m m' v le same = tt
  IsSlice-below (some s) m m' (h, l) le same = (omega (arith, h, le), rw (same s.base h) l)
