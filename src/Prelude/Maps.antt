-- ===== src/Prelude/Maps.antt =====
-- Go maps with comparable keys, as association lists.
use mathlib.Core.Path.{◌≡◌, refl}
use mathlib.Core.Option.{Option, none, some}
use mathlib.Core.List.{List, [], ◌∷◌}
use native.Mathlib.Omega.{arith}
use kube_dtn.Prelude.Tests.{Eq, ◌==◌, if◌then◌else◌}

abbrev pub Map : Type 0 → Type 0 → Type 0
Map K V = List (K × V)

module _ {K V : Type 0} ⦃key : Eq K⦄ where
  -- `v, ok := m[k]`
  unfoldable pub lookup : K → Map K V → Option V
  lookup wanted ((k, v) ∷ rest) = if k == wanted then some v else lookup wanted rest
  lookup wanted [] = none

  -- `m[k] = v`
  unfoldable pub insert : K → V → Map K V → Map K V
  insert new v ((k, old) ∷ rest) =
      if k == new then (new, v) ∷ rest else (k, old) ∷ insert new v rest
  insert new v [] = (new, v) ∷ []

  -- `delete(m, k)`
  unfoldable pub delete : K → Map K V → Map K V
  delete gone ((k, v) ∷ rest) = if k == gone then delete gone rest else (k, v) ∷ delete gone rest
  delete gone [] = []

  pub lookup-insert :
      (new wanted : K) (v : V) (m : Map K V)
      → lookup wanted (insert new v m) ≡ (if new == wanted then some v else lookup wanted m)
  unfolding lookup insert
  lookup-insert new wanted v [] = refl
  lookup-insert new wanted v ((k, old) ∷ rest) = ground (
    arith,
    key.test_iff new wanted,
    key.test_iff k new,
    key.test_iff k wanted,
    lookup-insert new wanted v rest,
  )

  pub lookup-delete :
      (gone wanted : K) (m : Map K V)
      → lookup wanted (delete gone m) ≡ (if gone == wanted then none else lookup wanted m)
  unfolding lookup delete
  lookup-delete gone wanted [] = ground arith
  lookup-delete gone wanted ((k, v) ∷ rest) = ground (
    arith,
    key.test_iff gone wanted,
    key.test_iff k gone,
    key.test_iff k wanted,
    lookup-delete gone wanted rest,
  )
