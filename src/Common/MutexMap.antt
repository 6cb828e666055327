-- ===== src/Common/MutexMap.antt =====
-- `MutexMap` (common/utils.go): mutexes by key, in a `sync.Map`. A mutex is its address, and a new
-- one has an address that none had before.
pub mod Distinct
use kube_dtn.Prelude.{ℕ, suc, Option, none, some, List, [], ◌∷◌}
use kube_dtn.Prelude.{Eq}
use kube_dtn.Prelude.Maps.{Map, lookup, insert}

pub record MutexMap (K : Type 0) : Type 0 where
  pub stored : Map K ℕ
  pub next : ℕ

abbrev pub no_mutexes : {K : Type 0} → MutexMap K
no_mutexes = record { stored = []; next = 0 }

module _ {K : Type 0} ⦃key : Eq K⦄ where
  -- `LoadOrStore`
  abbrev pub load_or_store : K → ℕ → Map K ℕ → ℕ × Map K ℕ
  load_or_store k new m = elim (lookup k m) [ some old ↦ (old, m) | none ↦ (new, insert k new m) ]

  -- `&sync.Mutex{}` is made before the map is asked.
  unfoldable pub get : K → MutexMap K → ℕ × MutexMap K
  get k m =
      let (mutex, stored) = load_or_store k m.next m.stored in
      (mutex, record { stored = stored; next = suc m.next })

  -- One call after the other, for their effect.
  unfoldable pub gets : List K → MutexMap K → MutexMap K
  unfolding get
  gets [] m = m
  gets (k ∷ ks) m = gets ks (get k m).1
