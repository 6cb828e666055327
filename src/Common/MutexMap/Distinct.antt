-- ===== src/Common/MutexMap/Distinct.antt =====
-- Which mutexes of a `MutexMap` are the same.
use kube_dtn.Prelude.{
  ◌≡◌, refl, subst, ap, ◌∙◌, ◌↔◌, ℕ, suc, ◌<◌, none, some, List, [], ◌∷◌, arith, Eq, Option-cases,
  inl, inr, test_refl,
}
use kube_dtn.Prelude.Maps.{lookup, insert, lookup-insert}
use kube_dtn.Common.MutexMap.{MutexMap, no_mutexes, load_or_store, get, gets}

module _ {K : Type 0} ⦃key : Eq K⦄ where
  -- Stored mutexes were made before the next one, and no two keys have the same.
  pub record IsDistinct (m : MutexMap K) : Type 0 where
    pub made : (k : K) (a : ℕ) → lookup k m.stored ≡ some a → a < m.next
    pub apart :
        (k k' : K) (a : ℕ) → lookup k m.stored ≡ some a → lookup k' m.stored ≡ some a → k ≡ k'

  no_mutexes-IsDistinct : IsDistinct no_mutexes
  unfolding lookup
  no_mutexes-IsDistinct = record { made = λ k a e. absurd (cc); apart = λ k k' a e e'. absurd (cc) }

  module _ (k : K) (m : MutexMap K) where
    get-old : (a : ℕ) → lookup k m.stored ≡ some a → get k m ≡ (a, record m { next = suc m.next })
    unfolding get
    get-old a e = rw (get, load_or_store, e) refl

    get-new :
        lookup k m.stored ≡ none
        → get k m ≡ (m.next, record { stored = insert k m.next m.stored; next = suc m.next })
    unfolding get
    get-new e = rw (get, load_or_store, e) refl

    -- The mutex that was given is stored.
    lookup-get : lookup k (get k m).1.stored ≡ some (get k m).0
    lookup-get = elim (Option-cases (lookup k m.stored)) [
      | inl e ↦ rw (get-new e, lookup-insert k k m.next m.stored, test_refl k) refl
      | inr (a, e) ↦ rw (get-old a e) e
    ]

    -- A stored mutex stays.
    lookup-get_stays :
        (k' : K) (a : ℕ) → lookup k' m.stored ≡ some a → lookup k' (get k m).1.stored ≡ some a
    lookup-get_stays k' a e' = elim (Option-cases (lookup k m.stored)) [
      | inl e ↦
          rw (get-new e, lookup-insert k k' m.next m.stored)
            (ground (arith, e, e', key.test_iff k k'))
      | inr (b, e) ↦ rw (get-old b e) e'
    ]

    insert-IsDistinct :
        IsDistinct m
        → lookup k m.stored ≡ none
        → IsDistinct (record { stored = insert k m.next m.stored; next = suc m.next })
    insert-IsDistinct d e = record {
      made = λ k' a h.
          let l = lookup-insert k k' m.next m.stored in
          let b = d.made k' a in ground (arith, key.test_iff k k');
      apart = λ k' k'' a h h'.
          let l = lookup-insert k k' m.next m.stored in
          let l' = lookup-insert k k'' m.next m.stored in
          let b = d.made k' a in
          let b' = d.made k'' a in
          let c = d.apart k' k'' a in ground (arith, key.test_iff k k', key.test_iff k k'');
    }

    get-IsDistinct : IsDistinct m → IsDistinct (get k m).1
    get-IsDistinct d = elim (Option-cases (lookup k m.stored)) [
      | inl e ↦ rw (get-new e) (insert-IsDistinct d e)
      | inr (b, e) ↦
          rw (get-old b e)
            (record { made = λ k' a h. omega (arith, d.made k' a h); apart = d.apart })
    ]

  gets-IsDistinct : (ks : List K) (m : MutexMap K) → IsDistinct m → IsDistinct (gets ks m)
  unfolding gets
  gets-IsDistinct [] m d = d
  gets-IsDistinct (k ∷ ks) m d = gets-IsDistinct ks (get k m).1 (get-IsDistinct k m d)

  lookup-gets_stays :
      (ks : List K) (m : MutexMap K) (k : K) (a : ℕ)
      → lookup k m.stored ≡ some a
      → lookup k (gets ks m).stored ≡ some a
  unfolding gets
  lookup-gets_stays [] m k a e = e
  lookup-gets_stays (l ∷ ks) m k a e =
      lookup-gets_stays ks (get l m).1 k a (lookup-get_stays l m k a e)

  get-stored : (k : K) (m : MutexMap K) (a : ℕ) → lookup k m.stored ≡ some a → (get k m).0 ≡ a
  get-stored k m a e = rw (get-old k m a e) refl

  -- Whatever keys are asked for before and in between, two calls of Get of a new map give the same
  -- mutex exactly if their keys are equal.
  pub get-same_iff :
      (before between : List K) (k k' : K)
      → ((get k' (gets between (get k (gets before no_mutexes)).1)).0
          ≡ (get k (gets before no_mutexes)).0)
        ↔ (k ≡ k')
  get-same_iff before between k k' =
      let m = gets before no_mutexes in
      let n = gets between (get k m).1 in
      let d = get-IsDistinct k' n (
        gets-IsDistinct between (get k m).1
          (get-IsDistinct k m (gets-IsDistinct before no_mutexes no_mutexes-IsDistinct))) in
      let held = lookup-gets_stays between (get k m).1 k (get k m).0 (lookup-get k m) in
      (
        λ e.
            d.apart k k' (get k m).0 (lookup-get_stays k' n k (get k m).0 held)
              (lookup-get k' n ∙ ap some e),
        λ e. get-stored k' n (get k m).0 (subst (λ l. lookup l n.stored ≡ some (get k m).0) e held),
      )
