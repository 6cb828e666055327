-- ===== src/Metrics/TopologyManager/Keys.antt =====
-- The two kinds of keys of the map of topologies: `Init` stores under the name alone.
use Prim.Native.String
use kube_dtn.Prelude.{
  ℕ, ◌≡◌, ◌≢◌, refl, ap, ◌∙◌, String, none, some, List, [], ◌∷◌, arith, ◌==◌, String_eq, Bool-cases,
  inl, inr, eq_iff,
}
use kube_dtn.Prelude.Lists.{length, In, All}
use kube_dtn.Prelude.Text.{codes}
use kube_dtn.Prelude.Sizes.{length-codes-append}
use kube_dtn.Prelude.Maps.{lookup, insert, lookup-insert, lookup-delete}
use kube_dtn.Api.{Topology}
use kube_dtn.Metrics.TopologyManager.{Heap, alloc, Manager, topology_key, init, remove, get}

pub key-ne-name : (ns name : String) → name ≢ topology_key ns name
unfolding topology_key
key-ne-name ns name e = omega (
  arith,
  ap (λ s. length (codes s)) e,
  length-codes-append ns (String.◌++◌ "/" name),
  length-codes-append "/" name,
)

module _ (ns name : String) where
  init-lookup :
      (ts : List Topology) (h : Heap) (m : Manager)
      → All (λ t. t.name ≢ topology_key ns name) ts
      → lookup (topology_key ns name) m ≡ none
      → lookup (topology_key ns name) (init ts h m).1 ≡ none
  unfolding init
  init-lookup [] h m other e = e
  init-lookup (t ∷ ts) h m (ne, other) e =
      let (pointer, h') = alloc t h in
      init-lookup ts h' (insert t.name pointer m) other (
        ground (
          arith,
          lookup-insert t.name (topology_key ns name) pointer m,
          eq_iff t.name (topology_key ns name),
        ))

  init-kept :
      (ts : List Topology) (h : Heap) (m : Manager) {q : ℕ}
      → lookup name m ≡ some q
      → (r : ℕ) × (lookup name (init ts h m).1 ≡ some r)
  unfolding init
  init-kept [] h m {q} e = (q, e)
  init-kept (t ∷ ts) h m {q} e =
      let (pointer, h') = alloc t h in
      elim (Bool-cases (t.name == name)) [
        | inl same ↦
            init-kept ts h' (insert t.name pointer m) {q = pointer}
              (lookup-insert t.name name pointer m ∙ rw same refl)
        | inr other ↦
            init-kept ts h' (insert t.name pointer m) {q = q}
              (lookup-insert t.name name pointer m ∙ rw other e)
      ]

  init-there :
      (ts : List Topology) (h : Heap) (m : Manager) (t : Topology)
      → In t ts
      → t.name ≡ name
      → (r : ℕ) × (lookup name (init ts h m).1 ≡ some r)
  unfolding init
  init-there [] h m t i e = elim i [ ]
  init-there (u ∷ ts) h m t (inl same) e =
      let (pointer, h') = alloc u h in
      init-kept ts h' (insert u.name pointer m) {q = pointer} (
        lookup-insert u.name name pointer m
        ∙ ground (arith, eq_iff u.name name, ap (λ (x : Topology). x.name) same))
  init-there (u ∷ ts) h m t (inr i) e =
      let (pointer, h') = alloc u h in init-there ts h' (insert u.name pointer m) t i e

-- A topology that `Init` stored can be neither found nor deleted by its namespace and name, if no
-- topology's name is such a key: `Get` gives nothing, and after `Delete` its entry is still there.
pub get-remove-init :
    (ts : List Topology) (h : Heap) (t : Topology)
    → In t ts
    → All (λ u. u.name ≢ topology_key t.namespace t.name) ts
    → (get t.name t.namespace (init ts h []).1 ≡ none)
      × ((q : ℕ) × (lookup t.name (remove t.name t.namespace (init ts h []).1) ≡ some q))
unfolding get remove lookup
get-remove-init ts h t i other =
    let key = topology_key t.namespace t.name in
    let (q, there) = init-there t.namespace t.name ts h [] t i refl in
    let ne = key-ne-name t.namespace t.name in
    (
      init-lookup t.namespace t.name ts h [] other refl,
      (q, lookup-delete key t.name (init ts h []).1 ∙ ground (arith, eq_iff key t.name, there)),
    )
