-- ===== src/Api/DeepCopy.antt =====
-- api/v1/zz_generated.deepcopy.go, on the cells of a memory. A link and its properties have no
-- slice, so an assignment copies them.
pub mod Slices
pub mod Apart
use kube_dtn.Prelude.{
  ℕ, zero, suc, ◌+◌, Option, none, some, [], ◌∷◌, Action, ok, crash, pure, modify, ◌>>=◌, ◌>>◌,
}
use kube_dtn.Prelude.Memory.{Slice, Pointer, Store, make, copy, load, assign, fresh}
use kube_dtn.Api.{LinkProperties, Link}
use kube_dtn.Api.Cells.{
  Machinery, SpecCell, StatusCell, TopologyCell, ListCell, Memory, zero_properties, zero_link,
  zero_spec, zero_status, zero_topology, zero_list,
}

-- `if in.F != nil { … *out = make([]A, len(*in)); copy(*out, *in) }`
unfoldable pub clone : {A : Type 0} → A → Option Slice → Store A → Option Slice × Store A
clone z none m = (none, m)
clone z (some s) m = let (d, m') = make z s.len m in (some d, copy d s m')

module _ (k : Machinery) where
  -- The `DeepCopyInto` of each type, with what is written to `out` as its result.
  unfoldable pub copy_properties_into : LinkProperties → Action (Memory k) LinkProperties
  copy_properties_into props = pure props

  unfoldable pub copy_link_into : Link → Action (Memory k) Link
  copy_link_into l = pure (record l { properties = l.properties })

  unfoldable pub copy_spec_into : SpecCell → Action (Memory k) SpecCell
  unfolding clone
  copy_spec_into s m =
      let (links, ls) = clone zero_link s.links m.links in
      (ok (record s { links = links }), record m { links = ls })

  unfoldable pub copy_status_into : StatusCell → Action (Memory k) StatusCell
  unfolding clone
  copy_status_into s m =
      let (skipped, ss) = clone "" s.skipped m.strings in
      let (links, ls) = clone zero_link s.links m.links in
      (ok (record s { skipped = skipped; links = links }), record m { strings = ss; links = ls })

  abbrev pub copy_object_meta : k.ObjectMeta → Action (Memory k) k.ObjectMeta
  copy_object_meta meta m =
      let (meta', ms) = k.copy_object_meta meta m.metas in (ok meta', record m { metas = ms })

  abbrev pub copy_list_meta : k.ListMeta → Action (Memory k) k.ListMeta
  copy_list_meta meta m =
      let (meta', ms) = k.copy_list_meta meta m.metas in (ok meta', record m { metas = ms })

  unfoldable pub copy_topology_into : TopologyCell k → Action (Memory k) (TopologyCell k)
  unfolding copy_spec_into copy_status_into
  copy_topology_into t = do
    meta ← copy_object_meta t.object_meta
    spec ← copy_spec_into t.spec
    status ← copy_status_into t.status
    pure (record t { object_meta = meta; spec = spec; status = status })

  -- The arrays of one type in the memory.
  pub record Field (A : Type 0) : Type 0 where
    pub get : Memory k → Store A
    pub set : Store A → Memory k → Memory k

  abbrev pub properties_field : Field LinkProperties
  properties_field = record { get = λ m. m.properties; set = λ s m. record m { properties = s } }

  abbrev pub links_field : Field Link
  links_field = record { get = λ m. m.links; set = λ s m. record m { links = s } }

  abbrev pub specs_field : Field SpecCell
  specs_field = record { get = λ m. m.specs; set = λ s m. record m { specs = s } }

  abbrev pub statuses_field : Field StatusCell
  statuses_field = record { get = λ m. m.statuses; set = λ s m. record m { statuses = s } }

  abbrev pub topologies_field : Field (TopologyCell k)
  topologies_field = record { get = λ m. m.topologies; set = λ s m. record m { topologies = s } }

  abbrev pub lists_field : Field (ListCell k)
  lists_field = record { get = λ m. m.lists; set = λ s m. record m { lists = s } }

  module _ {A : Type 0} (f : Field A) where
    abbrev pub of_option : Option A → Action (Memory k) A
    of_option none = crash
    of_option (some a) = pure a

    -- `*p`, which panics if there is no such element
    abbrev pub get_at : Pointer → Action (Memory k) A
    get_at p m = of_option (load (f.get m) p) m

    -- `*p = a`
    abbrev pub put_at : Pointer → A → Action (Memory k) (Unit {0})
    put_at p a = do _ ← get_at p; modify (λ m. f.set (assign p a (f.get m)) m)

    -- `new(A)`
    abbrev pub new_cell : A → Action (Memory k) Pointer
    new_cell z m =
        (ok (record { base = (f.get m).next; index = 0 }), f.set (fresh (z ∷ []) (f.get m)) m)

    -- The `DeepCopy` of a type, from its `DeepCopyInto`.
    abbrev pub deep_copy :
        A → (A → Action (Memory k) A) → Option Pointer → Action (Memory k) (Option Pointer)
    deep_copy z into none = pure none
    deep_copy z into (some p) = do
      out ← new_cell z
      a ← get_at p
      b ← into a
      put_at out b
      pure (some out)

  -- `&s[i]`
  abbrev pub element : Slice → ℕ → Pointer
  element s i = record { base = s.base; index = s.offset + i }

  -- `for i := range *in { (*in)[i].DeepCopyInto(&(*out)[i]) }`, for the elements that are left
  unfoldable pub copy_items : ℕ → ℕ → Slice → Slice → Action (Memory k) (Unit {0})
  unfolding copy_topology_into
  copy_items zero i src dst = pure tt
  copy_items (suc n) i src dst = do
    t ← get_at topologies_field (element src i)
    t' ← copy_topology_into t
    put_at topologies_field (element dst i) t'
    copy_items n (suc i) src dst

  abbrev pub make_items : ℕ → Action (Memory k) Slice
  make_items n m =
      let (d, ts) = make (zero_topology k) n m.topologies in (ok d, record m { topologies = ts })

  abbrev pub copy_all_items : Option Slice → Action (Memory k) (Option Slice)
  copy_all_items none = pure none
  copy_all_items (some src) = do
    dst ← make_items src.len
    copy_items src.len 0 src dst
    pure (some dst)

  unfoldable pub copy_list_into : ListCell k → Action (Memory k) (ListCell k)
  unfolding copy_items
  copy_list_into l = do
    meta ← copy_list_meta l.list_meta
    items ← copy_all_items l.items
    pure (record l { list_meta = meta; items = items })

  -- `DeepCopy` of each type
  unfoldable pub properties_deep_copy : Option Pointer → Action (Memory k) (Option Pointer)
  unfolding copy_properties_into
  properties_deep_copy = deep_copy properties_field zero_properties copy_properties_into

  unfoldable pub link_deep_copy : Option Pointer → Action (Memory k) (Option Pointer)
  unfolding copy_link_into
  link_deep_copy = deep_copy links_field zero_link copy_link_into

  unfoldable pub spec_deep_copy : Option Pointer → Action (Memory k) (Option Pointer)
  unfolding copy_spec_into
  spec_deep_copy = deep_copy specs_field zero_spec copy_spec_into

  unfoldable pub status_deep_copy : Option Pointer → Action (Memory k) (Option Pointer)
  unfolding copy_status_into
  status_deep_copy = deep_copy statuses_field zero_status copy_status_into

  unfoldable pub topology_deep_copy : Option Pointer → Action (Memory k) (Option Pointer)
  unfolding copy_topology_into
  topology_deep_copy = deep_copy topologies_field (zero_topology k) copy_topology_into

  unfoldable pub list_deep_copy : Option Pointer → Action (Memory k) (Option Pointer)
  unfolding copy_list_into
  list_deep_copy = deep_copy lists_field (zero_list k) copy_list_into

  -- `DeepCopyObject` gives a nil interface for a nil pointer.
  abbrev pub object_of : Option Pointer → Option Pointer
  object_of none = none
  object_of (some c) = some c

  unfoldable pub topology_deep_copy_object : Option Pointer → Action (Memory k) (Option Pointer)
  unfolding topology_deep_copy
  topology_deep_copy_object p = do c ← topology_deep_copy p; pure (object_of c)

  unfoldable pub list_deep_copy_object : Option Pointer → Action (Memory k) (Option Pointer)
  unfolding list_deep_copy
  list_deep_copy_object p = do c ← list_deep_copy p; pure (object_of c)
