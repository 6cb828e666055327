-- ===== src/Vxlan/Manager.antt =====
-- `VxlanManager` (daemon/vxlan/manager.go): which network namespace a VNI's link is in. The map
-- holds pointers to texts, so the texts stand in cells of a heap.
use kube_dtn.Prelude.{
  ℕ, suc, ◌<◌, ◌≡◌, String, Option, none, some, List, [], ◌∷◌, Action, Outcome, value, error,
  Result, ok, err, panic, pure, attempt, ◌>>=◌, ◌>>◌, nat_eq, ◌==◌, String_eq, if◌then◌else◌, ℕ_eq,
}
use kube_dtn.Prelude.Int.{ℤ, ℤ_eq, to_int32}
use kube_dtn.Prelude.Maps.{Map, lookup, insert, delete}
use kube_dtn.Api.{Topology}
use kube_dtn.Platform.{Platform, NetLink, LinkKind, vxlan_kind, other_kind}

-- `next` is the first cell that is not in use.
pub record VxlanManager : Type 0 where
  pub vxlans : Map ℤ ℕ
  pub cells : ℕ → String
  pub next : ℕ

abbrev pub write_cell : ℕ → String → (ℕ → String) → ℕ → String
write_cell pointer text cells q = if nat_eq pointer q then text else cells q

abbrev pub new_vxlan_manager : VxlanManager
new_vxlan_manager = record { vxlans = []; cells = λ _. ""; next = 0 }

-- `m.vxlans.Store(vni, pointer)`
unfoldable pub store : ℤ → ℕ → VxlanManager → VxlanManager
store vni pointer m = record m { vxlans = insert vni pointer m.vxlans }

-- `Add` stores the pointer that it is given.
unfoldable pub add : ℤ → ℕ → VxlanManager → VxlanManager
unfolding store
add vni pointer m = store vni pointer m

-- `Add(vni, &text)`, with a text that the caller has made for this call and does not write again
unfoldable pub add_text : ℤ → String → VxlanManager → VxlanManager
unfolding add
add_text vni netns m =
    add vni m.next (record m { cells = write_cell m.next netns m.cells; next = suc m.next })

unfoldable pub delete_vni : ℤ → VxlanManager → VxlanManager
delete_vni vni m = record m { vxlans = delete vni m.vxlans }

-- `Get`, with its pointer followed
unfoldable pub get : ℤ → VxlanManager → Option String
get vni m = elim (lookup vni m.vxlans) [ none ↦ none | some pointer ↦ some (m.cells pointer) ]

-- Every pointer that is stored is to a cell in use.
pub record IsValid (m : VxlanManager) : Type 0 where
  pub in_use : (vni : ℤ) (pointer : ℕ) → lookup vni m.vxlans ≡ some pointer → pointer < m.next

module _ (p : Platform) where
  abbrev pub State : Type 0
  State = VxlanManager × p.World

  -- One link of a namespace: a VXLAN device's identifier gets the pointer.
  unfoldable pub store_kind : ℕ → LinkKind p.Ip → VxlanManager → VxlanManager
  unfolding store
  store_kind pointer other_kind m = m
  store_kind pointer (vxlan_kind id group) m = store (to_int32 id) pointer m

  -- The loop over the links.
  unfoldable pub store_links : ℕ → List (NetLink p.Ip) → VxlanManager → VxlanManager
  unfolding store_kind
  store_links pointer [] m = m
  store_links pointer (link ∷ links) m = store_links pointer links (store_kind pointer link.kind m)

  -- The links of a topology's namespace; an error on the way leaves it out.
  unfoldable pub namespace_links : String → Action p.World (List (NetLink p.Ip))
  namespace_links net_ns = do ns ← p.get_ns net_ns; p.enter ns; p.link_list ns

  -- The end of a round: the links that were found get the pointer; an error is only logged.
  unfoldable pub end_round :
      ℕ
      → VxlanManager
      → Result (Outcome (List (NetLink p.Ip))) × p.World
      → Result (Unit {0}) × State
  unfolding store_links
  end_round pointer m (ok (value links), w) = (ok tt, (store_links pointer links m, w))
  end_round pointer m (ok (error e), w) = (ok tt, (m, w))
  end_round pointer m (err e, w) = (err e, (m, w))
  end_round pointer m (panic, w) = (panic, (m, w))

  -- One round of `Init`: the loop's variable, whose field the pointer is to, is assigned first.
  unfoldable pub init_one : ℕ → Topology → Action State (Unit {0})
  unfolding namespace_links end_round
  init_one pointer topology (m, w) =
      let m' : VxlanManager = record m {
        cells = write_cell pointer topology.status.net_ns m.cells;
      } in
      if topology.status.net_ns == ""
      then (ok tt, (m', w))
      else end_round pointer m' (attempt (namespace_links topology.status.net_ns) w)

  unfoldable pub init_from : ℕ → List Topology → Action State (Unit {0})
  unfolding init_one
  init_from pointer [] = pure tt
  init_from pointer (t ∷ ts) = init_one pointer t >> init_from pointer ts

  -- `Init`. In Go 1.19 a loop has one variable for all its rounds: one cell.
  unfoldable pub init : List Topology → Action State (Unit {0})
  unfolding init_from
  init topologies (m, w) = init_from m.next topologies (record m { next = suc m.next }, w)
