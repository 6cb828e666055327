-- ===== src/Wire/Table.antt =====
-- The table of active wires, `wireMap`, and the counter of interface names.
pub mod Laws
pub mod Refinement
use kube_dtn.Prelude.{
  ℕ, suc, ◌+◌, ◌%◌, ◌^◌, ◌≡◌, refl, String, Bool, true, false, ◌&&◌, Option, none, some, List, [],
  ◌∷◌, Action, ◌==◌, String_eq, pair_eq, ℕ_eq, if◌then◌else◌,
}
use kube_dtn.Prelude.Int.{ℤ, pos, ℤ_eq}
use kube_dtn.Prelude.Lists.{length}
use kube_dtn.Prelude.Maps.{Map, lookup, insert, delete}

-- `grpcWireOriginator`
pub data GrpcWireOriginator : Type 0 where
  host_created_wire peer_created_wire : GrpcWireOriginator

-- A channel is a number, by which its closing is known.
pub record GrpcWire : Type 0 where
  pub uid : ℤ
  pub namespace : String
  pub local_node_iface_id : ℤ
  pub local_node_iface_name : String
  pub local_pod_ip : String
  pub local_pod_name : String
  pub local_pod_iface_name : String
  pub local_pod_net_ns : String
  pub peer_iface_id : ℤ
  pub peer_node_ip : String
  pub is_ready : Bool
  pub originator : GrpcWireOriginator
  pub originator_ip : String
  pub stop_c : ℕ

-- `linkKey`: the namespace and the link's identifier
abbrev pub LinkKey : Type 0
LinkKey = String × ℤ

-- `wireMap` and `indexGen`, the package's variables, and the channels that have been made or closed.
pub record Wires (Handle : Type 0) : Type 0 where
  pub curr_id : ℕ
  pub wires : Map LinkKey GrpcWire
  pub handles : Map ℤ Handle
  pub next_channel : ℕ
  pub closed : List ℕ

-- the key under which a wire stands
abbrev pub link_key : GrpcWire → LinkKey
link_key wire = (wire.local_pod_net_ns, wire.uid)

abbrev pub is_of_pod : String → String → GrpcWire → Bool
is_of_pod namespace pod_name wire = wire.local_pod_name == pod_name && wire.namespace == namespace

unfoldable pub wires_of_pod : String → String → Map LinkKey GrpcWire → List GrpcWire
wires_of_pod namespace pod_name [] = []
wires_of_pod namespace pod_name ((key, wire) ∷ m) =
    if is_of_pod namespace pod_name wire
    then wire ∷ wires_of_pod namespace pod_name m
    else wires_of_pod namespace pod_name m

module _ {Handle : Type 0} where
  -- `NextIndex`. The number is a 64-bit one, as the natural number of its bits.
  unfoldable pub next_index : Wires Handle → ℕ × Wires Handle
  next_index w = let id = (w.curr_id + 1) % 2 ^ 64 in (id, record w { curr_id = id })

  unfoldable pub get_wire : String → ℤ → Wires Handle → Option GrpcWire
  get_wire namespace link_uid w = lookup (namespace, link_uid) w.wires

  unfoldable pub get_handle : ℤ → Wires Handle → Option Handle
  get_handle key w = lookup key w.handles

  -- `wireMap.Add`
  unfoldable pub add : GrpcWire → Handle → Wires Handle → Wires Handle
  add wire handle w = record w {
    wires = insert (link_key wire) wire w.wires;
    handles = insert wire.local_node_iface_id handle w.handles;
  }

  -- `wireMap.Delete`
  unfoldable pub delete_from : GrpcWire → Wires Handle → Wires Handle
  delete_from wire w = record w {
    wires = delete (link_key wire) w.wires;
    handles = delete wire.local_node_iface_id w.handles;
  }

  -- `GetWiresByPod`; its second result is always true
  unfoldable pub get_wires_by_pod : String → String → Wires Handle → List GrpcWire
  unfolding wires_of_pod
  get_wires_by_pod namespace pod_name w = wires_of_pod namespace pod_name w.wires

  -- `AddWire`: the wire is marked ready first. The result is the number of wires.
  unfoldable pub add_wire : GrpcWire → Handle → Wires Handle → ℕ × Wires Handle
  unfolding add
  add_wire wire handle w =
      let w' = add (record wire { is_ready = true }) handle w in (length w'.wires, w')

  -- `DeleteWire`
  unfoldable pub delete_wire : GrpcWire → Wires Handle → ℕ × Wires Handle
  unfolding delete_from
  delete_wire wire w = let w' = delete_from wire w in (length w'.wires, w')

  -- `make(chan struct{})`
  unfoldable pub make_channel : Wires Handle → ℕ × Wires Handle
  make_channel w = (w.next_channel, record w { next_channel = suc w.next_channel })
