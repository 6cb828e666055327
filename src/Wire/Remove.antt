-- ===== src/Wire/Remove.antt =====
-- Removing wires: `RemoveWire` and `DeleteWiresByPod`.
pub mod Stuck
use kube_dtn.Prelude.{
  ℕ, String, Bool, true, false, ◌||◌, Option, none, some, List, [], ◌∷◌, Action, Outcome, value,
  error, message, Result, ok, err, panic, wrapped, pure, fail, crash, attempt, map_error, modify,
  ◌>>=◌, ◌>>◌, nat_eq, if◌then◌else◌,
}
use kube_dtn.Platform.{Platform, Veth, Do}
use kube_dtn.Wire.Table.{GrpcWire, Wires, delete_wire, get_wires_by_pod}

module _ (p : Platform) where
  abbrev pub State : Type 0
  State = Wires p.Handle × p.World

  -- an operation of the node inside an operation on the wires
  abbrev pub on_world : {A : Type 0} → Do p A → Action State A
  on_world m (wires, w) = let (r, w') = m w in (r, (wires, w'))

  abbrev pub is_closed : ℕ → List ℕ → Bool
  is_closed c [] = false
  is_closed c (d ∷ ds) = nat_eq c d || is_closed c ds

  -- `close(c)` panics on a closed channel.
  unfoldable pub close_channel : ℕ → Action State (Unit {0})
  close_channel c (wires, w) =
      if is_closed c wires.closed
      then (panic, (wires, w))
      else (ok tt, (record wires { closed = c ∷ wires.closed }, w))

  abbrev pub host_veth : String → Veth p
  host_veth name = record { ns_name = ""; link_name = name; ip_addr = []; hardware_addr = none }

  abbrev pub remove_host_veth : String → String → Action State (Unit {0})
  remove_host_veth text name =
      map_error (wrapped text) (on_world (p.remove_veth_link (host_veth name)))

  -- What is done with a device that was found: it is removed in the branch, and again behind it.
  unfoldable pub remove_found : GrpcWire → String → Action State (Unit {0})
  unfolding delete_wire
  remove_found wire name = do
    remove_host_veth "[WIRE-DELETE]:failed to remove veth link" name
    remove_host_veth "failed to remove veth link" name
    modify (λ (s : State). ((delete_wire wire s.0).1, s.1))

  -- `RemoveWire` of a wire that is not nil. Behind the branches `intf` is nil if the device
  -- was not found.
  unfoldable pub remove_wire : GrpcWire → Action State (Unit {0})
  unfolding close_channel remove_found
  remove_wire wire = do
    close_channel wire.stop_c
    intf ← attempt (on_world (p.interface_by_index wire.local_node_iface_id))
    elim intf [ error e ↦ crash | value name ↦ remove_found wire name ]

  -- The loop: whether an error was collected.
  unfoldable pub remove_wires : List GrpcWire → Bool → Action State Bool
  unfolding remove_wire
  remove_wires [] failed = pure failed
  remove_wires (wire ∷ wires) failed = do
    removed ← attempt (remove_wire wire)
    elim removed [ error e ↦ remove_wires wires true | value _ ↦ remove_wires wires failed ]

  -- The collected errors are one error.
  unfoldable pub delete_wires_by_pod : String → String → Action State (Unit {0})
  unfolding remove_wires get_wires_by_pod
  delete_wires_by_pod namespace pod_name (wires, w) =
      (do
        failed ← remove_wires (get_wires_by_pod namespace pod_name wires) false
        if failed
            then fail (message "[WIRE-DELETE]:failed to remove all grpc-wires for pod")
            else pure tt)
        (wires, w)
