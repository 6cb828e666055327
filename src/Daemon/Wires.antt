-- ===== src/Daemon/Wires.antt =====
-- The RPCs about wires over gRPC (daemon/kubedtn/handler.go).
use kube_dtn.Prelude.{
  ℕ, String, Bool, true, false, none, some, Outcome, value, error, ok, err, message, pure, crash,
  attempt, ◌>>=◌, ◌>>◌,
}
use kube_dtn.Prelude.Int.{ℤ}
use kube_dtn.Api.Proto.{WireDef, Packet}
use kube_dtn.Platform.{Platform}
use kube_dtn.Wire.Table.{GrpcWire, host_created_wire, get_wire, get_handle, add_wire, make_channel}
use kube_dtn.Wire.Names.{gen_node_iface_name}
use kube_dtn.Wire.Remove.{delete_wires_by_pod}
use kube_dtn.Wire.Create.{create_grpc_wire_remote_triggered}
use kube_dtn.Daemon.State.{Call, on_world, on_wires}

-- `pb.WireCreateResponse`
pub record WireCreateResponse : Type 0 where
  pub response : Bool
  pub peer_intf_id : ℤ

module _ (p : Platform) where
  -- `RemGRPCWire`
  unfoldable pub rem_grpc_wire : WireDef → Call p Bool
  unfolding delete_wires_by_pod
  rem_grpc_wire wire_def = do
    on_wires p (delete_wires_by_pod p wire_def.kube_ns wire_def.local_pod_name)
    pure true

  abbrev pub new_channel : Call p ℕ
  new_channel n = let (c, w) = make_channel n.wires in (ok c, record n { wires = w })

  abbrev pub local_wire : WireDef → ℤ → ℕ → GrpcWire
  local_wire wire_def index stop_c = record {
    uid = wire_def.link_uid;
    namespace = wire_def.kube_ns;
    local_node_iface_id = index;
    local_node_iface_name = wire_def.veth_name_local_host;
    local_pod_ip = wire_def.local_pod_ip;
    local_pod_name = wire_def.local_pod_name;
    local_pod_iface_name = wire_def.intf_name_in_pod;
    local_pod_net_ns = wire_def.local_pod_net_ns;
    peer_iface_id = wire_def.peer_intf_id;
    peer_node_ip = wire_def.peer_ip;
    is_ready = false;
    originator = host_created_wire;
    originator_ip = "unknown";
    stop_c = stop_c;
  }

  abbrev pub add_to_table : GrpcWire → p.Handle → Call p (Unit {0})
  add_to_table wire handle n = (ok tt, record n { wires = (add_wire wire handle n.wires).1 })

  -- a failure that is logged by `Fatalf` ends the process
  abbrev pub fatal : {A : Type 0} → Outcome A → Call p A
  fatal (error e) = crash
  fatal (value a) = pure a

  -- `AddGRPCWireLocal`; the thread that it starts is `receive` of Wire/Receive
  unfoldable pub add_grpc_wire_local : WireDef → Call p Bool
  unfolding make_channel add_wire
  add_grpc_wire_local wire_def = do
    index ← on_world p (p.interface_by_name wire_def.veth_name_local_host)
    opened ← attempt (on_world p (p.open_live wire_def.veth_name_local_host))
    handle ← fatal opened
    stop_c ← new_channel
    add_to_table (local_wire wire_def index stop_c) handle
    pure true

  -- `SendToOnce`, with `GetHostIntfHndl`
  unfoldable pub send_to_once : Packet → Call p Bool
  unfolding get_handle
  send_to_once pkt n = elim (get_handle pkt.remot_intf_id n.wires) [
    | none ↦ (err (message "node interface is not found in local db"), n)
    | some handle ↦ (on_world p (p.write_packet handle pkt.frame) >> pure true) n
  ]

  -- `AddGRPCWireRemote`; the thread that it starts is `receive` of Wire/Receive
  unfoldable pub add_grpc_wire_remote : WireDef → Call p WireCreateResponse
  unfolding make_channel create_grpc_wire_remote_triggered
  add_grpc_wire_remote wire_def = do
    stop_c ← new_channel
    wire ← on_wires p (create_grpc_wire_remote_triggered p wire_def stop_c)
    pure (record { response = true; peer_intf_id = wire.local_node_iface_id })

  -- `GRPCWireExists`
  unfoldable pub grpc_wire_exists : WireDef → Call p WireCreateResponse
  unfolding get_wire
  grpc_wire_exists wire_def n =
      elim (get_wire wire_def.local_pod_net_ns wire_def.link_uid n.wires) [
        | none ↦ (ok (record { response = false; peer_intf_id = wire_def.peer_intf_id }), n)
        | some wire ↦ (ok (record { response = true; peer_intf_id = wire.peer_iface_id }), n)
      ]

  -- `GenerateNodeInterfaceName`; it never fails
  unfoldable pub generate_node_interface_name : String → String → Call p String
  unfolding gen_node_iface_name
  generate_node_interface_name pod_name pod_intf_name n =
      let (name, w) = gen_node_iface_name pod_name pod_intf_name n.wires in
      (ok name, record n { wires = w })
