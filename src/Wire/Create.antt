-- ===== src/Wire/Create.antt =====
-- Creating the node's end of a wire: `CreateGRPCWireRemoteTriggered`.
use kube_dtn.Prelude.{
  ℕ, String, true, Option, none, some, [], ◌∷◌, Action, Outcome, value, error, wrapped, ok, pure,
  crash, attempt, map_error, modify, of_result, ◌>>=◌, ◌>>◌, ◌==◌, String_eq, if◌then◌else◌,
}
use kube_dtn.Prelude.Int.{ℤ}
use kube_dtn.Api.Proto.{WireDef}
use kube_dtn.Platform.{Platform, Veth, Do}
use kube_dtn.Wire.Table.{GrpcWire, peer_created_wire, get_wire, add_wire}
use kube_dtn.Wire.Names.{gen_node_iface_name}
use kube_dtn.Wire.Remove.{State, on_world}

module _ (p : Platform) where
  -- A device with an optional address.
  unfoldable pub addressed_veth : String → String → String → Do p (Veth p)
  addressed_veth ns_name link_name ip =
      if ip == ""
      then pure
          (record { ns_name = ns_name; link_name = link_name; ip_addr = []; hardware_addr = none })
      else (do
        net ←
            map_error (wrapped "failed to create remote end of GRPC wire")
              (of_result (p.parse_cidr ip))
        pure (record {
          ns_name = ns_name;
          link_name = link_name;
          ip_addr = net ∷ [];
          hardware_addr = none;
        }))

  -- the wire that the source makes, from the index of the node's interface and its name
  abbrev pub remote_wire : WireDef → ℕ → ℤ → String → GrpcWire
  remote_wire wire_def stop_c index out_if_nm = record {
    uid = wire_def.link_uid;
    namespace = wire_def.kube_ns;
    local_node_iface_id = index;
    local_node_iface_name = out_if_nm;
    local_pod_ip = wire_def.local_pod_ip;
    local_pod_name = wire_def.local_pod_name;
    local_pod_iface_name = wire_def.intf_name_in_pod;
    local_pod_net_ns = wire_def.local_pod_net_ns;
    peer_iface_id = wire_def.peer_intf_id;
    peer_node_ip = wire_def.peer_ip;
    is_ready = true;
    originator = peer_created_wire;
    originator_ip = wire_def.peer_ip;
    stop_c = stop_c;
  }

  abbrev next_name : String → String → Action (State p) String
  next_name pod_name pod_iface_name (wires, w) =
      let (name, wires') = gen_node_iface_name pod_name pod_iface_name wires in
      (ok name, (wires', w))

  -- The two failures that the source logs by `Fatalf` end the process.
  abbrev fatal : {A : Type 0} → Outcome A → Action (State p) A
  fatal (error e) = crash
  fatal (value a) = pure a

  -- From the name of the interface on, when no ready wire was found.
  unfoldable pub create_wire : WireDef → ℕ → Action (State p) GrpcWire
  unfolding gen_node_iface_name addressed_veth add_wire
  create_wire wire_def stop_c = do
    out_if_nm ← next_name wire_def.local_pod_name wire_def.intf_name_in_pod
    ns ←
        map_error (wrapped "[ADD-WIRE:REMOTE-END] could not get current network namespace")
          (on_world p p.current_ns)
    veth ←
        on_world p
          (addressed_veth wire_def.local_pod_net_ns wire_def.intf_name_in_pod wire_def.local_pod_ip)
    on_world p (
        p.make_veth veth (record {
          ns_name = p.ns_path ns;
          link_name = out_if_nm;
          ip_addr = [];
          hardware_addr = none;
        }))
    found ← attempt (on_world p (p.interface_by_name out_if_nm))
    index ← fatal found
    opened ← attempt (on_world p (p.open_live out_if_nm))
    handle ← fatal opened
    modify (λ (s : State p).
        ((add_wire (remote_wire wire_def stop_c index out_if_nm) handle s.0).1, s.1))
    pure (remote_wire wire_def stop_c index out_if_nm)

  -- the wire that is already there, if it is ready
  abbrev pub ready_wire : Option GrpcWire → Option GrpcWire
  ready_wire none = none
  ready_wire (some wire) = if wire.is_ready then some wire else none

  unfoldable pub create_grpc_wire_remote_triggered : WireDef → ℕ → Action (State p) GrpcWire
  unfolding create_wire get_wire
  create_grpc_wire_remote_triggered wire_def stop_c (wires, w) =
      elim (ready_wire (get_wire wire_def.local_pod_net_ns wire_def.link_uid wires)) [
        | some wire ↦ (ok wire, (wires, w))
        | none ↦ create_wire wire_def stop_c (wires, w)
      ]
