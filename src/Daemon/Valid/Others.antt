-- ===== src/Daemon/Valid/Others.antt =====
-- The handlers that add and delete no links (daemon/kubedtn/handler.go): they leave the VXLAN
-- manager and the link mutexes as they are.
use kube_dtn.Prelude.{
  ◌≡◌, refl, ℕ, String, true, Option, none, some, List, Result, ok, err, panic, String_eq, Outcome,
  value, error, attempt, outcome_of, Error, map_error, error_mapped, pure, ◌>>=◌, ◌>>◌,
  Option-cases, inl, inr,
}
use kube_dtn.Prelude.Int.{ℤ}
use kube_dtn.Prelude.Laws.{Keeps, Keeps-bind}
use kube_dtn.Prelude.Maps.{lookup}
use kube_dtn.Platform.{Platform}
use kube_dtn.Api.{Topology}
use kube_dtn.Api.Proto.{Pod, PodQuery, WireDef, Packet}
use kube_dtn.Vxlan.Manager.{VxlanManager}
use kube_dtn.Metrics.TopologyManager.{topology_key}
use kube_dtn.Wire.Table.{get_wire, get_handle}
use kube_dtn.Wire.Remove.{delete_wires_by_pod}
use kube_dtn.Daemon.State.{Node, Call, on_world, on_wires}
use kube_dtn.Daemon.Topologies.{
  get_pod, deref, to_proto_pod, alloc_object, default_ns, from_cache, get, update_status,
}
use kube_dtn.Daemon.Alive.{set_status, set_finalizers, set_alive}
use kube_dtn.Daemon.Wires.{
  rem_grpc_wire, send_to_once, grpc_wire_exists, generate_node_interface_name, add_grpc_wire_remote,
  add_grpc_wire_local, new_channel, add_to_table, local_wire, fatal,
}
use kube_dtn.Wire.Create.{create_grpc_wire_remote_triggered}

module _ (p : Platform) where
  -- What these handlers leave as it is.
  abbrev pub links_state : Node p → VxlanManager × List ℤ
  links_state n = (n.vxlan_manager, n.locked)

  abbrev pub KeepsLinks : {A : Type 0} → Call p A → Type 0
  KeepsLinks m = Keeps links_state m

  pub attempt-KeepsLinks : {A : Type 0} (m : Call p A) → KeepsLinks m → KeepsLinks (attempt m)
  attempt-KeepsLinks {A = A} m k n = outcome-same (m n) (k n)
    where
      outcome-same :
          {before : VxlanManager × List ℤ} (r : Result A × Node p)
          → links_state r.1 ≡ before
          → links_state (outcome_of r).1 ≡ before
      outcome-same (ok a, k) e = e
      outcome-same (err x, k) e = e
      outcome-same (panic, k) e = e

  pub map_error-KeepsLinks :
      {A : Type 0} (f : Error → Error) (m : Call p A) → KeepsLinks m → KeepsLinks (map_error f m)
  map_error-KeepsLinks {A = A} f m k n = mapped-same (m n) (k n)
    where
      mapped-same :
          {before : VxlanManager × List ℤ} (r : Result A × Node p)
          → links_state r.1 ≡ before
          → links_state (error_mapped f r).1 ≡ before
      mapped-same (ok a, k) e = e
      mapped-same (err x, k) e = e
      mapped-same (panic, k) e = e

  get_pod-KeepsLinks : (name ns : String) → KeepsLinks (get_pod p name ns)
  unfolding get_pod from_cache
  get_pod-KeepsLinks name ns n =
      from_cache-same (lookup (topology_key (default_ns p ns) name) n.topology_store)
    where
      from_cache-same :
          (found : Option ℕ)
          → links_state (from_cache p name (default_ns p ns) found n).1 ≡ links_state n
      from_cache-same (some pointer) = refl
      from_cache-same none =
          Keeps-bind links_state (on_world p (p.api_get (default_ns p ns) name)) (alloc_object p)
            (λ k. refl) (λ a k. refl) n

  to_proto_pod-KeepsLinks : (t : Topology) → KeepsLinks (to_proto_pod p t)
  unfolding to_proto_pod
  to_proto_pod-KeepsLinks t n = elim (Option-cases t.spec.links) [
    | inl e ↦ rw (e, to_proto_pod) refl
    | inr (links, e) ↦ rw (e, to_proto_pod) refl
  ]

  pub get-KeepsLinks : (query : PodQuery) → KeepsLinks (get p query)
  unfolding get
  get-KeepsLinks query =
      Keeps-bind links_state (get_pod p query.name query.kube_ns)
        (λ pointer. deref p pointer >>= to_proto_pod p)
        (get_pod-KeepsLinks query.name query.kube_ns)
        (λ pointer n. to_proto_pod-KeepsLinks (n.heap.object pointer) n)

  pub send_to_once-KeepsLinks : (pkt : Packet) → KeepsLinks (send_to_once p pkt)
  unfolding send_to_once
  send_to_once-KeepsLinks pkt n = elim (Option-cases (get_handle pkt.remot_intf_id n.wires)) [
    | inl e ↦ rw (e, send_to_once) refl
    | inr (handle, e) ↦
        rw (e, send_to_once)
          (Keeps-bind links_state (on_world p (p.write_packet handle pkt.frame)) (λ _. pure true)
            (λ k. refl) (λ _ k. refl) n)
  ]

  pub rem_grpc_wire-KeepsLinks : (wire_def : WireDef) → KeepsLinks (rem_grpc_wire p wire_def)
  unfolding rem_grpc_wire
  rem_grpc_wire-KeepsLinks wire_def =
      Keeps-bind links_state
        (on_wires p (delete_wires_by_pod p wire_def.kube_ns wire_def.local_pod_name))
        (λ _. pure true) (λ k. refl) (λ _ k. refl)

  pub grpc_wire_exists-KeepsLinks : (wire_def : WireDef) → KeepsLinks (grpc_wire_exists p wire_def)
  unfolding grpc_wire_exists
  grpc_wire_exists-KeepsLinks wire_def n =
      elim (Option-cases (get_wire wire_def.local_pod_net_ns wire_def.link_uid n.wires)) [
        | inl e ↦ rw (e, grpc_wire_exists) refl
        | inr (wire, e) ↦ rw (e, grpc_wire_exists) refl
      ]

  pub generate_node_interface_name-KeepsLinks :
      (pod intf : String) → KeepsLinks (generate_node_interface_name p pod intf)
  unfolding generate_node_interface_name
  generate_node_interface_name-KeepsLinks pod intf n = refl

  pub add_grpc_wire_remote-KeepsLinks :
      (wire_def : WireDef) → KeepsLinks (add_grpc_wire_remote p wire_def)
  unfolding add_grpc_wire_remote
  add_grpc_wire_remote-KeepsLinks wire_def =
      Keeps-bind links_state (new_channel p)
        (λ stop_c. on_wires p (create_grpc_wire_remote_triggered p wire_def stop_c) >>= λ wire.
          pure (record { response = true; peer_intf_id = wire.local_node_iface_id }))
        (λ k. refl)
        (λ stop_c.
          Keeps-bind links_state (on_wires p (create_grpc_wire_remote_triggered p wire_def stop_c))
            (λ wire. pure (record { response = true; peer_intf_id = wire.local_node_iface_id }))
            (λ k. refl) (λ wire k. refl))

  after_opened-KeepsLinks :
      (wire_def : WireDef) (index : ℤ) (opened : Outcome p.Handle)
      → KeepsLinks (do
        handle ← fatal p opened
        stop_c ← new_channel p
        add_to_table p (local_wire p wire_def index stop_c) handle
        pure true)
  after_opened-KeepsLinks wire_def index (error e) n = refl
  after_opened-KeepsLinks wire_def index (value handle) n = refl

  pub add_grpc_wire_local-KeepsLinks :
      (wire_def : WireDef) → KeepsLinks (add_grpc_wire_local p wire_def)
  unfolding add_grpc_wire_local
  add_grpc_wire_local-KeepsLinks wire_def =
      Keeps-bind links_state (on_world p (p.interface_by_name wire_def.veth_name_local_host))
        (λ index. attempt (on_world p (p.open_live wire_def.veth_name_local_host)) >>= λ opened. do
          handle ← fatal p opened
          stop_c ← new_channel p
          add_to_table p (local_wire p wire_def index stop_c) handle
          pure true)
        (λ k. refl)
        (λ index.
          Keeps-bind links_state (attempt (on_world p (p.open_live wire_def.veth_name_local_host)))
            (λ opened. do
              handle ← fatal p opened
              stop_c ← new_channel p
              add_to_table p (local_wire p wire_def index stop_c) handle
              pure true)
            (attempt-KeepsLinks (on_world p (p.open_live wire_def.veth_name_local_host))
              (λ k. refl))
            (after_opened-KeepsLinks wire_def index))

  module _ (retry : Call p (Unit {0}) → Call p (Unit {0})) where
    -- `RetryOnConflict` does nothing but call its function.
    abbrev pub OnlyCalls : Type 0
    OnlyCalls = (f : Call p (Unit {0})) → KeepsLinks f → KeepsLinks (retry f)

    set_status-KeepsLinks : (pod : Pod) → KeepsLinks (set_status p retry pod)
    unfolding set_status update_status
    set_status-KeepsLinks pod =
        Keeps-bind links_state (get_pod p pod.name pod.kube_ns) _
          (get_pod-KeepsLinks pod.name pod.kube_ns) (λ pointer n. refl)

    set_finalizers-KeepsLinks : (pod : Pod) → KeepsLinks (set_finalizers p retry pod)
    unfolding set_finalizers
    set_finalizers-KeepsLinks pod =
        Keeps-bind links_state (get_pod p pod.name pod.kube_ns) _
          (get_pod-KeepsLinks pod.name pod.kube_ns) (λ pointer n. refl)

    pub set_alive-KeepsLinks : OnlyCalls → (pod : Pod) → KeepsLinks (set_alive p retry pod)
    unfolding set_alive
    set_alive-KeepsLinks calls pod =
        Keeps-bind links_state (retry (set_status p retry pod))
          (λ _. attempt (retry (set_finalizers p retry pod)) >>= λ _. pure true)
          (calls (set_status p retry pod) (set_status-KeepsLinks pod))
          (λ _.
            Keeps-bind links_state (attempt (retry (set_finalizers p retry pod))) (λ _. pure true)
              (attempt-KeepsLinks (retry (set_finalizers p retry pod))
                (calls (set_finalizers p retry pod) (set_finalizers-KeepsLinks pod)))
              (λ _ k. refl))
