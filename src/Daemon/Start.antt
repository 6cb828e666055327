-- ===== src/Daemon/Start.antt =====
-- `New` (daemon/kubedtn/kubedtn.go): the daemon's state at its start. The topologies of this node go
-- to the two managers. Clients, listeners and the API are a parameter; the informer's thread and the
-- gRPC server, which `New` only creates, are left out.
use kube_dtn.Prelude.{
  String, Bool, List, [], ◌∷◌, Result, ok, err, panic, value, error, pure, gets, attempt, map_error,
  wrapped, ignore, ◌>>=◌, ◌>>◌, ◌==◌, String_eq, if◌then◌else◌,
}
use kube_dtn.Prelude.Int.{ℤ}
use kube_dtn.Vxlan.Link.{get_vxlan_source}
use kube_dtn.Wire.Table.{Wires}
use kube_dtn.Api.{Topology}
use kube_dtn.Platform.{Platform, Do}
use kube_dtn.Metrics.TopologyManager
use kube_dtn.Vxlan.Manager
use kube_dtn.Vxlan.Manager.{new_vxlan_manager}
use kube_dtn.Daemon.State.{Call, Node}

-- `filterLocalTopologies`
unfoldable pub filter_local_topologies : String → List Topology → List Topology
filter_local_topologies node_ip [] = []
filter_local_topologies node_ip (t ∷ ts) =
    if t.status.src_ip == node_ip
    then t ∷ filter_local_topologies node_ip ts
    else filter_local_topologies node_ip ts

module _ (p : Platform) where
  abbrev pub init_topologies : List Topology → Call p (Unit {0})
  init_topologies topologies n =
      let (h, m) = TopologyManager.init topologies n.heap n.topology_manager in
      (ok tt, record n { heap = h; topology_manager = m })

  abbrev pub init_vxlans : List Topology → Call p (Unit {0})
  init_vxlans topologies n =
      let (r, s) = Manager.init p topologies (n.vxlan_manager, n.world) in
      (r, record n { vxlan_manager = s.0; world = s.1 })

  -- The error of `vxlanManager.Init` is not looked at.
  unfoldable pub init_managers : List Topology → Call p (Unit {0})
  unfolding filter_local_topologies TopologyManager.init Manager.init
  init_managers topologies n =
      let local_topologies = filter_local_topologies n.config.node_ip topologies in
      (init_topologies local_topologies >> ignore (init_vxlans local_topologies)) n

-- The Kubernetes clients, the listener and the environment
pub record Clients (p : Platform) : Type 1 where
  pub RestConfig : Type 0
  pub in_cluster_config : Do p RestConfig
  pub config_from_file : String → Do p RestConfig
  pub home_dir : p.World → String
  pub join_path : String → String → String
  pub kubernetes_client : RestConfig → Do p (Unit {0})
  pub topology_client : RestConfig → Do p (Unit {0})
  pub listen : ℤ → Do p (Unit {0})
  pub getenv : String → p.World → String
  pub list_topologies : Do p (List Topology)

-- What `New` is given: its configuration and the topology manager; and the memory that is there.
pub record Settings (p : Platform) : Type 0 where
  pub port : ℤ
  pub tcpip_bypass : Bool
  pub topology_manager : TopologyManager.Manager
  pub heap : TopologyManager.Heap
  pub wires : Wires p.Handle

module _ (p : Platform) (k : Clients p) where
  -- `restConfig`
  unfoldable pub rest_config : Do p k.RestConfig
  rest_config = do
    found ← attempt k.in_cluster_config
    elim found [
      | value config ↦ pure config
      | error e ↦ do
        home ← gets k.home_dir
        k.config_from_file (
            if home == ""
            then k.join_path ".kube" "config"
            else k.join_path home (k.join_path ".kube" "config"))
    ]

  abbrev pub fresh : Settings p → String → p.World → Node p
  fresh s node_ip w = record {
    config = record { tcpip_bypass = s.tcpip_bypass; node_ip = node_ip; vxlan_intf = "" };
    heap = s.heap;
    topology_store = [];
    topology_manager = s.topology_manager;
    vxlan_manager = new_vxlan_manager;
    wires = s.wires;
    locked = [];
    observed = [];
    world = w;
  }

  abbrev pub filled : Result (Unit {0}) × Node p → Result (Node p) × p.World
  filled (ok _, n) = (ok n, n.world)
  filled (err e, n) = (err e, n.world)
  filled (panic, n) = (panic, n.world)

  -- `New`. The informer's cache is empty until its thread runs.
  unfoldable pub new : Settings p → Do p (Node p)
  unfolding rest_config init_managers get_vxlan_source
  new s = do
    config ← rest_config
    k.kubernetes_client config
    k.topology_client config
    k.listen s.port
    node_ip ← gets (k.getenv "HOST_IP")
    topologies ← map_error (wrapped "failed to list topologies") k.list_topologies
    n ← (λ w. filled (init_managers p topologies (fresh s node_ip w)))
    source ← map_error (wrapped "failed to get vxlan source") (get_vxlan_source p node_ip)
    (λ w. (ok (record n { config = record (n.config) { vxlan_intf = source.1 }; world = w }), w))
