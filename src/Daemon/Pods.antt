-- ===== src/Daemon/Pods.antt =====
-- `SetupPod` and `DestroyPod` (daemon/kubedtn/handler.go).
pub mod Stuck
use kube_dtn.Prelude.{
  String, Bool, true, false, Action, Outcome, value, error, wrapped, ok, pure, fail, attempt,
  map_error, modify, ◌>>=◌, ◌>>◌, if◌then◌else◌,
}
use kube_dtn.Prelude.Int.{pos}
use kube_dtn.Api.Proto.{Pod, PodQuery, SetupPodQuery, LinksBatchQuery, WireDef}
use kube_dtn.Platform.{Platform}
use kube_dtn.Common.Context.{Context, background}
use kube_dtn.Metrics.TopologyManager.{remove}
use kube_dtn.Daemon.State.{Node, Call}
use kube_dtn.Daemon.Topologies.{get}
use kube_dtn.Daemon.Alive.{set_alive}
use kube_dtn.Daemon.Batches.{add_links, del_links}
use kube_dtn.Daemon.Wires.{rem_grpc_wire}

abbrev pub batch_of : Pod → LinksBatchQuery
batch_of pod = record { local_pod = pod; links = pod.links }

abbrev pub wires_of : PodQuery → WireDef
wires_of pod = record {
  peer_intf_id = pos 0;
  peer_ip = "";
  intf_name_in_pod = "";
  local_pod_net_ns = "";
  link_uid = pos 0;
  local_pod_name = pod.name;
  veth_name_local_host = "";
  kube_ns = pod.kube_ns;
  local_pod_ip = "";
}

module _ (p : Platform) (retry : Action (Node p) (Unit {0}) → Action (Node p) (Unit {0})) where
  -- A pod of the topology: its address is set, then its links are added.
  unfoldable pub setup_known : Context → SetupPodQuery → Pod → Call p Bool
  unfolding set_alive add_links
  setup_known ctx pod found n =
      let local_pod : Pod = record found { net_ns = pod.net_ns; src_ip = n.config.node_ip } in
      (do
        alive ← set_alive p retry local_pod
        if alive then add_links p ctx (batch_of local_pod) else pure false)
        n

  -- A pod that is not in the topology is left to the next plugin.
  unfoldable pub setup_pod : Context → SetupPodQuery → Call p Bool
  unfolding setup_known get
  setup_pod ctx pod = do
    found ← attempt (get p (record { name = pod.name; kube_ns = pod.kube_ns }))
    elim found [ error e ↦ pure true | value local_pod ↦ setup_known ctx pod local_pod ]

  abbrev pub unmanage : PodQuery → Call p (Unit {0})
  unmanage pod n =
      (ok tt, record n { topology_manager = remove pod.name pod.kube_ns n.topology_manager })

  -- A pod of the topology: its address is cleared, then its links are deleted.
  unfoldable pub destroy_known : Pod → Call p Bool
  unfolding set_alive del_links
  destroy_known found =
      let local_pod : Pod = record found { net_ns = ""; src_ip = "" } in
      do
        alive ← map_error (wrapped "could not set alive status") (set_alive p retry local_pod)
        del_links p (batch_of local_pod)

  -- A pod that is not in the topology gives false with no error.
  unfoldable pub destroy_pod : PodQuery → Call p Bool
  unfolding rem_grpc_wire destroy_known get remove
  destroy_pod pod = do
    unmanage pod
    removed ← map_error (wrapped "could not remove grpc wire") (rem_grpc_wire p (wires_of pod))
    found ← attempt (get p pod)
    elim found [ error e ↦ pure false | value local_pod ↦ destroy_known local_pod ]
