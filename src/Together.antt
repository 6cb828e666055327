-- ===== src/Together.antt =====
-- The controller and the plugin with the daemon that they call: the RPCs of
-- controllers/topology_controller.go and plugin/kube_dtn.go, answered by the handlers of
-- daemon/kubedtn/handler.go.
pub mod Reconciled
pub mod Plugged
pub mod Wired
pub mod TwoHosts
use kube_dtn.Prelude.{String, Bool, [], Result}
use kube_dtn.Api.{Topology}
use kube_dtn.Api.Proto.{Pod}
use kube_dtn.Platform.{Platform}
use kube_dtn.Common.Context.{background}
use kube_dtn.Controller.{Cluster}
use kube_dtn.Controller.Reconcile.{batch_query}
use kube_dtn.Daemon.State.{Node, Call, on_world}
use kube_dtn.Daemon.Pods.{setup_pod, destroy_pod}
use kube_dtn.Plugin.{Cni, K8sArgs}
use kube_dtn.Daemon.Batches.{add_links, del_links, update_links}

module _ (p : Platform) where
  -- What is on the way to the daemon, and client-go's retrying.
  pub record Network : Type 1 where
    pub dial : String → Call p (Unit {0})
    pub retry_on_conflict : Call p (Unit {0}) → Call p (Unit {0})

  -- A cluster whose topologies are all on one node: each RPC is a call of the node's handler.
  abbrev pub cluster_of : Network → Cluster
  cluster_of net = record {
    World = Node p;
    get_topology = λ namespace name. on_world p (p.api_get namespace name);
    update_status = λ t. on_world p (p.api_update_status t.namespace t);
    retry_on_conflict = net.retry_on_conflict;
    dial = net.dial;
    add_links_rpc = λ ip query. add_links p background query;
    del_links_rpc = λ ip query. del_links p query;
    update_links_rpc = λ ip query. update_links p background query;
  }

  -- The pod that the queries of a topology name.
  abbrev pub pod_of : Topology → Pod
  pod_of t = (batch_query t []).local_pod

  -- What the plugin uses besides the daemon: the CNI library, and the dialling.
  pub record PluginHost : Type 1 where
    pub NetConf : Type 0
    pub CniResult : Type 0
    pub unmarshal : String → Result NetConf
    pub has_prev_result : NetConf → Bool
    pub parse_prev_result : NetConf → Result NetConf
    pub result_of_prev : NetConf → Result CniResult
    pub empty_result : CniResult
    pub load_args : String → Result K8sArgs
    pub print_result : CniResult → NetConf → Call p (Unit {0})
    pub dial_local : Call p (Unit {0})

  -- The plugin beside a daemon, whose own updates of the API are retried by `retry`.
  abbrev pub cni_of : (Call p (Unit {0}) → Call p (Unit {0})) → PluginHost → Cni
  cni_of retry host = record {
    World = Node p;
    NetConf = host.NetConf;
    CniResult = host.CniResult;
    unmarshal = host.unmarshal;
    has_prev_result = host.has_prev_result;
    parse_prev_result = host.parse_prev_result;
    result_of_prev = host.result_of_prev;
    empty_result = host.empty_result;
    load_args = host.load_args;
    print_result = host.print_result;
    dial_local = host.dial_local;
    setup_pod = setup_pod p retry background;
    destroy_pod = destroy_pod p retry;
  }
