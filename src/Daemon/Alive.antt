-- ===== src/Daemon/Alive.antt =====
-- `SetAlive` (daemon/kubedtn/handler.go): mark a pod as up or down.
pub mod Cached
use kube_dtn.Prelude.{
  ℕ, String, Bool, true, not, ◌&&◌, [], ◌∷◌, ◌++◌, Action, ok, pure, attempt, ◌>>=◌, ◌>>◌, ◌==◌,
  String_eq, if◌then◌else◌,
}
use kube_dtn.Api.{Topology}
use kube_dtn.Api.Proto.{Pod}
use kube_dtn.Platform.{Platform}
use kube_dtn.Metrics.TopologyManager.{write, add, remove}
use kube_dtn.Daemon.State.{Node, Call, on_world}
use kube_dtn.Daemon.Topologies.{get_pod, deref, update_status}

abbrev pub finalizer : String
finalizer = "y-young.github.io/v1"

-- `pod.SrcIp != "" && pod.NetNs != ""`
abbrev pub is_alive : Pod → Bool
is_alive pod = not (pod.src_ip == "") && not (pod.net_ns == "")

abbrev pub with_address : Pod → Topology → Topology
with_address pod t = record t {
  status = record (t.status) { src_ip = pod.src_ip; net_ns = pod.net_ns };
}

abbrev pub with_finalizer : Bool → Topology → Topology
with_finalizer alive t = record t {
  finalizers = if alive then t.finalizers ++ finalizer ∷ [] else [];
}

-- `retry.RetryOnConflict(retry.DefaultRetry, f)` over the daemon's memory
module _ (p : Platform) (retry : Action (Node p) (Unit {0}) → Action (Node p) (Unit {0})) where
  abbrev pub write_object : ℕ → Topology → Call p (Unit {0})
  write_object pointer t n = (ok tt, record n { heap = write pointer t n.heap })

  -- the topology manager's part
  abbrev pub manage : Bool → ℕ → Topology → Call p (Unit {0})
  manage alive pointer t n = (
    ok tt,
    record n {
      topology_manager =
          if alive
          then add t pointer n.topology_manager
          else remove t.name t.namespace n.topology_manager;
    },
  )

  -- The first function that is retried. It writes to the object of the cache.
  unfoldable pub set_status : Pod → Call p (Unit {0})
  unfolding get_pod update_status write add remove
  set_status pod = do
    pointer ← get_pod p pod.name pod.kube_ns
    topology ← deref p pointer
    manage (is_alive pod) pointer topology
    write_object pointer (with_address pod topology)
    update_status p (with_address pod topology) pod.kube_ns

  -- The second one.
  unfoldable pub set_finalizers : Pod → Call p (Unit {0})
  unfolding get_pod write
  set_finalizers pod = do
    pointer ← get_pod p pod.name pod.kube_ns
    topology ← deref p pointer
    write_object pointer (with_finalizer (is_alive pod) topology)
    on_world p (p.api_update pod.kube_ns (with_finalizer (is_alive pod) topology))

  -- An error of the second is only logged. A response of false comes with an error only, so the
  -- error stands for it.
  unfoldable pub set_alive : Pod → Call p Bool
  unfolding set_status set_finalizers
  set_alive pod = do
    retry (set_status pod)
    ignored ← attempt (retry (set_finalizers pod))
    pure true
