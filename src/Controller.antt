-- ===== src/Controller.antt =====
-- The controller (controllers/topology_controller.go): what it uses of the cluster.
pub mod Diff
pub mod Reconcile
pub mod Main
use kube_dtn.Prelude.{String, Bool, Action}
use kube_dtn.Api.{Topology}
use kube_dtn.Api.Proto.{LinksBatchQuery}

-- The Kubernetes client and the daemons, which are not this repository's controller code. A state
-- of `World` is all that they keep.
pub record Cluster : Type 1 where
  pub World : Type 0
  -- `r.Get`, by namespace and name
  pub get_topology : String → String → Action World Topology
  -- `r.Status().Update`
  pub update_status : Topology → Action World (Unit {0})
  -- `retry.RetryOnConflict(retry.DefaultRetry, f)`
  pub retry_on_conflict : Action World (Unit {0}) → Action World (Unit {0})
  -- `grpc.Dial` of an address
  pub dial : String → Action World (Unit {0})
  -- the daemon's RPCs at an address, each with its response
  pub add_links_rpc : String → LinksBatchQuery → Action World Bool
  pub del_links_rpc : String → LinksBatchQuery → Action World Bool
  pub update_links_rpc : String → LinksBatchQuery → Action World Bool
