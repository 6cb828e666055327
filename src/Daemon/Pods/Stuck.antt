-- ===== src/Daemon/Pods/Stuck.antt =====
-- Destroying pods.
use kube_dtn.Prelude.{
  ◌≡◌, ◌≢◌, Bool, true, false, [], Action, Result, ok, err, panic, Error, error_mapped, wrapped,
  Outcome, value, error, attempt, pure, ◌>>=◌,
}
use kube_dtn.Prelude.Laws.{bind-eq-ok}
use kube_dtn.Api.Proto.{PodQuery, Pod}
use kube_dtn.Platform.{Platform}
use kube_dtn.Wire.Table.{get_wires_by_pod}
use kube_dtn.Wire.Remove.{delete_wires_by_pod}
use kube_dtn.Wire.Remove.Stuck.{RemovalIsFinal, delete_wires_by_pod-IsStuck}
use kube_dtn.Daemon.State.{Node, on_wires}
use kube_dtn.Daemon.Topologies.{get}
use kube_dtn.Daemon.Wires.{rem_grpc_wire}
use kube_dtn.Daemon.Pods.{destroy_pod, destroy_known, unmanage, wires_of}

module _ (p : Platform) (retry : Action (Node p) (Unit {0}) → Action (Node p) (Unit {0}))
    (final : RemovalIsFinal p) where
  -- `RemGRPCWire` of a pod that has wires does not succeed.
  rem_grpc_wire-stuck :
      (pod : PodQuery) (n : Node p)
      → get_wires_by_pod pod.kube_ns pod.name n.wires ≢ []
      → (a : Bool) (m : Node p) → rem_grpc_wire p (wires_of pod) n ≢ (ok a, m)
  unfolding rem_grpc_wire
  rem_grpc_wire-stuck pod n has a m e =
      let (b, n₁, removed, _) =
        bind-eq-ok (on_wires p (delete_wires_by_pod p pod.kube_ns pod.name)) (λ _. pure true) n e in
      let stuck = delete_wires_by_pod-IsStuck p final pod.kube_ns pod.name (n.wires, n.world) has in
      stuck.0 tt (cc removed)

  mapped_ok :
      {S A : Type 0} (f : Error → Error) (r : Result A × S) {a : A} {s : S}
      → error_mapped f r ≡ (ok a, s)
      → r ≡ (ok a, s)
  mapped_ok f (ok a, s) e = e
  mapped_ok f (err x, s) e = absurd (cc)
  mapped_ok f (panic, s) e = e

  -- A pod that has a wire cannot be destroyed: if a removed device cannot be removed again, then
  -- `DestroyPod` gives neither true nor false, but an error or a panic.
  pub destroy_pod-stuck :
      (pod : PodQuery) (n : Node p)
      → get_wires_by_pod pod.kube_ns pod.name n.wires ≢ []
      → (a : Bool) (m : Node p) → destroy_pod p retry pod n ≢ (ok a, m)
  unfolding destroy_pod
  destroy_pod-stuck pod n has a m e =
      let (b, n₁, removed, _) =
        bind-eq-ok
          (λ k.
            error_mapped (wrapped "could not remove grpc wire") (rem_grpc_wire p (wires_of pod) k))
          (λ _.
            (attempt (get p pod) >>= λ (found : Outcome Pod). elim found [
              | error e ↦ pure false
              | value local_pod ↦ destroy_known p retry local_pod
            ]))
          (unmanage p retry pod n).1 e in
      rem_grpc_wire-stuck pod (unmanage p retry pod n).1 has b n₁ (
        mapped_ok (wrapped "could not remove grpc wire")
          (rem_grpc_wire p (wires_of pod) (unmanage p retry pod n).1) removed)
