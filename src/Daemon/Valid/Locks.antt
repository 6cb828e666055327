-- ===== src/Daemon/Valid/Locks.antt =====
-- The link mutexes over sequences of calls of a daemon (daemon/kubedtn/handler.go).
use kube_dtn.Prelude.{
  ◌≡◌, ◌≢◌, refl, List, Result, ok, err, panic, outcome_of, ignore, of_result, ◌>>◌, ◌>>=◌,
}
use kube_dtn.Prelude.Int.{ℤ}
use kube_dtn.Prelude.Laws.{KeepsCalm, Keeps-bind, Keeps-ignore}
use kube_dtn.Platform.{Platform}
use kube_dtn.Api.Proto.{Pod, PbLink}
use kube_dtn.Common.Context.{Context}
use kube_dtn.Common.Vni.{get_vni_from_uid}
use kube_dtn.Common.Veth.{make_veth}
use kube_dtn.Common.Qdisc.Make.{make_qdiscs}
use kube_dtn.Common.Qdisc.Apply.{set_veth_qdiscs}
use kube_dtn.Daemon.State.{Node, Call, on_world, observe}
use kube_dtn.Daemon.AddLink.{add_link, link_context}
use kube_dtn.Daemon.AddLink.Locks.{KeepsLocks, update-KeepsLocks, add_link-KeepsLocks}
use kube_dtn.Daemon.DelLink.{forget, del_link}
use kube_dtn.Daemon.Batches.{add_links, del_links, update_link, update_links}
use kube_dtn.Daemon.Batches.Locks.{chain-KeepsCalm, batch-KeepsCalm}
use kube_dtn.Daemon.Valid.Others.{OnlyCalls}
use kube_dtn.Daemon.Valid.Handled.{Handled, run_calls}
use kube_dtn.Daemon.Valid.Closed.{IsClosed, run_calls_guaranteed}
use kube_dtn.Prelude.{ap}

module _ (p : Platform) where
  abbrev view : Node p → List ℤ
  view n = n.locked

  del_link-KeepsLocks : (local_pod : Pod) (link : PbLink) → KeepsLocks p (del_link p local_pod link)
  unfolding del_link
  del_link-KeepsLocks local_pod link =
      Keeps-bind view
        (on_world p (make_veth p local_pod.net_ns link.local_intf link.local_ip link.local_mac))
        (λ v.
          ignore (on_world p (p.remove_veth_link v))
          >> (forget p local_pod (get_vni_from_uid link.uid) >> observe p "del"))
        (λ k. refl)
        (λ v.
          Keeps-bind view (ignore (on_world p (p.remove_veth_link v)))
            (λ _. forget p local_pod (get_vni_from_uid link.uid) >> observe p "del")
            (Keeps-ignore view (on_world p (p.remove_veth_link v)) (λ k. refl)) (λ _ k. refl))

  update_link-KeepsLocks :
      (ctx : Context) (local_pod : Pod) (link : PbLink)
      → KeepsLocks p (update_link p ctx local_pod link)
  unfolding update_link
  update_link-KeepsLocks ctx local_pod link =
      Keeps-bind view
        (on_world p (make_veth p local_pod.net_ns link.local_intf link.local_ip link.local_mac))
        (λ my_veth. of_result (make_qdiscs p link.properties) >>= λ qdiscs.
          on_world p (set_veth_qdiscs p ctx my_veth qdiscs) >> observe p "update")
        (λ k. refl)
        (λ my_veth.
          Keeps-bind view (of_result (make_qdiscs p link.properties))
            (λ qdiscs. on_world p (set_veth_qdiscs p ctx my_veth qdiscs) >> observe p "update")
            (λ k. refl)
            (λ qdiscs.
              Keeps-bind view (on_world p (set_veth_qdiscs p ctx my_veth qdiscs))
                (λ _. observe p "update") (λ k. refl) (λ _ k. refl)))

  outcome_of-calm :
      {A : Type 0} (before : List ℤ) (r : Result A × Node p)
      → (r.0 ≢ panic → view r.1 ≡ before)
      → (outcome_of r).0 ≢ panic
      → view (outcome_of r).1 ≡ before
  outcome_of-calm before (ok a, n) h calm = h (λ e. cc)
  outcome_of-calm before (err x, n) h calm = h (λ e. cc)
  outcome_of-calm before (panic, n) h calm = absurd (calm refl)

  calm-IsClosed : IsClosed p (λ A m. KeepsCalm {A = A} view m)
  unfolding add_links del_links update_links
  calm-IsClosed = record {
    chained = λ m f k l n calm. chain-KeepsCalm p f n.locked (m n) (k n) l calm;
    pointwise = λ m k n. k n n;
    attempted = λ m k n. outcome_of-calm n.locked (m n) (k n);
    unlinked = λ m k n calm. ap (λ s. s.1) (k n);
    adding = λ ctx query.
        batch-KeepsCalm p (add_link p ctx query.local_pod) query.links
          (add_link-KeepsLocks p ctx query.local_pod);
    deleting = λ query.
        batch-KeepsCalm p (del_link p query.local_pod) query.links
          (λ link k c. del_link-KeepsLocks query.local_pod link k);
    updating = λ ctx query n.
        batch-KeepsCalm p (update_link p (link_context p ctx n) query.local_pod) query.links
          (λ link k c. update_link-KeepsLocks (link_context p ctx n) query.local_pod link k) n;
    remote_updating = λ ctx pod n calm. update-KeepsLocks p ctx pod n;
  }

-- After any sequence of calls of the daemon's handlers of which none panics, the same link mutexes
-- are held as before it, on success and on every error, if retrying only calls its function.
pub run_calls-KeepsLocks :
    (p : Platform) (retry : Call p (Unit {0}) → Call p (Unit {0})) (only : OnlyCalls p retry)
    (calls : List Handled) (n : Node p)
    → (run_calls p retry calls n).0 ≢ panic
    → (run_calls p retry calls n).1.locked ≡ n.locked
run_calls-KeepsLocks p retry only =
    run_calls_guaranteed p retry only (λ A m. KeepsCalm {A = A} (view p) m) (calm-IsClosed p)
