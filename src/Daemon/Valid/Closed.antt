-- ===== src/Daemon/Valid/Closed.antt =====
-- What the calls of AddLinks, DelLinks, UpdateLinks and Update guarantee, all handlers of
-- daemon/kubedtn/handler.go and all sequences of them do.
use kube_dtn.Prelude.{
  refl, Bool, true, false, List, [], ◌∷◌, wrapped, Outcome, value, error, attempt, map_error, pure,
  ◌>>=◌, if◌then◌else◌,
}
use kube_dtn.Platform.{Platform}
use kube_dtn.Api.Proto.{Pod, PodQuery, SetupPodQuery, RemotePod, LinksBatchQuery}
use kube_dtn.Common.Context.{Context}
use kube_dtn.Daemon.State.{Node, Call}
use kube_dtn.Daemon.Topologies.{get}
use kube_dtn.Daemon.Alive.{set_alive}
use kube_dtn.Daemon.Batches.{add_links, del_links, update_links}
use kube_dtn.Daemon.RemoteUpdate.{update}
use kube_dtn.Daemon.Wires.{rem_grpc_wire, generate_node_interface_name}
use kube_dtn.Daemon.Pods.{
  setup_pod, setup_known, destroy_pod, destroy_known, unmanage, batch_of, wires_of,
}
use kube_dtn.Daemon.Valid.Others.{
  KeepsLinks, OnlyCalls, get-KeepsLinks, set_alive-KeepsLinks, rem_grpc_wire-KeepsLinks,
  grpc_wire_exists-KeepsLinks, generate_node_interface_name-KeepsLinks,
  add_grpc_wire_remote-KeepsLinks, add_grpc_wire_local-KeepsLinks, send_to_once-KeepsLinks,
  attempt-KeepsLinks, map_error-KeepsLinks,
}
use kube_dtn.Daemon.Valid.Handled.{
  Handled, added, deleted, updated, remote, set_up, destroyed, made_alive, asked, wire_made,
  wire_asked, wires_removed, wire_known, name_made, frame_sent, answered, run_call, run_calls,
}

-- A guarantee of calls: it holds of a chain of calls that have it, of a call that leaves the links'
-- state alone, and of the handlers of links.
pub record IsClosed (p : Platform) (Q : (A : Type 0) → Call p A → Type 0) : Type 1 where
  pub chained :
      {A B : Type 0} (m : Call p A) (f : A → Call p B)
      → Q A m
      → ((a : A) → Q B (f a))
      → Q B (m >>= f)
  pub pointwise :
      {A : Type 0} (m : Node p → Call p A) → ((n : Node p) → Q A (m n)) → Q A (λ n. m n n)
  pub attempted : {A : Type 0} (m : Call p A) → Q A m → Q (Outcome A) (attempt m)
  pub unlinked : {A : Type 0} (m : Call p A) → KeepsLinks p m → Q A m
  pub adding : (ctx : Context) (query : LinksBatchQuery) → Q Bool (add_links p ctx query)
  pub deleting : (query : LinksBatchQuery) → Q Bool (del_links p query)
  pub updating : (ctx : Context) (query : LinksBatchQuery) → Q Bool (update_links p ctx query)
  pub remote_updating : (ctx : Context) (pod : RemotePod) → Q Bool (update p ctx pod)

module _ (p : Platform) (retry : Call p (Unit {0}) → Call p (Unit {0})) (calls : OnlyCalls p retry)
    (Q : (A : Type 0) → Call p A → Type 0) (closed : IsClosed p Q) where
  when_alive_guaranteed :
      (ctx : Context) (pod : Pod) (alive : Bool)
      → Q Bool (if alive then add_links p ctx (batch_of pod) else pure false)
  when_alive_guaranteed ctx pod true = closed.adding ctx (batch_of pod)
  when_alive_guaranteed ctx pod false = closed.unlinked (pure false) (λ n. refl)

  setup_known_guaranteed :
      (ctx : Context) (query : SetupPodQuery) (found : Pod)
      → Q Bool (setup_known p retry ctx query found)
  unfolding setup_known
  setup_known_guaranteed ctx query found = closed.pointwise _ (λ n.
      let local_pod : Pod = record found { net_ns = query.net_ns; src_ip = n.config.node_ip } in
      closed.chained (set_alive p retry local_pod)
        (λ alive. if alive then add_links p ctx (batch_of local_pod) else pure false)
        (closed.unlinked (set_alive p retry local_pod)
          (set_alive-KeepsLinks p retry calls local_pod))
        (when_alive_guaranteed ctx local_pod))

  after_get_guaranteed :
      (ctx : Context) (query : SetupPodQuery) (found : Outcome Pod)
      → Q Bool (elim found [
        | error e ↦ pure true
        | value local_pod ↦ setup_known p retry ctx query local_pod
      ])
  after_get_guaranteed ctx query (error e) = closed.unlinked (pure true) (λ n. refl)
  after_get_guaranteed ctx query (value local_pod) = setup_known_guaranteed ctx query local_pod

  setup_pod_guaranteed :
      (ctx : Context) (query : SetupPodQuery) → Q Bool (setup_pod p retry ctx query)
  unfolding setup_pod
  setup_pod_guaranteed ctx query =
      closed.chained (attempt (get p (record { name = query.name; kube_ns = query.kube_ns }))) _
        (closed.unlinked _ (
          attempt-KeepsLinks p (get p (record { name = query.name; kube_ns = query.kube_ns }))
            (get-KeepsLinks p (record { name = query.name; kube_ns = query.kube_ns }))))
        (after_get_guaranteed ctx query)

  destroy_known_guaranteed : (found : Pod) → Q Bool (destroy_known p retry found)
  unfolding destroy_known
  destroy_known_guaranteed found =
      let local_pod : Pod = record found { net_ns = ""; src_ip = "" } in
      closed.chained
        (map_error (wrapped "could not set alive status") (set_alive p retry local_pod))
        (λ _. del_links p (batch_of local_pod))
        (closed.unlinked _ (
          map_error-KeepsLinks p (wrapped "could not set alive status")
            (set_alive p retry local_pod) (set_alive-KeepsLinks p retry calls local_pod)))
        (λ _. closed.deleting (batch_of local_pod))

  known_guaranteed :
      (found : Outcome Pod)
      → Q Bool
          (elim found [ error e ↦ pure false | value local_pod ↦ destroy_known p retry local_pod ])
  known_guaranteed (error e) = closed.unlinked (pure false) (λ n. refl)
  known_guaranteed (value local_pod) = destroy_known_guaranteed local_pod

  destroy_pod_guaranteed : (query : PodQuery) → Q Bool (destroy_pod p retry query)
  unfolding destroy_pod
  destroy_pod_guaranteed query =
      closed.chained (unmanage p retry query) _ (closed.unlinked _ (λ n. refl)) (λ _.
        closed.chained
          (map_error (wrapped "could not remove grpc wire") (rem_grpc_wire p (wires_of query)))
          (λ _. attempt (get p query) >>= λ found. elim found [
            | error e ↦ pure false
            | value local_pod ↦ destroy_known p retry local_pod
          ])
          (closed.unlinked _ (
            map_error-KeepsLinks p (wrapped "could not remove grpc wire")
              (rem_grpc_wire p (wires_of query)) (rem_grpc_wire-KeepsLinks p (wires_of query))))
          (λ _.
            closed.chained (attempt (get p query)) _
              (closed.unlinked _ (attempt-KeepsLinks p (get p query) (get-KeepsLinks p query)))
              known_guaranteed))

  answered_guaranteed : {A : Type 0} (m : Call p A) → Q A m → Q (Unit {0}) (answered p m)
  answered_guaranteed m k =
      closed.chained m (λ _. pure tt) k (λ _. closed.unlinked (pure tt) (λ n. refl))

  run_call_guaranteed : (call : Handled) → Q (Unit {0}) (run_call p retry call)
  unfolding run_call
  run_call_guaranteed (added ctx query) = answered_guaranteed _ (closed.adding ctx query)
  run_call_guaranteed (deleted query) = answered_guaranteed _ (closed.deleting query)
  run_call_guaranteed (updated ctx query) = answered_guaranteed _ (closed.updating ctx query)
  run_call_guaranteed (remote ctx pod) = answered_guaranteed _ (closed.remote_updating ctx pod)
  run_call_guaranteed (set_up ctx query) = answered_guaranteed _ (setup_pod_guaranteed ctx query)
  run_call_guaranteed (destroyed query) = answered_guaranteed _ (destroy_pod_guaranteed query)
  run_call_guaranteed (made_alive pod) =
      answered_guaranteed _ (closed.unlinked _ (set_alive-KeepsLinks p retry calls pod))
  run_call_guaranteed (asked query) =
      answered_guaranteed _ (closed.unlinked _ (get-KeepsLinks p query))
  run_call_guaranteed (wire_made wire_def) =
      answered_guaranteed _ (closed.unlinked _ (add_grpc_wire_local-KeepsLinks p wire_def))
  run_call_guaranteed (wire_asked wire_def) =
      answered_guaranteed _ (closed.unlinked _ (add_grpc_wire_remote-KeepsLinks p wire_def))
  run_call_guaranteed (wires_removed wire_def) =
      answered_guaranteed _ (closed.unlinked _ (rem_grpc_wire-KeepsLinks p wire_def))
  run_call_guaranteed (wire_known wire_def) =
      answered_guaranteed _ (closed.unlinked _ (grpc_wire_exists-KeepsLinks p wire_def))
  run_call_guaranteed (name_made pod intf) =
      answered_guaranteed (generate_node_interface_name p pod intf) (
        closed.unlinked (generate_node_interface_name p pod intf)
          (generate_node_interface_name-KeepsLinks p pod intf))
  run_call_guaranteed (frame_sent pkt) =
      answered_guaranteed _ (closed.unlinked _ (send_to_once-KeepsLinks p pkt))

  pub run_calls_guaranteed : (made : List Handled) → Q (Unit {0}) (run_calls p retry made)
  unfolding run_calls
  run_calls_guaranteed [] = closed.unlinked (pure tt) (λ n. refl)
  run_calls_guaranteed (call ∷ made) =
      closed.chained (attempt (run_call p retry call)) (λ _. run_calls p retry made)
        (closed.attempted (run_call p retry call) (run_call_guaranteed call))
        (λ _. run_calls_guaranteed made)
