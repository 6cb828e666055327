-- ===== src/Daemon/Batches.antt =====
-- `AddLinks`, `DelLinks` and `UpdateLinks` (daemon/kubedtn/handler.go). A response of false comes
-- with an error only, so an error stands for both.
pub mod Locks
use kube_dtn.Prelude.{Bool, true, List, [], ◌∷◌, pure, of_result, ◌>>=◌, ◌>>◌}
use kube_dtn.Api.Proto.{Pod, PbLink, LinksBatchQuery}
use kube_dtn.Platform.{Platform}
use kube_dtn.Common.Context.{Context}
use kube_dtn.Common.Veth.{make_veth}
use kube_dtn.Common.Qdisc.Make.{make_qdiscs}
use kube_dtn.Common.Qdisc.Apply.{set_veth_qdiscs}
use kube_dtn.Daemon.State.{Call, on_world, observe}
use kube_dtn.Daemon.AddLink.{add_link, link_context}
use kube_dtn.Daemon.DelLink.{del_link}

module _ (p : Platform) where
  -- A loop over links that ends at the first error.
  unfoldable pub each_link : (PbLink → Call p (Unit {0})) → List PbLink → Call p (Unit {0})
  each_link f [] = pure tt
  each_link f (link ∷ links) = f link >> each_link f links

  unfoldable pub add_links : Context → LinksBatchQuery → Call p Bool
  unfolding each_link add_link
  add_links ctx query = do each_link (add_link p ctx query.local_pod) query.links; pure true

  unfoldable pub del_links : LinksBatchQuery → Call p Bool
  unfolding each_link del_link
  del_links query = do each_link (del_link p query.local_pod) query.links; pure true

  unfoldable pub update_link : Context → Pod → PbLink → Call p (Unit {0})
  unfolding make_veth make_qdiscs set_veth_qdiscs
  update_link ctx local_pod link = do
    my_veth ← on_world p (make_veth p local_pod.net_ns link.local_intf link.local_ip link.local_mac)
    qdiscs ← of_result (make_qdiscs p link.properties)
    on_world p (set_veth_qdiscs p ctx my_veth qdiscs)
    observe p "update"

  unfoldable pub update_links : Context → LinksBatchQuery → Call p Bool
  unfolding each_link update_link
  update_links ctx query n =
      (do each_link (update_link (link_context p ctx n) query.local_pod) query.links; pure true) n
