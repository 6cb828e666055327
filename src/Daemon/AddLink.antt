-- ===== src/Daemon/AddLink.antt =====
-- `addLink` (daemon/kubedtn/handler.go).
pub mod Locks
use kube_dtn.Prelude.{
  ℕ, String, Bool, true, false, not, ◌&&◌, Option, none, some, List, Action, Outcome, ok, err,
  panic, pure, of_outcome, attempt, ◌>>=◌, ◌>>◌, ◌==◌, String_eq, if◌then◌else◌,
}
use kube_dtn.Prelude.Int.{ℤ}
use kube_dtn.Prelude.Text.{after_prefix}
use kube_dtn.Api.Proto.{Pod, PbLink, RemotePod}
use kube_dtn.Platform.{Platform, Veth}
use kube_dtn.Common.Context.{Context, with_ctx_value, tcpip_bypass_key}
use kube_dtn.Common.Vni.{get_vni_from_uid}
use kube_dtn.Common.Veth.{make_veth, setup_veth}
use kube_dtn.Common.Remote.{update_remote}
use kube_dtn.Vxlan.Link.{VxlanSpec, setup_vxlan}
use kube_dtn.Vxlan.Manager
use kube_dtn.Daemon.State.{Config, Node, Call, on_world, with_lock, lock, unlock, observe}
use kube_dtn.Daemon.Topologies.{get_pod, deref, to_proto_pod}
use kube_dtn.Daemon.Alive.{is_alive}
use kube_dtn.Daemon.RemoteUpdate.{update, add_vni}

abbrev pub localhost : String
localhost = "localhost"

abbrev pub physical_prefix : String
physical_prefix = "physical/"

module _ (p : Platform) where
  -- The query to ourselves on behalf of a physical host.
  unfoldable pub physical_payload : Pod → PbLink → String → RemotePod
  unfolding get_vni_from_uid
  physical_payload local_pod link src_ip = record {
    net_ns = local_pod.net_ns;
    intf_name = link.local_intf;
    intf_ip = link.local_ip;
    peer_vtep = src_ip;
    kube_ns = local_pod.kube_ns;
    vni = get_vni_from_uid link.uid;
    properties = link.properties;
    name = link.peer_pod;
  }

  unfoldable pub peer_spec : Config → Pod → Pod → PbLink → VxlanSpec
  unfolding get_vni_from_uid
  peer_spec config local_pod peer_pod link = record {
    net_ns = local_pod.net_ns;
    intf_name = link.local_intf;
    intf_ip = link.local_ip;
    peer_vtep = peer_pod.src_ip;
    vni = get_vni_from_uid link.uid;
    src_ip = config.node_ip;
    src_intf = config.vxlan_intf;
  }

  -- Both pods on this host: a veth pair. The mutex is held up to the end.
  unfoldable pub add_same_host : Context → Pod → Pod → PbLink → Veth p → Call p (Unit {0})
  unfolding make_veth setup_veth
  add_same_host ctx local_pod peer_pod link my_veth = do
    peer_veth ← on_world p (make_veth p peer_pod.net_ns link.peer_intf link.peer_ip link.peer_mac)
    with_lock p link.uid
        (do on_world p (setup_veth p ctx my_veth peer_veth link.properties); observe p "add")

  -- A VXLAN device of ours. On its failure the mutex is given back too.
  unfoldable pub add_vxlan : Context → Pod → Pod → PbLink → Call p (Unit {0})
  unfolding peer_spec setup_vxlan
  add_vxlan ctx local_pod peer_pod link n =
      (do
        on_world p (setup_vxlan p ctx (peer_spec n.config local_pod peer_pod link) link.properties)
        add_vni p (get_vni_from_uid link.uid) local_pod.net_ns)
        n

  -- The pods on two hosts: the mutex is given back before the peer's daemon is called.
  unfoldable pub add_other_host : Context → Pod → Pod → PbLink → Call p (Unit {0})
  unfolding add_vxlan lock unlock update_remote
  add_other_host ctx local_pod peer_pod link = do
    lock p link.uid
    made ← attempt (add_vxlan ctx local_pod peer_pod link)
    unlock p link.uid
    of_outcome made
    on_world p (update_remote p local_pod peer_pod link)
    observe p "add"

  -- A link to a pod: by whether it is up, and on which host.
  unfoldable pub add_to_peer : Context → Pod → PbLink → Veth p → Pod → Call p (Unit {0})
  unfolding add_same_host add_other_host
  add_to_peer ctx local_pod link my_veth peer_pod =
      if not (is_alive peer_pod)
      then pure tt
      else if peer_pod.src_ip == local_pod.src_ip
      then add_same_host ctx local_pod peer_pod link my_veth
      else add_other_host ctx local_pod peer_pod link

  -- A link between two pods.
  unfoldable pub add_virtual : Context → Pod → PbLink → Veth p → Call p (Unit {0})
  unfolding get_pod to_proto_pod add_to_peer
  add_virtual ctx local_pod link my_veth = do
    pointer ← get_pod p link.peer_pod local_pod.kube_ns
    peer_topology ← deref p pointer
    peer_pod ← to_proto_pod p peer_topology
    add_to_peer ctx local_pod link my_veth peer_pod

  -- The context's bypass flag is set from the configuration.
  abbrev pub link_context : Context → Node p → Context
  link_context ctx n = with_ctx_value ctx tcpip_bypass_key n.config.tcpip_bypass

  -- By the kind of the peer, of which the text after "physical/" is given: a physical host or a pod.
  unfoldable pub add_by_prefix : Context → Pod → PbLink → Veth p → Option String → Call p (Unit {0})
  unfolding physical_payload update add_virtual
  add_by_prefix ctx local_pod link my_veth (some src_ip) = do
    response ← update p ctx (physical_payload local_pod link src_ip)
    pure tt
  add_by_prefix ctx local_pod link my_veth none = add_virtual ctx local_pod link my_veth

  -- A macvlan parent, or one of these.
  unfoldable pub add_by_peer : Context → Pod → PbLink → Veth p → Call p (Unit {0})
  unfolding add_by_prefix
  add_by_peer ctx local_pod link my_veth =
      if link.peer_pod == localhost
      then on_world p (p.make_macvlan my_veth link.peer_intf)
      else add_by_prefix ctx local_pod link my_veth (after_prefix physical_prefix link.peer_pod)

  unfoldable pub add_link : Context → Pod → PbLink → Call p (Unit {0})
  unfolding make_veth add_by_peer with_ctx_value
  add_link ctx local_pod link n =
      (on_world p (make_veth p local_pod.net_ns link.local_intf link.local_ip link.local_mac)
          >>= add_by_peer (link_context ctx n) local_pod link)
        n
