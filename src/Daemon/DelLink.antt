-- ===== src/Daemon/DelLink.antt =====
-- `delLink` (daemon/kubedtn/handler.go).
pub mod Forget
use kube_dtn.Prelude.{
  ℕ, String, Option, none, some, Action, ok, pure, ignore, ◌>>=◌, ◌>>◌, ◌==◌, String_eq,
  if◌then◌else◌,
}
use kube_dtn.Prelude.Int.{ℤ}
use kube_dtn.Api.Proto.{Pod, PbLink}
use kube_dtn.Platform.{Platform}
use kube_dtn.Common.Vni.{get_vni_from_uid}
use kube_dtn.Common.Veth.{make_veth}
use kube_dtn.Vxlan.Manager
use kube_dtn.Vxlan.Manager.{VxlanManager}
use kube_dtn.Daemon.State.{Node, Call, on_world, observe}

-- The VNI is forgotten if its link was in the pod's namespace.
unfoldable pub forget_known : Pod → ℤ → Option String → VxlanManager → VxlanManager
unfolding Manager.delete_vni
forget_known local_pod vni none m = m
forget_known local_pod vni (some netns) m =
    if netns == local_pod.net_ns then Manager.delete_vni vni m else m

unfoldable pub forget_vni : Pod → ℤ → VxlanManager → VxlanManager
unfolding Manager.get forget_known
forget_vni local_pod vni m = forget_known local_pod vni (Manager.get vni m) m

module _ (p : Platform) where
  abbrev pub forget : Pod → ℤ → Call p (Unit {0})
  forget local_pod vni n =
      (ok tt, record n { vxlan_manager = forget_vni local_pod vni n.vxlan_manager })

  -- An error of the removal is only logged.
  unfoldable pub del_link : Pod → PbLink → Call p (Unit {0})
  unfolding make_veth get_vni_from_uid forget_vni
  del_link local_pod link = do
    my_veth ← on_world p (make_veth p local_pod.net_ns link.local_intf link.local_ip link.local_mac)
    ignore (on_world p (p.remove_veth_link my_veth))
    forget local_pod (get_vni_from_uid link.uid)
    observe p "del"
