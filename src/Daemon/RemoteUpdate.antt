-- ===== src/Daemon/RemoteUpdate.antt =====
-- `Update` (daemon/kubedtn/handler.go): set up our side of a link for another daemon or host.
pub mod Known
pub mod Bypass
use kube_dtn.Prelude.{
  String, Bool, true, not, Option, none, some, ok, pure, ignore, ◌>>◌, ◌==◌, String_eq,
  if◌then◌else◌,
}
use kube_dtn.Prelude.Int.{ℤ}
use kube_dtn.Api.Proto.{RemotePod}
use kube_dtn.Platform.{Platform}
use kube_dtn.Common.Context.{Context}
use kube_dtn.Common.Vni.{get_uid_from_vni}
use kube_dtn.Vxlan.Link.{VxlanSpec, setup_vxlan, remove_link_with_vni}
use kube_dtn.Vxlan.Manager
use kube_dtn.Vxlan.Manager.{VxlanManager}
use kube_dtn.Daemon.State.{Config, Call, on_world, with_lock, observe}

module _ (p : Platform) where
  unfoldable pub remote_spec : Config → RemotePod → VxlanSpec
  remote_spec config pod = record {
    net_ns = pod.net_ns;
    intf_name = pod.intf_name;
    intf_ip = pod.intf_ip;
    peer_vtep = pod.peer_vtep;
    vni = pod.vni;
    src_ip = config.node_ip;
    src_intf = config.vxlan_intf;
  }

  -- `m.vxlanManager.Add(vni, &netns)`
  abbrev pub add_vni : ℤ → String → Call p (Unit {0})
  add_vni vni netns n =
      (ok tt, record n { vxlan_manager = Manager.add_text vni netns n.vxlan_manager })

  -- A link with this VNI in another namespace is removed; an error is only logged.
  unfoldable pub remove_moved : RemotePod → Option String → Call p (Unit {0})
  unfolding remove_link_with_vni
  remove_moved pod none = pure tt
  remove_moved pod (some netns) =
      if not (netns == pod.net_ns)
      then ignore (on_world p (remove_link_with_vni p pod.vni netns))
      else pure tt

  -- What is done while the link's mutex is held.
  unfoldable pub update_locked : Context → RemotePod → Call p Bool
  unfolding remove_moved remote_spec setup_vxlan Manager.add_text Manager.get
  update_locked ctx pod n =
      (do
        remove_moved pod (Manager.get pod.vni n.vxlan_manager)
        on_world p (setup_vxlan p ctx (remote_spec n.config pod) pod.properties)
        add_vni pod.vni pod.net_ns
        observe p "remoteUpdate"
        pure true)
        n

  unfoldable pub update : Context → RemotePod → Call p Bool
  unfolding update_locked get_uid_from_vni
  update ctx pod = with_lock p (get_uid_from_vni pod.vni) (update_locked ctx pod)
