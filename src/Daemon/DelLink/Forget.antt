-- ===== src/Daemon/DelLink/Forget.antt =====
-- What a deletion does to the map of VNIs.
use kube_dtn.Prelude.{
  ◌≡◌, ◌∙◌, String, Bool, false, Option, none, some, if◌then◌else◌, Bool-cases, inl, inr, ◌==◌,
  String_eq, arith, ◌&&◌,
}
use kube_dtn.Prelude.Int.{ℤ, ℤ_eq}
use kube_dtn.Api.Proto.{Pod}
use kube_dtn.Vxlan.Manager
use kube_dtn.Vxlan.Manager.{VxlanManager}
use kube_dtn.Vxlan.Aliasing.{get-delete_vni}
use kube_dtn.Daemon.DelLink.{forget_known, forget_vni}

-- the VNI's link is in the pod's namespace
abbrev pub is_in_pod : Pod → Option String → Bool
is_in_pod pod none = false
is_in_pod pod (some netns) = netns == pod.net_ns

get-forget_known :
    (pod : Pod) (vni v : ℤ) (known : Option String) (m : VxlanManager)
    → Manager.get v (forget_known pod vni known m)
      ≡ (if vni == v && is_in_pod pod known then none else Manager.get v m)
unfolding forget_known
get-forget_known pod vni v none m = ground arith
get-forget_known pod vni v (some netns) m = elim (Bool-cases (netns == pod.net_ns)) [
  | inl same ↦ rw same (get-delete_vni vni v m ∙ ground arith)
  | inr other ↦ rw other (ground arith)
]

-- Deleting a link forgets its VNI exactly if the VNI's link is known to be in the pod's
-- namespace. All other VNIs keep what is known of them.
pub get-forget_vni :
    (pod : Pod) (vni v : ℤ) (m : VxlanManager)
    → Manager.get v (forget_vni pod vni m)
      ≡ (if vni == v && is_in_pod pod (Manager.get vni m) then none else Manager.get v m)
unfolding forget_vni
get-forget_vni pod vni v m = get-forget_known pod vni v (Manager.get vni m) m
