-- ===== src/Daemon/RemoteUpdate/Bypass.antt =====
-- What the TCP/IP bypass of a daemon changes about its `Update`.
use kube_dtn.Prelude.{
  ◌≡◌, refl, ap, ◌∙◌, String, Bool, Option, none, some, Result, ok, err, panic, and_then,
  error_ignored, Bool-cases, inl, inr, ◌∷◌, ◌>>=◌, ◌==◌, String_eq,
}
use kube_dtn.Prelude.Int.{ℤ}
use kube_dtn.Api.Proto.{RemotePod}
use kube_dtn.Platform.{Platform}
use kube_dtn.Common.Context.{Context}
use kube_dtn.Common.Vni.{get_uid_from_vni}
use kube_dtn.Vxlan.Link.{setup_vxlan, remove_link_with_vni}
use kube_dtn.Vxlan.Manager
use kube_dtn.Daemon.State.{Node, Call, on_world, lock, released, is_held}
use kube_dtn.Daemon.RemoteUpdate.{remote_spec, remove_moved, update_locked, update}

module _ (p : Platform) (bypass : Bool) where
  -- The daemon with the bypass on or off.
  abbrev pub with_bypass : Node p → Node p
  with_bypass n = record n { config = record (n.config) { tcpip_bypass = bypass } }

  abbrev pub switched : {A : Type 0} → Result A × Node p → Result A × Node p
  switched (r, n) = (r, with_bypass n)

  -- A call does the same with the bypass switched.
  abbrev Ignores : {A : Type 0} → Call p A → Type 0
  Ignores m = (n : Node p) → m (with_bypass n) ≡ switched (m n)

  and_then-switched :
      {A B : Type 0} (f : A → Call p B)
      → ((a : A) → Ignores (f a))
      → (r : Result A × Node p) → and_then f (switched r) ≡ switched (and_then f r)
  and_then-switched f h (ok a, n) = h a n
  and_then-switched f h (err e, n) = refl
  and_then-switched f h (panic, n) = refl

  Ignores-bind :
      {A B : Type 0} (m : Call p A) (f : A → Call p B)
      → Ignores m
      → ((a : A) → Ignores (f a))
      → Ignores (m >>= f)
  Ignores-bind m f i h n = ap (and_then f) (i n) ∙ and_then-switched f h (m n)

  error_ignored-switched :
      (r : Result (Unit {0}) × Node p) → error_ignored (switched r) ≡ switched (error_ignored r)
  error_ignored-switched (ok a, n) = refl
  error_ignored-switched (err e, n) = refl
  error_ignored-switched (panic, n) = refl

  remove_moved-Ignores :
      (pod : RemotePod) (netns : Option String) → Ignores (remove_moved p pod netns)
  unfolding remove_moved
  remove_moved-Ignores pod none n = refl
  remove_moved-Ignores pod (some netns) n = elim (Bool-cases (netns == pod.net_ns)) [
    | inl same ↦ rw same refl
    | inr moved ↦
        rw moved (error_ignored-switched (on_world p (remove_link_with_vni p pod.vni netns) n))
  ]

  update_locked-Ignores : (ctx : Context) (pod : RemotePod) → Ignores (update_locked p ctx pod)
  unfolding update_locked remote_spec
  update_locked-Ignores ctx pod n =
      Ignores-bind (remove_moved p pod (Manager.get pod.vni n.vxlan_manager)) _
        (remove_moved-Ignores pod (Manager.get pod.vni n.vxlan_manager))
        (λ _.
          Ignores-bind (on_world p (setup_vxlan p ctx (remote_spec p n.config pod) pod.properties))
            _ (λ k. refl) (λ _ k. refl))
        n

  released-switched :
      {A : Type 0} (uid : ℤ) (r : Result A × Node p)
      → released p uid (switched r) ≡ switched (released p uid r)
  released-switched uid (r, n) = refl

  -- Update does the same whether or not the daemon bypasses TCP/IP: the same answer, and the same
  -- state but for the setting itself.
  pub update-switched :
      (ctx : Context) (pod : RemotePod) (n : Node p)
      → update p ctx pod (with_bypass n) ≡ switched (update p ctx pod n)
  unfolding update lock
  update-switched ctx pod n =
      let uid = get_uid_from_vni pod.vni in
      elim (Bool-cases (is_held p uid n.locked)) [
        | inl held ↦ rw held refl
        | inr free ↦ rw free (
            ap (released p uid)
              (update_locked-Ignores ctx pod (record n { locked = uid ∷ n.locked })))
      ]
