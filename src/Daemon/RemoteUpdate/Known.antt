-- ===== src/Daemon/RemoteUpdate/Known.antt =====
-- What the daemon knows after an update.
use kube_dtn.Prelude.{
  ◌≡◌, refl, ap, ◌∙◌, sym, String, Bool, Option, none, some, Result, ok, err, panic, Bool-cases,
  not, String_eq, ◌∷◌, inl, inr, ◌==◌, if◌then◌else◌,
}
use kube_dtn.Prelude.Int.{ℤ, ℤ_eq}
use kube_dtn.Prelude.Laws.{bind-eq-ok, Keeps-ignore, Keeps}
use kube_dtn.Api.Proto.{RemotePod}
use kube_dtn.Platform.{Platform}
use kube_dtn.Common.Context.{Context}
use kube_dtn.Common.Vni.{get_uid_from_vni}
use kube_dtn.Vxlan.Link.{setup_vxlan, remove_link_with_vni}
use kube_dtn.Vxlan.Manager
use kube_dtn.Vxlan.Manager.{VxlanManager}
use kube_dtn.Vxlan.Aliasing.{get-add_text}
use kube_dtn.Daemon.State.{Node, on_world, lock, released, is_held}
use kube_dtn.Daemon.RemoteUpdate.{remote_spec, remove_moved, update_locked, update}

module _ (p : Platform) where
  abbrev known : Node p → VxlanManager
  known n = n.vxlan_manager

  remove_moved-Keeps :
      (pod : RemotePod) (netns : Option String) → Keeps known (remove_moved p pod netns)
  unfolding remove_moved
  remove_moved-Keeps pod none n = refl
  remove_moved-Keeps pod (some netns) n = elim (Bool-cases (not (netns == pod.net_ns))) [
    | inl moved ↦
        rw moved
          (Keeps-ignore known (on_world p (remove_link_with_vni p pod.vni netns)) (λ k. refl) n)
    | inr there ↦ rw there refl
  ]

  -- A successful call leaves the manager with the VNI added, and nothing else changed in it.
  update_locked-known :
      (ctx : Context) (pod : RemotePod) (n m : Node p) (b : Bool)
      → update_locked p ctx pod n ≡ (ok b, m)
      → m.vxlan_manager ≡ Manager.add_text pod.vni pod.net_ns n.vxlan_manager
  unfolding update_locked
  update_locked-known ctx pod n m b done =
      let netns = Manager.get pod.vni n.vxlan_manager in
      let (_, n₁, removed, rest) = bind-eq-ok (remove_moved p pod netns) _ n done in
      let (_, n₂, made, ended) =
        bind-eq-ok (on_world p (setup_vxlan p ctx (remote_spec p n.config pod) pod.properties)) _ n₁
          rest in
      let same₁ : known n₁ ≡ known n =
        ap (λ (r : Result (Unit {0}) × Node p). known r.1) (sym removed)
        ∙ remove_moved-Keeps pod netns n in
      let same₂ : known n₂ ≡ known n₁ =
        ap (λ (r : Result (Unit {0}) × Node p). known r.1) (sym made) in
      ap (λ (r : Result Bool × Node p). known r.1) (sym ended)
      ∙ ap (Manager.add_text pod.vni pod.net_ns) (same₂ ∙ same₁)

  released-known :
      (uid : ℤ) (r : Result Bool × Node p) {b : Bool} {m : Node p}
      → released p uid r ≡ (ok b, m)
      → (k : Node p) × (r ≡ (ok b, k)) × (known m ≡ known k)
  released-known uid (ok c, k) e = (k, cc, ap (λ (r : Result Bool × Node p). known r.1) (sym e))
  released-known uid (err x, k) e = absurd (cc)
  released-known uid (panic, k) e = absurd (cc)

  -- After a successful `Update` the VNI has the namespace of the query, and all other VNIs the one
  -- they had, if the manager was well-formed.
  pub get-update :
      (ctx : Context) (pod : RemotePod) (n m : Node p) (b : Bool) (v : ℤ)
      → Manager.IsValid n.vxlan_manager
      → update p ctx pod n ≡ (ok b, m)
      → Manager.get v m.vxlan_manager
        ≡ (if pod.vni == v then some pod.net_ns else Manager.get v n.vxlan_manager)
  unfolding update lock
  get-update ctx pod n m b v valid done =
      let uid = get_uid_from_vni pod.vni in
      elim (Bool-cases (is_held p uid n.locked)) [
        | inl held ↦ absurd (cc (rw held at done))
        | inr free ↦
            let start : Node p = record n { locked = uid ∷ n.locked } in
            let (k, ran, same) =
              released-known uid (update_locked p ctx pod start) (rw free at done) in
            ap (Manager.get v) (same ∙ update_locked-known ctx pod start k b ran)
            ∙ get-add_text pod.vni v pod.net_ns n.vxlan_manager valid
      ]
