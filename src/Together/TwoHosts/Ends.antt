-- ===== src/Together/TwoHosts/Ends.antt =====
-- The two ends of a link between hosts.
use kube_dtn.Prelude.{
  ◌≡◌, refl, ap, sym, ◌∙◌, Bool, Result, ok, err, panic, Outcome, outcome_of, and_then, of_outcome,
  Bool-cases, inl, inr, String, ◌==◌, String_eq, eq_iff, ◌∷◌, ◌>>◌,
}
use kube_dtn.Prelude.Int.{ℤ}
use kube_dtn.Prelude.Laws.{bind-eq-ok}
use kube_dtn.Platform.{Platform, Do}
use kube_dtn.Api.Proto.{Pod, PbLink, RemotePod}
use kube_dtn.Common.Context.{Context, background}
use kube_dtn.Common.Vni.{get_uid_from_vni}
use kube_dtn.Common.Remote.{update_remote, remote_payload, daemon_url}
use kube_dtn.Vxlan.Link.{VxlanSpec, setup_vxlan}
use kube_dtn.Vxlan.Manager
use kube_dtn.Daemon.State.{Node, on_world, lock, unlock, released, is_held, without, observe}
use kube_dtn.Daemon.RemoteUpdate.{update, update_locked, remote_spec, remove_moved}
use kube_dtn.Daemon.AddLink.{peer_spec, add_vxlan, add_other_host}
use kube_dtn.Together.TwoHosts.{Beside, beside, daemon_at, peers}

-- Each end has the other host's address, the VNI is one, and the interfaces are those of the link.
pub record AreEnds (local_pod peer_pod : Pod) (link : PbLink) (a b : VxlanSpec) : Type 0 where
  pub same_vni : a.vni ≡ b.vni
  pub to_peer : a.peer_vtep ≡ peer_pod.src_ip
  pub to_local : b.peer_vtep ≡ local_pod.src_ip
  pub local_ns : a.net_ns ≡ local_pod.net_ns
  pub peer_ns : b.net_ns ≡ peer_pod.net_ns
  pub local_intf : a.intf_name ≡ link.local_intf
  pub peer_intf : b.intf_name ≡ link.peer_intf

module _ (p : Platform) where
  -- A VXLAN device is set up so, from one state of the world to another.
  abbrev pub SetUp : (q : Platform) → Context → VxlanSpec → PbLink → q.World → q.World → Type 0
  SetUp q ctx spec link w w' = setup_vxlan q ctx spec link.properties w ≡ (ok tt, w')

  on_world-ok :
      {q : Platform} {A : Type 0} (m : Do q A) (n : Node q) {a : A} {n' : Node q}
      → on_world q m n ≡ (ok a, n')
      → m n.world ≡ (ok a, n'.world)
  on_world-ok m n e = ap (λ r. (r.0, r.1.world)) e

  add_vxlan-SetUp :
      (q : Platform) (ctx : Context) (local_pod peer_pod : Pod) (link : PbLink) (n n' : Node q)
      → add_vxlan q ctx local_pod peer_pod link n ≡ (ok tt, n')
      → SetUp q ctx (peer_spec q n.config local_pod peer_pod link) link n.world n'.world
  unfolding add_vxlan
  add_vxlan-SetUp q ctx local_pod peer_pod link n n' e =
      let spec = peer_spec q n.config local_pod peer_pod link in
      let (_, n₁, made, rest) =
        bind-eq-ok (on_world q (setup_vxlan q ctx spec link.properties)) _ n e in
      on_world-ok (setup_vxlan q ctx spec link.properties) n made
      ∙ ap (λ r. (ok tt, r.1.world)) rest

  -- The peer's `Update`, when it succeeds.
  released-ok :
      (uid : ℤ) (r : Result Bool × Node p) {b : Bool} {m : Node p}
      → released p uid r ≡ (ok b, m)
      → (k : Node p) × (r ≡ (ok b, k)) × (k.world ≡ m.world)
  released-ok uid (ok c, k) e = (k, cc, ap (λ r. r.1.world) e)
  released-ok uid (err x, k) e = absurd (cc)
  released-ok uid (panic, k) e = absurd (cc)

  -- The peer's daemon with the link's mutex, after a device of the VNI elsewhere was removed.
  abbrev pub cleared : RemotePod → Node p → Node p
  cleared pod n =
      (remove_moved p pod (Manager.get pod.vni n.vxlan_manager)
        (record n { locked = get_uid_from_vni pod.vni ∷ n.locked })).1

  update_locked-SetUp :
      (pod : RemotePod) (link : PbLink) (n m : Node p) (b : Bool)
      → pod.properties ≡ link.properties
      → update_locked p background pod n ≡ (ok b, m)
      → SetUp p background
          (remote_spec p n.config pod)
          link
          (remove_moved p pod (Manager.get pod.vni n.vxlan_manager) n).1.world
          m.world
  unfolding update_locked
  update_locked-SetUp pod link n m b same e =
      let spec = remote_spec p n.config pod in
      let (_, n₁, removed, rest) =
        bind-eq-ok (remove_moved p pod (Manager.get pod.vni n.vxlan_manager)) _ n e in
      let (_, n₂, made, ended) =
        bind-eq-ok (on_world p (setup_vxlan p background spec pod.properties)) _ n₁ rest in
      let run = on_world-ok (setup_vxlan p background spec pod.properties) n₁ made in
      let begun : n₁.world ≡ _ = sym (ap (λ r. r.1.world) removed) in
      let left : n₂.world ≡ m.world = ap (λ r. r.1.world) ended in
      rw (← same, ← begun) (run ∙ ap (λ w. (ok tt, w)) left)

  update-SetUp :
      (pod : RemotePod) (link : PbLink) (n m : Node p) (b : Bool)
      → pod.properties ≡ link.properties
      → update p background pod n ≡ (ok b, m)
      → SetUp p background (remote_spec p n.config pod) link (cleared pod n).world m.world
  unfolding update lock
  update-SetUp pod link n m b same e =
      let uid = get_uid_from_vni pod.vni in
      elim (Bool-cases (is_held p uid n.locked)) [
        | inl held ↦ absurd (cc (rw held at e))
        | inr free ↦
            let start : Node p = record n { locked = uid ∷ n.locked } in
            let (k, ran, there) =
              released-ok uid (update_locked p background pod start) (rw free at e) in
            update_locked-SetUp pod link start k b same ran ∙ ap (λ w. (ok tt, w)) there
      ]

  module _ (peer_ip : String) (ctx : Context) (local_pod peer_pod : Pod) (link : PbLink) where
    abbrev q : Platform
    q = beside p peer_ip

    abbrev payload : RemotePod
    payload = remote_payload local_pod peer_pod link

    -- A daemon that answers is the peer's.
    answered_at :
        (address : String) (w w' : Beside p) (b : Bool)
        → q.remote_update address payload w ≡ (ok b, w')
        → (address ≡ daemon_at p peer_ip) × (peers p (update p background payload) w ≡ (ok b, w'))
    answered_at address w w' b e = elim (Bool-cases (address == daemon_at p peer_ip)) [
      | inl same ↦ ((eq_iff address (daemon_at p peer_ip)).0 same, rw same at e)
      | inr other ↦ absurd (cc (rw other at e))
    ]

    -- The peer pod's daemon was called, and it succeeded.
    update_remote-ok :
        (w w' : Beside p)
        → update_remote q local_pod peer_pod link w ≡ (ok tt, w')
        → (w₁ : Beside p) × (b : Bool) × (q.dial (daemon_at p peer_pod.src_ip) w ≡ (ok tt, w₁))
          × (daemon_at p peer_pod.src_ip ≡ daemon_at p peer_ip)
          × (update p background payload (w₁.1) ≡ (ok b, w'.1))
    unfolding update_remote
    update_remote-ok w w' e =
        let (_, w₁, dialled, rest) = bind-eq-ok (q.dial (daemon_url peer_pod.src_ip)) _ w e in
        let (b, w₂, asked, ended) =
          bind-eq-ok (q.remote_update (daemon_url peer_pod.src_ip) payload) _ w₁ rest in
        let (same, ran) = answered_at (daemon_url peer_pod.src_ip) w₁ w₂ b asked in
        (w₁, b, dialled, same, ap (λ r. (r.0, r.1.1)) ran ∙ ap (λ r. (ok b, r.1.1)) ended)

    -- After the device was made, or not.
    after_device :
        (r : Result (Unit {0}) × Node q) (n' : Node q)
        → and_then
            (λ (made : Outcome (Unit {0})).
              unlock q link.uid
              >> (of_outcome made
                  >> (on_world q (update_remote q local_pod peer_pod link) >> observe q "add")))
            (outcome_of r)
          ≡ (ok tt, n')
        → (m : Node q) × (r ≡ (ok tt, m))
          × ((on_world q (update_remote q local_pod peer_pod link) >> observe q "add")
                (record m { locked = without q link.uid m.locked })
              ≡ (ok tt, n'))
    unfolding unlock
    after_device (ok a, m) n' e = (m, refl, e)
    after_device (err x, m) n' e = absurd (cc)
    after_device (panic, m) n' e = absurd (cc)

    -- Two devices, from a state of the two hosts to another: ours is made first; then the daemon at the
    -- peer pod's address is dialled, which is the peer's; and the peer's is what its daemon does
    -- last to its world.
    pub record BothSetUp (w w' : Beside p) : Type 0 where
      pub our_spec : VxlanSpec
      pub their_spec : VxlanSpec
      pub made : Beside p
      pub dialled : Beside p
      pub ours : SetUp q ctx our_spec link w made
      pub dial : q.dial (daemon_at p peer_pod.src_ip) made ≡ (ok tt, dialled)
      pub reached : daemon_at p peer_pod.src_ip ≡ daemon_at p peer_ip
      pub theirs : SetUp p background their_spec link (cleared payload (dialled.1)).world w'.1.world
      pub ends : AreEnds local_pod peer_pod link our_spec their_spec

    -- From the lock on.
    made_ends :
        (m n' : Node q)
        → and_then
            (λ (made : Outcome (Unit {0})).
              unlock q link.uid
              >> (of_outcome made
                  >> (on_world q (update_remote q local_pod peer_pod link) >> observe q "add")))
            (outcome_of (add_vxlan q ctx local_pod peer_pod link m))
          ≡ (ok tt, n')
        → BothSetUp m.world n'.world
    unfolding peer_spec remote_spec remote_payload
    made_ends m n' e =
        let (m₁, added, rest) = after_device (add_vxlan q ctx local_pod peer_pod link m) n' e in
        let k : Node q = record m₁ { locked = without q link.uid m₁.locked } in
        let (_, k₁, asked, ended) =
          bind-eq-ok (on_world q (update_remote q local_pod peer_pod link)) _ k rest in
        let (w₁, b, dialled, same, updated) =
          update_remote-ok k.world k₁.world
            (on_world-ok (update_remote q local_pod peer_pod link) k asked) in
        let last : k₁.world ≡ n'.world = ap (λ r. r.1.world) ended in
        record {
          our_spec = peer_spec q m.config local_pod peer_pod link;
          their_spec = remote_spec p (w₁.1).config payload;
          made = m₁.world;
          dialled = w₁;
          ours = add_vxlan-SetUp q ctx local_pod peer_pod link m m₁ added;
          dial = dialled;
          reached = same;
          theirs =
              update-SetUp payload link (w₁.1) (k₁.world.1) b refl updated
              ∙ ap (λ w. (ok tt, w.1.world)) last;
          ends = record {
            same_vni = refl;
            to_peer = refl;
            to_local = refl;
            local_ns = refl;
            peer_ns = refl;
            local_intf = refl;
            peer_intf = refl;
          };
        }

    -- If addLink for a pod on another host succeeds, then both daemons have set up a VXLAN device:
    -- ours from the state in which the call began, then, through the address of the peer pod, the
    -- peer's, up to the state in which the call ends. The two have the same VNI, each the address of
    -- the other host, and each the namespace and the interface of its pod. No other daemon answers.
    pub add_other_host-AreEnds :
        (n n' : Node q)
        → add_other_host q ctx local_pod peer_pod link n ≡ (ok tt, n')
        → BothSetUp n.world n'.world
    unfolding add_other_host lock
    add_other_host-AreEnds n n' e = elim (Bool-cases (is_held q link.uid n.locked)) [
      | inl held ↦ absurd (cc (rw held at e))
      | inr free ↦ made_ends (record n { locked = link.uid ∷ n.locked }) n' (rw free at e)
    ]
