-- ===== src/Daemon/AddLink/Locks.antt =====
-- The link mutexes: every call gives back what it took.
use kube_dtn.Prelude.{
  ℕ, ◌≡◌, ◌≢◌, refl, ap, ◌∙◌, String, Option, none, some, List, ◌∷◌, Result, ok, err, panic,
  and_then, ◌>>=◌, ◌>>◌, outcome_of, of_outcome, Outcome, value, error, Bool-cases, Option-cases,
  inl, inr, ◌==◌, String_eq, not, pure,
}
use kube_dtn.Prelude.Int.{ℤ, ℤ_eq}
use kube_dtn.Prelude.{test_refl}
use kube_dtn.Prelude.Laws.{KeepsCalm, KeepsCalm-bind, Keeps-bind, Keeps-ignore}
use kube_dtn.Prelude.Text.{after_prefix}
use kube_dtn.Platform.{Platform, Veth}
use kube_dtn.Api.Proto.{Pod, PbLink, RemotePod}
use kube_dtn.Common.Context.{Context}
use kube_dtn.Daemon.State.{Node, Call, on_world, with_lock, lock, unlock, without, is_held, observe}
use kube_dtn.Api.{Topology}
use kube_dtn.Prelude.Maps.{lookup}
use kube_dtn.Metrics.TopologyManager.{topology_key}
use kube_dtn.Common.Vni.{get_uid_from_vni}
use kube_dtn.Common.Veth.{make_veth, setup_veth}
use kube_dtn.Common.Remote.{update_remote}
use kube_dtn.Vxlan.Link.{setup_vxlan, remove_link_with_vni}
use kube_dtn.Vxlan.Manager
use kube_dtn.Daemon.Topologies.{get_pod, deref, to_proto_pod, alloc_object, default_ns, from_cache}
use kube_dtn.Daemon.Alive.{is_alive}
use kube_dtn.Daemon.RemoteUpdate.{update, update_locked, remove_moved, remote_spec}
use kube_dtn.Daemon.AddLink.{
  add_same_host, add_vxlan, add_other_host, add_to_peer, add_virtual, add_by_prefix, add_by_peer,
  add_link, link_context, physical_payload, localhost, physical_prefix, peer_spec,
}

module _ (p : Platform) where
  abbrev view : Node p → List ℤ
  view n = n.locked

  abbrev pub KeepsLocks : {A : Type 0} → Call p A → Type 0
  KeepsLocks m = (n : Node p) → (m n).1.locked ≡ n.locked

  without-cons : (uid : ℤ) (us : List ℤ) → without p uid (uid ∷ us) ≡ us
  without-cons uid us = rw (test_refl uid)

  -- A call under a lock gives the lock back, if the call inside gives back what it takes.
  with_lock-KeepsLocks :
      {A : Type 0} (uid : ℤ) (m : Call p A) → KeepsLocks m → KeepsLocks (with_lock p uid m)
  unfolding lock
  with_lock-KeepsLocks uid m h n = elim (Bool-cases (is_held p uid n.locked)) [
    | inl held ↦ rw held
    | inr free ↦
        rw free (
          ap (without p uid) (h (record n { locked = uid ∷ n.locked })) ∙ without-cons uid n.locked)
  ]

  remove_moved-KeepsLocks :
      (pod : RemotePod) (netns : Option String) → KeepsLocks (remove_moved p pod netns)
  unfolding remove_moved
  remove_moved-KeepsLocks pod none n = refl
  remove_moved-KeepsLocks pod (some netns) n = elim (Bool-cases (netns == pod.net_ns)) [
    | inl same ↦ rw same
    | inr moved ↦
        rw moved
          (Keeps-ignore view (on_world p (remove_link_with_vni p pod.vni netns)) (λ k. refl) n)
  ]

  update_locked-KeepsLocks :
      (ctx : Context) (pod : RemotePod) → KeepsLocks (update_locked p ctx pod)
  unfolding update_locked
  update_locked-KeepsLocks ctx pod n =
      Keeps-bind view (remove_moved p pod (Manager.get pod.vni n.vxlan_manager)) _
        (remove_moved-KeepsLocks pod _)
        (λ _.
          Keeps-bind view
            (on_world p (setup_vxlan p ctx (remote_spec p n.config pod) pod.properties)) _
            (λ k. refl) (λ _ k. refl))
        n

  -- `Update` gives back the link's mutex, however it ends.
  pub update-KeepsLocks : (ctx : Context) (pod : RemotePod) → KeepsLocks (update p ctx pod)
  unfolding update
  update-KeepsLocks ctx pod =
      with_lock-KeepsLocks (get_uid_from_vni pod.vni) (update_locked p ctx pod)
        (update_locked-KeepsLocks ctx pod)

  from_cache-KeepsLocks :
      (name ns : String) (found : Option ℕ) → KeepsLocks (from_cache p name ns found)
  unfolding from_cache
  from_cache-KeepsLocks name ns (some pointer) = λ n. refl
  from_cache-KeepsLocks name ns none = λ n.
      Keeps-bind view (on_world p (p.api_get ns name)) (alloc_object p) (λ k. refl) (λ a k. refl) n

  get_pod-KeepsLocks : (name ns : String) → KeepsLocks (get_pod p name ns)
  unfolding get_pod
  get_pod-KeepsLocks name ns n =
      from_cache-KeepsLocks name (default_ns p ns)
        (lookup (topology_key (default_ns p ns) name) n.topology_store) n

  to_proto_pod-KeepsLocks : (t : Topology) → KeepsLocks (to_proto_pod p t)
  unfolding to_proto_pod
  to_proto_pod-KeepsLocks t n = elim (Option-cases t.spec.links) [
    | inl e ↦ rw e
    | inr (links, e) ↦ rw e
  ]

  module _ (ctx : Context) (local_pod : Pod) (link : PbLink) where
    add_same_host-KeepsLocks :
        (peer_pod : Pod) (v : Veth p) → KeepsLocks (add_same_host p ctx local_pod peer_pod link v)
    unfolding add_same_host
    add_same_host-KeepsLocks peer_pod v =
        Keeps-bind view
          (on_world p (make_veth p peer_pod.net_ns link.peer_intf link.peer_ip link.peer_mac)) _
          (λ k. refl)
          (λ peer_veth. with_lock-KeepsLocks link.uid _ (
            Keeps-bind view (on_world p (setup_veth p ctx v peer_veth link.properties)) _
              (λ k. refl) (λ _ k. refl)))

    add_vxlan-KeepsLocks : (peer_pod : Pod) → KeepsLocks (add_vxlan p ctx local_pod peer_pod link)
    unfolding add_vxlan
    add_vxlan-KeepsLocks peer_pod n =
        Keeps-bind view
          (on_world p
            (setup_vxlan p ctx (peer_spec p n.config local_pod peer_pod link) link.properties))
          _ (λ k. refl) (λ _ k. refl) n

    -- from the end of the part under the mutex on
    after_unlock-KeepsLocks :
        (peer_pod : Pod) (made : Outcome (Unit {0})) (n : Node p)
        → ((of_outcome made
              >> (on_world p (update_remote p local_pod peer_pod link) >> observe p "add"))
            n).1.locked
          ≡ n.locked
    after_unlock-KeepsLocks peer_pod (error e) n = refl
    after_unlock-KeepsLocks peer_pod (value a) n =
        Keeps-bind view (on_world p (update_remote p local_pod peer_pod link)) _ (λ k. refl)
          (λ _ k. refl) n

    -- The mutex is given back after the device was made or not.
    after_device-KeepsLocks :
        (peer_pod : Pod) (locked : List ℤ) (r : Result (Unit {0}) × Node p)
        → r.1.locked ≡ link.uid ∷ locked
        → let end =
            and_then
              (λ (made : Outcome (Unit {0})).
                unlock p link.uid
                >> (of_outcome made
                    >> (on_world p (update_remote p local_pod peer_pod link) >> observe p "add")))
              (outcome_of r) in
          end.0 ≢ panic → end.1.locked ≡ locked
    unfolding unlock
    after_device-KeepsLocks peer_pod locked (ok a, m) e calm =
        after_unlock-KeepsLocks peer_pod (value a)
          (record m { locked = without p link.uid m.locked })
        ∙ (ap (without p link.uid) e ∙ without-cons link.uid locked)
    after_device-KeepsLocks peer_pod locked (err x, m) e calm =
        ap (without p link.uid) e ∙ without-cons link.uid locked
    after_device-KeepsLocks peer_pod locked (panic, m) e calm = absurd (calm refl)

    add_other_host-KeepsLocks :
        (peer_pod : Pod) → KeepsCalm view (add_other_host p ctx local_pod peer_pod link)
    unfolding add_other_host lock
    add_other_host-KeepsLocks peer_pod n calm = elim (Bool-cases (is_held p link.uid n.locked)) [
      | inl held ↦ rw held
      | inr free ↦
          let m : Node p = record n { locked = link.uid ∷ n.locked } in
          rw free (
            after_device-KeepsLocks peer_pod n.locked (add_vxlan p ctx local_pod peer_pod link m)
              (add_vxlan-KeepsLocks peer_pod m) (rw free at calm))
    ]

    add_to_peer-KeepsLocks :
        (v : Veth p) (peer_pod : Pod) → KeepsCalm view (add_to_peer p ctx local_pod link v peer_pod)
    unfolding add_to_peer
    add_to_peer-KeepsLocks v peer_pod n calm = elim (Bool-cases (not (is_alive peer_pod))) [
      | inl dead ↦ rw dead
      | inr alive ↦ elim (Bool-cases (peer_pod.src_ip == local_pod.src_ip)) [
        | inl same ↦ rw (alive, same) (add_same_host-KeepsLocks peer_pod v n)
        | inr other ↦
            rw (alive, other) (add_other_host-KeepsLocks peer_pod n (rw (alive, other) at calm))
      ]
    ]

    add_virtual-KeepsLocks : (v : Veth p) → KeepsCalm view (add_virtual p ctx local_pod link v)
    unfolding add_virtual
    add_virtual-KeepsLocks v =
        KeepsCalm-bind view (get_pod p link.peer_pod local_pod.kube_ns)
          (λ pointer.
            deref p pointer >>= λ t. to_proto_pod p t >>= add_to_peer p ctx local_pod link v)
          (get_pod-KeepsLocks link.peer_pod local_pod.kube_ns)
          (λ pointer.
            KeepsCalm-bind view (deref p pointer)
              (λ t. to_proto_pod p t >>= add_to_peer p ctx local_pod link v) (λ n. refl)
              (λ t.
                KeepsCalm-bind view (to_proto_pod p t) (add_to_peer p ctx local_pod link v)
                  (to_proto_pod-KeepsLocks t) (add_to_peer-KeepsLocks v)))

    add_by_prefix-KeepsLocks :
        (v : Veth p) (found : Option String)
        → KeepsCalm view (add_by_prefix p ctx local_pod link v found)
    unfolding add_by_prefix
    add_by_prefix-KeepsLocks v (some src_ip) = λ n calm.
        Keeps-bind view (update p ctx (physical_payload p local_pod link src_ip)) (λ _. pure tt)
          (update-KeepsLocks ctx (physical_payload p local_pod link src_ip)) (λ a k. refl) n
    add_by_prefix-KeepsLocks v none = add_virtual-KeepsLocks v

    add_by_peer-KeepsLocks : (v : Veth p) → KeepsCalm view (add_by_peer p ctx local_pod link v)
    unfolding add_by_peer
    add_by_peer-KeepsLocks v n calm = elim (Bool-cases (link.peer_pod == localhost)) [
      | inl macvlan ↦ rw macvlan
      | inr other ↦ rw other (
          add_by_prefix-KeepsLocks v (after_prefix physical_prefix link.peer_pod) n
            (rw other at calm))
    ]

  -- A call of `addLink` that does not panic, whether it succeeds or fails, holds no mutex at its
  -- end that it did not hold at its beginning, and has given none of those away.
  pub add_link-KeepsLocks :
      (ctx : Context) (local_pod : Pod) (link : PbLink) (n : Node p)
      → (add_link p ctx local_pod link n).0 ≢ panic
      → (add_link p ctx local_pod link n).1.locked ≡ n.locked
  unfolding add_link
  add_link-KeepsLocks ctx local_pod link n =
      KeepsCalm-bind view
        (on_world p (make_veth p local_pod.net_ns link.local_intf link.local_ip link.local_mac))
        (add_by_peer p (link_context p ctx n) local_pod link) (λ k. refl)
        (add_by_peer-KeepsLocks (link_context p ctx n) local_pod link) n
