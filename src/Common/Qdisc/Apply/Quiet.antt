-- ===== src/Common/Qdisc/Apply/Quiet.antt =====
-- What the setting of disciplines leaves alone (common/qdisc.go): whatever the calls of the platform
-- that it makes leave alone.
use kube_dtn.Prelude.{
  refl, String, Bool, true, false, List, [], ◌∷◌, ignore, map_error, wrapped, ◌>>=◌, ◌>>◌,
  Bool-cases, inl, inr, ◌==◌, String_eq, nat_eq, if◌then◌else◌, pure,
}
use kube_dtn.Prelude.Laws.{Keeps, Keeps-bind, Keeps-ignore, Keeps-map_error}
use kube_dtn.Platform.{Platform, Veth, Do, NetLink, Qdisc, netem, tbf, generic, other_qdisc}
use kube_dtn.Common.Context.{Context, tcpip_bypass}
use kube_dtn.Common.Qdisc.Apply.{
  veth_ns, add_bpf, clear_qdisc, clear_qdiscs, clear_veth_qdiscs, set_qdiscs, set_veth_qdiscs,
  bypass_object, make_handle,
}

-- Namespaces, commands and disciplines leave a view of the world alone.
pub record QuietQdiscs (p : Platform) {V : Type 0} (view : p.World → V) : Type 0 where
  pub current_ns-Keeps : Keeps view p.current_ns
  pub get_ns-Keeps : (path : String) → Keeps view (p.get_ns path)
  pub enter-Keeps : (ns : p.Netns) → Keeps view (p.enter ns)
  pub link_by_name-Keeps : (ns : p.Netns) (name : String) → Keeps view (p.link_by_name ns name)
  pub qdisc_list-Keeps : (ns : p.Netns) (l : NetLink p.Ip) → Keeps view (p.qdisc_list ns l)
  pub qdisc_add-Keeps : (ns : p.Netns) (q : Qdisc p.Float32) → Keeps view (p.qdisc_add ns q)
  pub qdisc_del-Keeps : (ns : p.Netns) (q : Qdisc p.Float32) → Keeps view (p.qdisc_del ns q)
  pub exec-Keeps : (ns : p.Netns) (words : List String) → Keeps view (p.exec ns words)

module _ (p : Platform) {V : Type 0} (view : p.World → V) (h : QuietQdiscs p view) where
  pure-Keeps : Keeps view (pure {S = p.World} {A = Unit {0}} tt)
  pure-Keeps w = refl

  veth_ns-Keeps : (veth : Veth p) → Keeps view (veth_ns p veth)
  unfolding veth_ns
  veth_ns-Keeps veth w = elim (Bool-cases (veth.ns_name == "")) [
    | inl e ↦ rw e (h.current_ns-Keeps w)
    | inr e ↦ rw e (h.get_ns-Keeps veth.ns_name w)
  ]

  clear_qdisc-Keeps : (ns : p.Netns) (q : Qdisc p.Float32) → Keeps view (clear_qdisc p ns q)
  unfolding clear_qdisc
  clear_qdisc-Keeps ns (netem a b) w =
      Keeps-ignore view (p.qdisc_del ns (netem a b)) (h.qdisc_del-Keeps ns _) w
  clear_qdisc-Keeps ns (tbf r b m) w =
      Keeps-ignore view (p.qdisc_del ns (tbf r b m)) (h.qdisc_del-Keeps ns _) w
  clear_qdisc-Keeps ns (generic a) w = elim (Bool-cases (nat_eq a.handle (make_handle 0xffff))) [
    | inl e ↦ rw e (Keeps-ignore view (p.qdisc_del ns (generic a)) (h.qdisc_del-Keeps ns _) w)
    | inr e ↦ rw e refl
  ]
  clear_qdisc-Keeps ns (other_qdisc a) w = refl

  clear_qdiscs-Keeps :
      (ns : p.Netns) (qs : List (Qdisc p.Float32)) → Keeps view (clear_qdiscs p ns qs)
  unfolding clear_qdiscs
  clear_qdiscs-Keeps ns [] = pure-Keeps
  clear_qdiscs-Keeps ns (q ∷ qs) =
      Keeps-bind view (clear_qdisc p ns q) _ (clear_qdisc-Keeps ns q)
        (λ _. clear_qdiscs-Keeps ns qs)

  -- A chain that enters the namespace of a device and finds the device there.
  in_ns-Keeps :
      {A : Type 0} (veth : Veth p) (f : p.Netns → NetLink p.Ip → Do p A)
      → ((ns : p.Netns) (l : NetLink p.Ip) → Keeps view (f ns l))
      → Keeps view
          (do ns ← veth_ns p veth; p.enter ns; l ← p.link_by_name ns veth.link_name; f ns l)
  in_ns-Keeps veth f k = Keeps-bind view (veth_ns p veth) _ (veth_ns-Keeps veth) λ ns.
      Keeps-bind view (p.enter ns) _ (h.enter-Keeps ns) λ _.
        Keeps-bind view (p.link_by_name ns veth.link_name) _
          (h.link_by_name-Keeps ns veth.link_name) (k ns)

  clear_veth_qdiscs-Keeps : (veth : Veth p) → Keeps view (clear_veth_qdiscs p veth)
  unfolding clear_veth_qdiscs
  clear_veth_qdiscs-Keeps veth = in_ns-Keeps veth _ λ ns l.
      Keeps-bind view (p.qdisc_list ns l) _ (h.qdisc_list-Keeps ns l) (clear_qdiscs-Keeps ns)

  exec_wrapped-Keeps :
      (ns : p.Netns) (words : List String) → Keeps view (map_error (wrapped "tc") (p.exec ns words))
  exec_wrapped-Keeps ns words =
      Keeps-map_error view (wrapped "tc") (p.exec ns words) (h.exec-Keeps ns words)

  add_bpf-Keeps : (ns : p.Netns) (name path : String) → Keeps view (add_bpf p ns name path)
  unfolding add_bpf
  add_bpf-Keeps ns name path =
      Keeps-bind view (map_error (wrapped "tc") (p.exec ns _)) _ (exec_wrapped-Keeps ns _)
        (λ _. exec_wrapped-Keeps ns _)

  set_qdiscs-Keeps :
      (ns : p.Netns) (l : NetLink p.Ip) (name : String) (b : Bool) (qs : List (Qdisc p.Float32))
      → Keeps view (set_qdiscs p ns l name b qs)
  unfolding set_qdiscs
  set_qdiscs-Keeps ns l name b [] = pure-Keeps
  set_qdiscs-Keeps ns l name b (netem a attrs ∷ qs) =
      Keeps-bind view (p.qdisc_add ns _) _ (h.qdisc_add-Keeps ns _)
        (λ _. set_qdiscs-Keeps ns l name true qs)
  set_qdiscs-Keeps ns l name b (tbf rate buffer minburst ∷ qs) =
      Keeps-bind view (map_error (wrapped "tc") (p.exec ns _)) _ (exec_wrapped-Keeps ns _)
        (λ _. set_qdiscs-Keeps ns l name b qs)
  set_qdiscs-Keeps ns l name b (generic a ∷ qs) = set_qdiscs-Keeps ns l name b qs
  set_qdiscs-Keeps ns l name b (other_qdisc a ∷ qs) = set_qdiscs-Keeps ns l name b qs

  add_bypass-Keeps :
      (ctx : Context) (ns : p.Netns) (name : String)
      → Keeps view (if tcpip_bypass ctx then add_bpf p ns name (bypass_object p) else pure tt)
  add_bypass-Keeps ctx ns name w = elim (Bool-cases (tcpip_bypass ctx)) [
    | inl e ↦ rw e (add_bpf-Keeps ns name (bypass_object p) w)
    | inr e ↦ rw e refl
  ]

  pub set_veth_qdiscs-Keeps :
      (ctx : Context) (veth : Veth p) (qs : List (Qdisc p.Float32))
      → Keeps view (set_veth_qdiscs p ctx veth qs)
  unfolding set_veth_qdiscs
  set_veth_qdiscs-Keeps ctx veth [] =
      Keeps-ignore view (clear_veth_qdiscs p veth) (clear_veth_qdiscs-Keeps veth)
  set_veth_qdiscs-Keeps ctx veth (q ∷ qs) =
      Keeps-bind view (ignore (clear_veth_qdiscs p veth)) _
        (Keeps-ignore view (clear_veth_qdiscs p veth) (clear_veth_qdiscs-Keeps veth))
        (λ _. in_ns-Keeps veth _ λ ns l.
          Keeps-bind view (set_qdiscs p ns l veth.link_name false (q ∷ qs)) _
            (set_qdiscs-Keeps ns l veth.link_name false (q ∷ qs))
            (λ _. add_bypass-Keeps ctx ns veth.link_name))
