-- ===== src/Common/Qdisc/Apply.antt =====
-- `SetVethQdiscs`, `ClearVethQdiscs` and `AddBpf` (common/qdisc.go).
pub mod Quiet
use kube_dtn.Prelude.{
  ℕ, ◌*◌, ◌^◌, String, Bool, true, false, List, [], ◌∷◌, ◌++◌, pure, ignore, map_error, wrapped,
  ◌>>=◌, ◌>>◌, ◌==◌, String_eq, nat_eq, if◌then◌else◌,
}
use kube_dtn.Platform.{Platform, Veth, Do, NetLink, Qdisc, netem, tbf, generic, other_qdisc}
use kube_dtn.Prelude.Text.{decimal}
use kube_dtn.Common.Context.{Context, tcpip_bypass}

-- `netlink.HANDLE_ROOT`, and `netlink.MakeHandle(major, 0)`
abbrev pub handle_root : ℕ
handle_root = 0xffffffff

abbrev pub make_handle : ℕ → ℕ
make_handle major = major * 2 ^ 16

module _ (p : Platform) where
  -- The namespace of a device: its own, or the current one where it names none.
  unfoldable pub veth_ns : Veth p → Do p p.Netns
  veth_ns veth = if veth.ns_name == "" then p.current_ns else p.get_ns veth.ns_name

  unfoldable pub add_bpf : p.Netns → String → String → Do p (Unit {0})
  add_bpf ns link_name path = do
    map_error (wrapped "tc")
        (p.exec ns ("tc" ∷ "qdisc" ∷ "add" ∷ "dev" ∷ link_name ∷ "clsact" ∷ []))
    map_error (wrapped "tc") (
        p.exec ns (
          "tc" ∷ "filter" ∷ "add" ∷ "dev" ∷ link_name ∷ "egress" ∷ "bpf" ∷ "obj" ∷ path ∷ "sec"
          ∷ "egress" ∷ []))

  -- One discipline of a link that is cleared. An error of the deletion is only logged.
  unfoldable pub clear_qdisc : p.Netns → Qdisc p.Float32 → Do p (Unit {0})
  clear_qdisc ns (netem a b) = ignore (p.qdisc_del ns (netem a b))
  clear_qdisc ns (tbf r b m) = ignore (p.qdisc_del ns (tbf r b m))
  clear_qdisc ns (generic a) =
      if nat_eq a.handle (make_handle 0xffff) then ignore (p.qdisc_del ns (generic a)) else pure tt
  clear_qdisc ns (other_qdisc a) = pure tt

  unfoldable pub clear_qdiscs : p.Netns → List (Qdisc p.Float32) → Do p (Unit {0})
  unfolding clear_qdisc
  clear_qdiscs ns [] = pure tt
  clear_qdiscs ns (q ∷ qs) = clear_qdisc ns q >> clear_qdiscs ns qs

  unfoldable pub clear_veth_qdiscs : Veth p → Do p (Unit {0})
  unfolding veth_ns clear_qdiscs
  clear_veth_qdiscs veth = do
    ns ← veth_ns veth
    p.enter ns
    link ← p.link_by_name ns veth.link_name
    qdiscs ← p.qdisc_list ns link
    clear_qdiscs ns qdiscs

  -- The words of the command that adds a token bucket filter.
  abbrev pub tbf_command : String → Bool → ℕ → ℕ → ℕ → List String
  tbf_command link_name with_netem rate buffer minburst =
      ("tc" ∷ "qdisc" ∷ "add" ∷ "dev" ∷ link_name ∷ [])
      ++ ((if with_netem then "parent" ∷ "1:1" ∷ "handle" ∷ "10:0" ∷ [] else "root" ∷ [])
          ++ ("tbf"
              ∷ "rate"
              ∷ decimal rate
              ∷ "burst"
              ∷ decimal buffer
              ∷ "latency"
              ∷ "50ms"
              ∷ "minburst"
              ∷ decimal minburst
              ∷ []))

  -- The loop over the disciplines; it ends at the first error. A discipline of another type is
  -- only logged.
  unfoldable pub set_qdiscs :
      p.Netns → NetLink p.Ip → String → Bool → List (Qdisc p.Float32) → Do p (Unit {0})
  set_qdiscs ns link link_name with_netem [] = pure tt
  set_qdiscs ns link link_name with_netem (netem a attrs ∷ qs) = do
    p.qdisc_add ns (
        netem (record { link_index = link.index; parent = handle_root; handle = make_handle 1 })
          attrs)
    set_qdiscs ns link link_name true qs
  set_qdiscs ns link link_name with_netem (tbf rate buffer minburst ∷ qs) = do
    map_error (wrapped "tc") (p.exec ns (tbf_command link_name with_netem rate buffer minburst))
    set_qdiscs ns link link_name with_netem qs
  set_qdiscs ns link link_name with_netem (generic a ∷ qs) =
      set_qdiscs ns link link_name with_netem qs
  set_qdiscs ns link link_name with_netem (other_qdisc a ∷ qs) =
      set_qdiscs ns link link_name with_netem qs

  abbrev pub bypass_object : String
  bypass_object = "/opt/kubedtn/redir_disable_bpf.o"

  unfoldable pub set_veth_qdiscs : Context → Veth p → List (Qdisc p.Float32) → Do p (Unit {0})
  unfolding clear_veth_qdiscs set_qdiscs add_bpf veth_ns
  set_veth_qdiscs ctx veth [] = ignore (clear_veth_qdiscs veth)
  set_veth_qdiscs ctx veth (q ∷ qs) = do
    ignore (clear_veth_qdiscs veth)
    ns ← veth_ns veth
    p.enter ns
    link ← p.link_by_name ns veth.link_name
    set_qdiscs ns link veth.link_name false (q ∷ qs)
    if tcpip_bypass ctx then add_bpf ns veth.link_name bypass_object else pure tt
