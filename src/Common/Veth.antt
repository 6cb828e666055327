-- ===== src/Common/Veth.antt =====
-- `MakeVeth`, `CreateVeth` and `SetupVeth` (common/veth.go).
pub mod Again
use kube_dtn.Prelude.{
  String, Bool, true, false, ◌&&◌, Option, none, some, List, [], ◌∷◌, pure, of_result, map_error,
  wrapped, gets, ◌>>=◌, ◌>>◌, ◌==◌, String_eq, if◌then◌else◌,
}
use kube_dtn.Api.Proto.{PbLinkProperties}
use kube_dtn.Platform.{Platform, Veth, Do}
use kube_dtn.Common.Context.{Context}
use kube_dtn.Common.Qdisc.Make.{make_qdiscs}
use kube_dtn.Common.Qdisc.Apply.{set_veth_qdiscs}

module _ (p : Platform) where
  -- An optional address of a device; both texts are optional.
  unfoldable pub parse_addresses : String → Do p (List p.IpNet)
  parse_addresses ip = if ip == "" then pure [] else (do
    net ← map_error (wrapped "failed to parse CIDR") (of_result (p.parse_cidr ip))
    pure (net ∷ []))

  unfoldable pub parse_hardware : String → Do p (Option p.Mac)
  parse_hardware mac = if mac == "" then pure none else (do
    addr ← map_error (wrapped "failed to parse MAC") (of_result (p.parse_mac mac))
    pure (some addr))

  unfoldable pub make_veth : String → String → String → String → Do p (Veth p)
  unfolding parse_addresses parse_hardware
  make_veth net_ns link_name ip mac = do
    addrs ← parse_addresses ip
    hardware ← parse_hardware mac
    pure (record {
      ns_name = net_ns;
      link_name = link_name;
      ip_addr = addrs;
      hardware_addr = hardware;
    })

  unfoldable pub create_veth : Context → Veth p → Veth p → Option PbLinkProperties → Do p (Unit {0})
  unfolding make_qdiscs set_veth_qdiscs
  create_veth ctx self peer properties = do
    p.make_veth self peer
    qdiscs ← map_error (wrapped "failed to construct qdiscs") (of_result (make_qdiscs p properties))
    map_error (wrapped "failed to set qdiscs on self veth") (set_veth_qdiscs p ctx self qdiscs)
    map_error (wrapped "failed to set qdiscs on peer veth") (set_veth_qdiscs p ctx peer qdiscs)

  -- What is done about the interfaces that exist: whether both do, in which case nothing is left.
  unfoldable pub remove_stale : Bool → Bool → Veth p → Veth p → Do p (Unit {0})
  remove_stale false true self peer = p.remove_veth_link peer
  remove_stale true false self peer = p.remove_veth_link self
  remove_stale _ _ self peer = pure tt

  unfoldable pub setup_veth : Context → Veth p → Veth p → Option PbLinkProperties → Do p (Unit {0})
  unfolding remove_stale create_veth
  setup_veth ctx self peer properties = do
    i_exist ← gets (p.is_exist_link self.ns_name self.link_name)
    p_exist ← gets (p.is_exist_link peer.ns_name peer.link_name)
    if i_exist && p_exist
        then pure tt
        else (remove_stale i_exist p_exist self peer >> create_veth ctx self peer properties)
