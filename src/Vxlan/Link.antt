-- ===== src/Vxlan/Link.antt =====
-- Setting up VXLAN links (daemon/vxlan/vxlan.go).
pub mod Found
use kube_dtn.Prelude.{
  String, Bool, true, false, Option, none, some, List, [], ◌∷◌, Error, value, error, message,
  wrapped, pure, fail, gets, attempt, map_error, of_result, ◌>>=◌, ◌>>◌, ◌==◌, String_eq,
  if◌then◌else◌,
}
use kube_dtn.Prelude.Int.{ℤ, ℤ_eq, to_int32}
use kube_dtn.Api.Proto.{PbLinkProperties}
use kube_dtn.Platform.{Platform, Veth, Do, VxLan, NetLink, vxlan_kind, other_kind, Interface}
use kube_dtn.Common.Context.{Context}
use kube_dtn.Common.Qdisc.Make.{make_qdiscs}
use kube_dtn.Common.Qdisc.Apply.{set_veth_qdiscs}

pub record VxlanSpec : Type 0 where
  pub net_ns : String
  pub intf_name : String
  pub intf_ip : String
  pub peer_vtep : String
  pub vni : ℤ
  pub src_ip : String
  pub src_intf : String

module _ (p : Platform) where
  -- `vxlanEqual`, on the two values that it reads of the netlink device
  unfoldable pub vxlan_equal : ℤ → Option p.Ip → VxLan p.Ip → Bool
  vxlan_equal vxlan_id group l2 = if vxlan_id == l2.id then p.ip_equal group l2.ip_addr else false

  abbrev pub has_addr : p.Ip → List (Option p.Ip) → Bool
  has_addr ip [] = false
  has_addr ip (a ∷ addrs) = if p.ip_equal (some ip) a then true else has_addr ip addrs

  unfoldable pub find_interface : p.Ip → List (Interface p.Ip) → Option String
  find_interface ip [] = none
  find_interface ip (i ∷ ifaces) =
      if has_addr ip i.addrs then some i.name else find_interface ip ifaces

  -- Both results of the source: the address, and the interface.
  unfoldable pub get_vxlan_source : String → Do p (String × String)
  unfolding find_interface
  get_vxlan_source node_ip =
      if node_ip == ""
      then fail (message "kubedtnd provided no HOST_IP address")
      else (elim (p.parse_ip node_ip) [
        | none ↦ fail (message "parsing failed for kubedtnd provided no HOST_IP address")
        | some ip ↦ do
          ifaces ← gets p.interfaces
          elim (find_interface ip ifaces) [
            | none ↦ fail (message "no iface found for address")
            | some name ↦ pure (node_ip, name)
          ]
      ])

  unfoldable pub get_default_vxlan_source : Do p (String × String)
  get_default_vxlan_source = do
    route ← map_error (wrapped "error getting default route") p.route_get
    link ← map_error (wrapped "error looking up link by its index") (p.link_by_index (route.1))
    pure (route.0, link.name)

  -- The interface that carries the VXLAN.
  unfoldable pub source_of : VxlanSpec → Do p (String × String)
  unfolding get_vxlan_source get_default_vxlan_source
  source_of v =
      if v.src_intf == ""
      then (if v.src_ip == "" then get_default_vxlan_source else get_vxlan_source v.src_ip)
      else pure (v.src_ip, v.src_intf)

  -- `veth` with its optional address
  unfoldable pub spec_veth : VxlanSpec → Do p (Veth p)
  spec_veth v =
      if v.intf_ip == ""
      then pure (record {
        ns_name = v.net_ns;
        link_name = v.intf_name;
        ip_addr = [];
        hardware_addr = none;
      })
      else (do
        net ← map_error (wrapped "error parsing CIDR") (of_result (p.parse_cidr v.intf_ip))
        pure (record {
          ns_name = v.net_ns;
          link_name = v.intf_name;
          ip_addr = net ∷ [];
          hardware_addr = none;
        }))

  -- The link of that name, or nil: all errors are dropped.
  unfoldable pub get_link_from_ns : String → String → Do p (Option (NetLink p.Ip))
  get_link_from_ns ns_name link_name = do
    found ← attempt (do ns ← p.get_ns ns_name; p.enter ns; p.link_by_name ns link_name)
    elim found [ error e ↦ pure none | value link ↦ pure (some link) ]

  -- The loop of `RemoveLinkWithVni`: the first VXLAN device with that identifier.
  unfoldable pub find_vni : ℤ → List (NetLink p.Ip) → Option (NetLink p.Ip)
  find_vni vni [] = none
  find_vni vni (link ∷ links) = elim link.kind [
    | other_kind ↦ find_vni vni links
    | vxlan_kind id group ↦ if to_int32 id == vni then some link else find_vni vni links
  ]

  unfoldable pub remove_link_with_vni : ℤ → String → Do p (Unit {0})
  unfolding find_vni
  remove_link_with_vni vni netns = do
    ns ← p.get_ns netns
    p.enter ns
    links ← map_error (wrapped "error listing links") (p.link_list ns)
    elim (find_vni vni links) [
      | none ↦ pure tt
      | some link ↦ map_error (wrapped "error deleting vxlan link") (p.link_del ns link)
    ]

  -- A failed creation: where the error says "file exists", the link with the same VNI is removed
  -- and the creation tried once more.
  unfoldable pub retry_make : Error → Veth p → VxLan p.Ip → VxlanSpec → Do p (Unit {0})
  unfolding remove_link_with_vni
  retry_make e veth vxlan v =
      if p.error_contains e "file exists"
      then (do
        removed ← attempt (remove_link_with_vni v.vni veth.ns_name)
        elim removed [
          | error _ ↦ fail e
          | value _ ↦
              map_error (wrapped "error when creating a Vxlan interface with koko")
                (p.make_vxlan veth vxlan)
        ])
      else fail (wrapped "error when creating a Vxlan interface with koko" e)

  unfoldable pub make_link : Veth p → VxLan p.Ip → VxlanSpec → Do p (Veth p)
  unfolding retry_make
  make_link veth vxlan v = do
    made ← attempt (p.make_vxlan veth vxlan)
    elim made [ error e ↦ retry_make e veth vxlan v | value _ ↦ pure tt ]
    pure veth

  -- What is done about the link of that name: an equal one is kept (true), another one removed.
  unfoldable pub keep_or_remove : Option (NetLink p.Ip) → Veth p → VxLan p.Ip → Do p Bool
  unfolding vxlan_equal
  keep_or_remove none veth vxlan = pure false
  keep_or_remove (some link) veth vxlan = elim link.kind [
    | vxlan_kind id group ↦ if vxlan_equal id group vxlan then pure true else (do
      map_error (wrapped "error when removing an old Vxlan interface with koko")
          (p.remove_veth_link veth)
      pure false)
    | other_kind ↦ do
      map_error (wrapped "error when removing an old non-Vxlan interface with koko")
          (p.remove_veth_link veth)
      pure false
  ]

  abbrev pub vxlan_of : String → VxlanSpec → VxLan p.Ip
  vxlan_of src_intf v = record {
    parent_if = src_intf;
    ip_addr = p.parse_ip v.peer_vtep;
    id = v.vni;
  }

  unfoldable pub create_or_update : VxlanSpec → Do p (Veth p)
  unfolding source_of spec_veth get_link_from_ns keep_or_remove make_link
  create_or_update v = do
    source ← source_of v
    veth ← spec_veth v
    link ← get_link_from_ns veth.ns_name veth.link_name
    same ← keep_or_remove link veth (vxlan_of (source.1) v)
    if same then pure veth else make_link veth (vxlan_of (source.1) v) v

  unfoldable pub setup_vxlan : Context → VxlanSpec → Option PbLinkProperties → Do p (Unit {0})
  unfolding create_or_update make_qdiscs set_veth_qdiscs
  setup_vxlan ctx v properties = do
    veth ← create_or_update v
    qdiscs ← of_result (make_qdiscs p properties)
    set_veth_qdiscs p ctx veth qdiscs
