-- ===== src/Platform.antt =====
-- What the daemon uses of the node it runs on, of the Kubernetes API and of the other daemons:
-- koko, netlink, the network namespaces, `tc`, `pcap`, parsers of Go's standard library, floats. A
-- value of `World` is all the state that they keep. Nothing is assumed of them here.
use kube_dtn.Prelude.{ℕ, String, Bool, Option, List, Action, Result, Error}
use kube_dtn.Prelude.Int.{ℤ}
use kube_dtn.Api.{Topology}
use kube_dtn.Api.Proto.{PbLinkProperties, RemotePod}

-- `koko.VEth`
pub record VEth (IpNet Mac : Type 0) : Type 0 where
  pub ns_name : String
  pub link_name : String
  pub ip_addr : List IpNet
  pub hardware_addr : Option Mac

-- `koko.VxLan`; `net.ParseIP` gives nil for what is no address
pub record VxLan (Ip : Type 0) : Type 0 where
  pub parent_if : String
  pub ip_addr : Option Ip
  pub id : ℤ

-- `netlink.Link`: a VXLAN device or another one
pub data LinkKind (Ip : Type 0) : Type 0 where
  vxlan_kind : ℤ → Option Ip → LinkKind Ip
  other_kind : LinkKind Ip

pub record NetLink (Ip : Type 0) : Type 0 where
  pub name : String
  pub index : ℤ
  pub kind : LinkKind Ip

-- `netlink.NetemQdiscAttrs`; a percentage is a 32-bit float
pub record NetemAttrs (Float : Type 0) : Type 0 where
  pub latency : ℕ
  pub delay_corr : Float
  pub jitter : ℕ
  pub loss : Float
  pub loss_corr : Float
  pub gap : ℕ
  pub duplicate : Float
  pub duplicate_corr : Float
  pub reorder_prob : Float
  pub reorder_corr : Float
  pub corrupt_prob : Float
  pub corrupt_corr : Float

-- `netlink.QdiscAttrs`; the handles are 32-bit numbers
pub record QdiscAttrs : Type 0 where
  pub link_index : ℤ
  pub parent : ℕ
  pub handle : ℕ

-- `netlink.Netem`, `*netlink.Tbf` (rate, buffer, minburst), `*netlink.GenericQdisc`, any other
pub data Qdisc (Float : Type 0) : Type 0 where
  netem : QdiscAttrs → NetemAttrs Float → Qdisc Float
  tbf : ℕ → ℕ → ℕ → Qdisc Float
  generic : QdiscAttrs → Qdisc Float
  other_qdisc : QdiscAttrs → Qdisc Float

-- `netlink.Addr` of an interface: its address, if it is one of the two kinds that are read
pub record Interface (Ip : Type 0) : Type 0 where
  pub name : String
  pub addrs : List (Option Ip)

pub record Platform : Type 1 where
  pub World : Type 0
  -- addresses: `net.ParseCIDR`, `net.ParseMAC`, `net.ParseIP`, `net.IP.Equal` (nil is an address)
  pub Ip : Type 0
  pub IpNet : Type 0
  pub Mac : Type 0
  pub parse_cidr : String → Result IpNet
  pub parse_mac : String → Result Mac
  pub parse_ip : String → Option Ip
  pub ip_equal : Option Ip → Option Ip → Bool
  -- floats: `strconv.ParseFloat(s, 32)`, `math.IsNaN`, the tests on 0 and 100, `float32(v)`
  pub Float : Type 0
  pub Float32 : Type 0
  pub parse_float : String → Result Float
  pub is_nan : Float → Bool
  pub is_below_zero : Float → Bool
  pub is_above_hundred : Float → Bool
  pub to_float32 : Float → Float32
  pub zero_float32 : Float32
  -- `time.ParseDuration`, in nanoseconds
  pub parse_nanoseconds : String → Result ℤ
  -- `proto.Size`
  pub proto_size : PbLinkProperties → ℕ
  -- does the text of an error contain a text?
  pub error_contains : Error → String → Bool
  -- network namespaces: `ns.GetNS`, `ns.GetCurrentNS` with its path, entering one by `Do`
  pub Netns : Type 0
  pub get_ns : String → Action World Netns
  pub current_ns : Action World Netns
  pub ns_path : Netns → String
  pub enter : Netns → Action World (Unit {0})
  -- `netlink` inside a namespace
  pub link_by_name : Netns → String → Action World (NetLink Ip)
  pub link_list : Netns → Action World (List (NetLink Ip))
  pub link_del : Netns → NetLink Ip → Action World (Unit {0})
  pub qdisc_add : Netns → Qdisc Float32 → Action World (Unit {0})
  pub qdisc_list : Netns → NetLink Ip → Action World (List (Qdisc Float32))
  pub qdisc_del : Netns → Qdisc Float32 → Action World (Unit {0})
  -- a command, as its list of words, run inside a namespace
  pub exec : Netns → List String → Action World (Unit {0})
  -- koko
  pub make_veth : VEth IpNet Mac → VEth IpNet Mac → Action World (Unit {0})
  pub make_macvlan : VEth IpNet Mac → String → Action World (Unit {0})
  pub make_vxlan : VEth IpNet Mac → VxLan Ip → Action World (Unit {0})
  pub remove_veth_link : VEth IpNet Mac → Action World (Unit {0})
  -- `koko.IsExistLinkInNS`, whose error the code drops
  pub is_exist_link : String → String → World → Bool
  -- interfaces of the node: `net.Interfaces`, by name (its index), by index (its name)
  pub interfaces : World → List (Interface Ip)
  pub interface_by_name : String → Action World ℤ
  pub interface_by_index : ℤ → Action World String
  -- `netlink.RouteGet(1.1.1.1)`: the source of the first route and its link's index; that link
  pub route_get : Action World (String × ℤ)
  pub link_by_index : ℤ → Action World (NetLink Ip)
  -- `pcap.OpenLive`, `WritePacketData`
  pub Handle : Type 0
  pub open_live : String → Action World Handle
  pub write_packet : Handle → List ℕ → Action World (Unit {0})
  -- the Kubernetes API: get, update of the status, update of the object, by namespace
  pub api_get : String → String → Action World Topology
  pub api_update_status : String → Topology → Action World (Unit {0})
  pub api_update : String → Topology → Action World (Unit {0})
  -- `grpc.Dial` and the remote daemon's `Update`
  pub dial : String → Action World (Unit {0})
  pub remote_update : String → RemotePod → Action World Bool

module _ (p : Platform) where
  abbrev pub Veth : Type 0
  Veth = VEth p.IpNet p.Mac

  abbrev pub Do : Type 0 → Type 0
  Do A = Action p.World A
