-- ===== src/Together/TwoHosts.antt =====
-- Two hosts: a node whose platform has, beside the host's own world, the node of the peer's daemon.
-- What `UpdateRemote` (common/utils.go) sends is answered by the `Update` of that node
-- (daemon/kubedtn/handler.go).
pub mod Ends
use Prim.Native.String
use kube_dtn.Prelude.{String, Action, message, fail, ◌==◌, String_eq, if◌then◌else◌}
use kube_dtn.Platform.{Platform, Do}
use kube_dtn.Common.Context.{background}
use kube_dtn.Daemon.State.{Node}
use kube_dtn.Daemon.RemoteUpdate.{update}

module _ (p : Platform) where
  abbrev pub Beside : Type 0
  Beside = p.World × Node p

  -- a call of the host's own
  abbrev pub own : {A : Type 0} → Do p A → Action Beside A
  own m (w, peer) = let (r, w') = m w in (r, (w', peer))

  -- a call of the peer's daemon
  abbrev pub peers : {A : Type 0} → Action (Node p) A → Action Beside A
  peers m (w, peer) = let (r, peer') = m peer in (r, (w, peer'))

  -- The address of the daemon on a host.
  abbrev pub daemon_at : String → String
  daemon_at ip = String.◌++◌ "passthrough:///" (String.◌++◌ ip ":51111")

  -- The host beside a peer with this address. No other daemon can be reached.
  abbrev pub beside : String → Platform
  beside peer_ip = record {
    World = Beside;
    Ip = p.Ip;
    IpNet = p.IpNet;
    Mac = p.Mac;
    parse_cidr = p.parse_cidr;
    parse_mac = p.parse_mac;
    parse_ip = p.parse_ip;
    ip_equal = p.ip_equal;
    Float = p.Float;
    Float32 = p.Float32;
    parse_float = p.parse_float;
    is_nan = p.is_nan;
    is_below_zero = p.is_below_zero;
    is_above_hundred = p.is_above_hundred;
    to_float32 = p.to_float32;
    zero_float32 = p.zero_float32;
    parse_nanoseconds = p.parse_nanoseconds;
    proto_size = p.proto_size;
    error_contains = p.error_contains;
    Netns = p.Netns;
    get_ns = λ path. own (p.get_ns path);
    current_ns = own p.current_ns;
    ns_path = p.ns_path;
    enter = λ ns. own (p.enter ns);
    link_by_name = λ ns name. own (p.link_by_name ns name);
    link_list = λ ns. own (p.link_list ns);
    link_del = λ ns l. own (p.link_del ns l);
    qdisc_add = λ ns q. own (p.qdisc_add ns q);
    qdisc_list = λ ns l. own (p.qdisc_list ns l);
    qdisc_del = λ ns q. own (p.qdisc_del ns q);
    exec = λ ns words. own (p.exec ns words);
    make_veth = λ a b. own (p.make_veth a b);
    make_macvlan = λ a parent. own (p.make_macvlan a parent);
    make_vxlan = λ a b. own (p.make_vxlan a b);
    remove_veth_link = λ v. own (p.remove_veth_link v);
    is_exist_link = λ ns name w. p.is_exist_link ns name (w.0);
    interfaces = λ w. p.interfaces (w.0);
    interface_by_name = λ name. own (p.interface_by_name name);
    interface_by_index = λ index. own (p.interface_by_index index);
    route_get = own p.route_get;
    link_by_index = λ index. own (p.link_by_index index);
    Handle = p.Handle;
    open_live = λ name. own (p.open_live name);
    write_packet = λ h f. own (p.write_packet h f);
    api_get = λ ns name. own (p.api_get ns name);
    api_update_status = λ ns t. own (p.api_update_status ns t);
    api_update = λ ns t. own (p.api_update ns t);
    dial = λ address. own (p.dial address);
    remote_update = λ address pod.
        if address == daemon_at peer_ip
        then peers (update p background pod)
        else fail (message "connection refused");
  }
