-- ===== src/Tests/Wired.antt =====
-- A wire to a node that records what its devices are given.
use kube_dtn.Prelude.{
  ℕ, ◌≡◌, refl, String, false, none, List, [], ◌∷◌, ◌++◌, map, Action, ok, err, message, pure, fail,
  inl, arith, ◌==◌, String_eq, if◌then◌else◌, test_refl,
}
use kube_dtn.Prelude.Int.{pos}
use kube_dtn.Platform.{Platform}
use kube_dtn.Wire.Table.{get_handle}
use kube_dtn.Wire.Receive.{stopped, source_closed, captured, eof, receive_loop}
use kube_dtn.Daemon.State.{Node}
use kube_dtn.Together.Wired.{tunnel_to, Arrived, Writes, wire_delivers}
use kube_dtn.Tests.Lab.{topology, wire, wires}
use kube_dtn.Tests.Wires.{pings}

-- What each device was given.
abbrev Given : Type 0
Given = String → List (List ℕ)

abbrev put : String → List ℕ → Given → Given
put device f w d = if device == d then w d ++ (f ∷ []) else w d

abbrev absent : {A : Type 0} → Action Given A
absent = fail (message "no such device")

-- All calls but those of pcap fail.
abbrev recorder : Platform
recorder = record {
  World = Given;
  Ip = String;
  IpNet = String;
  Mac = String;
  parse_cidr = λ s. ok s;
  parse_mac = λ s. ok s;
  parse_ip = λ s. none;
  ip_equal = λ a b. false;
  Float = ℕ;
  Float32 = ℕ;
  parse_float = λ s. ok 0;
  is_nan = λ x. false;
  is_below_zero = λ x. false;
  is_above_hundred = λ x. false;
  to_float32 = λ x. x;
  zero_float32 = 0;
  parse_nanoseconds = λ s. ok (pos 0);
  proto_size = λ p. 0;
  error_contains = λ e s. false;
  Netns = String;
  get_ns = λ path. absent;
  current_ns = absent;
  ns_path = λ n. n;
  enter = λ n. absent;
  link_by_name = λ n name. absent;
  link_list = λ n. absent;
  link_del = λ n l. absent;
  qdisc_add = λ n q. absent;
  qdisc_list = λ n l. absent;
  qdisc_del = λ n q. absent;
  exec = λ n words. absent;
  make_veth = λ a b. absent;
  make_macvlan = λ a parent. absent;
  make_vxlan = λ a b. absent;
  remove_veth_link = λ v. absent;
  is_exist_link = λ n name w. false;
  interfaces = λ w. [];
  interface_by_name = λ name. absent;
  interface_by_index = λ index. absent;
  route_get = absent;
  link_by_index = λ index. absent;
  Handle = String;
  open_live = λ name. pure name;
  write_packet = λ h f w. (ok tt, put h f w);
  api_get = λ ns name. absent;
  api_update_status = λ ns t. absent;
  api_update = λ ns t. absent;
  dial = λ address. absent;
  remote_update = λ address pod. absent;
}

recorder-Writes : Writes recorder (λ h w. w h)
recorder-Writes h f w = (put h f w, refl, rw (test_refl h) refl)

-- The peer's node: the wire's packets are for the device 9.
abbrev peer : Node recorder
peer = record {
  config = record { tcpip_bypass = false; node_ip = "10.1.1.2"; vxlan_intf = "eth0" };
  heap = record { object = λ q. topology none none; next = 0 };
  topology_store = [];
  topology_manager = [];
  vxlan_manager = record { vxlans = []; cells = λ q. ""; next = 0 };
  wires = record wires { handles = (pos 9, "peer1") ∷ [] };
  locked = [];
  observed = [];
  world = λ device. [];
}

abbrev frames : List (List ℕ)
frames = (1 ∷ 2 ∷ 3 ∷ []) ∷ (4 ∷ []) ∷ []

wire_delivers_example :
    (n' : Node recorder) × (receive_loop
        (pings 28)
        (tunnel_to recorder (λ s. pure s) (λ h. pure tt) (λ s. pure tt))
        wire
        (map captured frames ++ stopped ∷ source_closed ∷ [])
        peer
      ≡ (err eof, n'))
    × Arrived recorder (λ h w. w h) (get_handle wire.peer_iface_id peer.wires) frames peer n'
wire_delivers_example =
    wire_delivers recorder (λ h w. w h) recorder-Writes (pings 28) (λ s. pure s) (λ h. pure tt)
      (λ s. pure tt) wire frames (source_closed ∷ []) peer
      (inl (omega arith), (inl (omega arith), tt))
