-- ===== src/Tests/Lab.antt =====
-- A concrete node, cluster and CNI library, with sample data. The world of the node is the list of
-- the host's device names; every text is an address, a namespace and a number.
use kube_dtn.Prelude.{
  ℕ, ◌≡◌, refl, String, Bool, true, false, ◌||◌, Option, none, some, List, [], ◌∷◌, Action, ok, err,
  message, Error, pure, fail, ◌==◌, String_eq, if◌then◌else◌, Bool-cases, inl, inr,
}
use kube_dtn.Prelude.Int.{pos}
use kube_dtn.Api.{Topology, Link, LinkProperties}
use kube_dtn.Api.Proto.{PodQuery, Pod}
use kube_dtn.Platform.{Platform, other_kind}
use kube_dtn.Controller.{Cluster}
use kube_dtn.Plugin.{Cni}
use kube_dtn.Wire.Table.{GrpcWire, Wires, host_created_wire}
use kube_dtn.Wire.Remove.Stuck.{RemovalIsFinal}
use kube_dtn.Daemon.State.{Node}

abbrev pub plain : LinkProperties
plain = record {
  latency = "";
  latency_corr = "";
  jitter = "";
  loss = "";
  loss_corr = "";
  rate = "";
  gap = 0;
  duplicate = "";
  duplicate_corr = "";
  reorder_prob = "";
  reorder_corr = "";
  corrupt_prob = "";
  corrupt_corr = "";
}

abbrev pub a_link : ℕ → String → Link
a_link uid rate = record {
  local_intf = "eth1";
  local_ip = "10.0.0.1/24";
  local_mac = "";
  peer_intf = "eth1";
  peer_ip = "10.0.0.2/24";
  peer_mac = "";
  peer_pod = "r2";
  uid = pos uid;
  properties = record plain { rate = rate };
}

abbrev pub topology : Option (List Link) → Option (List Link) → Topology
topology wanted made = record {
  name = "r1";
  namespace = "default";
  finalizers = [];
  spec = record { links = wanted };
  status = record { skipped = none; src_ip = "10.1.1.1"; net_ns = "/run/netns/r1"; links = made };
}

-- A device is present until it is removed.
abbrev pub is_present : String → List String → Bool
is_present name [] = false
is_present name (d ∷ ds) = d == name || is_present name ds

abbrev pub without : String → List String → List String
without name [] = []
without name (d ∷ ds) = if d == name then without name ds else d ∷ without name ds

abbrev pub remove_device : String → Action (List String) (Unit {0})
remove_device name w =
    if is_present name w then (ok tt, without name w) else (err (message "no such device"), w)

abbrev pub lab : Platform
lab = record {
  World = List String;
  Ip = String;
  IpNet = String;
  Mac = String;
  parse_cidr = λ s. ok s;
  parse_mac = λ s. ok s;
  parse_ip = λ s. some s;
  ip_equal = λ a b. true;
  Float = ℕ;
  Float32 = ℕ;
  parse_float = λ s. ok 0;
  is_nan = λ x. false;
  is_below_zero = λ x. false;
  is_above_hundred = λ x. false;
  to_float32 = λ x. x;
  zero_float32 = 0;
  parse_nanoseconds = λ s. ok (pos 0);
  proto_size = λ p. if p.rate == "" then 0 else 4;
  error_contains = λ e s. true;
  Netns = String;
  get_ns = λ path. pure path;
  current_ns = pure "host";
  ns_path = λ n. n;
  enter = λ n. pure tt;
  link_by_name = λ n name w.
      if is_present name w
      then (ok (record { name = name; index = pos 1; kind = other_kind }), w)
      else (err (message "Link not found"), w);
  link_list = λ n. pure [];
  link_del = λ n l. pure tt;
  qdisc_add = λ n q. pure tt;
  qdisc_list = λ n l. pure [];
  qdisc_del = λ n q. pure tt;
  exec = λ n words. pure tt;
  make_veth = λ a b w. (ok tt, a.link_name ∷ b.link_name ∷ w);
  make_macvlan = λ a parent w. (ok tt, a.link_name ∷ w);
  make_vxlan = λ a b w. (ok tt, a.link_name ∷ w);
  remove_veth_link = λ v. remove_device v.link_name;
  is_exist_link = λ n name w. is_present name w;
  interfaces = λ w. [];
  interface_by_name = λ name. pure (pos 1);
  interface_by_index = λ index w.
      if is_present "wire1" w then (ok "wire1", w) else (err (message "no such device"), w);
  route_get = pure ("10.1.1.1", pos 2);
  link_by_index = λ index. pure (record { name = "eth0"; index = index; kind = other_kind });
  Handle = String;
  open_live = λ name. pure name;
  write_packet = λ h frame. pure tt;
  api_get = λ ns name. pure (topology (some (a_link 1 "" ∷ [])) none);
  api_update_status = λ ns t. pure tt;
  api_update = λ ns t. pure tt;
  dial = λ address. pure tt;
  remote_update = λ address pod. pure true;
}

without-absent : (name : String) (w : List String) → is_present name (without name w) ≡ false
without-absent name [] = refl
without-absent name (d ∷ ds) = elim (Bool-cases (d == name)) [
  | inl e ↦ rw e (without-absent name ds)
  | inr e ↦ rw (e, e) (without-absent name ds)
]

remove_device-twice :
    (name : String) (w w₁ : List String)
    → remove_device name w ≡ (ok tt, w₁)
    → (e : Error) × (w₂ : List String) × (remove_device name w₁ ≡ (err e, w₂))
remove_device-twice name w w₁ e = elim (Bool-cases (is_present name w)) [
  | inr absent ↦ absurd (cc (rw absent at e))
  | inl present ↦
      let same : without name w ≡ w₁ = cc (rw present at e) in
      rw (← same) (message "no such device", without name w, rw (without-absent name w) refl)
]

pub lab-RemovalIsFinal : RemovalIsFinal lab
lab-RemovalIsFinal name w w₁ e = remove_device-twice name w w₁ e

-- The cluster's world is the topology it stores; it calls a retried function once.
abbrev pub cluster : Bool → Cluster
cluster response = record {
  World = Topology;
  get_topology = λ ns name w. (ok w, w);
  update_status = λ t w. (ok tt, t);
  retry_on_conflict = λ f. f;
  dial = λ address. pure tt;
  add_links_rpc = λ ip query. pure response;
  del_links_rpc = λ ip query. pure response;
  update_links_rpc = λ ip query. pure response;
}

-- A cluster whose daemons cannot be reached.
abbrev pub cut_cluster : Cluster
cut_cluster = record (cluster true) { dial = λ address. fail (message "unreachable") }

-- A CNI library whose daemon fails to destroy a pod.
abbrev pub cni : Cni
cni = record {
  World = List String;
  NetConf = String;
  CniResult = String;
  unmarshal = λ s. ok s;
  has_prev_result = λ n. false;
  parse_prev_result = λ n. ok n;
  result_of_prev = λ n. ok n;
  empty_result = "";
  load_args = λ s. ok (record { k8s_pod_name = s; k8s_pod_namespace = "default" });
  print_result = λ r n w. (ok tt, r ∷ w);
  dial_local = pure tt;
  setup_pod = λ q. pure true;
  destroy_pod = λ q. fail (message "could not remove grpc wire");
}

abbrev pub wire : GrpcWire
wire = record {
  uid = pos 1;
  namespace = "default";
  local_node_iface_id = pos 7;
  local_node_iface_name = "wire1";
  local_pod_ip = "10.0.0.1";
  local_pod_name = "r1";
  local_pod_iface_name = "eth1";
  local_pod_net_ns = "/run/netns/r1";
  peer_iface_id = pos 9;
  peer_node_ip = "10.1.1.2";
  is_ready = true;
  originator = host_created_wire;
  originator_ip = "10.1.1.1";
  stop_c = 0;
}

-- The table with that wire.
abbrev pub wires : Wires String
wires = record {
  curr_id = 1;
  wires = (("/run/netns/r1", pos 1), wire) ∷ [];
  handles = (pos 7, "wire1") ∷ [];
  next_channel = 1;
  closed = [];
}

abbrev pub pod : Pod
pod = record {
  name = "r1";
  src_ip = "10.1.1.1";
  net_ns = "/run/netns/r1";
  kube_ns = "default";
  links = [];
}

abbrev pub query : PodQuery
query = record { name = "r1"; kube_ns = "default" }

abbrev pub node : Node lab
node = record {
  config = record { tcpip_bypass = false; node_ip = "10.1.1.1"; vxlan_intf = "eth0" };
  heap = record { object = λ q. topology none none; next = 0 };
  topology_store = [];
  topology_manager = [];
  vxlan_manager = record { vxlans = (pos 5001, 0) ∷ []; cells = λ q. "/run/netns/r1"; next = 1 };
  wires = wires;
  locked = [];
  observed = [];
  world = "wire1" ∷ [];
}
