-- ===== src/Tests/Hosts.antt =====
-- Links between two hosts, and pods in the informer's cache, at work.
use kube_dtn.Prelude.{
  ◌≡◌, ◌↔◌, refl, ap, true, none, some, List, [], ◌∷◌, ◌++◌, ok, err, message, fail, ◌/◌, ◌<◌, ◌^◌,
  String_eq,
}
use kube_dtn.Prelude.Int.{pos, ℤ_eq}
use kube_dtn.Prelude.Maps.{lookup}
use kube_dtn.Prelude.Memory.{replicate}
use kube_dtn.Api.{Topology, Link}
use kube_dtn.Api.Proto.{Pod, PbLink, RemotePod}
use kube_dtn.Platform.{Platform}
use kube_dtn.Common.Context.{background}
use kube_dtn.Common.Percent.{parse_duration}
use kube_dtn.Common.Percent.Exact.{parse_duration-exact_iff}
use kube_dtn.Metrics.TopologyManager.{topology_key}
use kube_dtn.Daemon.State.{Node}
use kube_dtn.Daemon.Topologies.{get}
use kube_dtn.Daemon.RemoteUpdate.{update}
use kube_dtn.Daemon.RemoteUpdate.Bypass.{with_bypass, switched, update-switched}
use kube_dtn.Daemon.AddLink.{add_other_host}
use kube_dtn.Daemon.Alive.{finalizer, with_address, set_alive, set_finalizers}
use kube_dtn.Daemon.Alive.Cached.{
  IsCached, attempts, query_of, pod_of, set_alive-refused, finalizers-attempts,
}
use kube_dtn.Together.TwoHosts.{beside}
use kube_dtn.Together.TwoHosts.Ends.{BothSetUp, add_other_host-AreEnds}
use kube_dtn.Tests.Lab.{lab, node, pod, a_link, topology}

abbrev other_pod : Pod
other_pod = record pod { name = "r2"; src_ip = "10.1.1.2"; net_ns = "/run/netns/r2" }

abbrev link : PbLink
link = record {
  peer_pod = "r2";
  local_intf = "eth1";
  peer_intf = "eth2";
  local_ip = "10.0.0.1/24";
  peer_ip = "10.0.0.2/24";
  uid = pos 2;
  properties = none;
  local_mac = "";
  peer_mac = "";
}

-- A node whose peer is the small node.
abbrev two_hosts : Node (beside lab "10.1.1.2")
two_hosts = record {
  config = node.config;
  heap = node.heap;
  topology_store = [];
  topology_manager = [];
  vxlan_manager = node.vxlan_manager;
  wires = node.wires;
  locked = [];
  observed = [];
  world = ([], node);
}

abbrev after : Node (beside lab "10.1.1.2")
after = (add_other_host (beside lab "10.1.1.2") background pod other_pod link two_hosts).1

added : (add_other_host (beside lab "10.1.1.2") background pod other_pod link two_hosts).0 ≡ ok tt
unfolding add_other_host lookup update
added = refl

add_other_host-AreEnds_example :
    BothSetUp lab "10.1.1.2" background pod other_pod link two_hosts.world after.world
add_other_host-AreEnds_example =
    add_other_host-AreEnds lab "10.1.1.2" background pod other_pod link two_hosts after
      (ap (λ r. (r, after)) added)

abbrev remote : RemotePod
remote = record {
  net_ns = "/run/netns/r2";
  intf_name = "eth2";
  intf_ip = "10.0.0.2/24";
  peer_vtep = "10.1.1.1";
  vni = pos 5002;
  kube_ns = "default";
  properties = none;
  name = "r2";
}

update-switched_example :
    update lab background remote (with_bypass lab true node)
    ≡ switched lab true (update lab background remote node)
update-switched_example = update-switched lab true background remote node

-- Durations are of 72 minutes.
abbrev slow_lab : Platform
slow_lab = record lab { parse_nanoseconds = λ s. ok (pos 4320000000000) }

parse_duration-exact_iff_example :
    (parse_duration slow_lab "72m" ≡ ok (4320000000000 / 1000)) ↔ (4320000000000 / 1000 < 2 ^ 32)
parse_duration-exact_iff_example =
    parse_duration-exact_iff slow_lab "72m" 4320000000000 (λ e. cc) refl

-- An API that takes no status.
abbrev refusing_lab : Platform
refusing_lab = record lab { api_update_status = λ ns t. fail (message "forbidden") }

abbrev cached_links : List Link
cached_links = a_link 1 "" ∷ []

abbrev cached : Topology
cached = record (topology (some cached_links) none) {
  status = record { skipped = none; src_ip = ""; net_ns = ""; links = none };
}

-- The informer's cache has the topology of r1.
abbrev caching : Node refusing_lab
caching = record {
  config = node.config;
  heap = record { object = λ q. cached; next = 1 };
  topology_store = ("default/r1", 0) ∷ [];
  topology_manager = [];
  vxlan_manager = node.vxlan_manager;
  wires = node.wires;
  locked = [];
  observed = [];
  world = [];
}

r1-IsCached : IsCached refusing_lab (λ f. f) pod 0 caching
unfolding lookup topology_key
r1-IsCached = refl

set_alive-refused_example :
    (m : Node refusing_lab) × (set_alive refusing_lab (λ f. f) pod caching
      ≡ (err (message "forbidden"), m))
    × (get refusing_lab (query_of pod) m ≡ (ok (pod_of (with_address pod cached) cached_links), m))
set_alive-refused_example =
    set_alive-refused refusing_lab (λ f. f) pod 0 caching cached_links (message "forbidden") []
      (λ f n n' e other failed. failed) r1-IsCached refl refl (λ e. cc)

finalizers-attempts_example :
    ((attempts 3 (set_finalizers refusing_lab (λ f. f) pod) caching).heap.object 0).finalizers
    ≡ [] ++ replicate 3 finalizer
finalizers-attempts_example =
    finalizers-attempts refusing_lab (λ f. f) pod 0 3 caching refl r1-IsCached
