-- ===== src/Daemon/Topologies.antt =====
-- Reading and writing topologies (daemon/kubedtn/handler.go): `getPod`, `updateStatus`, `Get`,
-- `ToProtoPod`.
use kube_dtn.Prelude.{
  ℕ, String, Option, none, some, map, message, ok, pure, fail, ◌>>=◌, ◌==◌, String_eq,
  if◌then◌else◌,
}
use kube_dtn.Prelude.Maps.{lookup}
use kube_dtn.Api.{Topology}
use kube_dtn.Api.Proto.{Pod, PodQuery}
use kube_dtn.Api.Conversion.{to_proto}
use kube_dtn.Platform.{Platform}
use kube_dtn.Metrics.TopologyManager.{topology_key, alloc}
use kube_dtn.Daemon.State.{Call, on_world}

module _ (p : Platform) where
  -- a new object for what the Kubernetes API returned
  abbrev pub alloc_object : Topology → Call p ℕ
  alloc_object t n = let (pointer, h) = alloc t n.heap in (ok pointer, record n { heap = h })

  abbrev pub default_ns : String → String
  default_ns ns = if ns == "" then "default" else ns

  -- The pointer that the informer's cache holds, or a new one.
  unfoldable pub from_cache : String → String → Option ℕ → Call p ℕ
  unfolding alloc
  from_cache name ns (some pointer) = pure pointer
  from_cache name ns none = on_world p (p.api_get ns name) >>= alloc_object

  -- `getPod`. (`GetByKey` of the cache gives no error.)
  unfoldable pub get_pod : String → String → Call p ℕ
  unfolding topology_key from_cache
  get_pod name ns n =
      from_cache name (default_ns ns) (lookup (topology_key (default_ns ns) name) n.topology_store)
        n

  -- the object behind a pointer
  abbrev pub deref : ℕ → Call p Topology
  deref pointer n = (ok (n.heap.object pointer), n)

  unfoldable pub update_status : Topology → String → Call p (Unit {0})
  update_status topology ns = on_world p (p.api_update_status ns topology)

  unfoldable pub to_proto_pod : Topology → Call p Pod
  unfolding to_proto
  to_proto_pod topology = elim topology.spec.links [
    | none ↦ fail (message "could not find 'Link' array in pod's spec")
    | some links ↦ pure (record {
      name = topology.name;
      src_ip = topology.status.src_ip;
      net_ns = topology.status.net_ns;
      kube_ns = topology.namespace;
      links = map to_proto links;
    })
  ]

  unfoldable pub get : PodQuery → Call p Pod
  unfolding get_pod to_proto_pod
  get query = do
    pointer ← get_pod query.name query.kube_ns
    topology ← deref pointer
    to_proto_pod topology
