-- ===== src/Controller/Reconcile.antt =====
-- `Reconcile` and the RPCs that it makes.
pub mod Laws
use kube_dtn.Prelude.{
  String, Bool, true, false, Option, none, some, List, [], ◌∷◌, map, if◌then◌else◌, Action, Outcome,
  value, error, pure, fail, attempt, not_found, ◌>>=◌, ◌>>◌, Error,
}
use kube_dtn.Api.{Link, Topology}
use kube_dtn.Api.Equality.{links_deep_equal}
use kube_dtn.Api.Conversion.{to_proto}
use kube_dtn.Api.Proto.{LinksBatchQuery}
use kube_dtn.Controller.{Cluster}
use kube_dtn.Controller.Diff.{Diff, calc_diff}
use Prim.Native.String

abbrev pub default_port : String
default_port = "51111"

-- The query that all three RPCs send.
unfoldable pub batch_query : Topology → List Link → LinksBatchQuery
batch_query topology links = record {
  local_pod = record {
    name = topology.name;
    src_ip = topology.status.src_ip;
    net_ns = topology.status.net_ns;
    kube_ns = topology.namespace;
    links = [];
  };
  links = map to_proto links;
}

-- `client.IgnoreNotFound`
abbrev pub ignore_not_found : {S : Type 0} → Error → Action S (Unit {0})
ignore_not_found not_found = pure tt
ignore_not_found e = fail e

-- `"passthrough:///" + ip + ":" + common.DefaultPort`
abbrev pub daemon_address : String → String
daemon_address ip = String.◌++◌ "passthrough:///" (String.◌++◌ ip (String.◌++◌ ":" default_port))

module _ (c : Cluster) where
  open c use {World}

  unfoldable pub connect_daemon : String → Action World (Unit {0})
  connect_daemon ip = c.dial (daemon_address ip)

  -- The end of the three: on an error that is returned, on `Response == false` too `err` is
  -- returned, which is nil then.
  abbrev pub finish : Outcome Bool → Action World (Unit {0})
  finish (error e) = fail e
  finish (value response) = pure tt

  unfoldable pub add_links : Topology → List Link → Action World (Unit {0})
  unfolding connect_daemon batch_query
  add_links topology [] = pure tt
  add_links topology (l ∷ ls) = do
    connect_daemon topology.status.src_ip
    result ← attempt (c.add_links_rpc topology.status.src_ip (batch_query topology (l ∷ ls)))
    finish result

  unfoldable pub del_links : Topology → List Link → Action World (Unit {0})
  unfolding connect_daemon batch_query
  del_links topology [] = pure tt
  del_links topology (l ∷ ls) = do
    connect_daemon topology.status.src_ip
    result ← attempt (c.del_links_rpc topology.status.src_ip (batch_query topology (l ∷ ls)))
    finish result

  unfoldable pub update_links : Topology → List Link → Action World (Unit {0})
  unfolding connect_daemon batch_query
  update_links topology [] = pure tt
  update_links topology (l ∷ ls) = do
    connect_daemon topology.status.src_ip
    result ← attempt (c.update_links_rpc topology.status.src_ip (batch_query topology (l ∷ ls)))
    finish result

  -- `topology.Status.Links = topology.Spec.Links`
  abbrev pub with_spec_links : Topology → Topology
  with_spec_links t = record t { status = record (t.status) { links = t.spec.links } }

  -- The function that is retried: it reads the topology anew.
  unfoldable pub copy_links : String → String → Action World (Unit {0})
  copy_links namespace name = do
    found ← attempt (c.get_topology namespace name)
    elim found [
      | error e ↦ ignore_not_found e
      | value topology ↦ c.update_status (with_spec_links topology)
    ]

  -- The calls that a changed topology leads to, in their order.
  unfoldable pub apply_diff : Topology → Diff → Action World (Unit {0})
  apply_diff topology d = do
    del_links topology d.del
    add_links topology d.add
    update_links topology d.properties_changed

  abbrev pub links_of : {A : Type 0} → Option (List A) → List A
  links_of none = []
  links_of (some links) = links

  -- By the status: nil when the topology is seen for the first time.
  unfoldable pub from_status : Topology → Option (List Link) → Action World (Unit {0})
  unfolding apply_diff
  from_status topology none = pure tt
  from_status topology (some old) =
      apply_diff topology (calc_diff old (links_of topology.spec.links))

  -- What follows a successful read of the topology.
  unfoldable pub reconcile_found : String → String → Topology → Action World (Unit {0})
  unfolding from_status copy_links
  reconcile_found namespace name topology =
      if links_deep_equal topology.status.links topology.spec.links
      then pure tt
      else (from_status topology topology.status.links
          >> c.retry_on_conflict (copy_links namespace name))

  -- The result is always the empty `ctrl.Result`, so only the error is modelled.
  unfoldable pub reconcile : String → String → Action World (Unit {0})
  unfolding reconcile_found
  reconcile namespace name = do
    found ← attempt (c.get_topology namespace name)
    elim found [
      | error e ↦ ignore_not_found e
      | value topology ↦ reconcile_found namespace name topology
    ]
