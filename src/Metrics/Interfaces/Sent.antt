-- ===== src/Metrics/Interfaces/Sent.antt =====
-- What the collector sends (daemon/metrics/interface_statistics.go).
use kube_dtn.Prelude.{
  ℕ, ◌≡◌, ◌≢◌, ◌↔◌, ◌>>=◌, Result, ok, err, Outcome, value, error, String, List, [], ◌∷◌, String_eq,
}
use kube_dtn.Prelude.Lists.{In}
use kube_dtn.Api.{Topology}
use kube_dtn.Platform.{Platform, Do}
use kube_dtn.Metrics.TopologyManager.{Heap}
use kube_dtn.Metrics.TopologyManager
use kube_dtn.Metrics.Interfaces.{
  Desc, rx_packets, rx_bytes, tx_packets, tx_bytes, rx_errors, tx_errors, rx_dropped, tx_dropped,
  LinkStatistics, Metric,
}

-- The statistic that a description is of.
abbrev pub statistic : Desc → LinkStatistics → ℕ
statistic rx_packets l = l.rx_packets
statistic rx_bytes l = l.rx_bytes
statistic tx_packets l = l.tx_packets
statistic tx_bytes l = l.tx_bytes
statistic rx_errors l = l.rx_errors
statistic tx_errors l = l.tx_errors
statistic rx_dropped l = l.rx_dropped
statistic tx_dropped l = l.tx_dropped

-- The metric of a description for a link of a topology.
abbrev pub metric_of : Topology → LinkStatistics → Desc → Metric
metric_of t l d = record {
  desc = d;
  count = statistic d l;
  labels = l.name ∷ t.name ∷ t.namespace ∷ [];
}

module _ (t : Topology) where
  -- A metric of one of some links.
  abbrev pub IsOf : List LinkStatistics → Metric → Type 0
  IsOf links x = (l : LinkStatistics) × (d : Desc) × In l links × (x ≡ metric_of t l d)

-- A call that gives a value or an error.
abbrev pub result_of : {A : Type 0} → Outcome A → Result A
result_of (value a) = ok a
result_of (error e) = err e

-- Looking at namespaces and their links changes nothing: a namespace is found or not, and its links
-- are listed or not.
pub record IsSteady (p : Platform) (link_statistics : p.Netns → Do p (List LinkStatistics))
    : Type 0 where
  pub namespace : String → Outcome p.Netns
  pub links : p.Netns → Outcome (List LinkStatistics)
  pub gets : (path : String) (w : p.World) → p.get_ns path w ≡ (result_of (namespace path), w)
  pub enters : (ns : p.Netns) (w : p.World) → p.enter ns w ≡ (ok tt, w)
  pub lists : (ns : p.Netns) (w : p.World) → link_statistics ns w ≡ (result_of (links ns), w)

module _ (p : Platform) (link_statistics : p.Netns → Do p (List LinkStatistics))
    (steady : IsSteady p link_statistics) where
  abbrev listed : Outcome (List LinkStatistics) → List LinkStatistics
  listed (value links) = links
  listed (error e) = []

  abbrev links_in : Outcome p.Netns → List LinkStatistics
  links_in (value ns) = listed (steady.links ns)
  links_in (error e) = []

  -- The links of a namespace, as far as they can be listed.
  abbrev pub links_of : String → List LinkStatistics
  links_of path = links_in (steady.namespace path)

  -- Of a topology that is listed and has a namespace, for one of the namespace's links.
  abbrev pub IsListed : Heap → List ℕ → Metric → Type 0
  IsListed h pointers x =
      (q : ℕ) × In q pointers
      × ((h.object q).status.net_ns ≢ "")
      × IsOf (h.object q) (links_of (h.object q).status.net_ns) x

  Sent : Heap → List ℕ → Do p (List Metric) → p.World → Type 0
  Sent h pointers m w =
      (sent : List Metric) × (m w ≡ (ok sent, w))
      × ((x : Metric) → In x sent ↔ IsListed h pointers x)
