-- ===== src/Metrics/Interfaces.antt =====
-- The collector of interface statistics (daemon/metrics/interface_statistics.go). Prometheus is left
-- out: what is sent to its channel is a list of metrics.
pub mod Sent
use kube_dtn.Prelude.{
  ℕ, String, List, [], ◌∷◌, ◌++◌, value, error, pure, attempt, ◌>>=◌, ◌>>◌, ◌==◌, String_eq,
  if◌then◌else◌,
}
use kube_dtn.Api.{Topology}
use kube_dtn.Platform.{Platform, Do}
use kube_dtn.Metrics.TopologyManager.{Heap, Manager}
use kube_dtn.Metrics.TopologyManager

pub data Desc : Type 0 where
  rx_packets rx_bytes tx_packets tx_bytes rx_errors tx_errors rx_dropped tx_dropped : Desc

-- `netlink.LinkStatistics` with the link's name, of which these are read
pub record LinkStatistics : Type 0 where
  pub name : String
  pub rx_packets : ℕ
  pub rx_bytes : ℕ
  pub tx_packets : ℕ
  pub tx_bytes : ℕ
  pub rx_errors : ℕ
  pub tx_errors : ℕ
  pub rx_dropped : ℕ
  pub tx_dropped : ℕ

-- A counter's value before its conversion to a float, and its labels: interface, pod, namespace.
pub record Metric : Type 0 where
  pub desc : Desc
  pub count : ℕ
  pub labels : List String

-- `Describe`
abbrev pub describe : List Desc
describe =
    rx_packets ∷ rx_bytes ∷ tx_packets ∷ tx_bytes ∷ rx_errors ∷ tx_errors ∷ rx_dropped ∷ tx_dropped
    ∷ []

abbrev pub labels_of : Topology → LinkStatistics → List String
labels_of topology link = link.name ∷ topology.name ∷ topology.namespace ∷ []

-- What is sent for one link.
unfoldable pub link_metrics : Topology → LinkStatistics → List Metric
link_metrics topology link =
    record { desc = rx_bytes; count = link.rx_bytes; labels = labels_of topology link }
    ∷ record { desc = rx_packets; count = link.rx_packets; labels = labels_of topology link }
    ∷ record { desc = tx_bytes; count = link.tx_bytes; labels = labels_of topology link }
    ∷ record { desc = tx_packets; count = link.tx_packets; labels = labels_of topology link }
    ∷ record { desc = rx_errors; count = link.rx_errors; labels = labels_of topology link }
    ∷ record { desc = tx_errors; count = link.tx_errors; labels = labels_of topology link }
    ∷ record { desc = rx_dropped; count = link.rx_dropped; labels = labels_of topology link }
    ∷ record { desc = tx_dropped; count = link.tx_dropped; labels = labels_of topology link }
    ∷ []

unfoldable pub links_metrics : Topology → List LinkStatistics → List Metric
unfolding link_metrics
links_metrics topology [] = []
links_metrics topology (link ∷ links) = link_metrics topology link ++ links_metrics topology links

-- `netlink.LinkList` with the statistics, in a namespace
module _ (p : Platform) (link_statistics : p.Netns → Do p (List LinkStatistics)) where
  -- `listLinks`
  unfoldable pub list_links : String → Do p (List LinkStatistics)
  list_links ns_name = do
    ns ← (if ns_name == "" then p.current_ns else p.get_ns ns_name)
    p.enter ns
    link_statistics ns

  -- `collectIpRouteMetrics`: an error is only logged.
  unfoldable pub collect_ip_route_metrics : Topology → Do p (List Metric)
  unfolding list_links links_metrics
  collect_ip_route_metrics topology = do
    found ← attempt (list_links topology.status.net_ns)
    elim found [ error e ↦ pure [] | value links ↦ pure (links_metrics topology links) ]

  abbrev pub collect_one : Topology → Do p (List Metric)
  collect_one topology =
      if topology.status.net_ns == "" then pure [] else collect_ip_route_metrics topology

  unfoldable pub collect_each : Heap → List ℕ → Do p (List Metric)
  unfolding collect_ip_route_metrics
  collect_each h [] = pure []
  collect_each h (pointer ∷ pointers) = do
    sent ← collect_one (h.object pointer)
    rest ← collect_each h pointers
    pure (sent ++ rest)

  -- `Collect`
  unfoldable pub collect : Heap → Manager → Do p (List Metric)
  unfolding collect_each TopologyManager.list
  collect h m = collect_each h (TopologyManager.list m)
