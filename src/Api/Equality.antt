-- ===== src/Api/Equality.antt =====
-- `reflect.DeepEqual` on properties, links and slices of links.
use kube_dtn.Prelude.{◌≡◌, ◌↔◌, Bool, true, ◌&&◌, List, arith, eq_iff, Option}
use kube_dtn.Prelude.{Eq, ◌==◌, nat_eq_iff, option_eq, list_eq, ℕ_eq, String_eq}
use kube_dtn.Prelude.Int.{int_test_iff, ℤ_eq}
use kube_dtn.Api.{LinkProperties, Link}

unfoldable pub properties_equal : LinkProperties → LinkProperties → Bool
properties_equal a b =
    a.latency == b.latency
    && a.latency_corr == b.latency_corr
    && a.jitter == b.jitter
    && a.loss == b.loss
    && a.loss_corr == b.loss_corr
    && a.rate == b.rate
    && a.gap == b.gap
    && a.duplicate == b.duplicate
    && a.duplicate_corr == b.duplicate_corr
    && a.reorder_prob == b.reorder_prob
    && a.reorder_corr == b.reorder_corr
    && a.corrupt_prob == b.corrupt_prob
    && a.corrupt_corr == b.corrupt_corr

pub properties_equal_iff : (a b : LinkProperties) → (properties_equal a b ≡ true) ↔ (a ≡ b)
unfolding properties_equal
properties_equal_iff a b = ground (
  arith,
  eq_iff a.latency b.latency,
  eq_iff a.latency_corr b.latency_corr,
  eq_iff a.jitter b.jitter,
  eq_iff a.loss b.loss,
  eq_iff a.loss_corr b.loss_corr,
  eq_iff a.rate b.rate,
  nat_eq_iff a.gap b.gap,
  eq_iff a.duplicate b.duplicate,
  eq_iff a.duplicate_corr b.duplicate_corr,
  eq_iff a.reorder_prob b.reorder_prob,
  eq_iff a.reorder_corr b.reorder_corr,
  eq_iff a.corrupt_prob b.corrupt_prob,
  eq_iff a.corrupt_corr b.corrupt_corr,
)

-- All fields but the properties, as `EqualWithoutProperties` of controllers/ compares them.
unfoldable pub equal_without_properties : Link → Link → Bool
equal_without_properties a b =
    a.local_intf == b.local_intf
    && a.local_ip == b.local_ip
    && a.local_mac == b.local_mac
    && a.peer_intf == b.peer_intf
    && a.peer_ip == b.peer_ip
    && a.peer_mac == b.peer_mac
    && a.peer_pod == b.peer_pod
    && a.uid == b.uid

-- Two links name the same interfaces, addresses, peer and identifier.
pub record SameEnds (a b : Link) : Type 0 where
  pub local_intf : a.local_intf ≡ b.local_intf
  pub local_ip : a.local_ip ≡ b.local_ip
  pub local_mac : a.local_mac ≡ b.local_mac
  pub peer_intf : a.peer_intf ≡ b.peer_intf
  pub peer_ip : a.peer_ip ≡ b.peer_ip
  pub peer_mac : a.peer_mac ≡ b.peer_mac
  pub peer_pod : a.peer_pod ≡ b.peer_pod
  pub uid : a.uid ≡ b.uid

pub equal_without_properties_iff :
    (a b : Link) → (equal_without_properties a b ≡ true) ↔ SameEnds a b
unfolding equal_without_properties
equal_without_properties_iff a b = ground (
  arith,
  eq_iff a.local_intf b.local_intf,
  eq_iff a.local_ip b.local_ip,
  eq_iff a.local_mac b.local_mac,
  eq_iff a.peer_intf b.peer_intf,
  eq_iff a.peer_ip b.peer_ip,
  eq_iff a.peer_mac b.peer_mac,
  eq_iff a.peer_pod b.peer_pod,
  int_test_iff a.uid b.uid,
)

unfoldable pub link_equal : Link → Link → Bool
link_equal a b = equal_without_properties a b && properties_equal a.properties b.properties

pub link_equal_iff : (a b : Link) → (link_equal a b ≡ true) ↔ (a ≡ b)
unfolding link_equal
link_equal_iff a b =
    ground (arith, equal_without_properties_iff a b, properties_equal_iff a.properties b.properties)

pub eq_of_parts :
    (a b : Link)
    → equal_without_properties a b ≡ true
    → properties_equal a.properties b.properties ≡ true
    → a ≡ b
unfolding link_equal
eq_of_parts a b h k = (link_equal_iff a b).0 (ground arith)

instance abbrev pub LinkProperties_eq : Eq LinkProperties
LinkProperties_eq = record { test = properties_equal; test_iff = properties_equal_iff }

instance abbrev pub Link_eq : Eq Link
Link_eq = record { test = link_equal; test_iff = link_equal_iff }

abbrev pub links_deep_equal : Option (List Link) → Option (List Link) → Bool
links_deep_equal a b = a == b
