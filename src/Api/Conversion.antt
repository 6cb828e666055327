-- ===== src/Api/Conversion.antt =====
-- `ToProto` of links and properties (api/v1/topology_types.go).
use kube_dtn.Prelude.{◌≡◌, some}
use kube_dtn.Api.{LinkProperties, Link}
use kube_dtn.Api.Proto.{PbLinkProperties, PbLink}

-- `(p *LinkProperties) ToProto`
unfoldable pub properties_to_proto : LinkProperties → PbLinkProperties
properties_to_proto p = record {
  latency = p.latency;
  latency_corr = p.latency_corr;
  jitter = p.jitter;
  loss = p.loss;
  loss_corr = p.loss_corr;
  rate = p.rate;
  gap = p.gap;
  duplicate = p.duplicate;
  duplicate_corr = p.duplicate_corr;
  reorder_prob = p.reorder_prob;
  reorder_corr = p.reorder_corr;
  corrupt_prob = p.corrupt_prob;
  corrupt_corr = p.corrupt_corr;
}

-- `(l *Link) ToProto`
unfoldable pub to_proto : Link → PbLink
unfolding properties_to_proto
to_proto l = record {
  peer_pod = l.peer_pod;
  local_intf = l.local_intf;
  peer_intf = l.peer_intf;
  local_ip = l.local_ip;
  peer_ip = l.peer_ip;
  uid = l.uid;
  properties = some (properties_to_proto l.properties);
  local_mac = l.local_mac;
  peer_mac = l.peer_mac;
}

-- Nothing of a link is lost on the way to the daemon: links with equal messages are equal.
to_proto-injective : (a b : Link) → to_proto a ≡ to_proto b → a ≡ b
unfolding to_proto
to_proto-injective a b h = cc
