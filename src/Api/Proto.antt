-- ===== src/Api/Proto.antt =====
-- The messages of proto/v1/kube_dtn.proto, as their Go structs. A pointer field may be nil.
use kube_dtn.Prelude.{ℕ, String, Option, List}
use kube_dtn.Prelude.Int.{ℤ}

pub record PbLinkProperties : Type 0 where
  pub latency : String
  pub latency_corr : String
  pub jitter : String
  pub loss : String
  pub loss_corr : String
  pub rate : String
  pub gap : ℕ
  pub duplicate : String
  pub duplicate_corr : String
  pub reorder_prob : String
  pub reorder_corr : String
  pub corrupt_prob : String
  pub corrupt_corr : String

pub record PbLink : Type 0 where
  pub peer_pod : String
  pub local_intf : String
  pub peer_intf : String
  pub local_ip : String
  pub peer_ip : String
  pub uid : ℤ
  pub properties : Option PbLinkProperties
  pub local_mac : String
  pub peer_mac : String

pub record Pod : Type 0 where
  pub name : String
  pub src_ip : String
  pub net_ns : String
  pub kube_ns : String
  pub links : List PbLink

pub record PodQuery : Type 0 where
  pub name : String
  pub kube_ns : String

pub record LinksBatchQuery : Type 0 where
  pub local_pod : Pod
  pub links : List PbLink

pub record SetupPodQuery : Type 0 where
  pub name : String
  pub kube_ns : String
  pub net_ns : String

pub record RemotePod : Type 0 where
  pub net_ns : String
  pub intf_name : String
  pub intf_ip : String
  pub peer_vtep : String
  pub kube_ns : String
  pub vni : ℤ
  pub properties : Option PbLinkProperties
  pub name : String

pub record WireDef : Type 0 where
  pub peer_intf_id : ℤ
  pub peer_ip : String
  pub intf_name_in_pod : String
  pub local_pod_net_ns : String
  pub link_uid : ℤ
  pub local_pod_name : String
  pub veth_name_local_host : String
  pub kube_ns : String
  pub local_pod_ip : String

pub record Packet : Type 0 where
  pub remot_intf_id : ℤ
  pub frame : List ℕ
