-- ===== src/Api.antt =====
-- The custom resource (api/v1/topology_types.go). A Go slice is an `Option` of a list: `none` is
-- the nil slice, which `reflect.DeepEqual` tells apart from the empty one. A Go `int` is 64 bits.
pub mod Cells
pub mod Scheme
pub mod DeepCopy
pub mod Proto
pub mod Client
pub mod Equality
pub mod Conversion
use kube_dtn.Prelude.{ℕ, String, Option, List}
use kube_dtn.Prelude.Int.{ℤ}

pub record LinkProperties : Type 0 where
  pub latency : String
  pub latency_corr : String
  pub jitter : String
  pub loss : String
  pub loss_corr : String
  pub rate : String
  pub gap : ℕ
  pub duplicate : String
  pub duplicate_corr : String
  pub reorder_prob : String
  pub reorder_corr : String
  pub corrupt_prob : String
  pub corrupt_corr : String

pub record Link : Type 0 where
  pub local_intf : String
  pub local_ip : String
  pub local_mac : String
  pub peer_intf : String
  pub peer_ip : String
  pub peer_mac : String
  pub peer_pod : String
  pub uid : ℤ
  pub properties : LinkProperties

pub record TopologySpec : Type 0 where
  pub links : Option (List Link)

pub record TopologyStatus : Type 0 where
  pub skipped : Option (List String)
  pub src_ip : String
  pub net_ns : String
  pub links : Option (List Link)

-- Of the object's metadata: the fields that the code reads or writes.
pub record Topology : Type 0 where
  pub name : String
  pub namespace : String
  pub finalizers : List String
  pub spec : TopologySpec
  pub status : TopologyStatus
