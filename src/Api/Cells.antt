-- ===== src/Api/Cells.antt =====
-- The structs of the resource (api/v1/topology_types.go) as they stand in a memory in which slices
-- share arrays and pointers point to elements of arrays. The metadata, whose maps and pointers are
-- in a memory of their own, is apimachinery's.
use kube_dtn.Prelude.{String, Option, none}
use kube_dtn.Prelude.Int.{pos}
use kube_dtn.Prelude.Memory.{Slice, Store}
use kube_dtn.Api.{LinkProperties, Link}

-- The types of apimachinery and the `DeepCopyInto` of its two kinds of metadata.
pub record Machinery : Type 1 where
  pub TypeMeta : Type 0
  pub ObjectMeta : Type 0
  pub ListMeta : Type 0
  pub MetaHeap : Type 0
  pub no_type_meta : TypeMeta
  pub no_object_meta : ObjectMeta
  pub no_list_meta : ListMeta
  pub copy_object_meta : ObjectMeta → MetaHeap → ObjectMeta × MetaHeap
  pub copy_list_meta : ListMeta → MetaHeap → ListMeta × MetaHeap

-- The structs as they stand in memory.
pub record SpecCell : Type 0 where
  pub links : Option Slice

pub record StatusCell : Type 0 where
  pub skipped : Option Slice
  pub src_ip : String
  pub net_ns : String
  pub links : Option Slice

pub record TopologyCell (k : Machinery) : Type 0 where
  pub type_meta : k.TypeMeta
  pub object_meta : k.ObjectMeta
  pub spec : SpecCell
  pub status : StatusCell

pub record ListCell (k : Machinery) : Type 0 where
  pub type_meta : k.TypeMeta
  pub list_meta : k.ListMeta
  pub items : Option Slice

-- The arrays, by the type of their elements.
pub record Memory (k : Machinery) : Type 0 where
  pub strings : Store String
  pub links : Store Link
  pub properties : Store LinkProperties
  pub specs : Store SpecCell
  pub statuses : Store StatusCell
  pub topologies : Store (TopologyCell k)
  pub lists : Store (ListCell k)
  pub metas : k.MetaHeap

-- The zero values
abbrev pub zero_properties : LinkProperties
zero_properties = record {
  latency = "";
  latency_corr = "";
  jitter = "";
  loss = "";
  loss_corr = "";
  rate = "";
  gap = 0;
  duplicate = "";
  duplicate_corr = "";
  reorder_prob = "";
  reorder_corr = "";
  corrupt_prob = "";
  corrupt_corr = "";
}

abbrev pub zero_link : Link
zero_link = record {
  local_intf = "";
  local_ip = "";
  local_mac = "";
  peer_intf = "";
  peer_ip = "";
  peer_mac = "";
  peer_pod = "";
  uid = pos 0;
  properties = zero_properties;
}

abbrev pub zero_spec : SpecCell
zero_spec = record { links = none }

abbrev pub zero_status : StatusCell
zero_status = record { skipped = none; src_ip = ""; net_ns = ""; links = none }

module _ (k : Machinery) where
  abbrev pub zero_topology : TopologyCell k
  zero_topology = record {
    type_meta = k.no_type_meta;
    object_meta = k.no_object_meta;
    spec = zero_spec;
    status = zero_status;
  }

  abbrev pub zero_list : ListCell k
  zero_list = record { type_meta = k.no_type_meta; list_meta = k.no_list_meta; items = none }
