-- ===== src/Tests/Memory.antt =====
-- Deep copies, the mutexes of links, names of interfaces, and the controller's start at work.
use kube_dtn.Prelude.{
  ℕ, ◌≡◌, ◌≢◌, ◌↔◌, refl, Bool, true, false, none, some, List, [], ◌∷◌, ok, arith, ℕ_eq,
}
use kube_dtn.Prelude.Memory.{Slice, Pointer, Store, assign}
use kube_dtn.Api.Scheme.{Kind}
use kube_dtn.Api.Cells.{Machinery, TopologyCell, Memory, zero_topology}
use kube_dtn.Api.DeepCopy.{topology_deep_copy}
use kube_dtn.Api.DeepCopy.Apart.{
  IsTopology, KeepsOld, KeepsNew, after_copy, shown, topology_deep_copy-isolated,
}
use kube_dtn.Common.MutexMap.{MutexMap, no_mutexes, get, gets}
use kube_dtn.Common.MutexMap.Distinct.{get-same_iff}
use kube_dtn.Wire.Names.{gen_node_iface_name}
use kube_dtn.Wire.Names.Distinct.{gen_names, gen_node_iface_name-distinct}
use kube_dtn.Controller.Main.{
  ControllerRuntime, parsed, init_scheme, setup_with_manager, run_manager, run_with, main,
}
use kube_dtn.Controller.Main.Started.{OnlyStart, StartedReady, main-StartedReady}
use kube_dtn.Tests.Lab.{a_link, wires}

-- Metadata are numbers, which are copied as they are.
abbrev machinery : Machinery
machinery = record {
  TypeMeta = ℕ;
  ObjectMeta = ℕ;
  ListMeta = ℕ;
  MetaHeap = ℕ;
  no_type_meta = 0;
  no_object_meta = 0;
  no_list_meta = 0;
  copy_object_meta = λ o h. (o, h);
  copy_list_meta = λ o h. (o, h);
}

abbrev no_array : {A : Type 0} → Store A
no_array = record { next = 0; array = λ q. [] }

-- A topology whose status shows the links of its specification: both are one slice.
abbrev shared : Slice
shared = record { base = 0; offset = 0; len = 2 }

abbrev cell : TopologyCell machinery
cell = record (zero_topology machinery) {
  spec = record { links = some shared };
  status = record { skipped = none; src_ip = "10.1.1.1"; net_ns = ""; links = some shared };
}

abbrev memory : Memory machinery
memory = record {
  strings = no_array;
  links = record { next = 1; array = λ q. a_link 1 "" ∷ a_link 2 "" ∷ [] };
  properties = no_array;
  specs = no_array;
  statuses = no_array;
  topologies = record { next = 1; array = λ q. cell ∷ [] };
  lists = no_array;
  metas = 0;
}

abbrev original : Pointer
original = record { base = 0; index = 0 }

original-IsTopology : IsTopology machinery memory original
original-IsTopology = record {
  in_memory = omega arith;
  cell = cell;
  holds = refl;
  spec_links = (omega arith, omega arith);
  skipped = tt;
  status_links = (omega arith, omega arith);
}

-- The first link is overwritten: in the original, and in the copy's specification.
abbrev written : ℕ → Memory machinery
written base =
    let m = after_copy machinery original memory in
    record m { links = assign (record { base = base; index = 0 }) (a_link 9 "1Gbit") m.links }

written-KeepsNew : KeepsNew machinery memory (after_copy machinery original memory) (written 0)
written-KeepsNew = (λ a h. refl, (λ a h. ground (arith, h)), λ a h. refl)

written-KeepsOld : KeepsOld machinery memory (after_copy machinery original memory) (written 1)
written-KeepsOld = (λ a h. refl, (λ a h. ground (arith, h)), λ a h. refl)

topology_deep_copy-isolated_example :
    (q : Pointer) × ((topology_deep_copy machinery (some original) memory).0 ≡ ok (some q))
    × (shown machinery (written 0) q ≡ shown machinery memory original)
    × (shown machinery (written 1) original ≡ shown machinery memory original)
topology_deep_copy-isolated_example =
    topology_deep_copy-isolated machinery original memory (written 0) (written 1)
      original-IsTopology written-KeepsNew written-KeepsOld

abbrev link_uids : List ℕ
link_uids = 7 ∷ 3 ∷ []

abbrev seven : ℕ
seven = 7

abbrev link_mutexes : MutexMap ℕ
link_mutexes = (get seven (gets link_uids no_mutexes)).1

get-same_iff_example :
    ((get seven (gets link_uids link_mutexes)).0 ≡ (get seven (gets link_uids no_mutexes)).0)
    ↔ (seven ≡ seven)
get-same_iff_example = get-same_iff link_uids link_uids seven seven

gen_node_iface_name-distinct_example :
    (gen_node_iface_name "r1" "eth1" wires).0
    ≢ (gen_node_iface_name "r1" "eth1"
        (gen_names (("r2", "eth1") ∷ []) (gen_node_iface_name "r1" "eth1" wires).1)).0
gen_node_iface_name-distinct_example =
    gen_node_iface_name-distinct "r1" "eth1" "r1" "eth1" (("r2", "eth1") ∷ []) wires (ground arith)

-- A controller-runtime that does all it is asked; its world says whether a manager is started.
abbrev runtime : ControllerRuntime
runtime = record {
  World = Bool;
  Config = ℕ;
  Manager = ℕ;
  Client = ℕ;
  Scheme = List Kind;
  new_scheme = [];
  add_client_go = λ s. ok s;
  add_to_scheme = λ b s. ok b.kinds;
  parse_flags = λ f w. (ok (parsed f), w);
  get_config = λ w. (ok 1, w);
  new_manager = λ c o w. (ok 2, w);
  get_client = λ m. 3;
  get_scheme = λ m. [];
  complete = λ m k n r w. (ok tt, w);
  add_healthz_check = λ m name w. (ok tt, w);
  add_readyz_check = λ m name w. (ok tt, w);
  start = λ m w. (ok tt, true);
}

runtime-OnlyStart : OnlyStart runtime (λ w. w)
runtime-OnlyStart = record {
  parse-Keeps = λ f w. refl;
  config-Keeps = λ w. refl;
  manager-Keeps = λ c o w. refl;
  complete-Keeps = λ m r w. refl;
  healthz-Keeps = λ m w. refl;
  readyz-Keeps = λ m w. refl;
}

has_started : (main runtime false).1 ≡ true
unfolding main init_scheme run_with run_manager setup_with_manager
has_started = refl

main-StartedReady_example : StartedReady runtime (λ w. w) false
main-StartedReady_example =
    main-StartedReady runtime (λ w. w) runtime-OnlyStart false refl has_started
