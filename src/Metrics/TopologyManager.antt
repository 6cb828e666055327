-- ===== src/Metrics/TopologyManager.antt =====
-- `TopologyManager` (daemon/metrics/topology_manager.go). Its map holds pointers to topologies,
-- which stand in a heap that the informer's cache shares.
pub mod Keys
use Prim.Native.String
use kube_dtn.Prelude.{ℕ, suc, String, Option, List, [], ◌∷◌, map, nat_eq, if◌then◌else◌, String_eq}
use kube_dtn.Prelude.Maps.{Map, lookup, insert, delete}
use kube_dtn.Api.{Topology}

-- The topologies in memory; `next` is the first pointer that is not in use.
pub record Heap : Type 0 where
  pub object : ℕ → Topology
  pub next : ℕ

unfoldable pub write : ℕ → Topology → Heap → Heap
write pointer t h = record h { object = λ q. if nat_eq pointer q then t else h.object q }

-- `&topology` of a new variable
unfoldable pub alloc : Topology → Heap → ℕ × Heap
unfolding write
alloc t h = (h.next, record (write h.next t h) { next = suc h.next })

abbrev pub Manager : Type 0
Manager = Map String ℕ

-- `fmt.Sprintf("%s/%s", ns, name)`
unfoldable pub topology_key : String → String → String
topology_key ns name = String.◌++◌ ns (String.◌++◌ "/" name)

-- `Init`: each round has a variable of its own, and the key is the name alone.
unfoldable pub init : List Topology → Heap → Manager → Heap × Manager
unfolding alloc
init [] h m = (h, m)
init (t ∷ ts) h m = let (pointer, h') = alloc t h in init ts h' (insert t.name pointer m)

-- `Add` of the topology behind a pointer
unfoldable pub add : Topology → ℕ → Manager → Manager
unfolding topology_key
add t pointer m = insert (topology_key t.namespace t.name) pointer m

-- `Delete`
unfoldable pub remove : String → String → Manager → Manager
unfolding topology_key
remove name ns m = delete (topology_key ns name) m

-- `Get`; a missing key gives the nil pointer
unfoldable pub get : String → String → Manager → Option ℕ
unfolding topology_key
get name ns m = lookup (topology_key ns name) m

-- `List`; Go's order is unspecified
unfoldable pub list : Manager → List ℕ
list m = map (λ (entry : String × ℕ). entry.1) m

-- `Update`: the key is the name alone
unfoldable pub update : Topology → ℕ → Manager → Manager
update t pointer m = insert t.name pointer m
