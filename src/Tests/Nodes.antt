-- ===== src/Tests/Nodes.antt =====
-- Two daemons at once, and a daemon's start.
use kube_dtn.Prelude.{
  ℕ, ◌-◌, ◌≡◌, ◌<◌, refl, true, false, Bool, Option, String, none, some, List, [], ◌∷◌, ok, err,
  arith, inl, message, String_eq, if◌then◌else◌,
}
use kube_dtn.Prelude.Maps.{Map, lookup}
use kube_dtn.Prelude.Text.{contains_text, after_prefix}
use kube_dtn.Api.{Topology}
use kube_dtn.Daemon.Interleaving.{
  finished, System, making, waiting, calling, Reach, Step, start, later, by, lock_own, unlock_own,
  reach_peer, put, initial,
}
use kube_dtn.Daemon.Interleaving.Progress.{Goes, no_deadlock, calls_return}
use kube_dtn.Daemon.Interleaving.Mutexes.{mutual_exclusion}
use kube_dtn.CniConfig.{CniFiles, init, install, load_conf_list}
use kube_dtn.CniConfig.Restart.{SameForeign, init_again}
use kube_dtn.Metrics.TopologyManager.{Heap, get, remove, topology_key}
use kube_dtn.Metrics.TopologyManager
use kube_dtn.Metrics.TopologyManager.Keys.{key-ne-name, get-remove-init}
use kube_dtn.Tests.Lab.{topology, lab}
use kube_dtn.Platform.{Do}
use kube_dtn.Metrics.Interfaces.{LinkStatistics}

-- The two ends of a link, whose daemons call each other.
abbrev own : ℕ → ℕ
own i = i

abbrev peer : ℕ → ℕ
peer i = 1 - i

-- The first call has made its device and waits at the peer, whose own call makes its device.
abbrev after_lock : System
after_lock = record {
  pc = put (initial own peer).pc 0 making;
  holder = put (initial own peer).holder 0 (some 0);
}

abbrev after_unlock : System
after_unlock = record { pc = put after_lock.pc 0 calling; holder = put after_lock.holder 0 none }

abbrev after_reach : System
after_reach = record after_unlock { pc = put after_unlock.pc 0 waiting }

abbrev both : System
both = record { pc = put after_reach.pc 1 making; holder = put after_reach.holder 1 (some 1) }

both-Reach : Reach own peer 2 4 both
both-Reach =
    later
      (later
        (later (later start (by 0 (omega arith) (lock_own refl refl refl)))
          (by 0 (omega arith) (unlock_own refl refl)))
        (by 0 (omega arith) (reach_peer refl refl)))
      (by 1 (omega arith) (lock_own refl refl refl))

calls_return_example : (t : System) × Goes own peer 2 both t × ((i : ℕ) → i < 2 → t.pc i ≡ finished)
calls_return_example = calls_return own peer 2 4 both both-Reach

no_deadlock_example : (t : System) × Step own peer 2 both t
no_deadlock_example = no_deadlock own peer 2 4 both 0 both-Reach (omega arith) (λ e. cc)

abbrev second : ℕ
second = 1

mutual_exclusion_example : second ≡ second
mutual_exclusion_example = mutual_exclusion own peer both-Reach second second 1 refl refl

abbrev t1 : Topology
t1 = topology none none

abbrev empty_heap : Heap
empty_heap = record { object = λ q. t1; next = 0 }

get-remove-init_example :
    (get "r1" "default" (TopologyManager.init (t1 ∷ []) empty_heap []).1 ≡ none)
    × ((q : ℕ) × (lookup "r1"
            (remove "r1" "default" (TopologyManager.init (t1 ∷ []) empty_heap []).1)
          ≡ some q))
get-remove-init_example =
    get-remove-init (t1 ∷ []) empty_heap t1 (inl refl) (key-ne-name "default" "r1", tt)

-- JSON values of the sample node.
pub data Json : Type 0 where
  text : String → Json
  net_conf : String → String → Json
  empty : Json
  cell : Json → Json → Json

abbrev pub items : List Json → Json
items [] = empty
items (v ∷ vs) = cell v (items vs)

abbrev pub as_list : Json → Option (List Json)
as_list (text s) = none
as_list (net_conf t n) = none
as_list empty = some []
as_list (cell v vs) = elim (as_list vs) [ none ↦ none | some rest ↦ some (v ∷ rest) ]

-- A node with the configuration of another plugin; its world says whether this one has run.
abbrev pub files : CniFiles
files = record {
  World = Bool;
  conf_files = λ w. (
    ok (if w then "00-kubedtn.conflist" ∷ "10-calico.conflist" ∷ [] else "10-calico.conflist" ∷ []),
    w,
  );
  sort_strings = λ fs. fs;
  ConfList = Map String Json;
  Conf = ℕ;
  conf_list_from_file = λ f w. (ok (("plugins", items (text "calico" ∷ [])) ∷ []), w);
  conf_from_file = λ f w. (err (message "error parsing configuration"), w);
  network_type = λ c. "";
  conf_list_from_conf = λ c. err (message "no list");
  plugin_count = λ l. 1;
  Value = Json;
  as_list = as_list;
  of_list = items;
  of_text = text;
  of_net_conf = net_conf;
  unmarshal = λ l. ok l;
  marshal = λ m. ok "{}";
  write_file = λ path content w. (ok tt, true);
  remove_file = λ path w. (ok tt, false);
  getenv = λ name w. "VXLAN";
}

abbrev conf : Map String Json
conf = ("plugins", items (text "calico" ∷ [])) ∷ []

loaded : load_conf_list files false ≡ (ok conf, false)
unfolding load_conf_list after_prefix
loaded = refl

files-SameForeign : SameForeign files false true
unfolding contains_text after_prefix
files-SameForeign = record {
  files = "10-calico.conflist" ∷ [];
  files' = "00-kubedtn.conflist" ∷ "10-calico.conflist" ∷ [];
  listed = refl;
  listed' = refl;
  same = refl;
  lists = λ f foreign. (_, refl, refl);
  confs = λ f foreign. (_, refl, refl);
}

init_again_example :
    (init files false ≡ install files conf false) × (init files true ≡ install files conf true)
init_again_example = init_again files false true files-SameForeign conf (λ fs f i. i) loaded

-- A collector on the node: one topology that is running, with one device.
abbrev device : LinkStatistics
device = record {
  name = "eth1";
  rx_packets = 3;
  rx_bytes = 180;
  tx_packets = 2;
  tx_bytes = 120;
  rx_errors = 0;
  tx_errors = 0;
  rx_dropped = 1;
  tx_dropped = 0;
}

abbrev statistics : String → Do lab (List LinkStatistics)
statistics ns w = (ok (device ∷ []), w)
