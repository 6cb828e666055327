-- ===== src/Daemon/State.antt =====
-- The fields of `KubeDTN` (daemon/kubedtn/kubedtn.go) that change or that the calls read, with the
-- package variables of daemon/grpcwire/ and the world. `locked` lists the link mutexes that are held;
-- `observed` the methods whose latency was recorded, the latest first.
use kube_dtn.Prelude.{
  ℕ, String, Bool, false, List, [], ◌∷◌, Action, Result, ok, err, panic, ◌||◌, ◌==◌, if◌then◌else◌,
}
use kube_dtn.Prelude.Int.{ℤ, ℤ_eq}
use kube_dtn.Prelude.Maps.{Map}
use kube_dtn.Platform.{Platform, Do}
use kube_dtn.Metrics.TopologyManager.{Heap, Manager}
use kube_dtn.Vxlan.Manager.{VxlanManager}
use kube_dtn.Wire.Table.{Wires}

-- The configuration, which does not change.
pub record Config : Type 0 where
  pub tcpip_bypass : Bool
  pub node_ip : String
  pub vxlan_intf : String

pub record Node (p : Platform) : Type 0 where
  pub config : Config
  pub heap : Heap
  pub topology_store : Map String ℕ
  pub topology_manager : Manager
  pub vxlan_manager : VxlanManager
  pub wires : Wires p.Handle
  pub locked : List ℤ
  pub observed : List String
  pub world : p.World

module _ (p : Platform) where
  abbrev pub Call : Type 0 → Type 0
  Call A = Action (Node p) A

  -- an operation outside the daemon's memory
  abbrev pub on_world : {A : Type 0} → Do p A → Call A
  on_world m n = let (r, w) = m n.world in (r, record n { world = w })

  -- an operation on the wires and the world
  abbrev pub on_wires : {A : Type 0} → Action (Wires p.Handle × p.World) A → Call A
  on_wires m n = let (r, s) = m (n.wires, n.world) in (r, record n { wires = s.0; world = s.1 })

  abbrev pub is_held : ℤ → List ℤ → Bool
  is_held uid [] = false
  is_held uid (u ∷ us) = uid == u || is_held uid us

  -- `m.linkMutexes.Get(uid)` and `Lock`. A call that locks a mutex that it holds itself never
  -- comes back, which is modelled as a panic.
  unfoldable pub lock : ℤ → Call (Unit {0})
  lock uid n =
      if is_held uid n.locked then (panic, n) else (ok tt, record n { locked = uid ∷ n.locked })

  abbrev pub without : ℤ → List ℤ → List ℤ
  without uid [] = []
  without uid (u ∷ us) = if uid == u then us else u ∷ without uid us

  unfoldable pub unlock : ℤ → Call (Unit {0})
  unlock uid n = (ok tt, record n { locked = without uid n.locked })

  abbrev pub released : {A : Type 0} → ℤ → Result A × Node p → Result A × Node p
  released uid (r, n) = (r, record n { locked = without uid n.locked })

  abbrev pub locked_call :
      {A : Type 0} → ℤ → Call A → Result (Unit {0}) × Node p → Result A × Node p
  locked_call uid m (ok _, n) = released uid (m n)
  locked_call uid m (err e, n) = (err e, n)
  locked_call uid m (panic, n) = (panic, n)

  -- `mutex.Lock(); defer mutex.Unlock()` round the rest of a function, panics included
  abbrev pub with_lock : {A : Type 0} → ℤ → Call A → Call A
  with_lock uid m n = locked_call uid m (lock uid n)

  -- `m.latencyHistograms.Observe(method, …)`, without the time
  abbrev pub observe : String → Call (Unit {0})
  observe method n = (ok tt, record n { observed = method ∷ n.observed })
