-- ===== src/Tests/Daemon.antt =====
-- The daemon's theorems at work on the small node.
use kube_dtn.Prelude.{
  arith, ◌≡◌, ◌≢◌, refl, true, none, some, [], ◌∷◌, ok, panic, if◌then◌else◌, ◌==◌, String_eq,
  pair_eq,
}
use kube_dtn.Prelude.Int.{pos, ℤ_eq}
use kube_dtn.Prelude.Text.{after_prefix}
use kube_dtn.Prelude.Maps.{lookup, insert}
use kube_dtn.Api.Proto.{PbLink, RemotePod}
use kube_dtn.Prelude.{List, String}
use kube_dtn.Wire.Table.Refinement.{
  Operation, added, deleted, named, apply_operations, promised, view, apply_operations-promised,
}
use kube_dtn.Wire.Remove.{remove_wire}
use kube_dtn.Wire.Remove.Stuck.{IsStuck, remove_wire-IsStuck}
use kube_dtn.Vxlan.Manager
use kube_dtn.Daemon.RemoteUpdate.Known.{get-update}
use kube_dtn.Daemon.State.{Call, lock}
use kube_dtn.Daemon.Valid.Locks.{run_calls-KeepsLocks}
use kube_dtn.Daemon.RemoteUpdate.{update}
use kube_dtn.Daemon.Valid.Handled.{
  Handled, added, deleted, remote, made_alive, asked, set_up, run_calls,
}
use kube_dtn.Tests.Lab.{lab, lab-RemovalIsFinal, wire, wires, pod, node}

remove_wire-IsStuck_example :
    IsStuck lab (wires, "wire1" ∷ []) (remove_wire lab wire (wires, "wire1" ∷ []))
remove_wire-IsStuck_example = remove_wire-IsStuck lab lab-RemovalIsFinal wire (wires, "wire1" ∷ [])

abbrev operations : List (Operation String)
operations = added (record wire { uid = pos 2 }) "wire2" ∷ named ∷ deleted wire ∷ []

apply_operations-promised_example :
    view (apply_operations operations wires) ≡ promised operations (view wires)
apply_operations-promised_example = apply_operations-promised operations wires

abbrev link : PbLink
link = record {
  peer_pod = "physical/10.1.1.2";
  local_intf = "eth1";
  peer_intf = "eth1";
  local_ip = "10.0.0.1/24";
  peer_ip = "10.0.0.2/24";
  uid = pos 1;
  properties = none;
  local_mac = "";
  peer_mac = "";
}

abbrev remote_pod : RemotePod
remote_pod = record {
  net_ns = "/run/netns/r1";
  intf_name = "eth1";
  intf_ip = "10.0.0.1/24";
  peer_vtep = "10.1.1.2";
  kube_ns = "default";
  vni = pos 5001;
  properties = none;
  name = "r1";
}

updated : update lab [] remote_pod node ≡ (ok true, (update lab [] remote_pod node).1)
unfolding update lock lookup
updated = refl

node-IsValid : Manager.IsValid node.vxlan_manager
unfolding lookup
node-IsValid = record { in_use = λ v q e. ground arith }

get-update_example : Manager.get (pos 5001) (update lab [] remote_pod node).1.vxlan_manager ≡ (
    if pos 5001 == pos 5001
    then some "/run/netns/r1"
    else Manager.get (pos 5001) node.vxlan_manager)
get-update_example =
    get-update lab [] remote_pod node (update lab [] remote_pod node).1 true (pos 5001) node-IsValid
      updated

-- one attempt
abbrev once : Call lab (Unit {0}) → Call lab (Unit {0})
once f = f

abbrev calls : List Handled
calls =
    set_up [] (record { name = pod.name; kube_ns = pod.kube_ns; net_ns = pod.net_ns })
    ∷ made_alive pod
    ∷ asked (record { name = pod.name; kube_ns = pod.kube_ns })
    ∷ added [] (record { local_pod = pod; links = link ∷ [] })
    ∷ remote [] remote_pod
    ∷ deleted (record { local_pod = pod; links = link ∷ [] })
    ∷ []

calls_end : (run_calls lab once calls node).0 ≡ ok tt
unfolding run_calls lock lookup insert after_prefix Manager.get
calls_end = refl

calls-calm : (run_calls lab once calls node).0 ≢ panic
calls-calm e = let done = calls_end in cc

run_calls-KeepsLocks_example : (run_calls lab once calls node).1.locked ≡ []
run_calls-KeepsLocks_example = run_calls-KeepsLocks lab once (λ f k. k) calls node calls-calm
