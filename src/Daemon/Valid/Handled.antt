-- ===== src/Daemon/Valid/Handled.antt =====
-- Sequences of calls of a daemon: every handler of daemon/kubedtn/handler.go.
use kube_dtn.Prelude.{String, List, [], ◌∷◌, attempt, ◌>>=◌, pure}
use kube_dtn.Platform.{Platform}
use kube_dtn.Api.Proto.{Pod, PodQuery, SetupPodQuery, RemotePod, LinksBatchQuery, WireDef, Packet}
use kube_dtn.Common.Context.{Context}
use kube_dtn.Daemon.State.{Call}
use kube_dtn.Daemon.Batches.{add_links, del_links, update_links}
use kube_dtn.Daemon.RemoteUpdate.{update}
use kube_dtn.Daemon.Topologies.{get}
use kube_dtn.Daemon.Alive.{set_alive}
use kube_dtn.Daemon.Wires.{
  add_grpc_wire_local, add_grpc_wire_remote, rem_grpc_wire, grpc_wire_exists,
  generate_node_interface_name, send_to_once,
}
use kube_dtn.Daemon.Pods.{setup_pod, destroy_pod}

-- A call that another program makes of a daemon.
pub data Handled : Type 0 where
  added : Context → LinksBatchQuery → Handled
  deleted : LinksBatchQuery → Handled
  updated : Context → LinksBatchQuery → Handled
  remote : Context → RemotePod → Handled
  set_up : Context → SetupPodQuery → Handled
  destroyed : PodQuery → Handled
  made_alive : Pod → Handled
  asked : PodQuery → Handled
  wire_made : WireDef → Handled
  wire_asked : WireDef → Handled
  wires_removed : WireDef → Handled
  wire_known : WireDef → Handled
  name_made : String → String → Handled
  frame_sent : Packet → Handled

module _ (p : Platform) where
  -- without the answer
  abbrev pub answered : {A : Type 0} → Call p A → Call p (Unit {0})
  answered m = do answer ← m; pure tt

module _ (p : Platform) (retry : Call p (Unit {0}) → Call p (Unit {0})) where
  -- The call's handler, whose answer is not looked at.
  unfoldable pub run_call : Handled → Call p (Unit {0})
  unfolding add_links del_links update_links update setup_pod destroy_pod set_alive get
      add_grpc_wire_local add_grpc_wire_remote rem_grpc_wire grpc_wire_exists
      generate_node_interface_name send_to_once
  run_call (added ctx query) = answered p (add_links p ctx query)
  run_call (deleted query) = answered p (del_links p query)
  run_call (updated ctx query) = answered p (update_links p ctx query)
  run_call (remote ctx pod) = answered p (update p ctx pod)
  run_call (set_up ctx query) = answered p (setup_pod p retry ctx query)
  run_call (destroyed query) = answered p (destroy_pod p retry query)
  run_call (made_alive pod) = answered p (set_alive p retry pod)
  run_call (asked query) = answered p (get p query)
  run_call (wire_made wire_def) = answered p (add_grpc_wire_local p wire_def)
  run_call (wire_asked wire_def) = answered p (add_grpc_wire_remote p wire_def)
  run_call (wires_removed wire_def) = answered p (rem_grpc_wire p wire_def)
  run_call (wire_known wire_def) = answered p (grpc_wire_exists p wire_def)
  run_call (name_made pod intf) = answered p (generate_node_interface_name p pod intf)
  run_call (frame_sent pkt) = answered p (send_to_once p pkt)

  -- The calls one after the other: an error is the caller's, a panic ends the daemon.
  unfoldable pub run_calls : List Handled → Call p (Unit {0})
  unfolding run_call
  run_calls [] = pure tt
  run_calls (call ∷ calls) = do outcome ← attempt (run_call call); run_calls calls
