-- ===== src/Tests/Together.antt =====
-- The controller, the plugin and the wires at work on a node.
use kube_dtn.Prelude.{
  ◌≡◌, ◌≢◌, refl, ap, String, false, none, some, List, [], ◌∷◌, ok, panic, pure, arith, String_eq,
}
use kube_dtn.Prelude.Maps.{lookup, insert, delete}
use kube_dtn.Prelude.Text.{after_prefix}
use kube_dtn.Api.{Link, Topology}
use kube_dtn.Api.Equality.{equal_without_properties, properties_equal, link_equal}
use kube_dtn.Platform.{Platform, Veth}
use kube_dtn.Common.Context.{tcpip_bypass, get_ctx_value}
use kube_dtn.Controller.Diff.{calc_diff, find_new, found_in}
use kube_dtn.Controller.Reconcile.{reconcile}
use kube_dtn.Controller.Reconcile
use kube_dtn.Daemon.State.{Node}
use kube_dtn.Daemon.Batches.{add_links, del_links, update_links}
use kube_dtn.Together.{Network, cluster_of, PluginHost, cni_of}
use kube_dtn.Together.Reconciled.{IsApplied, reconcile-IsApplied}
use kube_dtn.Together.Plugged.{cmd_del_crashes}
use kube_dtn.Plugin.{CmdArgs, K8sArgs, load_conf, cmd_del}
use kube_dtn.Wire.Table.{get_wires_by_pod, wires_of_pod}
use kube_dtn.Common.Veth.{setup_veth}
use kube_dtn.Common.Veth.Again.{both_exist, setup_veth_again}
use kube_dtn.Common.Qdisc.Apply.Quiet.{QuietQdiscs}
use kube_dtn.Tests.Lab.{lab, lab-RemovalIsFinal, node, a_link, topology}

-- One link goes, one to a physical host is new, one has another rate.
abbrev old_links : List Link
old_links = a_link 1 "" ∷ a_link 2 "" ∷ []

abbrev new_links : List Link
new_links = a_link 2 "10Mbit" ∷ record (a_link 3 "") { peer_pod = "physical/10.1.1.2" } ∷ []

abbrev changed : Topology
changed = topology (some new_links) (some old_links)

-- The small node, whose API has that topology.
abbrev changed_lab : Platform
changed_lab = record lab { api_get = λ ns name. pure changed }

abbrev changed_node : Node changed_lab
changed_node = record {
  config = node.config;
  heap = node.heap;
  topology_store = [];
  topology_manager = [];
  vxlan_manager = node.vxlan_manager;
  wires = node.wires;
  locked = [];
  observed = [];
  world = node.world;
}

abbrev network : Network changed_lab
network = record { dial = λ address. pure tt; retry_on_conflict = λ f. f }

abbrev after : Node changed_lab
after = (reconcile (cluster_of changed_lab network) "default" "r1" changed_node).1

changed-differ : changed.status.links ≢ changed.spec.links
changed-differ e = cc

reconciled : (reconcile (cluster_of changed_lab network) "default" "r1" changed_node).0 ≡ ok tt
unfolding reconcile Reconcile.add_links Reconcile.del_links Reconcile.update_links add_links
    del_links update_links calc_diff found_in find_new link_equal equal_without_properties
    properties_equal after_prefix lookup delete insert tcpip_bypass get_ctx_value
reconciled = refl

reconcile-IsApplied_example :
    (n₂ : Node changed_lab) × IsApplied changed_lab network changed
      (calc_diff old_links new_links)
      changed_node
      n₂
    × (network.retry_on_conflict
          (Reconcile.copy_links (cluster_of changed_lab network) "default" "r1")
          n₂
        ≡ (ok tt, after))
reconcile-IsApplied_example =
    reconcile-IsApplied changed_lab network changed "default" "r1" changed_node changed_node after
      old_links refl refl changed-differ (ap (λ r. (r, after)) reconciled)

-- A CNI library that takes texts as they are.
abbrev host : (p : Platform) → PluginHost p
host p = record {
  NetConf = String;
  CniResult = String;
  unmarshal = λ s. ok s;
  has_prev_result = λ n. false;
  parse_prev_result = λ n. ok n;
  result_of_prev = λ n. ok n;
  empty_result = "";
  load_args = λ s. ok (record { k8s_pod_name = s; k8s_pod_namespace = "default" });
  print_result = λ r n w. (ok tt, w);
  dial_local = pure tt;
}

abbrev args : CmdArgs
args = record { args = "r1"; stdin_data = "{}"; netns = "/run/netns/r1" }

abbrev r1 : K8sArgs
r1 = record { k8s_pod_name = "r1"; k8s_pod_namespace = "default" }

conf_loaded :
    (p : Platform) (n : Node p) → load_conf (cni_of p (λ f. f) (host p)) "{}" n ≡ (ok ("{}", ""), n)
unfolding load_conf
conf_loaded p n = refl

r1-has_wires : get_wires_by_pod "default" "r1" node.wires ≢ []
unfolding get_wires_by_pod wires_of_pod
r1-has_wires e = cc

cmd_del_crashes_example : (cmd_del (cni_of lab (λ f. f) (host lab)) args node).0 ≡ panic
cmd_del_crashes_example =
    cmd_del_crashes lab (λ f. f) (host lab) lab-RemovalIsFinal args r1 node node node "{}" "" refl
      (conf_loaded lab node) refl r1-has_wires

abbrev end_of : String → Veth lab
end_of name = record { ns_name = "host"; link_name = name; ip_addr = []; hardware_addr = none }

lab-QuietQdiscs : QuietQdiscs lab (both_exist lab (end_of "eth1") (end_of "eth2"))
lab-QuietQdiscs = record {
  current_ns-Keeps = λ w. refl;
  get_ns-Keeps = λ path w. refl;
  enter-Keeps = λ ns w. refl;
  link_by_name-Keeps = λ ns name w. ground arith;
  qdisc_list-Keeps = λ ns l w. refl;
  qdisc_add-Keeps = λ ns q w. refl;
  qdisc_del-Keeps = λ ns q w. refl;
  exec-Keeps = λ ns words w. refl;
}

setup_veth_again_example :
    setup_veth lab []
      (end_of "eth1")
      (end_of "eth2")
      none
      (setup_veth lab [] (end_of "eth1") (end_of "eth2") none []).1
    ≡ (ok tt, (setup_veth lab [] (end_of "eth1") (end_of "eth2") none []).1)
setup_veth_again_example =
    setup_veth_again lab [] (end_of "eth1") (end_of "eth2") none [] ("eth1" ∷ "eth2" ∷ [])
      lab-QuietQdiscs refl refl refl refl
