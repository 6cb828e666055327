-- ===== src/Tests/Boot.antt =====
-- The start of a daemon on a node without a BPF file system and with no API to reach.
use kube_dtn.Prelude.{ℕ, ◌≡◌, ◌⊎◌, refl, String, true, false, none, some, [], ok, err, message}
use kube_dtn.Prelude.Int.{pos}
use kube_dtn.Bpf.{Kernel, bpf_fs_magic}
use kube_dtn.Prelude.Text.{after_prefix}
use kube_dtn.CniConfig.{init, cleanup}
use kube_dtn.Daemon.Start.{Clients, Settings}
use kube_dtn.Prelude.{exited, returned}
use kube_dtn.Daemon.Main.{World, main}
use kube_dtn.Daemon.Main.Ends.{main_cleans}
use kube_dtn.Tests.Lab.{lab, node}
use kube_dtn.Tests.Nodes.{files}

-- The kernel's world is the type of the file system at the root of the maps.
abbrev kernel : Kernel
kernel = record {
  World = ℕ;
  BpfMap = ℕ;
  Program = String;
  CgroupLink = String;
  set_memlock_limit = λ w. (ok tt, w);
  cgroup_enabled = λ w. (true, none);
  mkdir_all = λ path w. (ok tt, w);
  load_redir_objects = λ o w. (
    (
      record {
        debug_map = none;
        map_active_estab = none;
        map_proxy = none;
        map_redir = some 3;
        bpf_redir_proxy = some "redir";
      },
      none,
    ),
    w,
  );
  load_sockops_objects = λ o w. ((o, some (message "operation not permitted")), w);
  fd = λ m. m;
  raw_attach = λ fd program w. (err (message "invalid argument"), w);
  raw_detach = λ fd program w. (ok tt, w);
  attach_cgroup = λ path program w. (ok path, w);
  close_link = λ l w. (ok tt, w);
  unpin = λ m w. (ok tt, w);
  close_map = λ m w. (ok tt, w);
  stat = λ path w. (ok tt, w);
  is_not_exist = λ e. true;
  statfs = λ path w. (ok w, w);
  mount_bpf = λ path w. (ok tt, bpf_fs_magic);
}

abbrev clients : Clients lab
clients = record {
  RestConfig = String;
  in_cluster_config = λ w. (ok "in-cluster", w);
  config_from_file = λ path w. (ok path, w);
  home_dir = λ w. "/root";
  join_path = λ a b. a;
  kubernetes_client = λ config w. (ok tt, w);
  topology_client = λ config w. (ok tt, w);
  listen = λ port w. (ok tt, w);
  getenv = λ name w. "";
  list_topologies = λ w. (err (message "connection refused"), w);
}

abbrev settings : Settings lab
settings = record {
  port = pos 0;
  tcpip_bypass = false;
  topology_manager = [];
  heap = node.heap;
  wires = node.wires;
}

abbrev before : World files kernel lab clients
before = (false, 0, [])

abbrev after : World files kernel lab clients
after = (true, 0, [])

installed : init files false ≡ (ok tt, true)
unfolding init after_prefix
installed = refl

failed :
    main files kernel lab clients
      (λ s. ok (pos 51111))
      (λ addr w. (ok tt, w))
      (λ n w. (ok tt, w))
      settings
      before
    ≡ (ok (exited 1), after)
unfolding main after_prefix
failed = refl

main_cleans_example :
    ((exited 1 ≡ returned) × (true ≡ (cleanup files true).1))
    ⊎ ((n : ℕ) × (exited 1 ≡ exited n) × (true ≡ true))
main_cleans_example =
    main_cleans files kernel lab clients (λ s. ok (pos 51111)) (λ addr w. (ok tt, w))
      (λ n w. (ok tt, w)) settings before after true (exited 1) installed failed
