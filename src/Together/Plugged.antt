-- ===== src/Together/Plugged.antt =====
-- How the plugin's calls end beside a daemon.
use kube_dtn.Prelude.{◌≡◌, ◌≢◌, refl, ap, ◌∙◌, Bool, [], Result, ok, err, panic}
use kube_dtn.Platform.{Platform}
use kube_dtn.Wire.Table.{get_wires_by_pod}
use kube_dtn.Wire.Remove.Stuck.{RemovalIsFinal}
use kube_dtn.Daemon.State.{Node, Call}
use kube_dtn.Daemon.Pods.{destroy_pod}
use kube_dtn.Daemon.Pods.Stuck.{destroy_pod-stuck}
use kube_dtn.Plugin.{CmdArgs, K8sArgs, Cni, load_conf, cmd_del, pod_query}
use kube_dtn.Plugin.Outcomes.{by_reply, cmd_del-by_reply}
use kube_dtn.Together.{PluginHost, cni_of}

module _ (p : Platform) (retry : Call p (Unit {0}) → Call p (Unit {0})) (host : PluginHost p) where
  abbrev c : Cni
  c = cni_of p retry host

  by_reply-panic :
      (conf : host.NetConf) (result : host.CniResult) (r : Result Bool × Node p)
      → ((a : Bool) (m : Node p) → r ≢ (ok a, m))
      → (by_reply c conf result r).0 ≡ panic
  by_reply-panic conf result (ok a, m) never = absurd (never a m refl)
  by_reply-panic conf result (err e, m) never = refl
  by_reply-panic conf result (panic, m) never = refl

  -- If a removed device cannot be removed again, then cmdDel of a pod that has a wire crashes, once
  -- the arguments and the configuration are read and the daemon is reached.
  pub cmd_del_crashes :
      (final : RemovalIsFinal p) (args : CmdArgs) (a : K8sArgs) (n n₁ n₂ : Node p)
      (conf : host.NetConf) (result : host.CniResult)
      → host.load_args args.args ≡ ok a
      → load_conf c args.stdin_data n ≡ (ok (conf, result), n₁)
      → host.dial_local n₁ ≡ (ok tt, n₂)
      → get_wires_by_pod a.k8s_pod_namespace a.k8s_pod_name n₂.wires ≢ []
      → (cmd_del c args n).0 ≡ panic
  cmd_del_crashes final args a n n₁ n₂ conf result read loaded dialled has =
      ap (λ r. r.0) (cmd_del-by_reply c args a n n₁ n₂ conf result read loaded dialled)
      ∙ by_reply-panic conf result (destroy_pod p retry (pod_query c a) n₂)
          (destroy_pod-stuck p retry final (pod_query c a) n₂ has)
