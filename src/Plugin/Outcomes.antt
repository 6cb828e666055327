-- ===== src/Plugin/Outcomes.antt =====
-- How the plugin's calls end.
use kube_dtn.Prelude.{
  ◌≡◌, refl, Bool, true, false, Result, ok, err, panic, Outcome, value, error, and_then, outcome_of,
  pure, if◌then◌else◌,
}
use kube_dtn.Plugin.{CmdArgs, K8sArgs, Cni, load_conf, cmd_del, pod_query}

module _ (c : Cni) where
  -- What is done with each answer of the daemon: nothing more for true, the result is printed for
  -- false, and an error is a crash.
  abbrev pub by_reply :
      c.NetConf → c.CniResult → Result Bool × c.World → Result (Unit {0}) × c.World
  by_reply n result (ok true, w) = (ok tt, w)
  by_reply n result (ok false, w) = c.print_result result n w
  by_reply n result (err e, w) = (panic, w)
  by_reply n result (panic, w) = (panic, w)

  after_reply :
      (n : c.NetConf) (result : c.CniResult) (r : Result Bool × c.World)
      → and_then
          (λ (reply : Outcome Bool). elim reply [
            | error e ↦ (λ w. (panic, w))
            | value response ↦ if response then pure tt else c.print_result result n
          ])
          (outcome_of r)
        ≡ by_reply n result r
  after_reply n result (ok true, w) = refl
  after_reply n result (ok false, w) = refl
  after_reply n result (err e, w) = refl
  after_reply n result (panic, w) = refl

  -- Once the arguments and the configuration are read and the daemon is reached, `cmdDel` ends as
  -- the daemon's answer says: true is success, false prints the result, and every error of the
  -- daemon crashes the plugin.
  pub cmd_del-by_reply :
      (args : CmdArgs) (a : K8sArgs) (w w₁ w₂ : c.World) (n : c.NetConf) (result : c.CniResult)
      → c.load_args args.args ≡ ok a
      → load_conf c args.stdin_data w ≡ (ok (n, result), w₁)
      → c.dial_local w₁ ≡ (ok tt, w₂)
      → cmd_del c args w ≡ by_reply n result (c.destroy_pod (pod_query c a) w₂)
  unfolding cmd_del
  cmd_del-by_reply args a w w₁ w₂ n result read loaded dialled =
      rw (read, loaded, dialled) (after_reply n result (c.destroy_pod (pod_query c a) w₂))
