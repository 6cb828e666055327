-- ===== src/Plugin.antt =====
-- The CNI plugin (plugin/kube_dtn.go). The CNI library, JSON and the daemon's client are taken as
-- parameters; the generated client (proto/v1/kube_dtn_grpc.pb.go) gives a nil response with an error.
pub mod Outcomes
pub mod LinkType
use kube_dtn.Prelude.{
  String, Bool, true, false, Option, none, some, Action, Outcome, value, error, message, wrapped,
  pure, fail, crash, attempt, map_error, of_result, Result, ◌>>=◌, ◌>>◌, if◌then◌else◌,
}
use kube_dtn.Api.Proto.{PodQuery, SetupPodQuery}

-- `skel.CmdArgs`, of which these are read
pub record CmdArgs : Type 0 where
  pub args : String
  pub stdin_data : String
  pub netns : String

-- `common.K8sArgs` (common/types.go)
pub record K8sArgs : Type 0 where
  pub k8s_pod_name : String
  pub k8s_pod_namespace : String

pub record Cni : Type 1 where
  pub World : Type 0
  -- `common.NetConf`, and a result of the CNI library
  pub NetConf : Type 0
  pub CniResult : Type 0
  pub unmarshal : String → Result NetConf
  pub has_prev_result : NetConf → Bool
  -- `version.ParsePrevResult`, which fills in the configuration
  pub parse_prev_result : NetConf → Result NetConf
  -- `current.NewResultFromResult(n.PrevResult)`
  pub result_of_prev : NetConf → Result CniResult
  pub empty_result : CniResult
  -- `types.LoadArgs`
  pub load_args : String → Result K8sArgs
  -- `types.PrintResult` at the configuration's version
  pub print_result : CniResult → NetConf → Action World (Unit {0})
  -- `grpc.Dial` of the local daemon, and its two RPCs
  pub dial_local : Action World (Unit {0})
  pub setup_pod : SetupPodQuery → Action World Bool
  pub destroy_pod : PodQuery → Action World Bool

module _ (c : Cni) where
  open c use {World, NetConf, CniResult}

  unfoldable pub load_conf : String → Action World (NetConf × CniResult)
  load_conf bytes = do
    n ← map_error (wrapped "failed to load netconf") (of_result (c.unmarshal bytes))
    if c.has_prev_result n
        then (do
          n' ← map_error (wrapped "could not parse prevResult") (of_result (c.parse_prev_result n))
          result ←
              map_error (wrapped "could not convert result to current version")
                (of_result (c.result_of_prev n'))
          pure (n', result))
        else pure (n, c.empty_result)

  abbrev pub pod_query : K8sArgs → PodQuery
  pod_query a = record { name = a.k8s_pod_name; kube_ns = a.k8s_pod_namespace }

  -- On a response of false with no error, `err` is returned, which is nil.
  unfoldable pub cmd_add : CmdArgs → Action World (Unit {0})
  unfolding load_conf
  cmd_add args = do
    conf ← load_conf args.stdin_data
    cni_args ← of_result (c.load_args args.args)
    c.dial_local
    response ← c.setup_pod (record {
      name = cni_args.k8s_pod_name;
      kube_ns = cni_args.k8s_pod_namespace;
      net_ns = args.netns;
    })
    if response then c.print_result (conf.1) (conf.0) else pure tt

  -- `ok.Response` is read before the error: with an error `ok` is nil.
  unfoldable pub cmd_del : CmdArgs → Action World (Unit {0})
  unfolding load_conf
  cmd_del args = do
    cni_args ← of_result (c.load_args args.args)
    conf ← load_conf args.stdin_data
    c.dial_local
    reply ← attempt (c.destroy_pod (pod_query cni_args))
    elim reply [
      | error e ↦ crash
      | value response ↦ if response then pure tt else c.print_result (conf.1) (conf.0)
    ]

  unfoldable pub cmd_check : CmdArgs → Action World (Unit {0})
  cmd_check args = fail (message "not implemented")
