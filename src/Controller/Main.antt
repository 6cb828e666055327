-- ===== src/Controller/Main.antt =====
-- The controller's process (main.go), with `SetupWithManager` (controllers/topology_controller.go).
-- controller-runtime and the parsing of the flags are a parameter.
pub mod Started
use kube_dtn.Prelude.{
  ℕ, String, Bool, false, List, [], ◌∷◌, ◌++◌, Action, Result, ok, err, panic, Outcome, value,
  error, pure, of_result, attempt, Exit, returned, exited, ◌>>=◌,
}
use kube_dtn.Api.Scheme.{Kind, topology_kind, SchemeBuilder, scheme_builder}

pub record Flags : Type 0 where
  pub metrics_addr : String
  pub probe_addr : String
  pub leader_elect : Bool

-- The flags, or the code with which the parser ends the process.
pub data Parsed : Type 0 where
  parsed : Flags → Parsed
  ended : ℕ → Parsed

-- `ctrl.Options`
pub record ManagerOptions (Scheme : Type 0) : Type 0 where
  pub scheme : Scheme
  pub metrics_bind_address : String
  pub port : ℕ
  pub health_probe_bind_address : String
  pub leader_election : Bool
  pub leader_election_id : String

-- `TopologyReconciler`
pub record Reconciler (Client Scheme : Type 0) : Type 0 where
  pub client : Client
  pub scheme : Scheme

pub record ControllerRuntime : Type 1 where
  pub World : Type 0
  pub Config : Type 0
  pub Manager : Type 0
  pub Client : Type 0
  pub Scheme : Type 0
  -- `runtime.NewScheme`, `clientgoscheme.AddToScheme`, and `AddToScheme` of a builder
  pub new_scheme : Scheme
  pub add_client_go : Scheme → Result Scheme
  pub add_to_scheme : SchemeBuilder → Scheme → Result Scheme
  -- `flag.Parse`, given the defaults
  pub parse_flags : Flags → Action World Parsed
  -- `ctrl.GetConfig`
  pub get_config : Action World Config
  pub new_manager : Config → ManagerOptions Scheme → Action World Manager
  pub get_client : Manager → Client
  pub get_scheme : Manager → Scheme
  -- `NewControllerManagedBy(mgr).For(kind).WithOptions({MaxConcurrentReconciles: n}).Complete(r)`
  pub complete : Manager → Kind → ℕ → Reconciler Client Scheme → Action World (Unit {0})
  -- the checks of a name, by `healthz.Ping`
  pub add_healthz_check : Manager → String → Action World (Unit {0})
  pub add_readyz_check : Manager → String → Action World (Unit {0})
  -- `mgr.Start(ctrl.SetupSignalHandler())`
  pub start : Manager → Action World (Unit {0})

-- `utilruntime.Must`
abbrev pub must : {A : Type 0} → Result A → Result A
must (ok a) = ok a
must (err e) = panic
must panic = panic

abbrev pub default_flags : Flags
default_flags = record { metrics_addr = ":8080"; probe_addr = ":8081"; leader_elect = false }

module _ (k : ControllerRuntime) where
  -- `init`: the scheme with the types of Kubernetes and those of the resource
  unfoldable pub init_scheme : Action k.World k.Scheme
  init_scheme = do
    s ← of_result (must (k.add_client_go k.new_scheme))
    of_result (must (k.add_to_scheme scheme_builder s))

  unfoldable pub setup_with_manager :
      Reconciler k.Client k.Scheme → k.Manager → Action k.World (Unit {0})
  setup_with_manager r mgr = k.complete mgr topology_kind 32 r

  abbrev pub options : k.Scheme → Flags → ManagerOptions k.Scheme
  options scheme flags = record {
    scheme = scheme;
    metrics_bind_address = flags.metrics_addr;
    port = 9443;
    health_probe_bind_address = flags.probe_addr;
    leader_election = flags.leader_elect;
    leader_election_id = "ac2ba29f.y-young.github.io";
  }

  abbrev pub reconciler_of : k.Manager → Reconciler k.Client k.Scheme
  reconciler_of mgr = record { client = k.get_client mgr; scheme = k.get_scheme mgr }

  -- `if err != nil { setupLog.Error(…); os.Exit(1) }`
  abbrev pub or_exit :
      {A : Type 0} → Action k.World A → (A → Action k.World Exit) → Action k.World Exit
  or_exit m rest = do made ← attempt m; elim made [ error e ↦ pure (exited 1) | value a ↦ rest a ]

  -- From the manager on.
  unfoldable pub run_manager : k.Manager → Action k.World Exit
  unfolding setup_with_manager
  run_manager mgr = or_exit (setup_with_manager (reconciler_of mgr) mgr) λ _.
      or_exit (k.add_healthz_check mgr "healthz")
        λ _. or_exit (k.add_readyz_check mgr "readyz") λ _. or_exit (k.start mgr) λ _. pure returned

  -- From the flags on; `GetConfigOrDie` ends the process too.
  unfoldable pub run_with : k.Scheme → Parsed → Action k.World Exit
  unfolding run_manager
  run_with scheme (ended code) = pure (exited code)
  run_with scheme (parsed flags) =
      or_exit k.get_config
        λ config. or_exit (k.new_manager config (options scheme flags)) run_manager

  unfoldable pub main : Action k.World Exit
  unfolding init_scheme run_with
  main = do scheme ← init_scheme; flags ← k.parse_flags default_flags; run_with scheme flags
