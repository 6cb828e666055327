-- ===== src/Daemon/Main.antt =====
-- The daemon's `main` (daemon/main.go). A deferred call runs when `main` returns or panics, and not
-- when the process ends by `os.Exit`. The three parts of the world are the files of the CNI, the
-- kernel's programs and maps, and the node.
pub mod Ends
use kube_dtn.Prelude.{
  ℕ, String, Bool, true, false, none, Action, Error, Result, ok, err, panic, Outcome, value, error,
  Exit, returned, exited, pure, of_result, gets, attempt, ignore, ◌>>=◌, ◌>>◌, ◌==◌, String_eq,
  if◌then◌else◌,
}
use kube_dtn.Prelude.Int.{ℤ, pos, ℤ_eq}
use kube_dtn.Platform.{Platform, Do}
use kube_dtn.CniConfig.{CniFiles, init, cleanup}
use kube_dtn.Bpf.{Kernel, BypassProgram, check_or_mount, set_limit, load_program, close_program}
use kube_dtn.Controller.Reconcile.{default_port}
use kube_dtn.Daemon.State.{Node}
use kube_dtn.Daemon.Start.{Clients, Settings, new}

abbrev pub http_addr : String
http_addr = ":51112"

-- The deferred call behind the rest of the function.
abbrev pub after_body : {S : Type 0} → Action S (Unit {0}) → Result Exit × S → Result Exit × S
after_body deferred (ok returned, s) = let (_, s') = deferred s in (ok returned, s')
after_body deferred (ok (exited n), s) = (ok (exited n), s)
after_body deferred (err e, s) = (err e, s)
after_body deferred (panic, s) = let (_, s') = deferred s in (panic, s')

abbrev pub with_deferred : {S : Type 0} → Action S (Unit {0}) → Action S Exit → Action S Exit
with_deferred deferred body s = after_body deferred (body s)

module _ (c : CniFiles) (k : Kernel) (p : Platform) (clients : Clients p) where
  abbrev pub World : Type 0
  World = c.World × k.World × p.World

  abbrev pub on_cni : {A : Type 0} → Action c.World A → Action World A
  on_cni m (wc, wk, wp) = let (r, wc') = m wc in (r, (wc', wk, wp))

  abbrev pub on_kernel : {A : Type 0} → Action k.World A → Action World A
  on_kernel m (wc, wk, wp) = let (r, wk') = m wk in (r, (wc, wk', wp))

  abbrev pub on_node : {A : Type 0} → Do p A → Action World A
  on_node m (wc, wk, wp) = let (r, wp') = m wp in (r, (wc, wk, wp'))

  abbrev pub getenv : String → World → String
  getenv name (wc, wk, wp) = clients.getenv name wp

  abbrev pub no_program : BypassProgram k
  no_program = record {
    sockops_obj = record {
      map_active_estab = none;
      map_proxy = none;
      map_redir = none;
      debug_map = none;
      bpf_sockmap = none;
    };
    redir_obj = record {
      debug_map = none;
      map_active_estab = none;
      map_proxy = none;
      map_redir = none;
      bpf_redir_proxy = none;
    };
    sockops_cgroup = none;
  }

  -- `strconv.Atoi`, the server of the metrics and the gRPC server; `settings` is what `New` is given
  -- but for the port and the bypass.
  module _ (atoi : String → Result ℤ) (serve_http : String → Do p (Unit {0}))
      (serve : Node p → Do p (Unit {0})) (settings : Settings p) where
    abbrev pub default_port_of : Result ℤ → Result ℤ
    default_port_of (ok n) = ok n
    default_port_of (err e) = panic
    default_port_of panic = panic

    -- The number in the environment, or the default if there is none or it is 0.
    abbrev pub port_of : Result ℤ → Result ℤ
    port_of (ok n) = if n == pos 0 then default_port_of (atoi default_port) else ok n
    port_of (err e) = default_port_of (atoi default_port)
    port_of panic = panic

    -- No error is left over when the address is chosen.
    abbrev pub addr_of : String → String
    addr_of addr = if addr == "" then http_addr else addr

    -- From `kubedtn.New` on.
    abbrev pub run_server : ℤ → Bool → Action World Exit
    run_server port bypass = do
      made ←
          attempt (on_node (new p clients (record settings { port = port; tcpip_bypass = bypass })))
      elim made [
        | error e ↦ pure (exited 1)
        | value n ↦ do
          served ← attempt (on_node (serve n))
          elim served [ error e ↦ pure (exited 1) | value _ ↦ pure returned ]
      ]

    -- With the bypass: a failure is a plain return.
    abbrev pub load_and_run : ℤ → Action World Exit
    load_and_run port = do
      loaded ← attempt (on_kernel (load_program k no_program))
      elim loaded [
        | error e ↦ pure returned
        | value prog ↦ with_deferred (on_kernel (close_program k prog)) (run_server port true)
      ]

    abbrev pub limit_and_run : ℤ → Action World Exit
    limit_and_run port = do
      limited ← attempt (on_kernel (set_limit k))
      elim limited [ error e ↦ pure returned | value _ ↦ load_and_run port ]

    abbrev pub run_bypass : ℤ → Action World Exit
    run_bypass port = do
      mounted ← attempt (on_kernel (check_or_mount k))
      elim mounted [ error e ↦ pure returned | value _ ↦ limit_and_run port ]

    -- From the parsing of the port on; the server of the metrics runs beside it.
    unfoldable pub run_daemon : Action World Exit
    unfolding new load_program close_program check_or_mount
    run_daemon = do
      port_text ← gets (getenv "GRPC_PORT")
      port ← of_result (port_of (atoi port_text))
      addr ← gets (getenv "HTTP_ADDR")
      ignore (on_node (serve_http (addr_of addr)))
      bypass ← gets (getenv "TCPIP_BYPASS")
      if bypass == "1" then run_bypass port else run_server port false

    -- `main`
    unfoldable pub main : Action World Exit
    unfolding init cleanup run_daemon
    main = do
      installed ← attempt (on_cni (init c))
      elim installed [
        | error e ↦ pure (exited 1)
        | value _ ↦ with_deferred (on_cni (cleanup c)) run_daemon
      ]
