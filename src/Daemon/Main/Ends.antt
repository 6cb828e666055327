-- ===== src/Daemon/Main/Ends.antt =====
-- What `main` leaves of the CNI configuration, by how the process ends.
use kube_dtn.Prelude.{
  ℕ, ◌≡◌, ◌⊎◌, inl, inr, refl, ap, sym, ◌∙◌, String, Bool, true, false, Action, Error, Result,
  of_result, ignore, if◌then◌else◌, ok, err, panic, Outcome, value, error, attempt, ◌>>=◌, ◌==◌,
  String_eq, Exit, returned, exited,
}
use kube_dtn.Prelude.Int.{ℤ}
use kube_dtn.Prelude.Laws.{Keeps, Keeps-attempt, Keeps-bind, Keeps-ignore}
use kube_dtn.Platform.{Platform, Do}
use kube_dtn.CniConfig.{CniFiles, init, cleanup}
use kube_dtn.Bpf.{Kernel, check_or_mount, set_limit, load_program, close_program}
use kube_dtn.Daemon.State.{Node}
use kube_dtn.Daemon.Start.{Clients, Settings, new}
use kube_dtn.Daemon.Main.{
  World, after_body, on_node, on_kernel, run_server, load_and_run, run_bypass, run_daemon, main,
  no_program, port_of, addr_of, on_cni,
}

module _ (c : CniFiles) (k : Kernel) (p : Platform) (clients : Clients p) where
  abbrev files : World c k p clients → c.World
  files w = w.0

  on_node-Keeps : {A : Type 0} (m : Do p A) → Keeps files (on_node c k p clients m)
  on_node-Keeps m w = refl

  on_kernel-Keeps : {A : Type 0} (m : Action k.World A) → Keeps files (on_kernel c k p clients m)
  on_kernel-Keeps m w = refl

  module _ {A B : Type 0} (m : Action (World c k p clients) A)
      (f : Outcome A → Action (World c k p clients) B) where
    attempt_then-Keeps :
        Keeps files m
        → ((e : Error) → Keeps files (f (error e)))
        → ((a : A) → Keeps files (f (value a)))
        → Keeps files (attempt m >>= f)
    attempt_then-Keeps h failed succeeded =
        Keeps-bind files (attempt m) f (Keeps-attempt files m h) cases
      where
        cases : (o : Outcome A) → Keeps files (f o)
        cases (error e) = failed e
        cases (value a) = succeeded a

  after_body-files :
      (deferred : Action (World c k p clients) (Unit {0}))
      → Keeps files deferred
      → (r : Result Exit × World c k p clients) → files (after_body deferred r).1 ≡ files r.1
  after_body-files deferred h (ok returned, w) = h w
  after_body-files deferred h (ok (exited n), w) = refl
  after_body-files deferred h (err e, w) = refl
  after_body-files deferred h (panic, w) = h w

  -- What is left by how the body ended, if that leaves the files alone.
  abbrev Leaves : c.World → Exit → World c k p clients → Type 0
  Leaves wc r w =
      ((r ≡ returned) × (files w ≡ (cleanup c wc).1)) ⊎ ((n : ℕ) × (r ≡ exited n) × (files w ≡ wc))

  after_body-Leaves :
      (wc : c.World) (b : Result Exit × World c k p clients) {r : Exit} {w : World c k p clients}
      → files b.1 ≡ wc
      → after_body (on_cni c k p clients (cleanup c)) b ≡ (ok r, w)
      → Leaves wc r w
  after_body-Leaves wc (ok returned, s) kept h = inl (
    cc,
    ap (λ (x : Result Exit × World c k p clients). files x.1) (sym h)
        ∙ ap (λ v. (cleanup c v).1) kept,
  )
  after_body-Leaves wc (ok (exited n), s) kept h =
      inr (n, cc, ap (λ (x : Result Exit × World c k p clients). files x.1) (sym h) ∙ kept)
  after_body-Leaves wc (err e, s) kept h = absurd (cc)
  after_body-Leaves wc (panic, s) kept h = absurd (cc)

  module _ (atoi : String → Result ℤ) (serve_http : String → Do p (Unit {0}))
      (serve : Node p → Do p (Unit {0})) (settings : Settings p) where
    run_server-Keeps :
        (port : ℤ) (bypass : Bool)
        → Keeps files (run_server c k p clients atoi serve_http serve settings port bypass)
    run_server-Keeps port bypass =
        let given = record settings { port = port; tcpip_bypass = bypass } in
        attempt_then-Keeps (on_node c k p clients (new p clients given)) _
          (on_node-Keeps (new p clients given)) (λ e w. refl)
          (λ n.
            attempt_then-Keeps (on_node c k p clients (serve n)) _ (on_node-Keeps (serve n))
              (λ e w. refl) (λ _ w. refl))

    load_and_run-Keeps :
        (port : ℤ) → Keeps files (load_and_run c k p clients atoi serve_http serve settings port)
    load_and_run-Keeps port =
        attempt_then-Keeps (on_kernel c k p clients (load_program k (no_program c k p clients))) _
          (on_kernel-Keeps (load_program k (no_program c k p clients))) (λ e w. refl)
          (λ prog w.
            after_body-files (on_kernel c k p clients (close_program k prog))
              (on_kernel-Keeps (close_program k prog))
              (run_server c k p clients atoi serve_http serve settings port true w)
            ∙ run_server-Keeps port true w)

    run_bypass-Keeps :
        (port : ℤ) → Keeps files (run_bypass c k p clients atoi serve_http serve settings port)
    run_bypass-Keeps port =
        attempt_then-Keeps (on_kernel c k p clients (check_or_mount k)) _
          (on_kernel-Keeps (check_or_mount k)) (λ e w. refl)
          (λ _.
            attempt_then-Keeps (on_kernel c k p clients (set_limit k)) _
              (on_kernel-Keeps (set_limit k)) (λ e w. refl) (λ _. load_and_run-Keeps port))

    chosen-Keeps :
        (bypass : Bool) (port : ℤ)
        → Keeps files (
            if bypass
            then run_bypass c k p clients atoi serve_http serve settings port
            else run_server c k p clients atoi serve_http serve settings port false)
    chosen-Keeps true port = run_bypass-Keeps port
    chosen-Keeps false port = run_server-Keeps port false

    run_daemon-Keeps : Keeps files (run_daemon c k p clients atoi serve_http serve settings)
    unfolding run_daemon
    run_daemon-Keeps w =
        Keeps-bind files
          (of_result (
            port_of c k p clients atoi serve_http serve settings
              (atoi (clients.getenv "GRPC_PORT" w.2))))
          _ (λ s. refl)
          (λ port s.
            Keeps-bind files
              (ignore (
                on_node c k p clients (
                  serve_http (
                    addr_of c k p clients atoi serve_http serve settings
                      (clients.getenv "HTTP_ADDR" s.2)))))
              (λ _ s'.
                (if clients.getenv "TCPIP_BYPASS" s'.2 == "1"
                    then run_bypass c k p clients atoi serve_http serve settings port
                    else run_server c k p clients atoi serve_http serve settings port false)
                  s')
              (Keeps-ignore files _ (
                on_node-Keeps (
                  serve_http (
                    addr_of c k p clients atoi serve_http serve settings
                      (clients.getenv "HTTP_ADDR" s.2)))))
              (λ _ s'. chosen-Keeps (clients.getenv "TCPIP_BYPASS" s'.2 == "1") port s') s)
          w

    -- If `cni.Init` succeeds, then `main` leaves the CNI configuration cleaned up where it returns, and
    -- as `Init` left it where it ends by `os.Exit`.
    pub main_cleans :
        (w w' : World c k p clients) (wc : c.World) (r : Exit)
        → init c (files w) ≡ (ok tt, wc)
        → main c k p clients atoi serve_http serve settings w ≡ (ok r, w')
        → ((r ≡ returned) × (files w' ≡ (cleanup c wc).1))
          ⊎ ((n : ℕ) × (r ≡ exited n) × (files w' ≡ wc))
    unfolding main
    main_cleans w w' wc r installed done =
        let s : World c k p clients = (wc, w.1, w.2) in
        after_body-Leaves wc (run_daemon c k p clients atoi serve_http serve settings s)
          (run_daemon-Keeps s) (rw installed at done)
