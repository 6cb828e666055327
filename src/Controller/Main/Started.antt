-- ===== src/Controller/Main/Started.antt =====
-- What must have happened when the controller's manager is started.
use kube_dtn.Prelude.{
  ◌≡◌, refl, ◌∙◌, Bool, true, false, Action, Result, ok, err, panic, value, error, Exit, returned,
  exited, pure, of_result, outcome_of, and_then, ◌>>=◌,
}
use kube_dtn.Prelude.Laws.{Keeps, Keeps-bind}
use kube_dtn.Api.Scheme.{topology_kind}
use kube_dtn.Controller.Main.{
  Flags, Parsed, parsed, ended, ManagerOptions, Reconciler, ControllerRuntime, default_flags,
  init_scheme, must, setup_with_manager, options, reconciler_of, or_exit, run_manager, run_with,
  main,
}

module _ (k : ControllerRuntime) (started : k.World → Bool) where
  -- No call but `Start` starts a manager.
  pub record OnlyStart : Type 0 where
    pub parse-Keeps : (flags : Flags) → Keeps started (k.parse_flags flags)
    pub config-Keeps : Keeps started k.get_config
    pub manager-Keeps :
        (c : k.Config) (o : ManagerOptions k.Scheme) → Keeps started (k.new_manager c o)
    pub complete-Keeps :
        (m : k.Manager) (r : Reconciler k.Client k.Scheme)
        → Keeps started (k.complete m topology_kind 32 r)
    pub healthz-Keeps : (m : k.Manager) → Keeps started (k.add_healthz_check m "healthz")
    pub readyz-Keeps : (m : k.Manager) → Keeps started (k.add_readyz_check m "readyz")

  -- The manager was made, the controller and both checks were registered with it, one after the
  -- other and each with success, and what `main` does is to start it then.
  pub record StartedReady (w : k.World) : Type 0 where
    pub scheme : k.Scheme
    pub flags : Flags
    pub config : k.Config
    pub manager : k.Manager
    pub w₁ : k.World
    pub w₂ : k.World
    pub w₃ : k.World
    pub w₄ : k.World
    pub w₅ : k.World
    pub made : k.new_manager config (options k scheme flags) w₁ ≡ (ok manager, w₂)
    pub controlled : k.complete manager topology_kind 32 (reconciler_of k manager) w₂ ≡ (ok tt, w₃)
    pub healthz : k.add_healthz_check manager "healthz" w₃ ≡ (ok tt, w₄)
    pub readyz : k.add_readyz_check manager "readyz" w₄ ≡ (ok tt, w₅)
    pub serves : main k w ≡ or_exit k (k.start manager) (λ _. pure returned) w₅

  -- A part that has started a manager though its first call starts none: that call succeeded, and
  -- the rest has.
  module _ {A : Type 0} (rest : A → Action k.World Exit) where
    abbrev Went : Action k.World A → Action k.World Exit → k.World → Type 0
    Went m whole w =
        (a : A) × (w₁ : k.World) × (m w ≡ (ok a, w₁))
        × (started w₁ ≡ false)
        × (started (rest a w₁).1 ≡ true)
        × (whole w ≡ rest a w₁)

    abbrev after : Result A × k.World → Result Exit × k.World
    after r =
        and_then (λ made. elim made [ error e ↦ pure (exited 1) | value a ↦ rest a ]) (outcome_of r)

    after-Went :
        (r : Result A × k.World)
        → started r.1 ≡ false
        → started (after r).1 ≡ true
        → (a : A) × (w₁ : k.World) × (r ≡ (ok a, w₁))
          × (started w₁ ≡ false)
          × (started (rest a w₁).1 ≡ true)
          × (after r ≡ rest a w₁)
    after-Went (ok a, w₁) n s = (a, w₁, refl, n, s, refl)
    after-Went (err e, w₁) n s = absurd (cc)
    after-Went (panic, w₁) n s = absurd (cc)

    or_exit-Went :
        (m : Action k.World A) (w : k.World)
        → Keeps started m
        → started w ≡ false
        → started (or_exit k m rest w).1 ≡ true
        → Went m (or_exit k m rest) w
    or_exit-Went m w keeps n s = after-Went (m w) (keeps w ∙ n) s

    and_then-Went :
        (r : Result A × k.World)
        → started r.1 ≡ false
        → started (and_then rest r).1 ≡ true
        → (a : A) × (w₁ : k.World) × (r ≡ (ok a, w₁))
          × (started w₁ ≡ false)
          × (started (rest a w₁).1 ≡ true)
          × (and_then rest r ≡ rest a w₁)
    and_then-Went (ok a, w₁) n s = (a, w₁, refl, n, s, refl)
    and_then-Went (err e, w₁) n s = absurd (cc)
    and_then-Went (panic, w₁) n s = absurd (cc)

    bind-Went :
        (m : Action k.World A) (w : k.World)
        → Keeps started m
        → started w ≡ false
        → started ((m >>= rest) w).1 ≡ true
        → Went m (m >>= rest) w
    bind-Went m w keeps n s = and_then-Went (m w) (keeps w ∙ n) s

  init_scheme-Keeps : Keeps started (init_scheme k)
  unfolding init_scheme
  init_scheme-Keeps =
      Keeps-bind started (of_result (must (k.add_client_go k.new_scheme))) _ (λ w. refl)
        (λ s w. refl)

  module _ (quiet : OnlyStart) where
    -- From the manager on.
    run_manager-ready :
        (mgr : k.Manager) (w : k.World)
        → started w ≡ false
        → started (run_manager k mgr w).1 ≡ true
        → (w₃ w₄ w₅ : k.World) × (k.complete mgr topology_kind 32 (reconciler_of k mgr) w
            ≡ (ok tt, w₃))
          × (k.add_healthz_check mgr "healthz" w₃ ≡ (ok tt, w₄))
          × (k.add_readyz_check mgr "readyz" w₄ ≡ (ok tt, w₅))
          × (run_manager k mgr w ≡ or_exit k (k.start mgr) (λ _. pure returned) w₅)
    unfolding run_manager setup_with_manager
    run_manager-ready mgr w n s =
        let (_, w₃, e₃, n₃, s₃, r₃) =
          or_exit-Went _ (k.complete mgr topology_kind 32 (reconciler_of k mgr)) w
            (quiet.complete-Keeps mgr (reconciler_of k mgr)) n s in
        let (_, w₄, e₄, n₄, s₄, r₄) =
          or_exit-Went _ (k.add_healthz_check mgr "healthz") w₃ (quiet.healthz-Keeps mgr) n₃ s₃ in
        let (_, w₅, e₅, n₅, s₅, r₅) =
          or_exit-Went _ (k.add_readyz_check mgr "readyz") w₄ (quiet.readyz-Keeps mgr) n₄ s₄ in
        (w₃, w₄, w₅, e₃, e₄, e₅, r₃ ∙ r₄ ∙ r₅)

    run_with-ready :
        (scheme : k.Scheme) (flags : Parsed) (w : k.World)
        → started w ≡ false
        → started (run_with k scheme flags w).1 ≡ true
        → (f : Flags) × (config : k.Config) × (mgr : k.Manager) × (w₁ w₂ : k.World) × (k.new_manager
              config
              (options k scheme f)
              w₁
            ≡ (ok mgr, w₂))
          × (started w₂ ≡ false)
          × (started (run_manager k mgr w₂).1 ≡ true)
          × (run_with k scheme flags w ≡ run_manager k mgr w₂)
    unfolding run_with
    run_with-ready scheme (ended code) w n s = absurd (cc)
    run_with-ready scheme (parsed f) w n s =
        let (config, w₁, e₁, n₁, s₁, r₁) = or_exit-Went _ k.get_config w quiet.config-Keeps n s in
        let (mgr, w₂, e₂, n₂, s₂, r₂) =
          or_exit-Went (run_manager k) (k.new_manager config (options k scheme f)) w₁
            (quiet.manager-Keeps config (options k scheme f)) n₁ s₁ in
        (f, config, mgr, w₁, w₂, e₂, n₂, s₂, r₁ ∙ r₂)

    -- If no call but Start starts a manager and none is started yet, then a manager is started by
    -- main only after the controller of the topologies and both health checks were registered with
    -- it, each with success.
    pub main-StartedReady :
        (w : k.World) → started w ≡ false → started (main k w).1 ≡ true → StartedReady w
    unfolding main
    main-StartedReady w n s =
        let (scheme, w₀, e₀, n₀, s₀, r₀) = bind-Went _ (init_scheme k) w init_scheme-Keeps n s in
        let (flags, w', e', n', s', r') =
          bind-Went (run_with k scheme) (k.parse_flags default_flags) w₀
            (quiet.parse-Keeps default_flags) n₀ s₀ in
        let (f, config, mgr, w₁, w₂, made, n₂, s₂, r₂) = run_with-ready scheme flags w' n' s' in
        let (w₃, w₄, w₅, e₃, e₄, e₅, r₃) = run_manager-ready mgr w₂ n₂ s₂ in
        record {
          scheme = scheme;
          flags = f;
          config = config;
          manager = mgr;
          w₁ = w₁;
          w₂ = w₂;
          w₃ = w₃;
          w₄ = w₄;
          w₅ = w₅;
          made = made;
          controlled = e₃;
          healthz = e₄;
          readyz = e₅;
          serves = r₀ ∙ r' ∙ r₂ ∙ r₃;
        }
