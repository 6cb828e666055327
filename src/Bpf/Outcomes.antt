-- ===== src/Bpf/Outcomes.antt =====
-- What the loader reports, and what holds when it reports success.
use kube_dtn.Prelude.{
  ℕ, ◌≡◌, refl, ap, none, Action, Error, Result, ok, err, panic, attempt, map_error, error_mapped,
  error_ignored, wrapped, ignore, nat_eq, Bool-cases, inl, inr, arith,
}
use kube_dtn.Prelude.Laws.{bind-eq-ok}
use kube_dtn.Bpf.{
  Kernel, BypassProgram, load_program, check_or_mount, mount_unless, make_root, maps_root,
  bpf_fs_magic, maps_pinpath,
}

-- What `statfs(2)` and `mount(2)` document of the root of the maps: asking changes nothing, and
-- what was mounted is there.
pub record Mounts (k : Kernel) : Type 0 where
  pub asked :
      (w w₁ : k.World) (t : ℕ)
      → k.statfs maps_root w ≡ (ok t, w₁)
      → k.statfs maps_root w₁ ≡ (ok t, w₁)
  pub mounted :
      (w w₁ : k.World)
      → k.mount_bpf maps_root w ≡ (ok tt, w₁)
      → k.statfs maps_root w₁ ≡ (ok bpf_fs_magic, w₁)

map_error_ok :
    {S A : Type 0} (f : Error → Error) (r : Result A × S) {a : A} {s : S}
    → error_mapped f r ≡ (ok a, s)
    → r ≡ (ok a, s)
map_error_ok f (ok a, s) e = e
map_error_ok f (err x, s) e = absurd (cc)
map_error_ok f (panic, s) e = absurd (cc)

module _ {S : Type 0} (Blame : Error → Type 0) where
  -- Every error that the action returns is one of a kind.
  abbrev FailsWith : {A : Type 0} → Action S A → Type 0
  FailsWith m = (s s' : S) (e : Error) → m s ≡ (err e, s') → Blame e

  error_ignored-FailsWith :
      (r : Result (Unit {0}) × S) (e : Error) (s : S) → error_ignored r ≡ (err e, s) → Blame e
  error_ignored-FailsWith (ok a, s) e t h = absurd (cc)
  error_ignored-FailsWith (err x, s) e t h = absurd (cc)
  error_ignored-FailsWith (panic, s) e t h = absurd (cc)

  ignore-FailsWith : (m : Action S (Unit {0})) → FailsWith (ignore m)
  ignore-FailsWith m s s' e = error_ignored-FailsWith (m s) e s'

module _ (k : Kernel) (mounts : Mounts k) where
  mount_unless_ok :
      (t : ℕ) (w w₁ w' : k.World)
      → k.statfs maps_root w ≡ (ok t, w₁)
      → mount_unless k t w₁ ≡ (ok tt, w')
      → k.statfs maps_root w' ≡ (ok bpf_fs_magic, w')
  mount_unless_ok t w w₁ w' found done = elim (Bool-cases (nat_eq t bpf_fs_magic)) [
    | inl same ↦
        let here : w₁ ≡ w' = ap (λ (r : Result (Unit {0}) × k.World). r.1) (rw same at done) in
        let magic : t ≡ bpf_fs_magic = ground arith in
        rw (← here, ← magic) (mounts.asked w w₁ t found)
    | inr other ↦ mounts.mounted w₁ w' (
        map_error_ok (wrapped "failed to mount /sys/fs/bpf") (k.mount_bpf maps_root w₁)
          (rw other at done))
  ]

  -- If asking changes nothing and what is mounted is there, then `CheckOrMountBPFFSDefault` that
  -- succeeds leaves a BPF file system at the root of the maps.
  check_or_mount_leaves :
      (w w' : k.World)
      → check_or_mount k w ≡ (ok tt, w')
      → k.statfs maps_root w' ≡ (ok bpf_fs_magic, w')
  unfolding check_or_mount
  check_or_mount_leaves w w' done =
      let (found, w₁, looked, rest) = bind-eq-ok (attempt (k.stat maps_root)) _ w done in
      let (_, w₂, made, rest') = bind-eq-ok (make_root k found) _ w₁ rest in
      let (t, w₃, asked, end) =
        bind-eq-ok (map_error (wrapped "statfs /sys/fs/bpf") (k.statfs maps_root)) (mount_unless k)
          w₂ rest' in
      mount_unless_ok t w₂ w₃ w'
        (map_error_ok (wrapped "statfs /sys/fs/bpf") (k.statfs maps_root w₂) asked) end

module _ (k : Kernel) (prog : BypassProgram k) where
  -- If no map is there after loading the redirection, as when that failed, `LoadProgram` panics.
  pub load_program_panics :
      ((w : k.World) → (k.load_redir_objects prog.redir_obj w).0.0.map_redir ≡ none)
      → (w : k.World) → (load_program k prog w).0 ≡ panic
  unfolding load_program
  load_program_panics unloaded w = panics (ignore (k.mkdir_all maps_pinpath) w) refl
    where
      panics :
          (r : Result (Unit {0}) × k.World)
          → ignore (k.mkdir_all maps_pinpath) w ≡ r
          → (load_program k prog w).0 ≡ panic
      panics (ok _, w₁) e = let missing = unloaded w₁ in rw (e, missing) refl
      panics (err x, w₁) e = absurd (ignore-FailsWith (λ _. ⊥) (k.mkdir_all maps_pinpath) w w₁ x e)
      panics (panic, w₁) e = rw e refl
