-- ===== src/CniConfig/Restart.antt =====
-- The configuration that `Init` writes, on the first start and on later ones.
use kube_dtn.Prelude.{
  Bool, not, ◌≡◌, refl, sym, ap, ◌∙◌, String, true, Option, none, some, List, [], ◌∷◌, ◌++◌, Action,
  Result, ok, err, panic, attempt, pure, of_result, Outcome, value, error, ◌==◌, String_eq,
  if◌then◌else◌, ◌>>=◌, Bool-cases, inl, inr,
}
use kube_dtn.Prelude.Maps.{Map, lookup, insert, lookup-insert}
use kube_dtn.Prelude.Lists.{keep, In, In-keep}
use kube_dtn.Prelude.Text.{contains_text, codes, is_some}
use kube_dtn.Common.Rate.{strip_suffix}
use kube_dtn.CniConfig.{
  CniFiles, with_plugins, listed, from_conf, load_file, load_first, load_listed, load_conf_list,
  with_kubedtn, install, init, default_plugin_name,
}

-- A file that is not one of this plugin's.
abbrev pub is_other : String → Bool
is_other f = not (contains_text f "kubedtn")

module _ (c : CniFiles) where
  open c use {World, ConfList, Conf, Value}

  -- Two worlds in which libcni reads the same from all files but those of this plugin, and reading
  -- changes nothing.
  pub record SameForeign (w w' : World) : Type 0 where
    pub files : List String
    pub files' : List String
    pub listed : c.conf_files w ≡ (ok files, w)
    pub listed' : c.conf_files w' ≡ (ok files', w')
    pub same : keep (is_other) files ≡ keep (is_other) files'
    pub lists :
        (f : String)
        → is_other f ≡ true
        → (r : Result ConfList) × (c.conf_list_from_file f w ≡ (r, w))
          × (c.conf_list_from_file f w' ≡ (r, w'))
    pub confs :
        (f : String)
        → is_other f ≡ true
        → (r : Result Conf) × (c.conf_from_file f w ≡ (r, w)) × (c.conf_from_file f w' ≡ (r, w'))

  abbrev pub Sorts : Type 0
  Sorts = (fs : List String) (f : String) → In f (c.sort_strings fs) → In f fs

  abbrev Alike : {A : Type 0} → World → World → Action World A → Type 0
  Alike w w' m = (r : Result _) × (m w ≡ (r, w)) × (m w' ≡ (r, w'))

  module _ {A B : Type 0} (w w' : World) (m : Action World A) where
    bind-Alike :
        (f : A → Action World B)
        → Alike w w' m
        → ((a : A) → Alike w w' (f a))
        → Alike w w' (m >>= f)
    bind-Alike f (ok a, e, e') h = let (r, k, k') = h a in (r, rw e k, rw e' k')
    bind-Alike f (err x, e, e') h = (err x, rw e refl, rw e' refl)
    bind-Alike f (panic, e, e') h = (panic, rw e refl, rw e' refl)

  load_listed-some :
      (w : World) (files : List String) {conf : Map String Value}
      → load_listed c files w ≡ (ok conf, w)
      → load_first c (c.sort_strings (keep (is_other) files)) w ≡ (ok conf, w)
  load_listed-some w [] e = absurd (cc)
  load_listed-some w (f ∷ fs) e = e

  nothing_sorted : Sorts → (fs : List String) → c.sort_strings [] ≡ fs → fs ≡ []
  nothing_sorted sorts [] e = refl
  nothing_sorted sorts (f ∷ fs) e = absurd (sorts [] f (rw e (inl refl)))

  load_listed-back :
      (sorts : Sorts) (w : World) (files : List String) {conf : Map String Value}
      → load_first c (c.sort_strings (keep (is_other) files)) w ≡ (ok conf, w)
      → load_listed c files w ≡ (ok conf, w)
  unfolding load_first
  load_listed-back sorts w [] e =
      let empty = nothing_sorted sorts (c.sort_strings []) refl in
      absurd (cc (rw (empty, load_first) at e))
  load_listed-back sorts w (f ∷ fs) e = e

  module _ (w w' : World) where
    attempt-Alike : {A : Type 0} (m : Action World A) → Alike w w' m → Alike w w' (attempt m)
    attempt-Alike m (ok a, e, e') = (ok (value a), rw e refl, rw e' refl)
    attempt-Alike m (err x, e, e') = (ok (error x), rw e refl, rw e' refl)
    attempt-Alike m (panic, e, e') = (panic, rw e refl, rw e' refl)

    from_list-Alike :
        (found : Outcome ConfList)
        → Alike w w' (elim found as (λ _. Action World (Option ConfList)) [
          | error e ↦ pure none
          | value l ↦ pure (with_plugins c l)
        ])
    from_list-Alike (value l) = (ok (with_plugins c l), refl, refl)
    from_list-Alike (error x) = (ok none, refl, refl)

    listed-Alike : (r : Result ConfList) → Alike w w' (listed c r)
    listed-Alike (ok l) = (ok (with_plugins c l), refl, refl)
    listed-Alike (err x) = (ok none, refl, refl)
    listed-Alike panic = (panic, refl, refl)

    from_conf-Alike : (conf : Conf) → Alike w w' (from_conf c conf)
    from_conf-Alike conf = elim (Bool-cases (c.network_type conf == "")) [
      | inl untyped ↦ rw untyped (ok none, refl, refl)
      | inr typed ↦ rw typed (listed-Alike (c.conf_list_from_conf conf))
    ]

    from_outcome-Alike :
        (found : Outcome Conf)
        → Alike w w' (elim found as (λ _. Action World (Option ConfList)) [
          | error e ↦ pure none
          | value conf ↦ from_conf c conf
        ])
    from_outcome-Alike (value conf) = from_conf-Alike conf
    from_outcome-Alike (error x) = (ok none, refl, refl)

    module _ (s : SameForeign w w') where
      load_file-Alike : (f : String) → is_other f ≡ true → Alike w w' (load_file c f)
      unfolding load_file
      load_file-Alike f foreign =
          elim (Bool-cases (is_some (strip_suffix (codes ".conflist") (codes f)))) [
            | inl is_list ↦ rw is_list (
                bind-Alike w w' (attempt (c.conf_list_from_file f)) _
                  (attempt-Alike (c.conf_list_from_file f) (s.lists f foreign)) from_list-Alike)
            | inr is_conf ↦ rw is_conf (
                bind-Alike w w' (attempt (c.conf_from_file f)) _
                  (attempt-Alike (c.conf_from_file f) (s.confs f foreign)) from_outcome-Alike)
          ]

      load_first-Alike :
          (fs : List String)
          → ((f : String) → In f fs → is_other f ≡ true)
          → Alike w w' (load_first c fs)
      unfolding load_first
      load_first-Alike [] foreign = (_, refl, refl)
      load_first-Alike (f ∷ fs) foreign =
          bind-Alike w w' (load_file c f) _ (load_file-Alike f (foreign f (inl refl)))
            (chosen-Alike (load_first-Alike fs (λ g i. foreign g (inr i))))
        where
          chosen-Alike :
              Alike w w' (load_first c fs)
              → (found : Option ConfList)
              → Alike w w' (elim found as (λ _. Action World (Map String Value)) [
                | none ↦ load_first c fs
                | some l ↦ of_result (c.unmarshal l)
              ])
          chosen-Alike rest none = rest
          chosen-Alike rest (some l) = (c.unmarshal l, refl, refl)

      -- If libcni reads the same from the files of other plugins, then `Init` installs the same
      -- configuration in both worlds, whether or not its own files are there already: a restart
      -- does not add the plugin a second time. The first load must have found a configuration, and
      -- sorting must only reorder.
      pub init_again :
          (conf : Map String Value)
          → Sorts
          → load_conf_list c w ≡ (ok conf, w)
          → (init c w ≡ install c conf w) × (init c w' ≡ install c conf w')
      unfolding init load_conf_list
      init_again conf sorts loaded =
          let first = rw s.listed at loaded in
          let chosen = load_listed-some w s.files first in
          let (r, e, e') =
            load_first-Alike (c.sort_strings (keep (is_other) s.files))
              (λ f i. ((In-keep (is_other) f s.files).0 (sorts _ f i)).1) in
          let found : r ≡ ok conf =
            ap (λ (x : Result (Map String Value) × World). x.0) (sym e ∙ chosen) in
          let again : load_first c (c.sort_strings (keep (is_other) s.files')) w' ≡ (ok conf, w') =
            rw (← s.same) (rw e' (ap (λ (x : Result (Map String Value)). (x, w')) found)) in
          (rw (s.listed, first) refl, rw (s.listed', load_listed-back sorts w' s.files' again) refl)

  -- What is installed: the list of plugins with this one behind them, the version, and all else as
  -- it was.
  pub lookup-with_kubedtn :
      (conf : Map String Value) (plugins : List Value) (k : String)
      → lookup k (with_kubedtn c conf plugins) ≡ (
          if "plugins" == k
          then some
              (c.of_list (plugins ++ c.of_net_conf default_plugin_name default_plugin_name ∷ []))
          else if "cniVersion" == k
          then some (c.of_text "0.3.0")
          else lookup k conf)
  unfolding with_kubedtn
  lookup-with_kubedtn conf plugins k =
      lookup-insert "plugins" k
        (c.of_list (plugins ++ c.of_net_conf default_plugin_name default_plugin_name ∷ []))
        (insert "cniVersion" (c.of_text "0.3.0") conf)
      ∙ ap
          (λ (rest : Option Value).
            if "plugins" == k
            then some
                (c.of_list (plugins ++ c.of_net_conf default_plugin_name default_plugin_name ∷ []))
            else rest)
          (lookup-insert "cniVersion" k (c.of_text "0.3.0") conf)
