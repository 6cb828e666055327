-- ===== src/Plugin/LinkType.antt =====
-- The type of the links between nodes, which the daemon's `cni.Init` (daemon/cni/cni.go) leaves in a
-- file and the plugin's `main` (plugin/kube_dtn.go) reads.
use kube_dtn.Prelude.{
  ℕ, ◌≡◌, ◌≢◌, refl, ap, String, Option-cases, inl, inr, Action, Result, ok, value, error, pure,
  attempt, of_result, ◌>>=◌, ◌>>◌, arith,
}
use kube_dtn.Prelude.Laws.{bind-eq-ok}
use kube_dtn.Prelude.Lists.{length}
use kube_dtn.Prelude.Text.{codes}
use kube_dtn.Prelude.Maps.{Map}
use kube_dtn.CniConfig.{
  CniFiles, kubedtn_cni_path, inter_node_link_conf, load_conf_list, plugins_of, with_kubedtn,
  save_conf_list, save_inter_node_link_conf, install, init,
}

-- `common.INTER_NODE_LINK_VXLAN`
abbrev pub vxlan_links : String
vxlan_links = "VXLAN"

-- `os.ReadFile`
module _ {World : Type 0} (read_file : String → Action World String) where
  -- `SetInterNodeLinkType`: what the variable holds behind it, from what it held.
  unfoldable pub set_inter_node_link_type : String → Action World String
  set_inter_node_link_type link_type = do
    b ← attempt (read_file inter_node_link_conf)
    elim b [ error e ↦ pure link_type | value text ↦ pure text ]

  -- `main`: the code of its exit, from how `skel.PluginMainWithError` with the three commands ends. The
  -- variable is not looked at.
  unfoldable pub main : Action World (Unit {0}) → Action World ℕ
  unfolding set_inter_node_link_type
  main plugin_main = do
    link_type ← set_inter_node_link_type vxlan_links
    done ← attempt plugin_main
    elim done [ error e ↦ pure 1 | value _ ↦ pure 0 ]

paths_differ : inter_node_link_conf ≢ kubedtn_cni_path
paths_differ e = omega (arith, ap (λ path. length (codes path)) e)

module _ (c : CniFiles) (read_file : String → Action c.World String) where
  open c use {World, Value}

  -- What the file system and the environment of a process document: what was written to a file is
  -- read back, other files stay as they are, and a variable of the environment keeps its value.
  pub record Reads : Type 0 where
    pub read_back :
        (path text : String) (w w' : World)
        → c.write_file path text w ≡ (ok tt, w')
        → read_file path w' ≡ (ok text, w')
    pub kept :
        (path other text : String) (w w' : World) (r : Result String)
        → path ≢ other
        → c.write_file other text w ≡ (ok tt, w')
        → read_file path w ≡ (r, w)
        → read_file path w' ≡ (r, w')
    pub fixed : (name : String) (w w' : World) → c.getenv name w ≡ c.getenv name w'

  module _ (reads : Reads) where
    saved :
        (conf : Map String Value) (w w' : World)
        → (save_inter_node_link_conf c >> save_conf_list c conf) w ≡ (ok tt, w')
        → read_file inter_node_link_conf w' ≡ (ok (c.getenv "INTER_NODE_LINK_TYPE" w), w')
    unfolding save_inter_node_link_conf save_conf_list
    saved conf w w' e =
        let (_, w₁, first, rest) = bind-eq-ok (save_inter_node_link_conf c) _ w e in
        let (bytes, w₂, marshalled, written) = bind-eq-ok (of_result (c.marshal conf)) _ w₁ rest in
        let same : w₁ ≡ w₂ = cc in
        let back =
          reads.read_back inter_node_link_conf (c.getenv "INTER_NODE_LINK_TYPE" w) w w₁ first in
        reads.kept inter_node_link_conf kubedtn_cni_path bytes w₁ w'
          (ok (c.getenv "INTER_NODE_LINK_TYPE" w)) paths_differ (rw same written) back

    -- If files and the environment behave as documented, then after a successful `Init` of the
    -- daemon the plugin's variable holds what the daemon's environment says, whatever it held.
    pub link_type-init :
        (link_type : String) (w w' : World)
        → init c w ≡ (ok tt, w')
        → set_inter_node_link_type read_file link_type w'
          ≡ (ok (c.getenv "INTER_NODE_LINK_TYPE" w), w')
    unfolding init install set_inter_node_link_type
    link_type-init link_type w w' e =
        let (conf, w₁, loaded, rest) = bind-eq-ok (load_conf_list c) _ w e in
        elim (Option-cases (plugins_of c conf)) [
          | inl missing ↦ absurd (cc (rw (install, missing) at rest))
          | inr (plugins, there) ↦
              let found = saved (with_kubedtn c conf plugins) w₁ w' (rw (install, there) at rest) in
              let env = reads.fixed "INTER_NODE_LINK_TYPE" w w₁ in rw (found, env) refl
        ]
