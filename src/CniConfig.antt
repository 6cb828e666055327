-- ===== src/CniConfig.antt =====
-- The daemon's CNI configuration files (daemon/cni/cni.go). libcni, JSON and the file system are a
-- parameter; a value of `World` is what the file system and the environment hold.
pub mod Restart
use kube_dtn.Prelude.{
  ℕ, String, Bool, true, false, not, Option, none, some, List, [], ◌∷◌, ◌++◌, Action, Error, Result,
  ok, err, panic, Outcome, value, error, message, wrapped, pure, fail, crash, attempt, map_error,
  ignore, of_result, ◌>>=◌, ◌>>◌, nat_eq, ◌==◌, String_eq, if◌then◌else◌,
}
use kube_dtn.Prelude.Maps.{Map, lookup, insert}
use kube_dtn.Prelude.Lists.{keep}
use kube_dtn.Prelude.Text.{codes, contains_text, is_some}
use kube_dtn.Common.Rate.{strip_suffix}

abbrev pub kubedtn_cni_path : String
kubedtn_cni_path = "/etc/cni/net.d/00-kubedtn.conflist"

abbrev pub inter_node_link_conf : String
inter_node_link_conf = "/etc/cni/net.d/kubedtn-inter-node-link-type"

abbrev pub default_plugin_name : String
default_plugin_name = "kubedtn"

pub record CniFiles : Type 1 where
  pub World : Type 0
  -- `libcni.ConfFiles` of the directory, and `sort.Strings`
  pub conf_files : Action World (List String)
  pub sort_strings : List String → List String
  -- `libcni.NetworkConfigList`, `libcni.NetworkConfig`
  pub ConfList : Type 0
  pub Conf : Type 0
  pub conf_list_from_file : String → Action World ConfList
  pub conf_from_file : String → Action World Conf
  pub network_type : Conf → String
  pub conf_list_from_conf : Conf → Result ConfList
  pub plugin_count : ConfList → ℕ
  -- JSON values: lists, texts, a `types.NetConf` of a type and a name
  pub Value : Type 0
  pub as_list : Value → Option (List Value)
  pub of_list : List Value → Value
  pub of_text : String → Value
  pub of_net_conf : String → String → Value
  -- `json.Unmarshal` of the list's bytes, `json.MarshalIndent`
  pub unmarshal : ConfList → Result (Map String Value)
  pub marshal : Map String Value → Result String
  -- `ioutil.WriteFile`, `os.Remove`, `os.Getenv`
  pub write_file : String → String → Action World (Unit {0})
  pub remove_file : String → Action World (Unit {0})
  pub getenv : String → World → String

module _ (c : CniFiles) where
  open c use {World, ConfList, Conf, Value}

  -- A list without plugins is skipped.
  abbrev pub with_plugins : ConfList → Option ConfList
  with_plugins l = if nat_eq (c.plugin_count l) 0 then none else some l

  -- A single configuration without a type is skipped, and one that makes no list.
  abbrev pub listed : Result ConfList → Action World (Option ConfList)
  listed (ok l) = pure (with_plugins l)
  listed (err e) = pure none
  listed panic = crash

  abbrev pub from_conf : Conf → Action World (Option ConfList)
  from_conf conf =
      if c.network_type conf == "" then pure none else listed (c.conf_list_from_conf conf)

  -- One file; an error is logged and the file skipped.
  unfoldable pub load_file : String → Action World (Option ConfList)
  unfolding strip_suffix
  load_file f =
      if is_some (strip_suffix (codes ".conflist") (codes f))
      then (do
        found ← attempt (c.conf_list_from_file f)
        elim found [ error e ↦ pure none | value l ↦ pure (with_plugins l) ])
      else (do
        found ← attempt (c.conf_from_file f)
        elim found [ error e ↦ pure none | value conf ↦ from_conf conf ])

  -- The loop: the first file that is not skipped.
  unfoldable pub load_first : List String → Action World (Map String Value)
  unfolding load_file
  load_first [] = fail (message "no valid network configurations found")
  load_first (f ∷ fs) = do
    found ← load_file f
    elim found [ none ↦ load_first fs | some l ↦ of_result (c.unmarshal l) ]

  abbrev pub is_foreign : String → Bool
  is_foreign f = not (contains_text f "kubedtn")

  abbrev pub load_listed : List String → Action World (Map String Value)
  load_listed [] = fail (message "no net configurations found")
  load_listed (f ∷ fs) = load_first (c.sort_strings (keep is_foreign (f ∷ fs)))

  -- `loadConfList`
  unfoldable pub load_conf_list : Action World (Map String Value)
  unfolding load_first contains_text
  load_conf_list = c.conf_files >>= load_listed

  -- `saveConfList`, `saveInterNodeLinkConf`
  unfoldable pub save_conf_list : Map String Value → Action World (Unit {0})
  save_conf_list m = do bytes ← of_result (c.marshal m); c.write_file kubedtn_cni_path bytes

  unfoldable pub save_inter_node_link_conf : Action World (Unit {0})
  save_inter_node_link_conf w =
      c.write_file inter_node_link_conf (c.getenv "INTER_NODE_LINK_TYPE" w) w

  -- `conf["plugins"].([]interface{})`, which panics on what is no list
  unfoldable pub plugins_of : Map String Value → Option (List Value)
  unfolding lookup
  plugins_of conf = elim (lookup "plugins" conf) [ none ↦ none | some v ↦ c.as_list v ]

  unfoldable pub with_kubedtn : Map String Value → List Value → Map String Value
  unfolding insert
  with_kubedtn conf plugins =
      insert "plugins"
        (c.of_list (plugins ++ c.of_net_conf default_plugin_name default_plugin_name ∷ []))
        (insert "cniVersion" (c.of_text "0.3.0") conf)

  -- `Init` from the loaded configuration on.
  unfoldable pub install : Map String Value → Action World (Unit {0})
  unfolding plugins_of with_kubedtn save_conf_list save_inter_node_link_conf
  install conf = elim (plugins_of conf) [
    | none ↦ crash
    | some plugins ↦ (save_inter_node_link_conf >> save_conf_list (with_kubedtn conf plugins))
  ]

  -- `Init`
  unfoldable pub init : Action World (Unit {0})
  unfolding load_conf_list install
  init = load_conf_list >>= install

  -- `Cleanup`: errors are only logged.
  unfoldable pub cleanup : Action World (Unit {0})
  cleanup = do
    ignore (c.remove_file kubedtn_cni_path)
    ignore (map_error (wrapped "failed to remove") (c.remove_file inter_node_link_conf))
