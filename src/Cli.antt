-- ===== src/Cli.antt =====
-- The command line tool for physical hosts (cmd/main.go). `Fatalf`, which ends the process with the
-- code 1, is an error here.
pub mod Source
use kube_dtn.Prelude.{
  String, ◌&&◌, ◌||◌, none, some, message, Action, Result, pure, fail, wrapped, map_error,
  of_result, ignore, ◌>>=◌, ◌==◌, String_eq, if◌then◌else◌,
}
use kube_dtn.Prelude.Text.{after_prefix}
use kube_dtn.Api.Proto.{PbLink}
use kube_dtn.Platform.{Platform, Do}
use kube_dtn.Common.Context.{background}
use kube_dtn.Common.Vni.{get_vni_from_uid}
use kube_dtn.Vxlan.Link.{VxlanSpec, get_vxlan_source, get_default_vxlan_source, setup_vxlan}

pub record Query : Type 0 where
  pub link : PbLink
  pub remote_ip : String

module _ (p : Platform) where
  unfoldable pub link_spec : PbLink → String → VxlanSpec
  unfolding get_vni_from_uid
  link_spec link peer_vtep = record {
    net_ns = "";
    intf_name = link.peer_intf;
    intf_ip = link.peer_ip;
    peer_vtep = peer_vtep;
    vni = get_vni_from_uid link.uid;
    src_ip = "";
    src_intf = "";
  }

  -- `addLink`; the interface that it is given is not used
  unfoldable pub add_link : PbLink → String → String → Do p (Unit {0})
  unfolding link_spec setup_vxlan
  add_link link src_intf peer_vtep =
      setup_vxlan p background (link_spec link peer_vtep) link.properties

  -- The interface and the address, from the flag and the peer's name. Both functions return the
  -- address first, and the source assigns it to the interface.
  unfoldable pub choose_source : String → String → Do p (String × String)
  unfolding get_default_vxlan_source get_vxlan_source
  choose_source intf ip =
      if intf == "" && ip == ""
      then get_default_vxlan_source p
      else if intf == ""
      then (do found ← get_vxlan_source p ip; pure (found.0, ip))
      else pure (intf, ip)

  -- `main` from the parsed query on, with the flag `-i`; an error of `addLink` is only logged.
  unfoldable pub run : Query → String → Do p (Unit {0})
  unfolding choose_source add_link
  run query intf = elim (after_prefix "physical/" query.link.peer_pod) [
    | none ↦ fail (message "Peer pod name should begin with")
    | some ip ↦ do
      source ← choose_source intf ip
      if source.0 == "" || source.1 == ""
          then fail (message "Failed to get vxlan source, please specify manually")
          else ignore (add_link query.link (source.0) query.remote_ip)
  ]

  -- `main`, with the flags `-i` and `-f`, over `os.ReadFile` and `yaml.Unmarshal`
  unfoldable pub main :
      (String → Do p String) → (String → Result Query) → String → String → Do p (Unit {0})
  unfolding run
  main read_file unmarshal intf path =
      if path == "" then fail (message "Please provide a path to a yaml file") else (do
        file ← map_error (wrapped "Failed to read configuration") (read_file path)
        query ← map_error (wrapped "Failed to parse configuration") (of_result (unmarshal file))
        run query intf)
