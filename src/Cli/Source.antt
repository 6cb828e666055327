-- ===== src/Cli/Source.antt =====
-- The flag `-i` of the tool.
use kube_dtn.Prelude.{
  ◌≡◌, ◌≢◌, refl, String, false, Option, none, some, ◌||◌, ◌==◌, String_eq, if◌then◌else◌, arith,
  fail, ignore, message, eq_iff, ok, ◌>>=◌,
}
use kube_dtn.Prelude.Text.{after_prefix}
use kube_dtn.Platform.{Platform, Do}
use kube_dtn.Cli.{Query, choose_source, add_link, run}

module _ (p : Platform) where
  -- What follows the test of the peer's name, with the flag given.
  abbrev from_ip : Query → String → Option String → Do p (Unit {0})
  from_ip query intf found = elim found [
    | none ↦ fail (message "Peer pod name should begin with")
    | some ip ↦ do
      source ← choose_source p intf ip
      if source.0 == "" || source.1 == ""
          then fail (message "Failed to get vxlan source, please specify manually")
          else ignore (add_link p query.link (source.0) query.remote_ip)
  ]

  given : (intf : String) → intf ≢ "" → (intf == "") ≡ false
  given intf ne = ground (arith, eq_iff intf "")

  choose_source-given :
      (intf ip : String) (w : p.World) → intf ≢ "" → choose_source p intf ip w ≡ (ok (intf, ip), w)
  unfolding choose_source
  choose_source-given intf ip w ne = rw (given intf ne) refl

  from_ip-given :
      (query : Query) (intf other : String) (found : Option String) (w : p.World)
      → intf ≢ ""
      → other ≢ ""
      → from_ip query intf found w ≡ from_ip query other found w
  unfolding add_link
  from_ip-given query intf other none w a b = refl
  from_ip-given query intf other (some ip) w a b =
      rw
        (
          choose_source-given intf ip w a,
          choose_source-given other ip w b,
          given intf a,
          given other b,
        )
        refl

  -- With any two interfaces that are given by the flag `-i` the tool does the same.
  run_ignores_interface :
      (query : Query) (intf other : String) (w : p.World)
      → intf ≢ ""
      → other ≢ ""
      → run p query intf w ≡ run p query other w
  unfolding run
  run_ignores_interface query intf other w a b =
      from_ip-given query intf other (after_prefix "physical/" query.link.peer_pod) w a b
