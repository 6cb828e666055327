-- ===== src/Tests/Controller.antt =====
-- The controller's theorems at work on the small cluster.
use kube_dtn.Prelude.{◌≡◌, ◌≢◌, refl, ◌↔◌, true, some, List, [], ◌∷◌, ok}
use kube_dtn.Prelude.Lists.{In}
use kube_dtn.Api.{Link, Topology}
use kube_dtn.Api.Equality.{equal_without_properties, properties_equal, link_equal}
use kube_dtn.Controller.Diff.{calc_diff, find_new, found_in}
use kube_dtn.Controller.Diff.Found.{Distinct}
use kube_dtn.Controller.Diff.Sound.{patched, patched-calc_diff}
use kube_dtn.Controller.Reconcile.{reconcile, add_links, del_links, update_links}
use kube_dtn.Controller.Reconcile.Laws.{IsCopied, Retries, last, reconcile_copies}
use kube_dtn.Tests.Lab.{a_link, topology, cluster}

abbrev old_links : List Link
old_links = a_link 1 "" ∷ a_link 2 "" ∷ a_link 3 "" ∷ []

-- the first link deleted, the second updated, the third kept, a fourth added
abbrev new_links : List Link
new_links = a_link 3 "" ∷ a_link 2 "10Mbit" ∷ a_link 4 "" ∷ []

new_links-Distinct : Distinct new_links
unfolding equal_without_properties
new_links-Distinct = ((refl, (refl, tt)), ((refl, tt), (tt, tt)))

calc_diff_test : calc_diff old_links new_links ≡ record {
  add = a_link 4 "" ∷ [];
  del = a_link 1 "" ∷ [];
  properties_changed = a_link 2 "10Mbit" ∷ [];
}
unfolding calc_diff found_in find_new equal_without_properties properties_equal
calc_diff_test = refl

patched-calc_diff_example :
    In (a_link 2 "10Mbit") (patched (calc_diff old_links new_links) old_links)
    ↔ In (a_link 2 "10Mbit") new_links
patched-calc_diff_example =
    patched-calc_diff old_links new_links new_links-Distinct (a_link 2 "10Mbit")

abbrev changed : Topology
changed = topology (some new_links) (some old_links)

abbrev copied : Topology
copied = topology (some new_links) (some new_links)

changed-differ : changed.status.links ≢ changed.spec.links
changed-differ e = cc

cluster-Retries : Retries (cluster true)
cluster-Retries f w = last refl

changed-reconcile : reconcile (cluster true) "default" "r1" changed ≡ (ok tt, copied)
unfolding reconcile add_links del_links update_links calc_diff found_in find_new link_equal
    equal_without_properties properties_equal
changed-reconcile = refl

reconcile_copies_example : IsCopied (cluster true) "default" "r1" copied
reconcile_copies_example =
    reconcile_copies (cluster true) "default" "r1" changed changed changed copied cluster-Retries
      refl changed-differ changed-reconcile
