-- ===== src/Controller/Diff.antt =====
-- `CalcDiff`: what to add, delete and update to come from the old links to the new ones.
pub mod Parts
pub mod Found
pub mod Sound
pub mod Unchanged
use kube_dtn.Prelude.{
  Bool, true, false, not, Option, none, some, List, [], ◌∷◌, ◌++◌, if◌then◌else◌,
}
use kube_dtn.Api.{Link}
use kube_dtn.Api.Equality.{equal_without_properties, properties_equal}

pub record Diff : Type 0 where
  pub add : List Link
  pub del : List Link
  pub properties_changed : List Link

-- The first inner loop, up to its `break`: the first new link with the old one's ends.
unfoldable pub find_new : Link → List Link → Option Link
find_new old_link [] = none
find_new old_link (new_link ∷ links) =
    if equal_without_properties old_link new_link then some new_link else find_new old_link links

-- The second inner loop: `found`.
unfoldable pub found_in : Link → List Link → Bool
found_in new_link [] = false
found_in new_link (old_link ∷ links) =
    if equal_without_properties old_link new_link then true else found_in new_link links

-- The first loop, on `del` and `propertiesChanged`.
unfoldable pub scan_old : List Link → List Link → List Link → List Link → List Link × List Link
scan_old new [] del changed = (del, changed)
scan_old new (old_link ∷ old) del changed = elim (find_new old_link new) [
  | none ↦ scan_old new old (del ++ old_link ∷ []) changed
  | some new_link ↦ scan_old new old del (
      if not (properties_equal old_link.properties new_link.properties)
      then changed ++ new_link ∷ []
      else changed)
]

-- The second loop, on `add`.
unfoldable pub scan_new : List Link → List Link → List Link → List Link
scan_new old [] add = add
scan_new old (new_link ∷ new) add =
    scan_new old new (if not (found_in new_link old) then add ++ new_link ∷ [] else add)

unfoldable pub calc_diff : List Link → List Link → Diff
unfolding scan_old scan_new
calc_diff old new =
    let (del, changed) = scan_old new old [] [] in
    record { add = scan_new old new []; del = del; properties_changed = changed }
