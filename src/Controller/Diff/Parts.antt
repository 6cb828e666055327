-- ===== src/Controller/Diff/Parts.antt =====
-- The accumulating loops of `CalcDiff` as plain selections from the two lists.
use mathlib.Core.List.{append-nil, append_assoc}
use kube_dtn.Prelude.{
  ◌≡◌, sym, ap, Bool, true, false, not, Option, none, some, List, [], ◌∷◌, ◌++◌, inl, inr,
  Bool-cases, Option-cases, if◌then◌else◌,
}
use kube_dtn.Prelude.Lists.{keep}
use kube_dtn.Api.{Link}
use kube_dtn.Api.Equality.{properties_equal}
use kube_dtn.Controller.Diff.{find_new, found_in, scan_old, scan_new, calc_diff}

abbrev pub is_none : Option Link → Bool
is_none none = true
is_none (some _) = false

-- an old link has no counterpart among the new
abbrev pub is_gone : List Link → Link → Bool
is_gone new old_link = is_none (find_new old_link new)

-- the update that an old link asks for, as a list of at most one
abbrev pub update_of : Link → Option Link → List Link
update_of old_link none = []
update_of old_link (some new_link) =
    if not (properties_equal old_link.properties new_link.properties) then new_link ∷ [] else []

abbrev pub updates : List Link → List Link → List Link
updates new [] = []
updates new (old_link ∷ old) = update_of old_link (find_new old_link new) ++ updates new old

scan_old_lem :
    (new old del changed : List Link)
    → scan_old new old del changed ≡ (del ++ keep (is_gone new) old, changed ++ updates new old)
unfolding scan_old
scan_old_lem new [] del changed = simp append-nil
scan_old_lem new (o ∷ old) del changed = elim (Option-cases (find_new o new)) [
  | inl e ↦ rw (e, scan_old) (simp (scan_old_lem new old (del ++ o ∷ []) changed, append_assoc))
  | inr (n, e) ↦
      rw (e, scan_old)
        (elim (Bool-cases (properties_equal o.properties n.properties)) [
          | inl same ↦ simp (same, scan_old_lem new old del changed)
          | inr other ↦ simp (other, scan_old_lem new old del (changed ++ n ∷ []), append_assoc)
        ])
]

scan_new_lem :
    (old new add : List Link) → scan_new old new add ≡ add ++ keep (λ n. not (found_in n old)) new
unfolding scan_new
scan_new_lem old [] add = sym (append-nil add)
scan_new_lem old (n ∷ new) add = elim (Bool-cases (found_in n old)) [
  | inl e ↦ simp (e, scan_new_lem old new add)
  | inr e ↦ simp (e, scan_new_lem old new (add ++ n ∷ []), append_assoc)
]

module _ (old new : List Link) where
  pub calc_diff-del : (calc_diff old new).del ≡ keep (is_gone new) old
  unfolding calc_diff
  calc_diff-del = ap (λ (p : List Link × List Link). p.0) (scan_old_lem new old [] [])

  pub calc_diff-changed : (calc_diff old new).properties_changed ≡ updates new old
  unfolding calc_diff
  calc_diff-changed = ap (λ (p : List Link × List Link). p.1) (scan_old_lem new old [] [])

  pub calc_diff-add : (calc_diff old new).add ≡ keep (λ n. not (found_in n old)) new
  unfolding calc_diff
  calc_diff-add = scan_new_lem old new []
