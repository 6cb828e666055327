-- ===== src/Controller/Diff/Unchanged.antt =====
-- The differences of a list from itself.
use kube_dtn.Prelude.{
  ◌≡◌, refl, ap, ◌∙◌, Bool, true, false, not, some, List, [], ◌∷◌, Option-cases, inl, inr, arith,
}
use kube_dtn.Prelude.Lists.{keep, In}
use kube_dtn.Api.{Link}
use kube_dtn.Api.Equality.{
  equal_without_properties, equal_without_properties_iff, properties_equal_iff,
}
use kube_dtn.Controller.Diff.{find_new, found_in, calc_diff}
use kube_dtn.Controller.Diff.Found.{Distinct, find_new-some, find_new-none, Distinct-eq}
use kube_dtn.Controller.Diff.Parts.{
  is_none, is_gone, updates, calc_diff-del, calc_diff-changed, calc_diff-add,
}

keep-none :
    (f : Link → Bool) (links : List Link)
    → ((l : Link) → In l links → f l ≡ false)
    → keep f links ≡ []
keep-none f [] h = refl
keep-none f (l ∷ links) h =
    let here = h l (inl refl) in let rest = keep-none f links (λ k i. h k (inr i)) in rw here rest

same_ends : (l : Link) → equal_without_properties l l ≡ true
same_ends l = (equal_without_properties_iff l l).1 (record {
  local_intf = refl;
  local_ip = refl;
  local_mac = refl;
  peer_intf = refl;
  peer_ip = refl;
  peer_mac = refl;
  peer_pod = refl;
  uid = refl;
})

found_in_self : (l : Link) (links : List Link) → In l links → found_in l links ≡ true
unfolding found_in
found_in_self l [] i = elim i [ ]
found_in_self l (k ∷ links) (inl e) = let s = same_ends l in rw (← e) (ground arith)
found_in_self l (k ∷ links) (inr i) = let s = found_in_self l links i in ground arith

module _ (links : List Link) (distinct : Distinct links) where
  find_new_self : (l : Link) → In l links → find_new l links ≡ some l
  find_new_self l i = elim (Option-cases (find_new l links)) [
    | inl e ↦ let no = find_new-none l l links e i in let s = same_ends l in absurd (cc)
    | inr (n, e) ↦
        let (j, k) = find_new-some l links e in
        let same = Distinct-eq l n links distinct i j k in cc
  ]

  updates-none :
      (some_of : List Link) → ((l : Link) → In l some_of → In l links) → updates links some_of ≡ []
  updates-none [] h = refl
  updates-none (l ∷ rest) h =
      let here = find_new_self l (h l (inl refl)) in
      let same = (properties_equal_iff l.properties l.properties).1 refl in
      rw (here, same) (updates-none rest (λ k i. h k (inr i)))

  -- If no two links of a list have the same ends, then `CalcDiff` of the list and itself asks for
  -- nothing.
  calc_diff_self : calc_diff links links ≡ record { add = []; del = []; properties_changed = [] }
  calc_diff_self =
      let added : (calc_diff links links).add ≡ [] =
        calc_diff-add links links
        ∙ keep-none (λ n. not (found_in n links)) links (λ l i. ap not (found_in_self l links i)) in
      let deleted : (calc_diff links links).del ≡ [] =
        calc_diff-del links links
        ∙ keep-none (is_gone links) links (λ l i. ap is_none (find_new_self l i)) in
      let changed : (calc_diff links links).properties_changed ≡ [] =
        calc_diff-changed links links ∙ updates-none links (λ l i. i) in
      cc
