-- ===== src/Controller/Diff/Sound.antt =====
-- Applying the differences to the old links gives the new ones.
use kube_dtn.Prelude.{
  ◌≡◌, refl, sym, subst, ap, ◌∙◌, ◌↔◌, ◌⊎◌, inl, inr, true, false, not, some, List, [], ◌∷◌, ◌++◌,
  map, arith, if◌then◌else◌, Bool-cases, Option-cases,
}
use kube_dtn.Prelude.Lists.{
  keep, All, All_In, In, In-append, In-keep, In-map_intro, In-map_elim, contains, contains_iff,
}
use kube_dtn.Api.{Link}
use kube_dtn.Api.Equality.{equal_without_properties, properties_equal, eq_of_parts, Link_eq}
use kube_dtn.Controller.Diff.{Diff, find_new, found_in, calc_diff}
use kube_dtn.Controller.Diff.Parts.{
  is_none, is_gone, update_of, updates, calc_diff-del, calc_diff-changed, calc_diff-add,
}
use kube_dtn.Controller.Diff.Found.{
  Distinct, ends_sym, ends_trans, find_new-some, find_new-none, found_in-true, Distinct-eq,
}

-- What the three requests make of a pod's links: the deleted ones go, those with changed
-- properties are replaced, the added ones come behind.
unfoldable pub replace_by : List Link → Link → Link
replace_by [] o = o
replace_by (c ∷ cs) o = if equal_without_properties o c then c else replace_by cs o

abbrev pub kept : Diff → List Link → List Link
kept d old = keep (λ o. not (contains o d.del)) old

unfoldable pub patched : Diff → List Link → List Link
patched d old = map (replace_by d.properties_changed) (kept d old) ++ d.add

update_of-In : (o c : Link) (new : List Link) → In c (update_of o (find_new o new)) → In c new
update_of-In o c new i = elim (Option-cases (find_new o new)) [
  | inl e ↦ absurd (rw (e, update_of) at i)
  | inr (n, e) ↦ let same : c ≡ n = ground arith in rw same (find_new-some o new e).0
]

updates-In : (c : Link) (new old : List Link) → In c (updates new old) → In c new
updates-In c new [] i = elim i [ ]
updates-In c new (o ∷ old) i =
    elim ((In-append c (update_of o (find_new o new)) (updates new old)).0 i) [
      | inl here ↦ update_of-In o c new here
      | inr later ↦ updates-In c new old later
    ]

update_of_here :
    (o n : Link) (new : List Link)
    → find_new o new ≡ some n
    → properties_equal o.properties n.properties ≡ false
    → In n (update_of o (find_new o new))
update_of_here o n new e d = rw e (ground arith)

updates_complete :
    (o n : Link) (new old : List Link)
    → In o old
    → find_new o new ≡ some n
    → properties_equal o.properties n.properties ≡ false
    → In n (updates new old)
updates_complete o n new [] i e d = elim i [ ]
updates_complete o n new (x ∷ old) (inl p) e d =
    (In-append n (update_of x (find_new x new)) (updates new old)).1
      (inl (subst (λ y. In n (update_of y (find_new y new))) p (update_of_here o n new e d)))
updates_complete o n new (x ∷ old) (inr i) e d =
    (In-append n (update_of x (find_new x new)) (updates new old)).1
      (inr (updates_complete o n new old i e d))

replace_by_skip :
    (c : Link) (cs : List Link) (o : Link)
    → equal_without_properties o c ≡ false
    → replace_by (c ∷ cs) o ≡ replace_by cs o
unfolding replace_by
replace_by_skip c cs o e = rw e

-- The replacement of a link is a listed link with its ends, or the link itself where none is.
replace_by-cases :
    (cs : List Link) (o : Link)
    → ((replace_by cs o ≡ o) × All (λ c. equal_without_properties o c ≡ false) cs)
      ⊎ (In (replace_by cs o) cs × (equal_without_properties o (replace_by cs o) ≡ true))
unfolding replace_by
replace_by-cases [] o = inl (refl, tt)
replace_by-cases (c ∷ cs) o = elim (Bool-cases (equal_without_properties o c)) [
  | inl e ↦ inr (inl (ground arith), ground arith)
  | inr e ↦ elim (replace_by-cases cs o) [
    | inl (same, far) ↦ inl (replace_by_skip c cs o e ∙ same, (e, far))
    | inr (i, k) ↦
        let skip = sym (replace_by_skip c cs o e) in
        inr (
          inr (subst (λ r. In r cs) skip i),
          subst (λ r. equal_without_properties o r ≡ true) skip k,
        )
  ]
]

module _ (old new : List Link) (distinct : Distinct new) where
  replace_by-updates :
      (o n : Link) → In o old → find_new o new ≡ some n → replace_by (updates new old) o ≡ n
  replace_by-updates o n i e =
      let (j, k) = find_new-some o new e in
      elim (replace_by-cases (updates new old) o) [
        | inr (u, s) ↦
            Distinct-eq _ n new distinct (updates-In _ new old u) j
              (ends_trans _ o n (ends_sym o _ s) k)
        | inl (same, far) ↦ elim (Bool-cases (properties_equal o.properties n.properties)) [
          | inl p ↦ same ∙ eq_of_parts o n k p
          | inr p ↦
              let no = All_In _ (updates new old) far (updates_complete o n new old i e p) in cc
        ]
      ]

  mem-del : (o : Link) → In o (calc_diff old new).del ↔ (In o old × (is_gone new o ≡ true))
  mem-del o = rw (calc_diff-del old new) (In-keep (is_gone new) o old)

  -- An old link that is kept has a counterpart among the new ones.
  kept-has_new :
      (o : Link)
      → In o (kept (calc_diff old new) old)
      → In o old × ((n : Link) × (find_new o new ≡ some n))
  kept-has_new o h =
      let (i, stays) = (In-keep _ o old).0 h in
      elim (Option-cases (find_new o new)) [
        | inr found ↦ (i, found)
        | inl e ↦
            let listed = (contains_iff o _).1 ((mem-del o).1 (i, rw (e, is_gone))) in
            absurd (cc (ap not listed, stays))
      ]

  kept_of_new :
      (o n : Link) → In o old → find_new o new ≡ some n → In o (kept (calc_diff old new) old)
  kept_of_new o n i e = (In-keep _ o old).1 (
    i,
    elim (Bool-cases (contains o (calc_diff old new).del)) [
      | inr out ↦ ap not out
      | inl listed ↦
          let gone = ((mem-del o).0 ((contains_iff o _).0 listed)).1 in
          absurd (cc (ap is_none e, gone))
    ],
  )

  replaced : List Link
  replaced = map (replace_by (calc_diff old new).properties_changed) (kept (calc_diff old new) old)

  replaced-In : (l : Link) → In l replaced → In l new
  unfolding replaced
  replaced-In l h =
      let (o, i, e) =
        In-map_elim (replace_by (calc_diff old new).properties_changed) l
          (kept (calc_diff old new) old) h in
      let (j, (n, found)) = kept-has_new o i in
      let to_n : replace_by (calc_diff old new).properties_changed o ≡ n =
        ap (λ cs. replace_by cs o) (calc_diff-changed old new) ∙ replace_by-updates o n j found in
      subst (λ x. In x new) (sym (e ∙ to_n)) (find_new-some o new found).0

  replaced_complete :
      (l o : Link) → In l new → In o old → equal_without_properties o l ≡ true → In l replaced
  unfolding replaced
  replaced_complete l o h i k = elim (Option-cases (find_new o new)) [
    | inl e ↦ let no = find_new-none o l new e h in absurd (cc)
    | inr (n, e) ↦
        let (j, m) = find_new-some o new e in
        let same = Distinct-eq n l new distinct j h (ends_trans n o l (ends_sym o n m) k) in
        let to_n : replace_by (calc_diff old new).properties_changed o ≡ n =
          ap (λ cs. replace_by cs o) (calc_diff-changed old new) ∙ replace_by-updates o n i e in
        subst (λ x. In x replaced) (to_n ∙ same)
          (In-map_intro (replace_by (calc_diff old new).properties_changed) o
            (kept (calc_diff old new) old) (kept_of_new o n i e))
  ]

  patched-In : (l : Link) → In l (patched (calc_diff old new) old) → In l new
  unfolding patched replaced
  patched-In l h = elim ((In-append l replaced (calc_diff old new).add).0 h) [
    | inl changed ↦ replaced-In l changed
    | inr added ↦
        ((In-keep (λ n. not (found_in n old)) l new).0
          (subst (In l) (calc_diff-add old new) added)).0
  ]

  patched_complete : (l : Link) → In l new → In l (patched (calc_diff old new) old)
  unfolding patched replaced
  patched_complete l h =
      (In-append l replaced (calc_diff old new).add).1 (elim (Bool-cases (found_in l old)) [
        | inr absent ↦ inr (
            subst (In l) (sym (calc_diff-add old new))
              ((In-keep (λ n. not (found_in n old)) l new).1 (h, ap not absent)))
        | inl present ↦
            let (o, i, k) = found_in-true l old present in inl (replaced_complete l o h i k)
      ])

  -- If no two of the new links have the same ends, then deleting, adding and updating what
  -- `CalcDiff` says turns the old links into exactly the new ones.
  pub patched-calc_diff : (l : Link) → In l (patched (calc_diff old new) old) ↔ In l new
  patched-calc_diff l = (patched-In l, patched_complete l)
