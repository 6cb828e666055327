-- ===== src/Controller/Diff/Found.antt =====
-- What the inner loops of `CalcDiff` find, and lists in which they find one link at most.
use kube_dtn.Prelude.{
  ◌≡◌, refl, sym, ◌∙◌, inl, inr, true, false, none, some, List, [], ◌∷◌, arith, Bool-cases,
}
use kube_dtn.Prelude.Lists.{All, All_In, In}
use kube_dtn.Api.{Link}
use kube_dtn.Api.Equality.{equal_without_properties, equal_without_properties_iff, Link_eq}
use kube_dtn.Controller.Diff.{find_new, found_in}

-- No two links of a list have the same ends.
abbrev pub Distinct : List Link → Type 0
Distinct [] = Unit
Distinct (x ∷ xs) = All (λ y. equal_without_properties x y ≡ false) xs × Distinct xs

pub ends_sym :
    (a b : Link) → equal_without_properties a b ≡ true → equal_without_properties b a ≡ true
ends_sym a b h =
    let s = (equal_without_properties_iff a b).0 h in
    (equal_without_properties_iff b a).1 (ground arith)

pub ends_trans :
    (a b c : Link)
    → equal_without_properties a b ≡ true
    → equal_without_properties b c ≡ true
    → equal_without_properties a c ≡ true
ends_trans a b c h k =
    let s = (equal_without_properties_iff a b).0 h in
    let t = (equal_without_properties_iff b c).0 k in
    (equal_without_properties_iff a c).1 (ground arith)

pub find_new-some :
    (o : Link) (new : List Link) {n : Link}
    → find_new o new ≡ some n
    → In n new × (equal_without_properties o n ≡ true)
unfolding find_new
find_new-some o [] h = cc
find_new-some o (x ∷ new) {n} h = elim (Bool-cases (equal_without_properties o x)) [
  | inl e ↦ let same : x ≡ n = ground arith in (inl (sym same), rw (← same) e)
  | inr e ↦ let (i, k) = find_new-some o new (rw (e, find_new) at h) in (inr i, k)
]

pub find_new-none :
    (o n : Link) (new : List Link)
    → find_new o new ≡ none
    → In n new
    → equal_without_properties o n ≡ false
unfolding find_new
find_new-none o n [] h i = elim i [ ]
find_new-none o n (x ∷ new) h (inl e) = rw e (ground arith)
find_new-none o n (x ∷ new) h (inr i) = find_new-none o n new (ground arith) i

pub found_in-true :
    (n : Link) (old : List Link)
    → found_in n old ≡ true
    → (o : Link) × In o old × (equal_without_properties o n ≡ true)
unfolding found_in
found_in-true n [] h = cc
found_in-true n (x ∷ old) h = elim (Bool-cases (equal_without_properties x n)) [
  | inl e ↦ (x, inl refl, e)
  | inr e ↦ let (o, i, k) = found_in-true n old (rw (e, found_in) at h) in (o, inr i, k)
]

pub Distinct-eq :
    (a b : Link) (new : List Link)
    → Distinct new
    → In a new
    → In b new
    → equal_without_properties a b ≡ true
    → a ≡ b
Distinct-eq a b [] d i j h = elim i [ ]
Distinct-eq a b (x ∷ new) d (inl p) (inl q) h = p ∙ sym q
Distinct-eq a b (x ∷ new) (far, d) (inl p) (inr j) h = let no = All_In _ new far j in cc
Distinct-eq a b (x ∷ new) (far, d) (inr i) (inl q) h =
    let no = All_In _ new far i in let back = ends_sym a b h in cc
Distinct-eq a b (x ∷ new) (far, d) (inr i) (inr j) h = Distinct-eq a b new d i j h
