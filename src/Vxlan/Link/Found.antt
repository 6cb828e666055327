-- ===== src/Vxlan/Link/Found.antt =====
-- Which device `RemoveLinkWithVni` deletes.
use kube_dtn.Prelude.{
  ◌≡◌, refl, ap, ◌∙◌, Bool, String, true, false, none, some, List, [], ◌∷◌, ◌==◌, if◌then◌else◌,
  Bool-cases, inl, inr, ◌⊎◌,
}
use kube_dtn.Prelude.Int.{ℤ, ℤ_eq, to_int32}
use kube_dtn.Prelude.Lists.{In}
use kube_dtn.Platform.{Platform, NetLink, LinkKind, vxlan_kind, other_kind}
use kube_dtn.Vxlan.Link.{find_vni}

module _ (p : Platform) where
  -- a VXLAN device whose identifier is the VNI in 32 bits
  abbrev pub has_vni : ℤ → LinkKind p.Ip → Bool
  has_vni vni other_kind = false
  has_vni vni (vxlan_kind id group) = to_int32 id == vni

  find_vni_here :
      (vni : ℤ) (name : String) (index : ℤ) (kind : LinkKind p.Ip) (links : List (NetLink p.Ip))
      → let link : NetLink p.Ip = record { name = name; index = index; kind = kind } in
        find_vni p vni (link ∷ links)
        ≡ (if has_vni vni kind then some link else find_vni p vni links)
  unfolding find_vni
  find_vni_here vni name index other_kind links = refl
  find_vni_here vni name index (vxlan_kind id group) links = refl

  -- The device that is found is one of the list with the VNI; if none is found, none has it.
  find_vni_lem :
      (vni : ℤ) (links : List (NetLink p.Ip))
      → ((find_vni p vni links ≡ none)
          × ((link : NetLink p.Ip) → In link links → has_vni vni link.kind ≡ false))
        ⊎ ((link : NetLink p.Ip) × (find_vni p vni links ≡ some link)
            × In link links
            × (has_vni vni link.kind ≡ true))
  unfolding find_vni
  find_vni_lem vni [] = inl (refl, λ link i. elim i [ ])
  find_vni_lem vni (link ∷ links) =
      let here = find_vni_here vni link.name link.index link.kind links in
      elim (Bool-cases (has_vni vni link.kind)) [
        | inl e ↦ inr (link, here ∙ (rw e refl), inl refl, e)
        | inr e ↦ elim (find_vni_lem vni links) [
          | inl (missing, far) ↦ inl (
            here ∙ (rw e missing),
            λ l i. elim i [
              | inl same ↦ ap (λ (k : NetLink p.Ip). has_vni vni k.kind) same ∙ e
              | inr later ↦ far l later
            ],
          )
          | inr (l, found, i, k) ↦ inr (l, here ∙ (rw e found), inr i, k)
        ]
      ]
