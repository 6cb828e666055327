-- ===== src/Vxlan/Aliasing.antt =====
-- What the manager knows after each operation, and what the shared loop variable of `Init` does.
use kube_dtn.Prelude.{
  ℕ, ◌≡◌, refl, sym, subst, ◌∙◌, ap, String, none, some, List, [], ◌∷◌, arith, Result, ok, err,
  panic, attempt, ◌==◌, String_eq, if◌then◌else◌, Bool-cases, Option-cases, inl, inr, value, error,
  Outcome,
}
use kube_dtn.Prelude.Int.{ℤ, ℤ_eq, to_int32}
use kube_dtn.Prelude.Maps.{lookup, lookup-insert, lookup-delete}
use kube_dtn.Prelude.Laws.{bind-eq-ok}
use kube_dtn.Api.{Topology}
use kube_dtn.Platform.{Platform, NetLink, LinkKind, vxlan_kind, other_kind}
use kube_dtn.Vxlan.Manager.{
  VxlanManager, new_vxlan_manager, IsValid, write_cell, store, add, add_text, delete_vni, get,
  State, store_kind, store_links, namespace_links, end_round, init_one, init_from, init,
}

-- `Add` of a new text keeps every stored pointer within the cells in use.
pub add_text-IsValid :
    (vni : ℤ) (netns : String) (m : VxlanManager) → IsValid m → IsValid (add_text vni netns m)
unfolding add_text add store
add_text-IsValid vni netns m h = record {
  in_use = λ v pointer e. ground (arith, lookup-insert vni v m.next m.vxlans, h.in_use v pointer);
}

-- `Delete` keeps every stored pointer within the cells in use.
pub delete_vni-IsValid : (vni : ℤ) (m : VxlanManager) → IsValid m → IsValid (delete_vni vni m)
unfolding delete_vni
delete_vni-IsValid vni m h = record {
  in_use = λ v pointer e. ground (arith, lookup-delete vni v m.vxlans, h.in_use v pointer);
}

get-some :
    (vni : ℤ) (m : VxlanManager) {pointer : ℕ}
    → lookup vni m.vxlans ≡ some pointer
    → get vni m ≡ some (m.cells pointer)
unfolding get
get-some vni m e = rw (e, get)

get-none : (vni : ℤ) (m : VxlanManager) → lookup vni m.vxlans ≡ none → get vni m ≡ none
unfolding get
get-none vni m e = rw (e, get)

-- After `Add` of a new text on a well-formed manager the VNI has the namespace that was given, and every other VNI the one it had: no
-- text is overwritten through a shared pointer.
pub get-add_text :
    (vni v : ℤ) (netns : String) (m : VxlanManager)
    → IsValid m
    → get v (add_text vni netns m) ≡ (if vni == v then some netns else get v m)
unfolding get add_text add store
get-add_text vni v netns m h = elim (Option-cases (lookup v m.vxlans)) [
  | inl e ↦ ground (arith, lookup-insert vni v m.next m.vxlans)
  | inr (pointer, e) ↦
      let below = h.in_use v pointer e in ground (arith, lookup-insert vni v m.next m.vxlans)
]

-- After `Delete` the VNI has no namespace, and every other VNI the one it had.
pub get-delete_vni :
    (vni v : ℤ) (m : VxlanManager) → get v (delete_vni vni m) ≡ (if vni == v then none else get v m)
unfolding get delete_vni
get-delete_vni vni v m = ground (arith, lookup-delete vni v m.vxlans)

-- A manager all of whose pointers are to one cell.
abbrev IsShared : ℕ → VxlanManager → Type 0
IsShared pointer m = (v : ℤ) (q : ℕ) → lookup v m.vxlans ≡ some q → q ≡ pointer

abbrev pub last_netns : String → List Topology → String
last_netns netns [] = netns
last_netns netns (t ∷ ts) = last_netns t.status.net_ns ts

module _ (p : Platform) where
  store_kind-cells :
      (pointer : ℕ) (kind : LinkKind p.Ip) (m : VxlanManager)
      → (store_kind p pointer kind m).cells ≡ m.cells
  unfolding store_kind
  store_kind-cells pointer other_kind m = refl
  store_kind-cells pointer (vxlan_kind id group) m = refl

  store_links-cells :
      (pointer : ℕ) (links : List (NetLink p.Ip)) (m : VxlanManager)
      → (store_links p pointer links m).cells ≡ m.cells
  unfolding store_links
  store_links-cells pointer [] m = refl
  store_links-cells pointer (link ∷ links) m =
      store_links-cells pointer links (store_kind p pointer link.kind m)
      ∙ store_kind-cells pointer link.kind m

  store_kind-IsShared :
      (pointer : ℕ) (kind : LinkKind p.Ip) (m : VxlanManager)
      → IsShared pointer m
      → IsShared pointer (store_kind p pointer kind m)
  unfolding store_kind
  store_kind-IsShared pointer other_kind m h = h
  store_kind-IsShared pointer (vxlan_kind id group) m h =
      λ v q e. ground (arith, lookup-insert (to_int32 id) v pointer m.vxlans, h v q)

  store_links-IsShared :
      (pointer : ℕ) (links : List (NetLink p.Ip)) (m : VxlanManager)
      → IsShared pointer m
      → IsShared pointer (store_links p pointer links m)
  unfolding store_links
  store_links-IsShared pointer [] m h = h
  store_links-IsShared pointer (link ∷ links) m h =
      store_links-IsShared pointer links (store_kind p pointer link.kind m)
        (store_kind-IsShared pointer link.kind m h)

  end_round_lem :
      (pointer : ℕ) (m : VxlanManager) (found : Result (Outcome (List (NetLink p.Ip))) × p.World)
      → IsShared pointer m
      → let s = (end_round p pointer m found).1 in
        IsShared pointer s.0 × (s.0.cells pointer ≡ m.cells pointer)
  unfolding end_round
  end_round_lem pointer m (ok (value links), w) h = (
    store_links-IsShared pointer links m h,
    ap (λ (c : ℕ → String). c pointer) (store_links-cells pointer links m),
  )
  end_round_lem pointer m (ok (error e), w) h = (h, refl)
  end_round_lem pointer m (err e, w) h = (h, refl)
  end_round_lem pointer m (panic, w) h = (h, refl)

  -- After a round every stored pointer is to the one cell, which holds this topology's namespace.
  init_one_lem :
      (pointer : ℕ) (t : Topology) (m : VxlanManager) (w : p.World)
      → IsShared pointer m
      → let s = (init_one p pointer t (m, w)).1 in
        IsShared pointer s.0 × (s.0.cells pointer ≡ t.status.net_ns)
  unfolding init_one
  init_one_lem pointer t m w h = elim (Bool-cases (t.status.net_ns == "")) [
    | inl e ↦ rw e (h, ground arith)
    | inr e ↦
        let m' : VxlanManager = record m { cells = write_cell pointer t.status.net_ns m.cells } in
        let (shared, same) =
          end_round_lem pointer m' (attempt (namespace_links p t.status.net_ns) w) h in
        rw e (shared, same ∙ ground arith)
  ]

  init_from_lem :
      (pointer : ℕ) (ts : List Topology) (m : VxlanManager) (w : p.World) {s : State p}
      → IsShared pointer m
      → init_from p pointer ts (m, w) ≡ (ok tt, s)
      → IsShared pointer s.0 × (s.0.cells pointer ≡ last_netns (m.cells pointer) ts)
  unfolding init_from
  init_from_lem pointer [] m w h e =
      let same : (m, w) ≡ _ = ap (λ (r : Result (Unit {0}) × State p). r.1) e in
      subst (λ (s : State p). IsShared pointer s.0 × (s.0.cells pointer ≡ m.cells pointer)) same
        (h, refl)
  init_from_lem pointer (t ∷ ts) m w {s} h e =
      let (_, s₁, first, rest) =
        bind-eq-ok (init_one p pointer t) (λ _. init_from p pointer ts) (m, w) e in
      let (shared, cell) =
        subst
          (λ (r : Result (Unit {0}) × State p).
            IsShared pointer r.1.0 × (r.1.0.cells pointer ≡ t.status.net_ns))
          first (init_one_lem pointer t m w h) in
      let (shared', last) = init_from_lem pointer ts s₁.0 s₁.1 shared rest in
      (shared', last ∙ ap (λ n. last_netns n ts) cell)

  -- If `Init` of a new manager ends well, then every VNI that has a namespace has that of the
  -- last topology in the list.
  pub get-init :
      (ts : List Topology) (w : p.World) {s : State p} (vni : ℤ) (netns : String)
      → init p ts (new_vxlan_manager, w) ≡ (ok tt, s)
      → get vni s.0 ≡ some netns
      → netns ≡ last_netns "" ts
  unfolding init lookup
  get-init ts w {s} vni netns e found =
      let (shared, last) =
        init_from_lem 0 ts (record new_vxlan_manager { next = 1 }) w (λ v q no. absurd (cc)) e in
      elim (Option-cases (lookup vni s.0.vxlans)) [
        | inl missing ↦ absurd (cc (get-none vni s.0 missing))
        | inr (q, there) ↦
            let same = shared vni q there in
            let read : some netns ≡ some (s.0.cells q) = sym found ∙ get-some vni s.0 there in
            let text : netns ≡ s.0.cells q = cc in text ∙ ap s.0.cells same ∙ last
      ]
