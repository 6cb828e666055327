-- ===== src/Wire/Table/Refinement.antt =====
-- The table of wires as a map from links to wires, and the counter of names.
use kube_dtn.Prelude.{
  ◌≡◌, refl, ap, ◌∙◌, fun_ext, true, Option, none, some, List, [], ◌∷◌, ◌==◌, String_eq, pair_eq,
  if◌then◌else◌,
}
use kube_dtn.Prelude.Int.{ℤ_eq}
use kube_dtn.Wire.Table.{
  GrpcWire, Wires, LinkKey, link_key, get_wire, add_wire, delete_wire, next_index,
}
use kube_dtn.Wire.Table.Laws.{get_wire-add_wire, get_wire-delete_wire}

pub data Operation (Handle : Type 0) : Type 0 where
  added : GrpcWire → Handle → Operation Handle
  deleted : GrpcWire → Operation Handle
  named : Operation Handle

module _ {Handle : Type 0} where
  unfoldable pub apply_operations : List (Operation Handle) → Wires Handle → Wires Handle
  unfolding add_wire delete_wire next_index
  apply_operations [] w = w
  apply_operations (added wire handle ∷ ops) w = apply_operations ops (add_wire wire handle w).1
  apply_operations (deleted wire ∷ ops) w = apply_operations ops (delete_wire wire w).1
  apply_operations (named ∷ ops) w = apply_operations ops (next_index w).1

  -- The promise: a link has the wire that was added for it last, marked ready, unless one of its
  -- key was deleted behind that. Names do not matter.
  abbrev pub promised :
      List (Operation Handle) → (LinkKey → Option GrpcWire) → LinkKey → Option GrpcWire
  promised [] known = known
  promised (added wire handle ∷ ops) known =
      promised ops
        (λ k. if link_key wire == k then some (record wire { is_ready = true }) else known k)
  promised (deleted wire ∷ ops) known =
      promised ops (λ k. if link_key wire == k then none else known k)
  promised (named ∷ ops) known = promised ops known

  abbrev pub view : Wires Handle → LinkKey → Option GrpcWire
  view w (namespace, uid) = get_wire namespace uid w

  next_index-view : (w : Wires Handle) → view (next_index w).1 ≡ view w
  unfolding next_index get_wire
  next_index-view w = refl

  -- After any sequence of additions, deletions and new names, every link has the wire that an
  -- abstract map has after the same sequence.
  pub apply_operations-promised :
      (ops : List (Operation Handle)) (w : Wires Handle)
      → view (apply_operations ops w) ≡ promised ops (view w)
  unfolding apply_operations
  apply_operations-promised [] w = refl
  apply_operations-promised (added wire handle ∷ ops) w =
      apply_operations-promised ops (add_wire wire handle w).1
      ∙ ap (promised ops) (fun_ext (λ k. get_wire-add_wire wire handle k.0 k.1 w))
  apply_operations-promised (deleted wire ∷ ops) w =
      apply_operations-promised ops (delete_wire wire w).1
      ∙ ap (promised ops) (fun_ext (λ k. get_wire-delete_wire wire k.0 k.1 w))
  apply_operations-promised (named ∷ ops) w =
      apply_operations-promised ops (next_index w).1 ∙ ap (promised ops) (next_index-view w)
