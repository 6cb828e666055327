-- ===== src/Wire/Table/Laws.antt =====
-- What the table of wires knows after a wire was added or deleted.
use kube_dtn.Prelude.{◌≡◌, String, true, none, some, ◌==◌, String_eq, pair_eq, if◌then◌else◌}
use kube_dtn.Prelude.Int.{ℤ, ℤ_eq}
use kube_dtn.Prelude.Maps.{lookup-insert, lookup-delete}
use kube_dtn.Wire.Table.{
  GrpcWire, Wires, link_key, add, delete_from, get_wire, add_wire, delete_wire,
}

module _ {Handle : Type 0} where
  -- After `AddWire` the wire's namespace and identifier give the wire, marked ready, and all others
  -- what they gave before.
  pub get_wire-add_wire :
      (wire : GrpcWire) (handle : Handle) (namespace : String) (uid : ℤ) (w : Wires Handle)
      → get_wire namespace uid (add_wire wire handle w).1 ≡ (
          if link_key wire == (namespace, uid)
          then some (record wire { is_ready = true })
          else get_wire namespace uid w)
  unfolding get_wire add_wire add
  get_wire-add_wire wire handle namespace uid w =
      lookup-insert (link_key wire) (namespace, uid) (record wire { is_ready = true }) w.wires

  -- After `DeleteWire` the wire's namespace and identifier give no wire, and all others what they
  -- gave before.
  pub get_wire-delete_wire :
      (wire : GrpcWire) (namespace : String) (uid : ℤ) (w : Wires Handle)
      → get_wire namespace uid (delete_wire wire w).1
        ≡ (if link_key wire == (namespace, uid) then none else get_wire namespace uid w)
  unfolding get_wire delete_wire delete_from
  get_wire-delete_wire wire namespace uid w = lookup-delete (link_key wire) (namespace, uid) w.wires
