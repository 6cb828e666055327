-- ===== src/Api/DeepCopy/Apart.antt =====
-- A topology and its deep copy share nothing that a change of either could show in the other.
use kube_dtn.Prelude.{
  ◌≡◌, refl, subst, ap, ◌∙◌, String, ◌≤◌, ◌<◌, Option, none, some, [], ◌∷◌, arith, ok,
}
use kube_dtn.Prelude.Memory.{
  Slice, Pointer, Store, read_slice, load, assign, fresh, IsSlice, SameBelow, SameFrom,
}
use kube_dtn.Api.{Link, TopologySpec, TopologyStatus}
use kube_dtn.Api.Cells.{
  Machinery, SpecCell, StatusCell, TopologyCell, Memory, zero_topology, zero_link,
}
use kube_dtn.Api.DeepCopy.{
  clone, copy_spec_into, copy_status_into, copy_topology_into, topology_deep_copy,
}
use kube_dtn.Api.DeepCopy.Slices.{clone-below, clone-next, clone-read, read-below, IsSlice-below}

module _ (k : Machinery) where
  abbrev pub shown_spec : Memory k → SpecCell → TopologySpec
  shown_spec m s = record { links = read_slice m.links s.links }

  abbrev pub shown_status : Memory k → StatusCell → TopologyStatus
  shown_status m s = record {
    skipped = read_slice m.strings s.skipped;
    src_ip = s.src_ip;
    net_ns = s.net_ns;
    links = read_slice m.links s.links;
  }

  abbrev pub shown_cell :
      Memory k → Option (TopologyCell k) → Option (TopologySpec × TopologyStatus)
  shown_cell m none = none
  shown_cell m (some t) = some (shown_spec m t.spec, shown_status m t.status)

  -- The specification and the status that one reads through a pointer.
  abbrev pub shown : Memory k → Pointer → Option (TopologySpec × TopologyStatus)
  shown m p = shown_cell m (load m.topologies p)

  -- The pointer is to a topology whose slices are in arrays that are there.
  pub record IsTopology (m : Memory k) (p : Pointer) : Type 0 where
    pub in_memory : p.base < m.topologies.next
    pub cell : TopologyCell k
    pub holds : load m.topologies p ≡ some cell
    pub spec_links : IsSlice m.links cell.spec.links
    pub skipped : IsSlice m.strings cell.status.skipped
    pub status_links : IsSlice m.links cell.status.links

  -- From the second memory to the third no array that the first has is changed, or no other one.
  abbrev pub KeepsOld : Memory k → Memory k → Memory k → Type 0
  KeepsOld m m₁ m₂ =
      SameBelow m.strings.next m₁.strings m₂.strings
      × SameBelow m.links.next m₁.links m₂.links
      × SameBelow m.topologies.next m₁.topologies m₂.topologies

  abbrev pub KeepsNew : Memory k → Memory k → Memory k → Type 0
  KeepsNew m m₁ m₂ =
      SameFrom m.strings.next m₁.strings m₂.strings
      × SameFrom m.links.next m₁.links m₂.links
      × SameFrom m.topologies.next m₁.topologies m₂.topologies

  abbrev pub after_copy : Pointer → Memory k → Memory k
  after_copy p m = (topology_deep_copy k (some p) m).1

  module _ (p : Pointer) (m : Memory k) (v : IsTopology m p) where
    abbrev allocated : Memory k
    allocated = record m { topologies = fresh (zero_topology k ∷ []) m.topologies }

    load-allocated : load allocated.topologies p ≡ some v.cell
    load-allocated = ground (arith, v.in_memory, v.holds)

    abbrev skipped_copy : Option Slice × Store String
    skipped_copy = clone "" v.cell.status.skipped m.strings

    abbrev spec_copy : Option Slice × Store Link
    spec_copy = clone zero_link v.cell.spec.links m.links

    abbrev status_copy : Option Slice × Store Link
    status_copy = clone zero_link v.cell.status.links spec_copy.1

    abbrev copied : TopologyCell k
    copied = record {
      type_meta = v.cell.type_meta;
      object_meta = (k.copy_object_meta v.cell.object_meta m.metas).0;
      spec = record { links = spec_copy.0 };
      status = record v.cell.status { skipped = skipped_copy.0; links = status_copy.0 };
    }

    abbrev out : Pointer
    out = record { base = m.topologies.next; index = 0 }

    abbrev final : Memory k
    final = record m {
      strings = skipped_copy.1;
      links = status_copy.1;
      topologies = assign out copied allocated.topologies;
      metas = (k.copy_object_meta v.cell.object_meta m.metas).1;
    }

    load-out : load allocated.topologies out ≡ some (zero_topology k)
    load-out = ground arith

    load-final : load final.topologies out ≡ some copied
    load-final = ground arith

    run : topology_deep_copy k (some p) m ≡ (ok (some out), final)
    unfolding topology_deep_copy copy_topology_into copy_spec_into copy_status_into
    run = rw (load-allocated, load-out) refl

    below_links : SameBelow m.links.next m.links spec_copy.1
    below_links = clone-below zero_link v.cell.spec.links m.links

    le_links : m.links.next ≤ spec_copy.1.next
    le_links = clone-next zero_link v.cell.spec.links m.links

    below_status : SameBelow m.links.next m.links status_copy.1
    below_status a h =
        clone-below zero_link v.cell.status.links spec_copy.1 a (omega (arith, h, le_links))
        ∙ below_links a h

    -- What the copy shows, in any memory with the new arrays of the last one.
    module _ (m₂ : Memory k) (new : KeepsNew m final m₂) where
      read-spec_copy : read_slice m₂.links spec_copy.0 ≡ read_slice m.links v.cell.spec.links
      read-spec_copy =
          clone-read zero_link v.cell.spec.links m.links m₂.links v.spec_links
            λ a h l. new.1 a h ∙ clone-below zero_link v.cell.status.links spec_copy.1 a l

      read-status_copy : read_slice m₂.links status_copy.0 ≡ read_slice m.links v.cell.status.links
      read-status_copy =
          clone-read zero_link v.cell.status.links spec_copy.1 m₂.links
            (IsSlice-below zero_link v.cell.status.links m.links spec_copy.1 v.status_links le_links
              below_links)
            (λ a h l. new.1 a (omega (arith, h, le_links)))
          ∙ read-below zero_link v.cell.status.links m.links spec_copy.1 v.status_links below_links

      read-skipped_copy :
          read_slice m₂.strings skipped_copy.0 ≡ read_slice m.strings v.cell.status.skipped
      read-skipped_copy =
          clone-read "" v.cell.status.skipped m.strings m₂.strings v.skipped λ a h l. new.0 a h

      shown-copied : shown_cell m₂ (some copied) ≡ shown_cell m (some v.cell)
      shown-copied = rw (read-spec_copy, read-status_copy, read-skipped_copy) refl

      load-copied : load m₂.topologies out ≡ some copied
      load-copied = rw (new.2 m.topologies.next (omega arith)) load-final

      shown-out : shown m₂ out ≡ shown m p
      shown-out = rw (load-copied, v.holds) shown-copied

    -- What the original shows, in any memory with the old arrays of the last one.
    module _ (m₃ : Memory k) (old : KeepsOld m final m₃) where
      load-original : load m₃.topologies p ≡ some v.cell
      load-original =
          rw (old.2 p.base (omega (arith, v.in_memory))) (ground (arith, v.in_memory, v.holds))

      read-spec_links : read_slice m₃.links v.cell.spec.links ≡ read_slice m.links v.cell.spec.links
      read-spec_links =
          read-below zero_link v.cell.spec.links m.links m₃.links v.spec_links
            λ a h. old.1 a h ∙ below_status a h

      read-status_links :
          read_slice m₃.links v.cell.status.links ≡ read_slice m.links v.cell.status.links
      read-status_links =
          read-below zero_link v.cell.status.links m.links m₃.links v.status_links
            λ a h. old.1 a h ∙ below_status a h

      read-skipped :
          read_slice m₃.strings v.cell.status.skipped ≡ read_slice m.strings v.cell.status.skipped
      read-skipped =
          read-below "" v.cell.status.skipped m.strings m₃.strings v.skipped
            λ a h. old.0 a h ∙ clone-below "" v.cell.status.skipped m.strings a h

      shown-original : shown m₃ p ≡ shown m p
      shown-original =
          rw (load-original, v.holds, read-spec_links, read-status_links, read-skipped) refl

  -- The deep copy of a topology whose slices are in memory succeeds, and shares nothing with the
  -- original: through the copy one reads the specification and the status that the original had,
  -- also after changes of arrays that were there before; and through the original too, also after
  -- changes of the arrays that the copy made.
  pub topology_deep_copy-isolated :
      (p : Pointer) (m m₂ m₃ : Memory k)
      → IsTopology m p
      → KeepsNew m (after_copy p m) m₂
      → KeepsOld m (after_copy p m) m₃
      → (q : Pointer) × ((topology_deep_copy k (some p) m).0 ≡ ok (some q))
        × (shown m₂ q ≡ shown m p)
        × (shown m₃ p ≡ shown m p)
  topology_deep_copy-isolated p m m₂ m₃ v new old =
      let e = run p m v in
      (
        out p m v,
        ap (λ r. r.0) e,
        shown-out p m v m₂ (subst (λ n. KeepsNew m n m₂) (ap (λ r. r.1) e) new),
        shown-original p m v m₃ (subst (λ n. KeepsOld m n m₃) (ap (λ r. r.1) e) old),
      )
