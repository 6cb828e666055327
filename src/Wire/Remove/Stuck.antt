-- ===== src/Wire/Remove/Stuck.antt =====
-- What `RemoveWire` does with a wire, whatever the node's answers.
use kube_dtn.Prelude.{
  ◌≡◌, refl, ◌∙◌, ◌≢◌, String, Bool, true, false, List, [], ◌∷◌, Error, Result, ok, err, panic,
  and_then, fail, message, pure, if◌then◌else◌, Bool-cases, inl, inr, outcome_of, Outcome, value,
  error,
}
use kube_dtn.Platform.{Platform}
use kube_dtn.Wire.Table.{GrpcWire, Wires, get_wires_by_pod}
use kube_dtn.Wire.Remove.{
  State, host_veth, is_closed, close_channel, remove_found, remove_wire, remove_wires,
  delete_wires_by_pod,
}

-- After a device was removed it is not there, so removing it once more fails.
abbrev pub RemovalIsFinal : Platform → Type 0
RemovalIsFinal p =
    (name : String) (w w₁ : p.World)
    → p.remove_veth_link (host_veth p name) w ≡ (ok tt, w₁)
    → (e : Error) × (w₂ : p.World) × (p.remove_veth_link (host_veth p name) w₁ ≡ (err e, w₂))

module _ (p : Platform) where
  -- A call that did not succeed, and that left the table of wires as it was.
  abbrev pub IsStuck : {A : Type 0} → State p → Result A × State p → Type 0
  IsStuck s (r, s') = ((a : _) → r ≢ ok a) × (s'.0.wires ≡ s.0.wires)

module _ (p : Platform) (final : RemovalIsFinal p) where
  remove_found-IsStuck :
      (wire : GrpcWire) (name : String) (wires : Wires p.Handle) (w : p.World)
      (r : Result (Unit {0}) × p.World)
      → p.remove_veth_link (host_veth p name) w ≡ r
      → IsStuck p (wires, w) (remove_found p wire name (wires, w))
  unfolding remove_found
  remove_found-IsStuck wire name wires w (ok tt, w₁) e =
      let (x, w₂, again) = final name w w₁ e in rw (e, again) (λ a k. cc, refl)
  remove_found-IsStuck wire name wires w (err x, w₁) e = rw e (λ a k. cc, refl)
  remove_found-IsStuck wire name wires w (panic, w₁) e = rw e (λ a k. cc, refl)

  -- from the answer about the device on
  looked_up-IsStuck :
      (wire : GrpcWire) (wires : Wires p.Handle) (found : Result String × p.World)
      → IsStuck p
          (wires, found.1)
          (and_then
            (λ (intf : Outcome String). elim intf [
              | error e ↦ (λ s. (panic, s))
              | value name ↦ remove_found p wire name
            ])
            (outcome_of (found.0, (wires, found.1))))
  looked_up-IsStuck wire wires (ok name, w) = remove_found-IsStuck wire name wires w _ refl
  looked_up-IsStuck wire wires (err e, w) = (λ a k. cc, refl)
  looked_up-IsStuck wire wires (panic, w) = (λ a k. cc, refl)

  -- If a removed device cannot be removed again, `RemoveWire` never succeeds and never takes a
  -- wire out of the table.
  pub remove_wire-IsStuck : (wire : GrpcWire) (s : State p) → IsStuck p s (remove_wire p wire s)
  unfolding remove_wire close_channel
  remove_wire-IsStuck wire (wires, w) = elim (Bool-cases (is_closed p wire.stop_c wires.closed)) [
    | inl closed ↦ rw closed (λ a k. cc, refl)
    | inr opened ↦ rw opened (
        looked_up-IsStuck wire (record wires { closed = wire.stop_c ∷ wires.closed })
          (p.interface_by_index wire.local_node_iface_id w))
  ]

  loop_step :
      (ws : List GrpcWire) (failed : Bool) (s : State p) (r : Result (Unit {0}) × State p)
      → IsStuck p s r
      → ((t : State p)
          → let (q, u) = remove_wires p ws true t in
            (u.0.wires ≡ t.0.wires) × ((b : Bool) → q ≡ ok b → b ≡ true))
      → let (q, u) =
          and_then
            (λ (removed : Outcome (Unit {0})). elim removed [
              | error e ↦ remove_wires p ws true
              | value _ ↦ remove_wires p ws failed
            ])
            (outcome_of r) in
        (u.0.wires ≡ s.0.wires) × ((b : Bool) → q ≡ ok b → b ≡ true)
  loop_step ws failed s (ok a, t) (never, kept) ih = absurd (never a refl)
  loop_step ws failed s (err e, t) (never, kept) ih = ((ih t).0 ∙ kept, (ih t).1)
  loop_step ws failed s (panic, t) (never, kept) ih = (kept, λ b k. absurd (cc))

  remove_wires-stuck :
      (ws : List GrpcWire) (s : State p)
      → let (q, u) = remove_wires p ws true s in
        (u.0.wires ≡ s.0.wires) × ((b : Bool) → q ≡ ok b → b ≡ true)
  unfolding remove_wires
  remove_wires-stuck [] s = (refl, λ b k. cc)
  remove_wires-stuck (wire ∷ ws) s =
      loop_step ws true s (remove_wire p wire s) (remove_wire-IsStuck wire s)
        (remove_wires-stuck ws)

  remove_some-stuck :
      (wire : GrpcWire) (ws : List GrpcWire) (failed : Bool) (s : State p)
      → let (q, u) = remove_wires p (wire ∷ ws) failed s in
        (u.0.wires ≡ s.0.wires) × ((b : Bool) → q ≡ ok b → b ≡ true)
  unfolding remove_wires
  remove_some-stuck wire ws failed s =
      loop_step ws failed s (remove_wire p wire s) (remove_wire-IsStuck wire s)
        (remove_wires-stuck ws)

  end-IsStuck :
      (s : State p) (r : Result Bool × State p)
      → (r.1.0.wires ≡ s.0.wires) × ((b : Bool) → r.0 ≡ ok b → b ≡ true)
      → IsStuck p s (
          and_then
            (λ (failed : Bool).
              if failed
              then fail (message "[WIRE-DELETE]:failed to remove all grpc-wires for pod")
              else pure tt)
            r)
  end-IsStuck s (ok true, t) (kept, only) = (λ a k. cc, kept)
  end-IsStuck s (ok false, t) (kept, only) = absurd (cc (only false refl))
  end-IsStuck s (err e, t) (kept, only) = (λ a k. cc, kept)
  end-IsStuck s (panic, t) (kept, only) = (λ a k. cc, kept)

  -- If a removed device cannot be removed again, deleting the wires of a pod that has any never
  -- succeeds and leaves the table as it was.
  pub delete_wires_by_pod-IsStuck :
      (namespace pod_name : String) (s : State p)
      → get_wires_by_pod namespace pod_name s.0 ≢ []
      → IsStuck p s (delete_wires_by_pod p namespace pod_name s)
  unfolding delete_wires_by_pod
  delete_wires_by_pod-IsStuck namespace pod_name (wires, w) some_wire =
      go (get_wires_by_pod namespace pod_name wires) some_wire
    where
      go :
          (ws : List GrpcWire)
          → ws ≢ []
          → IsStuck p
              (wires, w)
              (and_then
                (λ (failed : Bool).
                  if failed
                  then fail (message "[WIRE-DELETE]:failed to remove all grpc-wires for pod")
                  else pure tt)
                (remove_wires p ws false (wires, w)))
      go [] given = absurd (given refl)
      go (wire ∷ ws) given =
          end-IsStuck (wires, w) (remove_wires p (wire ∷ ws) false (wires, w))
            (remove_some-stuck wire ws false (wires, w))
