-- ===== src/Wire/Receive/Relay.antt =====
-- What reaches the peer.
use kube_dtn.Prelude.{
  ℕ, ◌+◌, ◌*◌, ◌<◌, ◌≤◌, ◌≡◌, ◌≢◌, ◌⊎◌, inl, inr, refl, String, Bool, true, false, List, [], ◌∷◌,
  ◌++◌, map, Result, ok, err, panic, arith, ltb, Bool-cases,
}
use kube_dtn.Prelude.Lists.{length, All}
use kube_dtn.Api.Proto.{Packet}
use kube_dtn.Wire.Table.{GrpcWire}
use kube_dtn.Wire.Frame.{Gopacket, done, decode_frame}
use kube_dtn.Wire.Frame.Slices.{HoldsPackets, decode_frame_four}
use kube_dtn.Wire.Receive.{
  Tunnel, Event, stopped, captured, eof, answer_ignored, log_large, payload, relay, receive_loop,
}

-- A frame that can be handled: it is not large, or its description is found.
abbrev pub IsDescribed : Gopacket → List ℕ → Type 0
IsDescribed g frame = (length frame ≤ 1518) ⊎ ((text : String) × (decode_frame g frame ≡ done text))

module _ {World Handle : Type 0} (g : Gopacket) (t : Tunnel World Handle) (wire : GrpcWire) where
  -- The peer's world after it was sent frames one by one, as they are and for its interface of the
  -- wire, whatever it answered.
  abbrev pub after_sending : List (List ℕ) → World → World
  after_sending [] w = w
  after_sending (f ∷ fs) w =
      after_sending fs
        (t.send_to_once (record { remot_intf_id = wire.peer_iface_id; frame = f }) w).1

  log_large-described :
      (f : List ℕ) (w : World) → IsDescribed g f → log_large g t wire f w ≡ (ok tt, w)
  unfolding log_large
  log_large-described f w (inl small) =
      let no_large : ltb 1518 (length f) ≡ false = ground arith in rw no_large refl
  log_large-described f w (inr (text, e)) = elim (Bool-cases (ltb 1518 (length f))) [
    | inl large ↦ rw (large, e) refl
    | inr small ↦ rw small refl
  ]

  answer_ignored_ok :
      {S : Type 0} (r : Result Bool × S) → r.0 ≢ panic → answer_ignored r ≡ (ok tt, r.1)
  answer_ignored_ok (ok b, s) calm = refl
  answer_ignored_ok (err e, s) calm = refl
  answer_ignored_ok (panic, s) calm = absurd (calm refl)

  -- A frame of more than 1518 bytes that is exactly four packets of one size, one behind the other,
  -- crashes the daemon before it is sent.
  pub receive_loop-large :
      (size : ℕ) (frame : List ℕ) (later : List Event) (w : World)
      → HoldsPackets g size frame
      → length frame ≡ 4 * (14 + size)
      → 1518 < length frame
      → receive_loop g t wire (captured frame ∷ later) w ≡ (panic, w)
  unfolding receive_loop relay log_large
  receive_loop-large size frame later w holds len large =
      let is_large : ltb 1518 (length frame) ≡ true = ground arith in
      rw (is_large, decode_frame_four g size frame holds len) refl

  module _ (calm : (k : Packet) (w : World) → (t.send_to_once k w).0 ≢ panic) where
    relay-described :
        (f : List ℕ) (w : World)
        → IsDescribed g f
        → relay g t wire f w ≡ (ok tt, (t.send_to_once (payload g t wire f) w).1)
    unfolding relay
    relay-described f w d =
        rw (log_large-described f w d)
          (answer_ignored_ok (t.send_to_once (payload g t wire f) w) (calm (payload g t wire f) w))

    -- Until the wire is stopped every frame that was captured is sent to the peer as it is, for the
    -- peer's interface of the wire, once and in order, whether or not the sends fail; nothing is sent after the stop. Sends must not panic,
    -- and frames of more than 1518 bytes must have a description.
    pub receive_loop-stopped :
        (frames : List (List ℕ)) (later : List Event) (w : World)
        → All (IsDescribed g) frames
        → receive_loop g t wire (map captured frames ++ stopped ∷ later) w
          ≡ (err eof, after_sending frames w)
    unfolding receive_loop
    receive_loop-stopped [] later w h = refl
    receive_loop-stopped (f ∷ fs) later w (d, h) =
        rw (relay-described f w d)
          (receive_loop-stopped fs later (t.send_to_once (payload g t wire f) w).1 h)
