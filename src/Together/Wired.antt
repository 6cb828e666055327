-- ===== src/Together/Wired.antt =====
-- A wire from end to end: the thread that captures what a pod sends (daemon/grpcwire/grpcwire.go)
-- and the `SendToOnce` of the peer's daemon (daemon/kubedtn/handler.go), which it calls.
use kube_dtn.Prelude.{
  ◌≡◌, ◌≢◌, refl, ap, sym, ◌∙◌, ℕ, String, true, Option, none, some, List, [], ◌∷◌, ◌++◌, map, ok,
  err, panic, Option-cases, inl, inr,
}
use mathlib.Core.List.{append_assoc, append-nil}
use kube_dtn.Prelude.Lists.{All}
use kube_dtn.Api.Proto.{Packet}
use kube_dtn.Platform.{Platform}
use kube_dtn.Wire.Table.{GrpcWire, get_handle}
use kube_dtn.Wire.Frame.{Gopacket}
use kube_dtn.Wire.Receive.{Tunnel, Event, stopped, captured, eof, payload, receive_loop}
use kube_dtn.Wire.Receive.Relay.{IsDescribed, after_sending, receive_loop-stopped}
use kube_dtn.Daemon.State.{Node, Call}
use kube_dtn.Daemon.Wires.{send_to_once}

module _ (p : Platform) where
  -- The thread's own pcap and dialling, beside the peer's daemon.
  abbrev pub tunnel_to :
      {Handle : Type 0}
      → (String → Call p Handle)
      → (Handle → Call p (Unit {0}))
      → (String → Call p (Unit {0}))
      → Tunnel (Node p) Handle
  tunnel_to open_live direct dial = record {
    open_live = open_live;
    set_direction_in = direct;
    dial = dial;
    send_to_once = send_to_once p;
  }

  -- `WritePacketData` puts the frame behind those that the device was given before.
  abbrev pub Writes : (p.Handle → p.World → List (List ℕ)) → Type 0
  Writes given =
      (h : p.Handle) (f : List ℕ) (w : p.World)
      → (w' : p.World) × (p.write_packet h f w ≡ (ok tt, w')) × (given h w' ≡ given h w ++ (f ∷ []))

  -- Frames given to a device between two states of the node; or, without one, lost.
  abbrev pub Arrived :
      (p.Handle → p.World → List (List ℕ))
      → Option p.Handle
      → List (List ℕ)
      → Node p
      → Node p
      → Type 0
  Arrived given none frames n n' = n' ≡ n
  Arrived given (some h) frames n n' = given h n'.world ≡ given h n.world ++ frames

  module _ (given : p.Handle → p.World → List (List ℕ)) (writes : Writes given) where
    send_known :
        (k : Packet) (h : p.Handle) (n : Node p)
        → get_handle k.remot_intf_id n.wires ≡ some h
        → send_to_once p k n ≡ (ok true, record n { world = (writes h k.frame n.world).0 })
    unfolding send_to_once
    send_known k h n e =
        let (w', wrote, _) = writes h k.frame n.world in rw (send_to_once, e, wrote) refl

    -- Without a device for the packet, the node stays as it is.
    send_unknown :
        (k : Packet) (n : Node p)
        → get_handle k.remot_intf_id n.wires ≡ none
        → (send_to_once p k n).1 ≡ n
    unfolding send_to_once
    send_unknown k n e = rw (send_to_once, e) refl

    send-calm : (k : Packet) (n : Node p) → (send_to_once p k n).0 ≢ panic
    unfolding send_to_once
    send-calm k n e = elim (Option-cases (get_handle k.remot_intf_id n.wires)) [
      | inl none_there ↦ absurd (cc (rw (send_to_once, none_there) at e))
      | inr (h, there) ↦ absurd (cc (sym (ap (λ r. r.0) (send_known k h n there)) ∙ e))
    ]

    module _ (g : Gopacket) {Handle : Type 0} (open_live : String → Call p Handle)
        (direct : Handle → Call p (Unit {0})) (dial : String → Call p (Unit {0}))
        (wire : GrpcWire) where
      abbrev t : Tunnel (Node p) Handle
      t = tunnel_to open_live direct dial

      given-after :
          (h : p.Handle) (frames : List (List ℕ)) (n : Node p)
          → get_handle wire.peer_iface_id n.wires ≡ some h
          → given h (after_sending g t wire frames n).world ≡ given h n.world ++ frames
      given-after h [] n e = sym (append-nil (given h n.world))
      given-after h (f ∷ fs) n e =
          let (w', wrote, put) = writes h f n.world in
          ap (λ r. given h (after_sending g t wire fs r.1).world)
            (send_known (payload g t wire f) h n e)
          ∙ given-after h fs (record n { world = w' }) e
          ∙ ap (λ fs₀. fs₀ ++ fs) put
          ∙ append_assoc (given h n.world) (f ∷ []) fs

      unchanged-after :
          (frames : List (List ℕ)) (n : Node p)
          → get_handle wire.peer_iface_id n.wires ≡ none
          → after_sending g t wire frames n ≡ n
      unchanged-after [] n e = refl
      unchanged-after (f ∷ fs) n e =
          ap (after_sending g t wire fs) (send_unknown (payload g t wire f) n e)
          ∙ unchanged-after fs n e

      after_sending-Arrived :
          (o : Option p.Handle) (frames : List (List ℕ)) (n : Node p)
          → get_handle wire.peer_iface_id n.wires ≡ o
          → Arrived given o frames n (after_sending g t wire frames n)
      after_sending-Arrived none frames n e = unchanged-after frames n e
      after_sending-Arrived (some h) frames n e = given-after h frames n e

      -- What becomes of frames on a wire that is stopped later, if the peer's daemon can write: if it
      -- has the wire's device, the device is given exactly these frames, in order; if it does not,
      -- they are lost, and the thread goes on all the same. Frames of more than 1518 bytes must have
      -- a description.
      pub wire_delivers :
          (frames : List (List ℕ)) (later : List Event) (n : Node p)
          → All (IsDescribed g) frames
          → (n' : Node p) × (receive_loop g t wire (map captured frames ++ stopped ∷ later) n
              ≡ (err eof, n'))
            × Arrived given (get_handle wire.peer_iface_id n.wires) frames n n'
      wire_delivers frames later n described = (
        after_sending g t wire frames n,
        receive_loop-stopped g t wire send-calm frames later n described,
        after_sending-Arrived (get_handle wire.peer_iface_id n.wires) frames n refl,
      )
