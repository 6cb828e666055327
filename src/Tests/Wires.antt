-- ===== src/Tests/Wires.antt =====
-- Frames, and what a wire does with them.
use kube_dtn.Prelude.{
  ℕ, ◌≡◌, ◌≢◌, refl, String, none, some, List, [], ◌∷◌, ◌++◌, map, ok, err, panic, arith, leb,
  if◌then◌else◌, zero, suc, inl,
}
use kube_dtn.Prelude.{◌↔◌, ◌≤◌, ◌<◌}
use kube_dtn.Prelude.Sizes.{size}
use kube_dtn.Wire.Names.{iface_name}
use kube_dtn.Wire.Names.Length.{iface_name-fits_iff}
use kube_dtn.Prelude.Lists.{length}
use kube_dtn.Api.Proto.{Packet}
use kube_dtn.Wire.Frame.{Gopacket, ipv4_layer, decode_frame, decode_pkt, decode_ipv4, out_of_rounds}
use kube_dtn.Wire.Frame.Ends.{PayloadIsShorter, decode_frame_ends}
use kube_dtn.Wire.Frame.Slices.{HoldsPackets}
use kube_dtn.Wire.Receive.{Tunnel, captured, stopped, source_closed, eof, receive_loop}
use kube_dtn.Wire.Receive.Relay.{after_sending, receive_loop-stopped, receive_loop-large}
use kube_dtn.Tests.Lab.{wire}

-- Each frame with room for a header holds an IPv4 packet of ICMP of so many bytes.
abbrev pub pings : ℕ → Gopacket
pings size = record {
  Packet = List ℕ;
  new_packet = λ data' t. data';
  ethernet = λ p.
      if leb 14 (length p) then some (record { next_layer = ipv4_layer; length = 0 }) else none;
  ipv4 =
      λ p. some (record { length = size; src_ip = "10.0.0.1"; dst_ip = "10.0.0.2"; protocol = 1 });
  ipv6 = λ p. none;
  tcp_dst_port = λ p. none;
  llc = λ p. none;
  dot1q = λ p. none;
}

pings-PayloadIsShorter : (size : ℕ) → PayloadIsShorter (pings size)
pings-PayloadIsShorter size data' t v e = absurd (cc)

pings-HoldsPackets : (size : ℕ) (frame : List ℕ) → HoldsPackets (pings size) size frame
unfolding decode_pkt decode_ipv4
pings-HoldsPackets size frame k room = record {
  header = record { next_layer = ipv4_layer; length = 0 };
  description = ":IPv4[s:10.0.0.1, d:10.0.0.2]:ICMP";
  is_ethernet = ground arith;
  decodes = refl;
}

abbrev zeros : ℕ → List ℕ
zeros zero = []
zeros (suc n) = 0 ∷ zeros n

length-zeros : (n : ℕ) → length (zeros n) ≡ n
length-zeros zero = refl
length-zeros (suc n) = omega (arith, length-zeros n)

decode_frame_ends_example : decode_frame (pings 28) (zeros 42) ≢ out_of_rounds
decode_frame_ends_example = decode_frame_ends (pings 28) (pings-PayloadIsShorter 28) (zeros 42)

-- The peer's world is the packets that it was sent, last first.
abbrev tunnel : Tunnel (List Packet) String
tunnel = record {
  open_live = λ name w. (ok name, w);
  set_direction_in = λ h w. (ok tt, w);
  dial = λ address w. (ok tt, w);
  send_to_once = λ k w. (err eof, k ∷ w);
}

receive_loop-stopped_example :
    receive_loop
      (pings 28)
      tunnel
      wire
      (map captured (zeros 42 ∷ zeros 60 ∷ []) ++ stopped ∷ source_closed ∷ [])
      []
    ≡ (err eof, after_sending (pings 28) tunnel wire (zeros 42 ∷ zeros 60 ∷ []) [])
receive_loop-stopped_example =
    receive_loop-stopped (pings 28) tunnel wire (λ k w e. cc) (zeros 42 ∷ zeros 60 ∷ [])
      (source_closed ∷ []) []
      (inl (omega (arith, length-zeros 42)), (inl (omega (arith, length-zeros 60)), tt))

receive_loop-large_example :
    receive_loop (pings 386) tunnel wire (captured (zeros 1600) ∷ stopped ∷ []) [] ≡ (panic, [])
receive_loop-large_example =
    receive_loop-large (pings 386) tunnel wire 386 (zeros 1600) (stopped ∷ []) []
      (pings-HoldsPackets 386 (zeros 1600)) (length-zeros 1600) (omega (arith, length-zeros 1600))

iface_name-fits_iff_example : (size (iface_name "router1" "ethernet0" 12) ≤ 15) ↔ (12 < 10000)
iface_name-fits_iff_example =
    iface_name-fits_iff "router1" "ethernet0" 12 (ground arith) (ground arith)
