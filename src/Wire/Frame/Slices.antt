-- ===== src/Wire/Frame/Slices.antt =====
-- What `DecodeFrame` does with a frame of several packets.
use Prim.Native.String.{◌++◌}
use kube_dtn.Prelude.Text.{decimal}
use kube_dtn.Prelude.{
  ℕ, zero, suc, ◌+◌, ◌*◌, ◌-◌, ◌≤◌, ◌<◌, ◌≡◌, refl, ap, subst, sym, ◌∙◌, String, true, false, some,
  List, [], ◌∷◌, arith, leb,
}
use kube_dtn.Prelude.Lists.{length}
use kube_dtn.Wire.Frame.{
  ethernet_layer, Ethernet, Gopacket, done, panicked, and_then, decode_pkt, decode_round,
  decode_rounds, decode_frame, end_round, with_title, drop,
}

leb_of_le : (a b : ℕ) → a ≤ b → leb a b ≡ true
leb_of_le a b h = ground arith

leb_of_lt : (a b : ℕ) → b < a → leb a b ≡ false
leb_of_lt a b h = ground arith

pub length-drop : (n : ℕ) (xs : List ℕ) → length (drop n xs) ≡ length xs - n
length-drop zero xs = omega arith
length-drop (suc n) [] = omega arith
length-drop (suc n) (x ∷ xs) = omega (arith, length-drop n xs)

drop-drop : (m n : ℕ) (xs : List ℕ) → drop n (drop m xs) ≡ drop (m + n) xs
drop-drop zero n xs = let same : n ≡ 0 + n = omega arith in ap (λ k. drop k xs) same
drop-drop (suc m) zero [] =
    let same : suc (m + 0) ≡ suc m + 0 = omega arith in ap (λ k. drop k []) same
drop-drop (suc m) (suc n) [] =
    let same : suc (m + suc n) ≡ suc m + suc n = omega arith in ap (λ k. drop k []) same
drop-drop (suc m) n (x ∷ xs) =
    let same : suc (m + n) ≡ suc m + n = omega arith in
    drop-drop m n xs ∙ ap (λ k. drop k (x ∷ xs)) same

-- A frame starts with an Ethernet packet of this many bytes behind the header.
pub record HoldsPacket (g : Gopacket) (size : ℕ) (f : List ℕ) : Type 0 where
  pub header : Ethernet
  pub description : String
  pub is_ethernet : g.ethernet (g.new_packet f ethernet_layer) ≡ some header
  pub decodes :
      decode_pkt g (suc (length f)) (g.new_packet f ethernet_layer) header.next_layer header.length
      ≡ done (size, description)

-- Packets of one size follow each other in a frame.
abbrev pub HoldsPackets : Gopacket → ℕ → List ℕ → Type 0
HoldsPackets g size frame =
    (k : ℕ)
    → 14 ≤ length (drop (k * (14 + size)) frame)
    → HoldsPacket g size (drop (k * (14 + size)) frame)

module _ (g : Gopacket) (size : ℕ) where
  abbrev text_of : String → ℕ → String → String
  text_of description num_pkts text =
      text ++ ("Pkt no " ++ (decimal num_pkts ++ (": Ethernet" ++ description)))

  -- A round on a frame that starts with such a packet.
  module _ (frame : List ℕ) (holds : HoldsPacket g size frame) where
    round :
        (fuel total_len num_pkts total : ℕ) (text : String)
        → decode_rounds g (suc fuel) total_len frame num_pkts total text
          ≡ end_round g
              (decode_rounds g fuel total_len)
              frame
              total_len
              num_pkts
              total
              text
              (size, holds.description)
    unfolding decode_rounds decode_round
    round fuel total_len num_pkts total text =
        rw (holds.is_ethernet, decode_round) (rw holds.decodes refl)

    -- More is to come, and the cut is within what is left of the frame.
    step :
        (fuel total_len num_pkts total : ℕ) (text : String)
        → total + (14 + size) + 14 ≤ total_len
        → total + (14 + size) ≤ length frame
        → decode_rounds g (suc fuel) total_len frame num_pkts total text
          ≡ decode_rounds g fuel total_len
              (drop (total + (14 + size)) frame)
              (num_pkts + 1)
              (total + (14 + size))
              (text_of holds.description num_pkts text ++ "\n            ")
    unfolding end_round
    step fuel total_len num_pkts total text more within =
        round fuel total_len num_pkts total text
        ∙ rw
            (
              leb_of_le (total + (14 + size) + 14) total_len more,
              leb_of_le (total + (14 + size)) (length frame) within,
            )
            refl

    -- More is to come, and the cut is not.
    overrun :
        (fuel total_len num_pkts total : ℕ) (text : String)
        → total + (14 + size) + 14 ≤ total_len
        → length frame < total + (14 + size)
        → decode_rounds g (suc fuel) total_len frame num_pkts total text ≡ panicked
    unfolding end_round
    overrun fuel total_len num_pkts total text more beyond =
        round fuel total_len num_pkts total text
        ∙ rw
            (
              leb_of_le (total + (14 + size) + 14) total_len more,
              leb_of_lt (total + (14 + size)) (length frame) beyond,
            )
            refl

  -- The packet at a multiple of the size, where the loop has cut the frame.
  packet_at :
      (frame cut : List ℕ) (k n : ℕ)
      → HoldsPackets g size frame
      → cut ≡ drop n frame
      → n ≡ k * (14 + size)
      → 14 ≤ length cut
      → HoldsPacket g size cut
  packet_at frame cut k n holds e at room =
      let there : cut ≡ drop (k * (14 + size)) frame = e ∙ ap (λ m. drop m frame) at in
      subst (HoldsPacket g size) (sym there) (holds k (subst (λ f. 14 ≤ length f) there room))

  four_rounds :
      (fuel : ℕ) (frame : List ℕ)
      → HoldsPackets g size frame
      → length frame ≡ 4 * (14 + size)
      → decode_rounds g (suc (suc (suc fuel))) (length frame) frame 1 0 "" ≡ panicked
  four_rounds fuel frame holds e =
      let second = drop (0 + (14 + size)) frame in
      let third = drop (0 + (14 + size) + (14 + size)) second in
      let len₂ = length-drop (0 + (14 + size)) frame in
      let len₃ = length-drop (0 + (14 + size) + (14 + size)) second in
      let holds₁ = packet_at frame frame 0 0 holds refl (omega arith) (omega arith) in
      let holds₂ =
        packet_at frame second 1 (0 + (14 + size)) holds refl (omega arith) (omega arith) in
      let holds₃ =
        packet_at frame third 3 (0 + (14 + size) + (0 + (14 + size) + (14 + size))) holds
          (drop-drop (0 + (14 + size)) (0 + (14 + size) + (14 + size)) frame) (omega arith)
          (omega arith) in
      step frame holds₁ (suc (suc fuel)) (length frame) 1 0 "" (omega arith) (omega arith)
      ∙ step second holds₂ (suc fuel) (length frame) (1 + 1) (0 + (14 + size)) _ (omega arith)
          (omega arith)
      ∙ overrun third holds₃ fuel (length frame) (1 + 1 + 1) (0 + (14 + size) + (14 + size)) _
          (omega arith) (omega arith)

  -- A frame that is exactly four packets of one size, one behind the other, crashes `DecodeFrame`.
  pub decode_frame_four :
      (frame : List ℕ)
      → HoldsPackets g size frame
      → length frame ≡ 4 * (14 + size)
      → decode_frame g frame ≡ panicked
  unfolding decode_frame
  decode_frame_four frame holds e =
      let fuel = length frame - 2 in
      let rounds : suc (length frame) ≡ suc (suc (suc fuel)) = omega arith in
      ap (λ r. and_then r (with_title g))
        (ap (λ n. decode_rounds g n (length frame) frame 1 0 "") rounds
          ∙ four_rounds fuel frame holds e)
