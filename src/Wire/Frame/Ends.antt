-- ===== src/Wire/Frame/Ends.antt =====
-- `DecodeFrame` ends.
use kube_dtn.Prelude.{
  ℕ, zero, suc, ◌+◌, ◌≤◌, ◌<◌, ◌≡◌, ◌≢◌, refl, String, Bool, true, false, ◌&&◌, Option, none, some,
  List, [], ◌∷◌, arith, leb, nat_eq, Bool-cases, Option-cases, inl, inr, if◌then◌else◌,
}
use kube_dtn.Prelude.Lists.{length}
use kube_dtn.Wire.Frame.{
  LayerType, ethernet_layer, ipv4_layer, ipv6_layer, llc_layer, arp_layer, dot1q_layer, zero_layer,
  other_layer, Vlan, Llc, Gopacket, Decoded, done, panicked, out_of_rounds, and_then, decode_pkt,
  decode_payload, decode_llc_vlan, decode_vlan, llc_text, isis_text, starts_llc, vlan_length,
  decode_round, decode_rounds, decode_frame, end_round, with_title,
}

-- A VLAN layer's payload is what stands behind its header.
abbrev pub PayloadIsShorter : Gopacket → Type 0
PayloadIsShorter g =
    (data' : List ℕ) (layer_type : LayerType) (v : Vlan)
    → g.dot1q (g.new_packet data' layer_type) ≡ some v
    → length v.payload < length data'

abbrev Ends : {A : Type 0} → Decoded A → Type 0
Ends r = r ≢ out_of_rounds

and_then-Ends :
    {A B : Type 0} (r : Decoded A) (f : A → Decoded B)
    → Ends r
    → ((a : A) → Ends (f a))
    → Ends (and_then r f)
and_then-Ends (done a) f h k = k a
and_then-Ends panicked f h k = λ e. cc
and_then-Ends out_of_rounds f h k = absurd (h refl)

starts_llc-Ends : (g : Gopacket) (payload : List ℕ) → Ends (starts_llc g payload)
starts_llc-Ends g [] = λ e. cc
starts_llc-Ends g (a ∷ []) = ground arith
starts_llc-Ends g (a ∷ b ∷ []) = ground arith
starts_llc-Ends g (a ∷ b ∷ c ∷ rest) = λ e. cc

module _ (g : Gopacket) where
  -- One more layer of a packet ends if the layers inside do.
  module _ (again : g.Packet → LayerType → ℕ → Decoded (ℕ × String)) (v : Vlan) where
    module _
        (again-Ends : (u : LayerType) (n : ℕ) → Ends (again (g.new_packet v.payload u) u n)) where
      inner-Ends :
          (u : LayerType) (n : ℕ)
          → Ends (and_then (again (g.new_packet v.payload u) u n) (vlan_length g))
      inner-Ends u n =
          and_then-Ends (again (g.new_packet v.payload u) u n) (vlan_length g) (again-Ends u n)
            (λ a e. cc)

      decode_llc_vlan-Ends : (b : Bool) → Ends (decode_llc_vlan g again v b)
      decode_llc_vlan-Ends true = inner-Ends llc_layer v.ethertype
      decode_llc_vlan-Ends false = λ e. cc

      decode_payload-Ends : (next : LayerType) → Ends (decode_payload g again v next)
      decode_payload-Ends zero_layer =
          and_then-Ends (starts_llc g v.payload) (decode_llc_vlan g again v)
            (starts_llc-Ends g v.payload) decode_llc_vlan-Ends
      decode_payload-Ends ethernet_layer = inner-Ends ethernet_layer 0
      decode_payload-Ends ipv4_layer = inner-Ends ipv4_layer 0
      decode_payload-Ends ipv6_layer = inner-Ends ipv6_layer 0
      decode_payload-Ends llc_layer = inner-Ends llc_layer 0
      decode_payload-Ends arp_layer = inner-Ends arp_layer 0
      decode_payload-Ends dot1q_layer = inner-Ends dot1q_layer 0
      decode_payload-Ends (other_layer k) = inner-Ends (other_layer k) 0

  llc_text-Ends : (l : Option Llc) → Ends (llc_text g l)
  unfolding llc_text
  llc_text-Ends none = λ e. cc
  llc_text-Ends (some l) =
      llc_cases (nat_eq l.dsap 0xFE && nat_eq l.ssap 0xFE && nat_eq l.control 0x3) l.payload
    where
      llc_cases :
          (b : Bool) (payload : List ℕ) → Ends (if b then isis_text g payload else done ":LLC")
      llc_cases true [] = λ e. cc
      llc_cases true (b ∷ rest) = ground arith
      llc_cases false payload = λ e. cc

module _ (g : Gopacket) (shorter : PayloadIsShorter g) where
  decode_pkt-Ends :
      (fuel : ℕ) (d : List ℕ) (t u : LayerType) (n : ℕ)
      → length d < fuel
      → Ends (decode_pkt g fuel (g.new_packet d t) u n)
  unfolding decode_pkt
  decode_pkt-Ends zero d t u n h = absurd (omega arith)
  decode_pkt-Ends (suc fuel) d t ethernet_layer n h = λ e. cc
  decode_pkt-Ends (suc fuel) d t ipv4_layer n h = λ e. cc
  decode_pkt-Ends (suc fuel) d t ipv6_layer n h = λ e. cc
  decode_pkt-Ends (suc fuel) d t llc_layer n h =
      and_then-Ends (llc_text g (g.llc (g.new_packet d t))) (λ text. done (n, text))
        (llc_text-Ends g (g.llc (g.new_packet d t))) (λ a e. cc)
  decode_pkt-Ends (suc fuel) d t arp_layer n h = λ e. cc
  decode_pkt-Ends (suc fuel) d t zero_layer n h = λ e. cc
  decode_pkt-Ends (suc fuel) d t (other_layer k) n h = λ e. cc
  decode_pkt-Ends (suc fuel) d t dot1q_layer n h =
      elim (Option-cases (g.dot1q (g.new_packet d t))) [
        | inl none_there ↦ rw (none_there, decode_vlan) (λ e. cc)
        | inr (v, there) ↦
            let less = shorter d t v there in
            rw (there, decode_vlan)
              (decode_payload-Ends g (decode_pkt g fuel) v
                (λ u m. decode_pkt-Ends fuel v.payload u u m (omega arith)) v.next_layer)
      ]

  -- A round ends if the rounds behind it do, which start further on.
  end_round-Ends :
      (again : List ℕ → ℕ → ℕ → String → Decoded (ℕ × String)) (frame : List ℕ)
      (total_len num_pkts total : ℕ) (text : String) (r : ℕ × String)
      → ((f : List ℕ) (m further : ℕ) (s : String)
          → total + 14 ≤ further
          → further ≤ total_len
          → Ends (again f m further s))
      → Ends (end_round g again frame total_len num_pkts total text r)
  unfolding end_round
  end_round-Ends again frame total_len num_pkts total text (d, s) h =
      elim (Bool-cases (leb (total + (14 + d) + 14) total_len)) [
        | inr over ↦ rw over (λ e. cc)
        | inl more ↦ elim (Bool-cases (leb (total + (14 + d)) (length frame))) [
          | inr beyond ↦ rw (more, beyond) (λ e. cc)
          | inl within ↦ rw (more, within) (h _ _ (total + (14 + d)) _ (omega arith) (ground arith))
        ]
      ]

  decode_rounds-Ends :
      (fuel total_len : ℕ) (frame : List ℕ) (num_pkts total : ℕ) (text : String)
      → total ≤ total_len
      → total_len < total + fuel
      → Ends (decode_rounds g fuel total_len frame num_pkts total text)
  unfolding decode_rounds decode_round
  decode_rounds-Ends zero total_len frame num_pkts total text low h = absurd (omega arith)
  decode_rounds-Ends (suc fuel) total_len frame num_pkts total text low h =
      elim (Option-cases (g.ethernet (g.new_packet frame ethernet_layer))) [
        | inl none_there ↦ rw (none_there, decode_round) (λ e. cc)
        | inr (e, there) ↦
            rw (there, decode_round)
              (and_then-Ends
                (decode_pkt g (suc (length frame)) (g.new_packet frame ethernet_layer) e.next_layer
                  e.length)
                (end_round g (decode_rounds g fuel total_len) frame total_len num_pkts total text)
                (decode_pkt-Ends (suc (length frame)) frame ethernet_layer e.next_layer e.length
                  (omega arith))
                (λ r.
                  end_round-Ends (decode_rounds g fuel total_len) frame total_len num_pkts total
                    text r
                    (λ f m further s low' high.
                      decode_rounds-Ends fuel total_len f m further s high (omega arith))))
      ]

  -- If the payload of each VLAN layer is shorter than the packet that holds it, then `DecodeFrame`
  -- ends on every frame: one round more than the frame has bytes is enough for the loop, and for
  -- the layers inside a packet.
  pub decode_frame_ends : (frame : List ℕ) → decode_frame g frame ≢ out_of_rounds
  unfolding decode_frame
  decode_frame_ends frame =
      and_then-Ends (decode_rounds g (suc (length frame)) (length frame) frame 1 0 "")
        (with_title g)
        (decode_rounds-Ends (suc (length frame)) (length frame) frame 1 0 "" (omega arith)
          (omega arith))
        (λ r e. cc)
