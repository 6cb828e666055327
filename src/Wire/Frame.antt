-- ===== src/Wire/Frame.antt =====
-- `DecodeFrame` and `DecodePkt` (daemon/grpcwire/grpcwire.go): a description of a large frame for the
-- log. gopacket is a parameter. Indexing and slicing out of range panic, and what would not end is
-- told apart as running out of rounds.
pub mod Ends
pub mod Slices
use Prim.Native.String.{◌++◌}
use kube_dtn.Prelude.{
  ℕ, zero, suc, ◌+◌, String, Bool, true, false, ◌&&◌, Option, none, some, List, [], ◌∷◌, ltb, leb,
  nat_eq, if◌then◌else◌,
}
use kube_dtn.Prelude.Lists.{length}
use kube_dtn.Prelude.Text.{decimal}

-- The layer types that the code tells apart.
pub data LayerType : Type 0 where
  ethernet_layer ipv4_layer ipv6_layer llc_layer arp_layer dot1q_layer zero_layer : LayerType
  other_layer : ℕ → LayerType

pub record Ethernet : Type 0 where
  pub next_layer : LayerType
  pub length : ℕ

-- IPv4 and IPv6 headers alike: `protocol` is `NextHeader` of the latter; addresses as texts.
pub record IpHeader : Type 0 where
  pub length : ℕ
  pub src_ip : String
  pub dst_ip : String
  pub protocol : ℕ

pub record Llc : Type 0 where
  pub dsap : ℕ
  pub ssap : ℕ
  pub control : ℕ
  pub payload : List ℕ

pub record Vlan : Type 0 where
  pub next_layer : LayerType
  pub ethertype : ℕ
  pub payload : List ℕ

-- `gopacket.NewPacket` and, for each type, `packet.Layer`
pub record Gopacket : Type 1 where
  pub Packet : Type 0
  pub new_packet : List ℕ → LayerType → Packet
  pub ethernet : Packet → Option Ethernet
  pub ipv4 : Packet → Option IpHeader
  pub ipv6 : Packet → Option IpHeader
  pub tcp_dst_port : Packet → Option ℕ
  pub llc : Packet → Option Llc
  pub dot1q : Packet → Option Vlan

pub data Decoded (A : Type 0) : Type 0 where
  done : A → Decoded A
  panicked out_of_rounds : Decoded A

abbrev pub and_then : {A B : Type 0} → Decoded A → (A → Decoded B) → Decoded B
and_then (done a) f = f a
and_then panicked f = panicked
and_then out_of_rounds f = out_of_rounds

-- `frame[n:]`
abbrev pub drop : ℕ → List ℕ → List ℕ
drop zero xs = xs
drop (suc n) [] = []
drop (suc n) (x ∷ xs) = drop n xs

module _ (g : Gopacket) where
  abbrev pub addresses : IpHeader → String
  addresses h = "[s:" ++ (h.src_ip ++ (", d:" ++ (h.dst_ip ++ "]")))

  abbrev pub tcp_text : String → Option ℕ → String
  tcp_text before none = ":TCP"
  tcp_text before (some port) =
      if nat_eq port 179
      then ":TCP:BGP"
      else ":TCP" ++ (before ++ ("[Port:" ++ (decimal port ++ "]")))

  abbrev pub ip_text : String → String → ℕ → String → IpHeader → Option ℕ → String
  ip_text version icmp icmp_protocol before h port =
      if nat_eq h.protocol icmp_protocol
      then icmp
      else if nat_eq h.protocol 6
      then tcp_text before port
      else version ++ (" with protocol : " ++ decimal h.protocol)

  unfoldable pub decode_ipv4 : Option IpHeader → Option ℕ → ℕ × String
  decode_ipv4 none port = (0, ":IPv4")
  decode_ipv4 (some h) port =
      (h.length, ":IPv4" ++ (addresses h ++ ip_text ":IPv4" ":ICMP" 1 ":" h port))

  unfoldable pub decode_ipv6 : Option IpHeader → Option ℕ → ℕ × String
  decode_ipv6 none port = (0, ":IPv6")
  decode_ipv6 (some h) port =
      (h.length, ":IPv6" ++ (addresses h ++ ip_text ":IPv6" ":ICMPv6" 58 "" h port))

  -- `Payload[0] == 0x83`
  abbrev pub isis_text : List ℕ → Decoded String
  isis_text [] = panicked
  isis_text (b ∷ rest) = if nat_eq b 0x83 then done ":LLC:ISIS" else done ":LLC"

  unfoldable pub llc_text : Option Llc → Decoded String
  llc_text none = done ""
  llc_text (some l) =
      if nat_eq l.dsap 0xFE && nat_eq l.ssap 0xFE && nat_eq l.control 0x3
      then isis_text l.payload
      else done ":LLC"

  -- the three tests on the payload, each made only if the one before held
  abbrev pub starts_llc : List ℕ → Decoded Bool
  starts_llc [] = panicked
  starts_llc (a ∷ []) = if nat_eq a 0xFE then panicked else done false
  starts_llc (a ∷ b ∷ []) =
      if nat_eq a 0xFE then (if nat_eq b 0xFE then panicked else done false) else done false
  starts_llc (a ∷ b ∷ c ∷ rest) = done (nat_eq a 0xFE && nat_eq b 0xFE && nat_eq c 0x03)

  abbrev pub vlan_length : ℕ × String → Decoded (ℕ × String)
  vlan_length (decoded_len, text) = done (decoded_len + 4, ":VLAN" ++ text)

  -- A VLAN's payload of no known type, if it may be LLC.
  abbrev pub decode_llc_vlan :
      (g.Packet → LayerType → ℕ → Decoded (ℕ × String)) → Vlan → Bool → Decoded (ℕ × String)
  decode_llc_vlan again v true =
      and_then (again (g.new_packet v.payload llc_layer) llc_layer v.ethertype) vlan_length
  decode_llc_vlan again v false = done (0, ":VLAN")

  -- A VLAN's payload, by its type.
  abbrev pub decode_payload :
      (g.Packet → LayerType → ℕ → Decoded (ℕ × String)) → Vlan → LayerType → Decoded (ℕ × String)
  decode_payload again v zero_layer = and_then (starts_llc v.payload) (decode_llc_vlan again v)
  decode_payload again v next = and_then (again (g.new_packet v.payload next) next 0) vlan_length

  unfoldable pub decode_vlan :
      (g.Packet → LayerType → ℕ → Decoded (ℕ × String)) → Option Vlan → Decoded (ℕ × String)
  decode_vlan again none = done (0, ":VLAN:No VLAN Hdr")
  decode_vlan again (some v) = decode_payload again v v.next_layer

  -- The number of bytes that were decoded, and the description.
  unfoldable pub decode_pkt : ℕ → g.Packet → LayerType → ℕ → Decoded (ℕ × String)
  unfolding decode_ipv4 decode_ipv6 llc_text decode_vlan
  decode_pkt zero packet layer_type length = out_of_rounds
  decode_pkt (suc fuel) packet ipv4_layer length =
      done (decode_ipv4 (g.ipv4 packet) (g.tcp_dst_port packet))
  decode_pkt (suc fuel) packet ipv6_layer length =
      done (decode_ipv6 (g.ipv6 packet) (g.tcp_dst_port packet))
  decode_pkt (suc fuel) packet llc_layer length =
      and_then (llc_text (g.llc packet)) (λ text. done (length, text))
  decode_pkt (suc fuel) packet arp_layer length = done (28, ":ARP")
  decode_pkt (suc fuel) packet dot1q_layer length = decode_vlan (decode_pkt fuel) (g.dot1q packet)
  decode_pkt (suc fuel) packet ethernet_layer length = done (0, "")
  decode_pkt (suc fuel) packet zero_layer length = done (0, "")
  decode_pkt (suc fuel) packet (other_layer n) length = done (0, "")

  -- The end of a round: the next one takes what stands behind all that was decoded so far, though
  -- the frame has been cut before.
  unfoldable pub end_round :
      (List ℕ → ℕ → ℕ → String → Decoded (ℕ × String))
      → List ℕ
      → ℕ
      → ℕ
      → ℕ
      → String
      → ℕ × String
      → Decoded (ℕ × String)
  end_round again frame total_len num_pkts total_decoded_len text (decoded_len, type_text) =
      let total = total_decoded_len + (14 + decoded_len) in
      let text' = text ++ ("Pkt no " ++ (decimal num_pkts ++ (": Ethernet" ++ type_text))) in
      if leb (total + 14) total_len
      then (if leb total (length frame)
          then again (drop total frame) (num_pkts + 1) total (text' ++ "\n            ")
          else panicked)
      else done (num_pkts, text')

  unfoldable pub decode_round :
      (List ℕ → ℕ → ℕ → String → Decoded (ℕ × String))
      → List ℕ
      → ℕ
      → ℕ
      → ℕ
      → String
      → Option Ethernet
      → Decoded (ℕ × String)
  unfolding decode_pkt end_round
  decode_round again frame total_len num_pkts total_decoded_len text none = done (num_pkts, text)
  decode_round again frame total_len num_pkts total_decoded_len text (some e) =
      and_then
        (decode_pkt (suc (length frame)) (g.new_packet frame ethernet_layer) e.next_layer e.length)
        (end_round again frame total_len num_pkts total_decoded_len text)

  -- The loop: how many packets, and their descriptions.
  unfoldable pub decode_rounds : ℕ → ℕ → List ℕ → ℕ → ℕ → String → Decoded (ℕ × String)
  unfolding decode_round
  decode_rounds zero total_len frame num_pkts total_decoded_len text = out_of_rounds
  decode_rounds (suc fuel) total_len frame num_pkts total_decoded_len text =
      decode_round (decode_rounds fuel total_len) frame total_len num_pkts total_decoded_len text
        (g.ethernet (g.new_packet frame ethernet_layer))

  abbrev pub with_title : ℕ × String → Decoded String
  with_title (num_pkts, text) = done (if ltb 1 num_pkts then "Multi Pkts: " ++ text else text)

  unfoldable pub decode_frame : List ℕ → Decoded String
  unfolding decode_rounds
  decode_frame frame =
      and_then (decode_rounds (suc (length frame)) (length frame) frame 1 0 "") with_title
