-- ===== src/Packet/Parse/Bounds.antt =====
-- What every observation that `parse` of zimascope-ebpf/src/parse.rs returns satisfies.

use zima_scope.Base.{
  ℕ, ◌+◌, ◌-◌, ◌*◌, ◌/◌, ◌≤◌, ◌<◌, ◌≡◌, ◌⊎◌, inl, inr, low_bits, true, List, arith, length,
  get_elem?, get_elem?-lt, Option-cases,
}
use zima_scope.Packet.Cursor.{has, memory_u16, memory_u32, memory_cursor}
use zima_scope.Packet.Parse.{
  Headers, ParsedFlow, flow, parse_flags_of, tcp_data_offset_and_flags_offset, parse_ports,
  parse_l4, parse_ipv4, parse,
}

-- The payload of an observation lies within the packet's declared length, behind headers that were
-- captured, and belongs to a TCP or UDP packet over IPv4.
pub record IsSound (h : Headers) (bytes : List ℕ) (f : ParsedFlow) : Type 0 where
  pub payload_le : f.payload_offset ≤ f.payload_end
  pub captured : f.payload_offset ≤ length bytes
  pub transport : (f.protocol ≡ h.tcp_proto) ⊎ (f.protocol ≡ h.udp_proto)
  pub family : f.ip_family ≡ 4
  pub flags_lt : f.tcp_flags < 512

has-le :
    (bytes : List ℕ) (offset len : ℕ)
    → 0 < len
    → has (memory_cursor bytes) offset len ≡ true
    → offset + len ≤ length bytes
unfolding has
has-le bytes offset len p e = elim (Option-cases (get_elem? bytes (offset + len - 1))) [
  | inl out ↦ ground arith
  | inr (b, found) ↦ omega (arith, get_elem?-lt bytes (offset + len - 1) found)
]

module _ (h : Headers) (udp_pos : 0 < h.udp_len) (tcp_pos : 4 ≤ h.tcp_len) (bytes : List ℕ) where
  parse_ports-IsSound :
      (protocol src_word dst_word parse_flags l4 declared_end : ℕ) (f : ParsedFlow)
      → (protocol ≡ h.tcp_proto)
        ⊎ ((protocol ≡ h.udp_proto)
            × (l4 + h.udp_len ≤ declared_end)
            × (l4 + h.udp_len ≤ length bytes))
      → parse_ports h (memory_cursor bytes) protocol src_word dst_word parse_flags l4 declared_end
        ≡ flow f
      → IsSound h bytes f
  unfolding parse_ports
  parse_ports-IsSound protocol src_word dst_word parse_flags l4 declared_end f t e =
      elim (Option-cases (memory_u16 bytes (l4 + tcp_data_offset_and_flags_offset))) [
        | inl out ↦ ground arith
        | inr (word, found) ↦ ground (arith, has-le bytes l4 (word / 4096 * 4))
      ]

  parse_l4-IsSound :
      (protocol src_word dst_word parse_flags l4 declared_end : ℕ) (f : ParsedFlow)
      → parse_l4 h (memory_cursor bytes) protocol src_word dst_word parse_flags l4 declared_end
        ≡ flow f
      → IsSound h bytes f
  unfolding parse_l4
  parse_l4-IsSound protocol src_word dst_word parse_flags l4 declared_end f e = ground (
    arith,
    parse_ports-IsSound protocol src_word dst_word parse_flags l4 declared_end f,
    has-le bytes l4 h.udp_len,
  )

  parse_ipv4-IsSound :
      (l3 : ℕ) (f : ParsedFlow) → parse_ipv4 h (memory_cursor bytes) l3 ≡ flow f → IsSound h bytes f
  unfolding parse_ipv4
  parse_ipv4-IsSound l3 f e = elim (Option-cases (get_elem? bytes (l3 + h.ipv4_vihl))) [
    | inl out ↦ ground arith
    | inr (vihl, read_vihl) ↦ elim (Option-cases (memory_u16 bytes (l3 + h.ipv4_tot_len))) [
      | inl out ↦ ground arith
      | inr (total, read_total) ↦ elim (Option-cases (memory_u16 bytes (l3 + h.ipv4_frags))) [
        | inl out ↦ ground arith
        | inr (fragment, read_fragment) ↦
            elim (Option-cases (get_elem? bytes (l3 + h.ipv4_proto))) [
              | inl out ↦ ground arith
              | inr (protocol, read_protocol) ↦
                  elim (Option-cases (memory_u32 bytes (l3 + h.ipv4_src_addr))) [
                    | inl out ↦ ground arith
                    | inr (src, read_src) ↦
                        elim (Option-cases (memory_u32 bytes (l3 + h.ipv4_dst_addr))) [
                          | inl out ↦ ground arith
                          | inr (dst, read_dst) ↦ ground (
                            arith,
                            parse_l4-IsSound protocol src dst
                                (parse_flags_of h (low_bits vihl 4) fragment)
                                (l3 + low_bits vihl 4 * 4) (l3 + total) f,
                          )
                        ]
                  ]
            ]
      ]
    ]
  ]

-- Provided that the header lengths are positive, as documented (at least four bytes for TCP), every
-- observation parsed from a byte slice has its payload start within the packet's declared length
-- and within the captured bytes, carries TCP or UDP over IPv4, and has TCP flags of nine bits.
pub parse-IsSound :
    (h : Headers) (bytes : List ℕ) (f : ParsedFlow)
    → 0 < h.udp_len
    → 4 ≤ h.tcp_len
    → parse h (memory_cursor bytes) ≡ flow f
    → IsSound h bytes f
unfolding parse
parse-IsSound h bytes f u t e = ground (
  arith,
  parse_ipv4-IsSound h u t bytes (h.eth_len + h.vlan_len) f,
  parse_ipv4-IsSound h u t bytes h.eth_len f,
)
