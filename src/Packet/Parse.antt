-- ===== src/Packet/Parse.antt =====
-- `parse` of zimascope-ebpf/src/parse.rs. The offsets and lengths of the protocol headers, and the
-- numbers that name the protocols, come from the crate `network-types`: they are the parameter
-- `Headers`. The masks and shifts of the source are remainders and quotients by powers of two.
pub mod Bounds
use Prim.Native.Nat.{bit_or}
use zima_scope.Abi.{IpFamily, family_code}
use zima_scope.Base.{
  ℕ, zero, suc, ◌+◌, ◌*◌, ◌/◌, ◌%◌, ◌^◌, Bool, true, false, not, ◌||◌, Option, some, none, List, [],
  ◌∷◌, ltb, ◌==◌, if◌then◌else◌, shr, low_bits, has_bit, swap16,
}
use zima_scope.Packet.Cursor.{PacketCursor, has}

-- The constants of `network-types`: `LEN`, `offset_of!` and discriminants in host order.
pub record Headers : Type 0 where
  pub eth_len : ℕ
  pub eth_ether_type : ℕ
  pub vlan_len : ℕ
  pub vlan_ether_type : ℕ
  pub ipv4_len : ℕ
  pub ipv4_vihl : ℕ
  pub ipv4_tot_len : ℕ
  pub ipv4_frags : ℕ
  pub ipv4_proto : ℕ
  pub ipv4_src_addr : ℕ
  pub ipv4_dst_addr : ℕ
  pub tcp_len : ℕ
  pub tcp_source : ℕ
  pub tcp_dest : ℕ
  pub udp_len : ℕ
  pub udp_src : ℕ
  pub udp_dst : ℕ
  pub ieee8021q : ℕ
  pub ieee8021ad : ℕ
  pub ipv4_type : ℕ
  pub tcp_proto : ℕ
  pub udp_proto : ℕ

abbrev pub tcp_data_offset_and_flags_offset : ℕ
tcp_data_offset_and_flags_offset = 12

abbrev pub parse_flag_ip_options : ℕ
parse_flag_ip_options = 2

abbrev pub parse_flag_ip_fragmented : ℕ
parse_flag_ip_fragmented = 4

pub record ParsedFlow : Type 0 where
  pub src_addr : List ℕ
  pub dst_addr : List ℕ
  pub src_port_be : ℕ
  pub dst_port_be : ℕ
  pub protocol : ℕ
  pub ip_family : ℕ
  pub tcp_flags : ℕ
  pub parse_flags : ℕ
  pub payload_offset : ℕ
  pub payload_end : ℕ

pub data ParseResult : Type 0 where
  flow : ParsedFlow → ParseResult
  skipped truncated invalid : ParseResult

abbrev pub is_flow : ParseResult → Bool
is_flow (flow f) = true
is_flow _ = false

abbrev pub is_failure : ParseResult → Bool
is_failure truncated = true
is_failure invalid = true
is_failure _ = false

-- `match read { Some(value) => …, None => return ParseResult::Truncated }`.
infixl 5 ◌>>=◌
abbrev pub ◌>>=◌ : {A : Type 0} → Option A → (A → ParseResult) → ParseResult
some a >>= f = f a
none >>= f = truncated

-- The address in the last four of 16 bytes, from the word in host order.
unfoldable pub ipv4_storage : ℕ → List ℕ
ipv4_storage word =
    0
    ∷ 0
    ∷ 0
    ∷ 0
    ∷ 0
    ∷ 0
    ∷ 0
    ∷ 0
    ∷ 0
    ∷ 0
    ∷ 0
    ∷ 0
    ∷ (shr word 24 % 256)
    ∷ (shr word 16 % 256)
    ∷ (shr word 8 % 256)
    ∷ (word % 256)
    ∷ []

unfoldable pub parse_flags_of : Headers → ℕ → ℕ → ℕ
parse_flags_of h ihl_words fragment =
    let options = if ltb (h.ipv4_len / 4) ihl_words then bit_or 0 parse_flag_ip_options else 0 in
    if has_bit fragment 13 then bit_or options parse_flag_ip_fragmented else options

module _ (h : Headers) (c : PacketCursor) where
  -- The last part of `parse_ipv4`: ports, TCP flags and data offset, and the result.
  unfoldable pub parse_ports : ℕ → ℕ → ℕ → ℕ → ℕ → ℕ → ParseResult
  parse_ports protocol src_word dst_word parse_flags l4_offset declared_end = do
    let is_tcp = protocol == h.tcp_proto
    let src_port_offset = if is_tcp then h.tcp_source else h.udp_src
    let dst_port_offset = if is_tcp then h.tcp_dest else h.udp_dst
    src_port ← c.read_u16_be (l4_offset + src_port_offset)
    dst_port ← c.read_u16_be (l4_offset + dst_port_offset)
    let result = λ (tcp_flags l4_header_len : ℕ). flow (record {
      src_addr = ipv4_storage src_word;
      dst_addr = ipv4_storage dst_word;
      src_port_be = swap16 src_port;
      dst_port_be = swap16 dst_port;
      protocol = protocol;
      ip_family = family_code IpFamily.v4;
      tcp_flags = tcp_flags;
      parse_flags = parse_flags;
      payload_offset = l4_offset + l4_header_len;
      payload_end = declared_end;
    })
    (if is_tcp
        then (do
          offset_flags ← c.read_u16_be (l4_offset + tcp_data_offset_and_flags_offset)
          let data_offset_words = shr offset_flags 12
          (if ltb data_offset_words (h.tcp_len / 4)
              then invalid
              else if ltb declared_end (l4_offset + data_offset_words * 4)
                  || not (has c l4_offset (data_offset_words * 4))
              then truncated
              else result (low_bits offset_flags 9) (data_offset_words * 4)))
        else result 0 h.udp_len)

  -- The `match protocol`: the fixed part of the L4 header lies inside the packet.
  unfoldable pub parse_l4 : ℕ → ℕ → ℕ → ℕ → ℕ → ℕ → ParseResult
  parse_l4 protocol src_word dst_word parse_flags l4_offset declared_end =
      let rest = parse_ports protocol src_word dst_word parse_flags l4_offset declared_end in
      if protocol == h.tcp_proto
      then (if ltb declared_end (l4_offset + h.tcp_len) || not (has c l4_offset h.tcp_len)
          then truncated
          else rest)
      else if protocol == h.udp_proto
      then (if ltb declared_end (l4_offset + h.udp_len) || not (has c l4_offset h.udp_len)
          then truncated
          else rest)
      else skipped

  unfoldable pub parse_ipv4 : ℕ → ParseResult
  parse_ipv4 l3_offset = do
    version_ihl ← c.read_u8 (l3_offset + h.ipv4_vihl)
    let ihl_words = low_bits version_ihl 4
    let ip_header_len = ihl_words * 4
    (if not (shr version_ihl 4 == 4)
        then invalid
        else if ltb ihl_words (h.ipv4_len / 4)
        then invalid
        else (do
          total_length ← c.read_u16_be (l3_offset + h.ipv4_tot_len)
          (if ltb total_length ip_header_len then invalid else (do
            fragment ← c.read_u16_be (l3_offset + h.ipv4_frags)
            (if not (low_bits fragment 13 == 0) then skipped else (do
              protocol ← c.read_u8 (l3_offset + h.ipv4_proto)
              src_word ← c.read_u32_be (l3_offset + h.ipv4_src_addr)
              dst_word ← c.read_u32_be (l3_offset + h.ipv4_dst_addr)
              parse_l4 protocol src_word dst_word (parse_flags_of h ihl_words fragment)
                  (l3_offset + ip_header_len) (l3_offset + total_length)))))))

  unfoldable pub parse : ParseResult
  parse = do
    outer ← c.read_u16_be h.eth_ether_type
    let ipv4_at = λ (ethertype l3_offset : ℕ).
        if not (ethertype == h.ipv4_type) then skipped else parse_ipv4 l3_offset
    (if outer == h.ieee8021q || outer == h.ieee8021ad
        then (do
          inner ← c.read_u16_be (h.eth_len + h.vlan_ether_type)
          ipv4_at inner (h.eth_len + h.vlan_len))
        else ipv4_at outer h.eth_len)
