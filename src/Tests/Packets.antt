-- ===== src/Tests/Packets.antt =====
-- One captured frame, read and parsed.

use zima_scope.Base.{ℕ, ◌≤◌, ◌≡◌, refl, arith, length}
use zima_scope.Packet.Cursor.{
  BpfCursor, has, read_each, slice, memory_u16, memory_u32, memory_cursor, bpf_cursor,
}
use zima_scope.Packet.Cursor.Agree.{IsFrame, frame, bpf_cursor-memory_cursor}
use zima_scope.Packet.Parse.{
  flow, ipv4_storage, parse_flags_of, parse_ports, parse_l4, parse_ipv4, parse,
}
use zima_scope.Packet.Parse.Bounds.{IsSound, parse-IsSound}
use zima_scope.Tests.Data.{wire, http_frame, http_flow}

parser : Unit {0}
unfolding has read_each slice memory_u16 memory_u32 ipv4_storage parse_flags_of parse_ports parse_l4
    parse_ipv4 parse
parser = tt

parse_http : parse wire (memory_cursor http_frame) ≡ flow http_flow
unfolding parser
parse_http = refl

parse-IsSound_example : IsSound wire http_frame http_flow
parse-IsSound_example =
    parse-IsSound wire http_frame http_flow (omega arith) (omega arith) parse_http

-- The frame at address 4096, in a memory whose bytes are their addresses.
abbrev pointers : BpfCursor
pointers = record { start_of = 4096; end_of = 4110; memory = λ addr. addr }

pointers-IsFrame : IsFrame pointers
pointers-IsFrame = record {
  ordered = omega arith;
  addressable = omega arith;
  within_limit = omega arith;
}

bpf_cursor-memory_cursor_example :
    ((offset : ℕ)
      → (bpf_cursor pointers).read_u8 offset ≡ (memory_cursor (frame pointers)).read_u8 offset)
    × ((offset : ℕ)
        → (bpf_cursor pointers).read_u16_be offset
          ≡ (memory_cursor (frame pointers)).read_u16_be offset)
    × ((offset : ℕ)
        → (bpf_cursor pointers).read_u32_be offset
          ≡ (memory_cursor (frame pointers)).read_u32_be offset)
    × ((offset len : ℕ)
        → offset ≤ length (frame pointers)
        → (bpf_cursor pointers).read_bytes offset len
          ≡ (memory_cursor (frame pointers)).read_bytes offset len)
bpf_cursor-memory_cursor_example = bpf_cursor-memory_cursor pointers pointers-IsFrame
