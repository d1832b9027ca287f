-- ===== src/Packet/Cursor.antt =====
-- `PacketCursor` of zimascope-ebpf/src/parse.rs with its two implementations: `MemoryCursor`, a byte
-- slice, and `BpfCursor` of zimascope-ebpf/src/tc.rs, a pair of verified packet pointers.
pub mod Agree
use zima_scope.Base.{
  ℕ, zero, suc, ◌+◌, ◌-◌, ◌%◌, Bool, true, false, ◌||◌, Option, some, none, List, [], ◌∷◌, ltb, leb,
  ◌==◌, if◌then◌else◌, ◌>>=◌, length, get_elem?, take, drop, be16, be32, checked_add, u64_mod,
}

-- `read_bytes` writes into a destination and returns whether it did; here it returns the bytes
-- written, and `none` for `false`. No caller reads the destination after `false`.
pub record PacketCursor : Type 0 where
  pub read_u8 : ℕ → Option ℕ
  pub read_u16_be : ℕ → Option ℕ
  pub read_u32_be : ℕ → Option ℕ
  pub read_bytes : ℕ → ℕ → Option (List ℕ)

abbrev pub is_some : {A : Type 0} → Option A → Bool
is_some none = false
is_some (some a) = true

-- The default `has`.
unfoldable pub has : PacketCursor → ℕ → ℕ → Bool
has c offset len = len == 0 || is_some (c.read_u8 (offset + len - 1))

-- The default `read_bytes`, byte by byte.
unfoldable pub read_each : (ℕ → Option ℕ) → ℕ → ℕ → Option (List ℕ)
read_each read offset zero = some []
read_each read offset (suc len) = do
  byte ← read offset
  rest ← read_each read (offset + 1) len
  some (byte ∷ rest)

-- `self.data.get(offset..offset + len)`.
unfoldable pub slice : List ℕ → ℕ → ℕ → Option (List ℕ)
slice bytes offset len =
    if leb (offset + len) (length bytes) then some (take len (drop offset bytes)) else none

unfoldable pub memory_u16 : List ℕ → ℕ → Option ℕ
memory_u16 bytes offset =
    if leb (offset + 2) (length bytes)
    then (do b0 ← get_elem? bytes offset; b1 ← get_elem? bytes (offset + 1); some (be16 b0 b1))
    else none

unfoldable pub memory_u32 : List ℕ → ℕ → Option ℕ
memory_u32 bytes offset =
    if leb (offset + 4) (length bytes)
    then (do
      b0 ← get_elem? bytes offset
      b1 ← get_elem? bytes (offset + 1)
      b2 ← get_elem? bytes (offset + 2)
      b3 ← get_elem? bytes (offset + 3)
      some (be32 b0 b1 b2 b3))
    else none

abbrev pub memory_cursor : List ℕ → PacketCursor
memory_cursor bytes = record {
  read_u8 = get_elem? bytes;
  read_u16_be = memory_u16 bytes;
  read_u32_be = memory_u32 bytes;
  read_bytes = slice bytes;
}

-- The pointers `data` and `data_end` are addresses, and `memory` is what the kernel maps there.
pub record BpfCursor : Type 0 where
  pub start_of : ℕ
  pub end_of : ℕ
  pub memory : ℕ → ℕ

abbrev pub max_packet_off : ℕ
max_packet_off = 16383

unfoldable pub slice_at : BpfCursor → ℕ → ℕ → Option ℕ
slice_at p offset len = do
  total ← checked_add offset len
  let start = (p.start_of + offset) % u64_mod
  let end = (start + len) % u64_mod
  (if ltb max_packet_off total
      then none
      else if ltb end start || ltb p.end_of end
      then none
      else some start)

unfoldable pub bpf_u8 : BpfCursor → ℕ → Option ℕ
bpf_u8 p offset = do addr ← slice_at p offset 1; some (p.memory addr)

unfoldable pub bpf_u16 : BpfCursor → ℕ → Option ℕ
bpf_u16 p offset = do addr ← slice_at p offset 2; some (be16 (p.memory addr) (p.memory (addr + 1)))

unfoldable pub bpf_u32 : BpfCursor → ℕ → Option ℕ
bpf_u32 p offset = do
  addr ← slice_at p offset 4
  some (be32 (p.memory addr) (p.memory (addr + 1)) (p.memory (addr + 2)) (p.memory (addr + 3)))

abbrev pub bpf_cursor : BpfCursor → PacketCursor
bpf_cursor p = record {
  read_u8 = bpf_u8 p;
  read_u16_be = bpf_u16 p;
  read_u32_be = bpf_u32 p;
  read_bytes = read_each (bpf_u8 p);
}
