-- ===== src/Packet/Cursor/Agree.antt =====
-- The pointer cursor of the eBPF program and the slice cursor of the tests read the same frame.
use mathlib.Core.Path.{fun_ext}
use zima_scope.Base.{
  ℕ, zero, suc, ◌+◌, ◌-◌, ◌≤◌, ◌<◌, Option, some, none, List, [], ◌∷◌, ◌≡◌, refl, ap, ◌∙◌, arith,
  length, get_elem?, drop, u64_mod, leb, Bool-cases, inl, inr, Option-cases, get_elem?_of_lt,
  get_elem?-lt,
}
use zima_scope.Packet.Cursor.{
  BpfCursor, max_packet_off, slice_at, bpf_u8, bpf_u16, bpf_u32, bpf_cursor, memory_u16, memory_u32,
  memory_cursor, slice, read_each,
}

-- The bytes of the frame: those from `data` up to `data_end`.
bytes_from : (ℕ → ℕ) → ℕ → ℕ → List ℕ
bytes_from memory start zero = []
bytes_from memory start (suc n) = memory start ∷ bytes_from memory (start + 1) n

unfoldable pub frame : BpfCursor → List ℕ
unfolding bytes_from
frame p = bytes_from p.memory p.start_of (p.end_of - p.start_of)

-- What the kernel guarantees of a packet's pointers, for a frame within the parser's limit.
pub record IsFrame (p : BpfCursor) : Type 0 where
  pub ordered : p.start_of ≤ p.end_of
  pub addressable : p.end_of + max_packet_off < u64_mod
  pub within_limit : p.end_of ≤ p.start_of + max_packet_off

length-bytes_from : (memory : ℕ → ℕ) (start n : ℕ) → length (bytes_from memory start n) ≡ n
unfolding bytes_from
length-bytes_from memory start zero = refl
length-bytes_from memory start (suc n) = ap suc (length-bytes_from memory (start + 1) n)

get-bytes_from :
    (memory : ℕ → ℕ) (start n i : ℕ)
    → i < n
    → get_elem? (bytes_from memory start n) i ≡ some (memory (start + i))
unfolding bytes_from
get-bytes_from memory start zero i h = elim h [ ]
get-bytes_from memory start (suc n) zero h = ap (λ a. some (memory a)) (omega arith)
get-bytes_from memory start (suc n) (suc i) h =
    get-bytes_from memory (start + 1) n i (omega arith) ∙ ap (λ a. some (memory a)) (omega arith)

get-bytes_from-none :
    (memory : ℕ → ℕ) (start n i : ℕ) → n ≤ i → get_elem? (bytes_from memory start n) i ≡ none
unfolding bytes_from
get-bytes_from-none memory start zero i h = refl
get-bytes_from-none memory start (suc n) zero h = absurd (omega arith)
get-bytes_from-none memory start (suc n) (suc i) h =
    get-bytes_from-none memory (start + 1) n i (omega arith)

-- A slice inside the frame is found at its address, and one that leaves the frame is refused.
slice_at-inside :
    (p : BpfCursor) (offset len : ℕ)
    → IsFrame p
    → 0 < len
    → offset + len ≤ p.end_of - p.start_of
    → slice_at p offset len ≡ some (p.start_of + offset)
unfolding slice_at
slice_at-inside p offset len f h k = ground arith

slice_at-outside :
    (p : BpfCursor) (offset len : ℕ)
    → IsFrame p
    → 0 < len
    → p.end_of - p.start_of < offset + len
    → slice_at p offset len ≡ none
unfolding slice_at
slice_at-outside p offset len f h k = ground arith

module _ (p : BpfCursor) (f : IsFrame p) where
  u8-agree : (offset : ℕ) → bpf_u8 p offset ≡ get_elem? (frame p) offset
  unfolding bpf_u8 frame
  u8-agree offset = elim (Bool-cases (leb (offset + 1) (p.end_of - p.start_of))) [
    | inl inside ↦ ground (
      arith,
      slice_at-inside p offset 1 f,
      get-bytes_from p.memory p.start_of (p.end_of - p.start_of) offset,
    )
    | inr outside ↦ ground (
      arith,
      slice_at-outside p offset 1 f,
      get-bytes_from-none p.memory p.start_of (p.end_of - p.start_of) offset,
    )
  ]

  u16-agree : (offset : ℕ) → bpf_u16 p offset ≡ memory_u16 (frame p) offset
  unfolding bpf_u16 memory_u16 frame
  u16-agree offset =
      let n = p.end_of - p.start_of in
      ground (
        arith,
        slice_at-inside p offset 2 f,
        slice_at-outside p offset 2 f,
        length-bytes_from p.memory p.start_of n,
        get-bytes_from p.memory p.start_of n offset,
        get-bytes_from p.memory p.start_of n (offset + 1),
      )

  u32-agree : (offset : ℕ) → bpf_u32 p offset ≡ memory_u32 (frame p) offset
  unfolding bpf_u32 memory_u32 frame
  u32-agree offset =
      let n = p.end_of - p.start_of in
      ground (
        arith,
        slice_at-inside p offset 4 f,
        slice_at-outside p offset 4 f,
        length-bytes_from p.memory p.start_of n,
        get-bytes_from p.memory p.start_of n offset,
        get-bytes_from p.memory p.start_of n (offset + 1),
        get-bytes_from p.memory p.start_of n (offset + 2),
        get-bytes_from p.memory p.start_of n (offset + 3),
      )

drop_of_get :
    (bytes : List ℕ) (i : ℕ) {b : ℕ}
    → get_elem? bytes i ≡ some b
    → drop i bytes ≡ b ∷ drop (suc i) bytes
drop_of_get [] i h = ground arith
drop_of_get (x ∷ xs) zero h = ground arith
drop_of_get (x ∷ xs) (suc i) h = drop_of_get xs i h

-- The byte-wise loop and the bulk copy return the same bytes.
pub read_each-slice :
    (bytes : List ℕ) (offset len : ℕ)
    → offset ≤ length bytes
    → read_each (get_elem? bytes) offset len ≡ slice bytes offset len
unfolding read_each slice
read_each-slice bytes offset zero h = ground arith
read_each-slice bytes offset (suc len) h = elim (Option-cases (get_elem? bytes offset)) [
  | inl out ↦ ground (arith, get_elem?_of_lt bytes offset)
  | inr (b, found) ↦ ground (
    arith,
    read_each-slice bytes (offset + 1) len,
    get_elem?-lt bytes offset found,
    drop_of_get bytes offset found,
  )
]

read_each-ap :
    {f g : ℕ → Option ℕ}
    → ((o : ℕ) → f o ≡ g o)
    → (offset len : ℕ) → read_each f offset len ≡ read_each g offset len
read_each-ap h offset len = rw (fun_ext h) refl

-- For a frame of at most 16383 bytes that ends more than 16383 bytes below the end of the
-- address space, the pointer cursor of the
-- eBPF program and the slice cursor over the frame's bytes return the same for every read of one,
-- two and four bytes at every offset, inside the frame or not, and for every copy that starts
-- inside the frame or at its end.
pub bpf_cursor-memory_cursor :
    (p : BpfCursor)
    → IsFrame p
    → ((offset : ℕ) → (bpf_cursor p).read_u8 offset ≡ (memory_cursor (frame p)).read_u8 offset)
      × ((offset : ℕ)
          → (bpf_cursor p).read_u16_be offset ≡ (memory_cursor (frame p)).read_u16_be offset)
      × ((offset : ℕ)
          → (bpf_cursor p).read_u32_be offset ≡ (memory_cursor (frame p)).read_u32_be offset)
      × ((offset len : ℕ)
          → offset ≤ length (frame p)
          → (bpf_cursor p).read_bytes offset len ≡ (memory_cursor (frame p)).read_bytes offset len)
bpf_cursor-memory_cursor p f = (
  u8-agree p f,
  u16-agree p f,
  u32-agree p f,
  λ offset len h. read_each-ap (u8-agree p f) offset len ∙ read_each-slice (frame p) offset len h,
)
