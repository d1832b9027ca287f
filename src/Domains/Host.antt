-- ===== src/Domains/Host.antt =====
-- The `Host` header of a plaintext HTTP request in zimascope-ebpf/src/domain.rs.
use zima_scope.Base.{
  ℕ, zero, suc, ◌+◌, Bool, true, false, not, ◌||◌, ◌&&◌, Option, some, none, List, [], ◌∷◌, ◌==◌,
  ltb, leb, if◌then◌else◌, ◌>>=◌, min, length,
}
use mathlib.Core.List.{reverse}
use zima_scope.Domains.Dns.{within, when}
use zima_scope.Packet.Cursor.{PacketCursor}

abbrev pub max_http_scan : ℕ
max_http_scan = 512

abbrev pub max_http_headers : ℕ
max_http_headers = 16

abbrev pub max_http_host_len : ℕ
max_http_host_len = 253

abbrev pub carriage_return : ℕ
carriage_return = 13

abbrev pub line_feed : ℕ
line_feed = 10

abbrev pub is_blank : ℕ → Bool
is_blank byte = byte == b' ' || byte == 9

abbrev pub ends_value : ℕ → Bool
ends_value byte = byte == carriage_return || byte == line_feed || byte == b':'

abbrev pub four : ℕ → ℕ → ℕ → ℕ → ℕ → ℕ → ℕ → ℕ → Bool
four a b c d b0 b1 b2 b3 = b0 == a && b1 == b && b2 == c && b3 == d

unfoldable pub is_method : ℕ → ℕ → ℕ → ℕ → Bool
is_method b0 b1 b2 b3 =
    four b'G' b'E' b'T' b' ' b0 b1 b2 b3
    || four b'P' b'O' b'S' b'T' b0 b1 b2 b3
    || four b'H' b'E' b'A' b'D' b0 b1 b2 b3
    || four b'P' b'U' b'T' b' ' b0 b1 b2 b3
    || four b'D' b'E' b'L' b'E' b0 b1 b2 b3
    || four b'O' b'P' b'T' b'I' b0 b1 b2 b3
    || four b'P' b'A' b'T' b'C' b0 b1 b2 b3
    || four b'C' b'O' b'N' b'N' b0 b1 b2 b3

-- The host without the blanks at its end, from the bytes in reverse order.
unfoldable pub drop_blanks : List ℕ → List ℕ
drop_blanks [] = []
drop_blanks (b ∷ rest) = let shorter = drop_blanks rest in if is_blank b then shorter else b ∷ rest

-- The buffer's content, in order; `none` where it is empty.
unfoldable pub stored_host : List ℕ → Option (List ℕ)
stored_host [] = none
stored_host (b ∷ rest) = some (reverse (b ∷ rest))

module _ (c : PacketCursor) where
  unfoldable pub is_http_request : ℕ → ℕ → Bool
  is_http_request offset end =
      elim (when (within offset 4 end) (do
        b0 ← c.read_u8 offset
        b1 ← c.read_u8 (offset + 1)
        b2 ← c.read_u8 (offset + 2)
        b3 ← c.read_u8 (offset + 3)
        some (is_method b0 b1 b2 b3))) [ none ↦ false | some found ↦ found ]

  unfoldable pub header_is_host : ℕ → ℕ → Bool
  header_is_host position end =
      elim (when (within position 5 end) (do
        b0 ← c.read_u8 position
        b1 ← c.read_u8 (position + 1)
        b2 ← c.read_u8 (position + 2)
        b3 ← c.read_u8 (position + 3)
        b4 ← c.read_u8 (position + 4)
        some (
            (b0 == b'H' || b0 == b'h')
            && (b1 == b'O' || b1 == b'o')
            && (b2 == b'S' || b2 == b's')
            && (b3 == b'T' || b3 == b't')
            && b4 == b':'))) [ none ↦ false | some found ↦ found ]

  -- Whether the two bytes at `position` end a line; `none` where they cannot be read.
  abbrev pub at_crlf : ℕ → Option Bool
  at_crlf position = do
    first ← c.read_u8 position
    (elim (first == carriage_return) [
      | true ↦ do second ← c.read_u8 (position + 1); some (second == line_feed)
      | false ↦ some false
    ])

  unfoldable pub find_crlf : ℕ → ℕ → ℕ → Option ℕ
  find_crlf zero position end = none
  find_crlf (suc rounds) position end = when (within position 2 end) (do
    found ← at_crlf position
    (elim found [ true ↦ some position | false ↦ find_crlf rounds (position + 1) end ]))

  unfoldable pub skip_blanks : ℕ → ℕ → ℕ → ℕ
  skip_blanks zero position scan_end = position
  skip_blanks (suc rounds) position scan_end = elim (leb scan_end position) [
    | true ↦ position
    | false ↦ elim (c.read_u8 position) [
      | none ↦ position
      | some byte ↦ elim (is_blank byte) [
        | true ↦ skip_blanks rounds (position + 1) scan_end
        | false ↦ position
      ]
    ]
  ]

  -- The bytes of the value in reverse order, at most 253 of them.
  unfoldable pub collect_host : ℕ → ℕ → ℕ → List ℕ → List ℕ
  collect_host zero position scan_end host = host
  collect_host (suc rounds) position scan_end host = elim (leb scan_end position) [
    | true ↦ host
    | false ↦ elim (c.read_u8 position) [
      | none ↦ host
      | some byte ↦ elim (ends_value byte) [
        | true ↦ host
        | false ↦
            collect_host rounds (position + 1) scan_end
              (if ltb (length host) max_http_host_len then byte ∷ host else host)
      ]
    ]
  ]

  -- The value behind `Host:`; `none` where it is empty.
  unfoldable pub read_host : ℕ → ℕ → Option (List ℕ)
  read_host position scan_end =
      let value_start = skip_blanks max_http_scan position scan_end in
      stored_host (drop_blanks (collect_host max_http_scan value_start scan_end []))

  unfoldable pub read_headers : ℕ → ℕ → ℕ → Option (List ℕ)
  read_headers zero position scan_end = none
  read_headers (suc rounds) position scan_end = when (within position 2 scan_end) (do
    done ← at_crlf position
    when (not done) (elim (header_is_host position scan_end) [
      | true ↦ read_host (position + 5) scan_end
      | false ↦ do
        line_end ← find_crlf max_http_scan position scan_end
        read_headers rounds (line_end + 2) scan_end
    ]))

  unfoldable pub extract_http_host : ℕ → ℕ → Option (List ℕ)
  extract_http_host offset end =
      let scan_end = min end (offset + max_http_scan) in
      when (is_http_request offset scan_end) (do
        line_end ← find_crlf max_http_scan offset scan_end
        read_headers max_http_headers (line_end + 2) scan_end)
