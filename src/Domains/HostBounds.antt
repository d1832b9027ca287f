-- ===== src/Domains/HostBounds.antt =====
-- What `extract_http_host` of zimascope-ebpf/src/domain.rs can return.
use mathlib.Core.List.{reverse, reverse_aux}
use zima_scope.Base.{
  ℕ, zero, suc, ◌+◌, ◌-◌, ◌≤◌, ◌≡◌, refl, sym, not, ltb→lt, ap, ◌∙◌, false, some, List, [], ◌∷◌,
  arith, length, get_elem?, All, ltb, leb, inl, inr, Bool-cases, min,
}
use zima_scope.Domains.Dns.{within}
use zima_scope.Domains.Host.{
  max_http_headers, max_http_scan, max_http_host_len, is_blank, ends_value, drop_blanks,
  stored_host, skip_blanks, collect_host, find_crlf, at_crlf, header_is_host, read_host,
  read_headers, extract_http_host,
}
use zima_scope.Domains.Options.{
  Yields, none-Yields, some-Yields, when-Yields, bind-Yields, test-Yields, by_test, by_option,
}
use zima_scope.Packet.Cursor.{PacketCursor}

module _ (P : ℕ → Type 0) where
  All-reverse_aux : (xs ys : List ℕ) → All P xs → All P ys → All P (reverse_aux xs ys)
  All-reverse_aux [] ys h k = k
  All-reverse_aux (x ∷ xs) ys (one, h) k = All-reverse_aux xs (x ∷ ys) h (one, k)

length-reverse_aux : (xs ys : List ℕ) → length (reverse_aux xs ys) ≡ length xs + length ys
length-reverse_aux [] ys = omega arith
length-reverse_aux (x ∷ xs) ys = omega (arith, length-reverse_aux xs (x ∷ ys))

get-reverse_aux :
    (xs ys : List ℕ) (i : ℕ) → get_elem? (reverse_aux xs ys) (length xs + i) ≡ get_elem? ys i
get-reverse_aux [] ys i = ap (λ k. get_elem? ys k) (omega arith)
get-reverse_aux (x ∷ xs) ys i =
    let e : suc (length xs) + i ≡ length xs + suc i = omega arith in
    ap (λ k. get_elem? (reverse_aux xs (x ∷ ys)) k) e ∙ get-reverse_aux xs (x ∷ ys) (suc i)

abbrev InValue : ℕ → Type 0
InValue byte = ends_value byte ≡ false

abbrev Collected : List ℕ → Type 0
Collected host = All InValue host × (length host ≤ max_http_host_len)

drop_blanks-Collected : (host : List ℕ) → Collected host → Collected (drop_blanks host)
unfolding drop_blanks
drop_blanks-Collected [] h = h
drop_blanks-Collected (b ∷ rest) ((one, h), k) = elim (Bool-cases (is_blank b)) [
  | inl blank ↦ rw blank (drop_blanks-Collected rest (h, omega arith))
  | inr other ↦ rw other ((one, h), k)
]

drop_blanks-head :
    (host : List ℕ) (b : ℕ) (rest : List ℕ) → drop_blanks host ≡ b ∷ rest → is_blank b ≡ false
unfolding drop_blanks
drop_blanks-head [] b rest e = absurd (ground arith)
drop_blanks-head (a ∷ host) b rest e = elim (Bool-cases (is_blank a)) [
  | inl blank ↦ drop_blanks-head host b rest (rw blank at e)
  | inr other ↦ ground (arith, e, other)
]

-- No byte ends the value, and the last one is no blank.
abbrev pub IsHost : List ℕ → Type 0
IsHost host =
    All (λ byte. ends_value byte ≡ false) host
    × (1 ≤ length host)
    × (length host ≤ max_http_host_len)
    × ((last : ℕ) × (get_elem? host (length host - 1) ≡ some last) × (is_blank last ≡ false))

stored_host-IsHost :
    (host : List ℕ)
    → Collected host
    → ((b : ℕ) (rest : List ℕ) → host ≡ b ∷ rest → is_blank b ≡ false)
    → Yields IsHost (stored_host host)
unfolding stored_host
stored_host-IsHost [] h head = none-Yields
stored_host-IsHost (b ∷ rest) (h, k) head =
    let size = length-reverse_aux rest (b ∷ []) in
    let at : length rest + 0 ≡ length (reverse_aux rest (b ∷ [])) - 1 = omega arith in
    let last = ap (λ i. get_elem? (reverse_aux rest (b ∷ [])) i) at in
    some-Yields {a = reverse (b ∷ rest)} (
      All-reverse_aux InValue (b ∷ rest) [] h tt,
      omega arith,
      omega arith,
      (b, sym last ∙ get-reverse_aux rest (b ∷ []) 0, head b rest refl),
    )

module _ (c : PacketCursor) where
  collect_host-Collected :
      (rounds position scan_end : ℕ) (host : List ℕ)
      → Collected host
      → Collected (collect_host c rounds position scan_end host)
  unfolding collect_host
  collect_host-Collected zero position scan_end host h = h
  collect_host-Collected (suc rounds) position scan_end host (h, k) =
      by_test Collected (leb scan_end position) (λ _. (h, k))
        (λ _.
          by_option Collected (c.read_u8 position) (h, k)
            (λ byte _.
              by_test Collected (ends_value byte) (λ _. (h, k))
                (λ value.
                  collect_host-Collected rounds (position + 1) scan_end _
                    (elim (Bool-cases (ltb (length host) max_http_host_len)) [
                      | inl room ↦ rw room ((value, h), ltb→lt _ _ room)
                      | inr full ↦ rw full (h, k)
                    ]))))

  read_host-IsHost : (position scan_end : ℕ) → Yields IsHost (read_host c position scan_end)
  unfolding read_host
  read_host-IsHost position scan_end =
      let host =
        collect_host c max_http_scan (skip_blanks c max_http_scan position scan_end) scan_end [] in
      stored_host-IsHost (drop_blanks host)
        (drop_blanks-Collected host (collect_host-Collected _ _ scan_end [] (tt, omega arith)))
        (drop_blanks-head host)

  read_headers-IsHost :
      (rounds position scan_end : ℕ) → Yields IsHost (read_headers c rounds position scan_end)
  unfolding read_headers
  read_headers-IsHost zero position scan_end = none-Yields
  read_headers-IsHost (suc rounds) position scan_end =
      when-Yields (within position 2 scan_end) (λ _. bind-Yields (at_crlf c position) (λ done _.
        when-Yields (not done) (λ _.
          test-Yields (header_is_host c position scan_end)
            (read_host-IsHost (position + 5) scan_end)
            (bind-Yields (find_crlf c max_http_scan position scan_end)
              (λ line_end _. read_headers-IsHost rounds (line_end + 2) scan_end)))))

  extract_http_host-Yields : (offset end : ℕ) → Yields IsHost (extract_http_host c offset end)
  unfolding extract_http_host
  extract_http_host-Yields offset end = when-Yields _ (λ _.
      bind-Yields (find_crlf c max_http_scan offset (min end (offset + max_http_scan)))
        (λ line_end _.
          read_headers-IsHost max_http_headers (line_end + 2) (min end (offset + max_http_scan))))

  -- Whatever the cursor reads, a host that is found has 1 to 253 bytes, holds no carriage return, no
  -- line feed and no colon, and does not end in a space or a tab.
  pub extract_http_host-IsHost :
      (offset end : ℕ) (host : List ℕ) → extract_http_host c offset end ≡ some host → IsHost host
  extract_http_host-IsHost offset end host e = (extract_http_host-Yields offset end).yielded host e
