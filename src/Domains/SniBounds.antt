-- ===== src/Domains/SniBounds.antt =====
-- Where `extract_tls_sni` of zimascope-ebpf/src/domain.rs takes the server name from.
use zima_scope.Base.{
  ℕ, zero, suc, ◌+◌, ◌≤◌, ◌≡◌, sym, some, List, arith, length, ◌==◌, ltb, not, ◌||◌,
}
use zima_scope.Abi.{domain_max_len}
use zima_scope.Domains.Dns.{within}
use zima_scope.Domains.Sni.{
  read_u24_be, skip_hello, max_tls_extensions, read_server_name, read_extensions, extract_tls_sni,
}
use zima_scope.Domains.Options.{Yields, none-Yields, when-Yields, bind-Yields, test-Yields}
use zima_scope.Packet.Cursor.{PacketCursor}
use mathlib.Core.Path.{subst}
use zima_scope.Domains.Bounds.{FillsCopies}

-- A name of 1 to 253 bytes that stands in the payload.
abbrev pub IsServerName : PacketCursor → ℕ → List ℕ → Type 0
IsServerName c end name =
    (1 ≤ length name)
    × (length name ≤ domain_max_len)
    × ((position : ℕ) × (c.read_bytes position (length name) ≡ some name)
        × (position + length name ≤ end))

module _ (c : PacketCursor) (fills : FillsCopies c) where
  read_server_name-IsServerName :
      (position extension_len end : ℕ)
      → Yields (IsServerName c end) (read_server_name c position extension_len end)
  unfolding read_server_name
  read_server_name-IsServerName position extension_len end = when-Yields _ (λ _.
      bind-Yields (c.read_u16_be position) (λ list_len _. when-Yields _ (λ _.
        bind-Yields (c.read_u8 (position + 2)) (λ name_type _. when-Yields _ (λ _.
          bind-Yields (c.read_u16_be (position + 3)) (λ name_len _.
            when-Yields
              (not (
                name_len == 0
                || ltb domain_max_len name_len
                || not (within (position + 5) name_len end)))
              (λ accepted. record {
                yielded = λ name e.
                    let size = fills (position + 5) name_len name e in
                    (
                      ground arith,
                      ground arith,
                      (
                        position + 5,
                        subst (λ n. c.read_bytes (position + 5) n ≡ some name) (sym size) e,
                        ground arith,
                      ),
                    );
              })))))))

  read_extensions-IsServerName :
      (rounds position end : ℕ)
      → Yields (IsServerName c end) (read_extensions c rounds position end)
  unfolding read_extensions
  read_extensions-IsServerName zero position end = none-Yields
  read_extensions-IsServerName (suc rounds) position end = when-Yields (within position 4 end) (λ _.
      bind-Yields (c.read_u16_be position) (λ extension_type _.
        bind-Yields (c.read_u16_be (position + 2)) (λ extension_len _.
          when-Yields (within (position + 4) extension_len end) (λ _.
            test-Yields (extension_type == 0)
              (read_server_name-IsServerName (position + 4) extension_len end)
              (read_extensions-IsServerName rounds (position + 4 + extension_len) end)))))

  extract_tls_sni-IsServerName :
      (offset end : ℕ) → Yields (IsServerName c end) (extract_tls_sni c offset end)
  unfolding extract_tls_sni
  extract_tls_sni-IsServerName offset end = when-Yields _ (λ _.
      bind-Yields (c.read_u8 offset) (λ content_type _. when-Yields _ (λ _.
        bind-Yields (c.read_u16_be (offset + 3)) (λ record_len _. when-Yields _ (λ _.
          bind-Yields (c.read_u8 (offset + 5)) (λ handshake_type _. when-Yields _ (λ _.
            bind-Yields (read_u24_be c (offset + 6)) (λ handshake_len _. when-Yields _ (λ _.
              bind-Yields (skip_hello c (offset + 43) end) (λ position _. when-Yields _ (λ _.
                bind-Yields (c.read_u16_be position) (λ extensions_len _.
                  when-Yields (within (position + 2) extensions_len end) (λ inside. record {
                    yielded = λ name e.
                        let (h, k, (p, copied, before)) =
                          (read_extensions-IsServerName max_tls_extensions (position + 2)
                              (position + 2 + extensions_len)).yielded
                            name e in
                        let bound : position + 2 + extensions_len ≤ end = ground arith in
                        (h, k, (p, copied, omega arith));
                  })))))))))))))

  -- Where a ClientHello yields a server name, through a cursor whose copies fill their destination,
  -- the name has 1 to 253 bytes, which fits the sample's buffer, and is a run of bytes of the payload
  -- that ends before the payload does.
  pub extract_tls_sni-name :
      (offset end : ℕ) (name : List ℕ)
      → extract_tls_sni c offset end ≡ some name
      → IsServerName c end name
  extract_tls_sni-name offset end name e = (extract_tls_sni-IsServerName offset end).yielded name e
