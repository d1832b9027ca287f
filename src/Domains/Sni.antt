-- ===== src/Domains/Sni.antt =====
-- The server name of a TLS ClientHello in zimascope-ebpf/src/domain.rs.
use zima_scope.Abi.{domain_max_len}
use zima_scope.Base.{
  ℕ, zero, suc, ◌+◌, ◌*◌, true, false, not, ◌||◌, ◌&&◌, Option, some, none, List, ◌==◌, ltb, leb,
  ◌>>=◌,
}
use zima_scope.Domains.Dns.{within, when}
use zima_scope.Packet.Cursor.{PacketCursor}

abbrev pub max_tls_extensions : ℕ
max_tls_extensions = 16

module _ (c : PacketCursor) where
  -- The server-name extension at `position`: its first name, a host name.
  unfoldable pub read_server_name : ℕ → ℕ → ℕ → Option (List ℕ)
  read_server_name position extension_len extensions_end = when (leb 5 extension_len) (do
    list_len ← c.read_u16_be position
    when (leb (list_len + 2) extension_len) (do
      name_type ← c.read_u8 (position + 2)
      when (name_type == 0) (do
        name_len ← c.read_u16_be (position + 3)
        when
            (not (
              name_len == 0
              || ltb domain_max_len name_len
              || not (within (position + 5) name_len extensions_end)))
            (c.read_bytes (position + 5) name_len))))

  -- The loop over the extensions, with the rounds that are left.
  unfoldable pub read_extensions : ℕ → ℕ → ℕ → Option (List ℕ)
  read_extensions zero position extensions_end = none
  read_extensions (suc rounds) position extensions_end = when (within position 4 extensions_end) (do
    extension_type ← c.read_u16_be position
    extension_len ← c.read_u16_be (position + 2)
    when (within (position + 4) extension_len extensions_end) (elim (extension_type == 0) [
      | true ↦ read_server_name (position + 4) extension_len extensions_end
      | false ↦ read_extensions rounds (position + 4 + extension_len) extensions_end
    ]))

  -- A field with a one-byte length: the position behind it.
  unfoldable pub skip_vector8 : ℕ → ℕ → Option ℕ
  skip_vector8 position end = do
    len ← c.read_u8 position
    when (within (position + 1) len end) (some (position + 1 + len))

  -- A field with a two-byte length, where the length itself is within the payload.
  unfoldable pub skip_vector16 : ℕ → ℕ → Option ℕ
  skip_vector16 position end = when (within position 2 end) (do
    len ← c.read_u16_be position
    when (within (position + 2) len end) (some (position + 2 + len)))

  -- Session identifier, cipher suites and compression methods.
  unfoldable pub skip_hello : ℕ → ℕ → Option ℕ
  skip_hello position end = do
    behind_session ← skip_vector8 position end
    behind_ciphers ← skip_vector16 behind_session end
    when (within behind_ciphers 1 end) (skip_vector8 behind_ciphers end)

  unfoldable pub read_u24_be : ℕ → Option ℕ
  read_u24_be position = do
    b0 ← c.read_u8 position
    b1 ← c.read_u8 (position + 1)
    b2 ← c.read_u8 (position + 2)
    some (b0 * 65536 + b1 * 256 + b2)

  unfoldable pub extract_tls_sni : ℕ → ℕ → Option (List ℕ)
  extract_tls_sni offset end = when (within offset 5 end) (do
    content_type ← c.read_u8 offset
    when (content_type == 0x16) (do
      record_len ← c.read_u16_be (offset + 3)
      when (within (offset + 5) record_len end && within (offset + 5) 4 end) (do
        handshake_type ← c.read_u8 (offset + 5)
        when (handshake_type == 0x01) (do
          handshake_len ← read_u24_be (offset + 6)
          when (leb 34 handshake_len && within (offset + 9) handshake_len end) (do
            position ← skip_hello (offset + 43) end
            when (within position 2 end) (do
              extensions_len ← c.read_u16_be position
              when (within (position + 2) extensions_len end) (
                  read_extensions max_tls_extensions (position + 2)
                    (position + 2 + extensions_len))))))))
