-- ===== src/Model/Scope.antt =====
-- `AddressScope` of zimascope-common/src/model.rs. The tests of the standard library on an address
-- (`is_private` and the like) are written out on its octets, as documented.
use Prim.Native.Nat.{bit_and}
use zima_scope.Base.{
  ℕ, ◌+◌, ◌*◌, Bool, true, false, ◌&&◌, ◌||◌, List, [], ◌∷◌, leb, ◌==◌, if◌then◌else◌,
}
use zima_scope.Model.{IpAddr, v4, v6}

pub data AddressScope : Type 0 where
  public private shared fake_ip loopback link_local : AddressScope
  unique_local multicast broadcast documentation reserved unspecified : AddressScope

-- `u32::from_be_bytes`.
abbrev pub be_value : ℕ → ℕ → ℕ → ℕ → ℕ
be_value a b c d = ((a * 256 + b) * 256 + c) * 256 + d

-- `Ipv4Addr::is_private`.
abbrev pub is_private : ℕ → ℕ → Bool
is_private a b = a == 10 || (a == 172 && leb 16 b && leb b 31) || (a == 192 && b == 168)

-- `Ipv4Addr::is_documentation`.
abbrev pub is_documentation : ℕ → ℕ → ℕ → Bool
is_documentation a b c =
    (a == 192 && b == 0 && c == 2)
    || (a == 198 && b == 51 && c == 100)
    || (a == 203 && b == 0 && c == 113)

unfoldable pub classify_octets : ℕ → ℕ → ℕ → ℕ → AddressScope
classify_octets a b c d =
    let value = be_value a b c d in
    if a == 255 && b == 255 && c == 255 && d == 255
    then broadcast
    else if a == 127
    then loopback
    else if is_private a b
    then private
    else if a == 169 && b == 254
    then link_local
    else if leb 224 a && leb a 239
    then multicast
    else if is_documentation a b c
    then documentation
    else if a == 0 && b == 0 && c == 0 && d == 0
    then unspecified
    else if bit_and value 0xFFC00000 == 0x64400000
    then shared
    else if bit_and value 0xFFFE0000 == 0xC6120000
    then fake_ip
    else if bit_and value 0xFFFFFF00 == 0xC0000000
        || bit_and value 0xF0000000 == 0xF0000000
        || bit_and value 0xFF000000 == 0
    then reserved
    else public

-- An address has four octets; the last clause is for no other list.
unfoldable pub classify_v4 : List ℕ → AddressScope
classify_v4 (a ∷ b ∷ c ∷ d ∷ []) = classify_octets a b c d
classify_v4 octets = reserved

abbrev pub all_zero : List ℕ → Bool
all_zero [] = true
all_zero (b ∷ bs) = b == 0 && all_zero bs

-- `Ipv6Addr::is_loopback`: fifteen zero octets and a one.
abbrev pub is_loopback_v6 : List ℕ → Bool
is_loopback_v6 [] = false
is_loopback_v6 (b ∷ []) = b == 1
is_loopback_v6 (b ∷ bs) = b == 0 && is_loopback_v6 bs

-- The tests on the first four octets: unique local, unicast link-local, multicast, documentation.
unfoldable pub classify_segments : ℕ → ℕ → ℕ → ℕ → AddressScope
classify_segments a b c d =
    if bit_and a 0xFE == 0xFC
    then unique_local
    else if a == 0xFE && bit_and b 0xC0 == 0x80
    then link_local
    else if a == 0xFF
    then multicast
    else if a == 0x20 && b == 0x01 && c == 0x0D && d == 0xB8
    then documentation
    else public

abbrev pub classify_head : List ℕ → AddressScope
classify_head (a ∷ b ∷ c ∷ d ∷ rest) = classify_segments a b c d
classify_head octets = public

unfoldable pub classify_v6 : List ℕ → AddressScope
classify_v6 octets =
    if is_loopback_v6 octets
    then loopback
    else if all_zero octets
    then unspecified
    else classify_head octets

unfoldable pub classify : IpAddr → AddressScope
classify (v4 octets) = classify_v4 octets
classify (v6 octets) = classify_v6 octets

abbrev pub is_public : AddressScope → Bool
is_public public = true
is_public _ = false
