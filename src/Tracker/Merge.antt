-- ===== src/Tracker/Merge.antt =====
-- `merge_entry` and `decode_key` of zimascoped/src/collector/tracker.rs.
use zima_scope.Abi
use zima_scope.Abi.{FlowValue, IpFamily, family_code}
use zima_scope.Base.{
  ℕ, ◌+◌, ◌≤◌, ◌<◌, ◌≡◌, refl, arith, ◌&&◌, ◌||◌, Option, some, none, List, [], ◌∷◌, ltb, ◌==◌,
  if◌then◌else◌, ◌>>=◌, saturating_add, swap16, min, max, bit_or, u64_max, All,
}
use zima_scope.Model.{
  FlowKey, TrafficCounters, IpAddr, protocol_from_abi, flow_direction_from_abi, ipv4_from_abi,
}

pub record MergedFlow : Type 0 where
  pub key : FlowKey
  pub total : TrafficCounters
  pub first_seen_ns : ℕ
  pub last_seen_ns : ℕ
  pub tcp_flags : ℕ

-- The loop's variables.
pub record Merging : Type 0 where
  pub packets : ℕ
  pub bytes : ℕ
  pub first_seen_ns : ℕ
  pub last_seen_ns : ℕ
  pub tcp_flags : ℕ

unfoldable pub decode_key : Abi.FlowKey → Option FlowKey
decode_key key = do
  direction ← flow_direction_from_abi key.direction
  protocol ← protocol_from_abi key.protocol
  (if key.ip_family == family_code IpFamily.v4
      then (if key.ifindex == 0
          then none
          else some (record {
            source = record {
              address = IpAddr.v4 (ipv4_from_abi key.src_addr);
              port = some (swap16 key.src_port_be);
            };
            destination = record {
              address = IpAddr.v4 (ipv4_from_abi key.dst_addr);
              port = some (swap16 key.dst_port_be);
            };
            interface_index = key.ifindex;
            protocol = protocol;
            direction = direction;
          }))
      else none)

-- One round of the loop.
unfoldable pub merge_value : Merging → FlowValue → Merging
merge_value m value = record {
  packets = saturating_add m.packets value.packets;
  bytes = saturating_add m.bytes value.bytes;
  first_seen_ns =
      if ltb 0 value.packets
        && (m.first_seen_ns == 0 || ltb value.first_seen_mono_ns m.first_seen_ns)
      then value.first_seen_mono_ns
      else m.first_seen_ns;
  last_seen_ns = max m.last_seen_ns value.last_seen_mono_ns;
  tcp_flags = bit_or m.tcp_flags value.tcp_flags;
}

unfoldable pub merge_values : Merging → List FlowValue → Merging
merge_values m [] = m
merge_values m (value ∷ values) = merge_values (merge_value m value) values

abbrev pub untouched : Merging
untouched = record { packets = 0; bytes = 0; first_seen_ns = 0; last_seen_ns = 0; tcp_flags = 0 }

unfoldable pub merge_entry : Abi.FlowKey → List FlowValue → Option MergedFlow
merge_entry key [] = none
merge_entry key (value ∷ values) = do
  decoded ← decode_key key
  let m = merge_values untouched (value ∷ values)
  some (record {
    key = decoded;
    total = record { packets = m.packets; bytes = m.bytes };
    first_seen_ns = m.first_seen_ns;
    last_seen_ns = m.last_seen_ns;
    tcp_flags = m.tcp_flags;
  })

abbrev pub sum_packets : List FlowValue → ℕ
sum_packets [] = 0
sum_packets (value ∷ values) = value.packets + sum_packets values

abbrev pub sum_bytes : List FlowValue → ℕ
sum_bytes [] = 0
sum_bytes (value ∷ values) = value.bytes + sum_bytes values

-- The first-seen time that merging starts from, or any CPU that saw a packet.
abbrev pub IsEarliest : ℕ → FlowValue → Type 0
IsEarliest first value = 0 < value.packets → first ≤ value.first_seen_mono_ns

merge_values-total :
    (m : Merging) (values : List FlowValue)
    → m.packets ≤ u64_max
    → m.bytes ≤ u64_max
    → ((merge_values m values).packets ≡ min (m.packets + sum_packets values) u64_max)
      × ((merge_values m values).bytes ≡ min (m.bytes + sum_bytes values) u64_max)
unfolding merge_values merge_value
merge_values-total m [] p b = (omega arith, omega arith)
merge_values-total m (value ∷ values) p b =
    let rest = merge_values-total (merge_value m value) values (omega arith) (omega arith) in
    (omega arith, omega arith)

merge_values-last :
    (m : Merging) (values : List FlowValue)
    → (m.last_seen_ns ≤ (merge_values m values).last_seen_ns)
      × All (λ value. value.last_seen_mono_ns ≤ (merge_values m values).last_seen_ns) values
unfolding merge_values merge_value
merge_values-last m [] = (omega arith, tt)
merge_values-last m (value ∷ values) =
    let (bound, all) = merge_values-last (merge_value m value) values in
    (omega arith, (omega arith, all))

abbrev pub Started : FlowValue → Type 0
Started value = 0 < value.packets → 0 < value.first_seen_mono_ns

merge_values-first :
    (m : Merging) (values : List FlowValue)
    → All Started values
    → (0 < m.first_seen_ns → (merge_values m values).first_seen_ns ≤ m.first_seen_ns)
      × (0 < m.first_seen_ns → 0 < (merge_values m values).first_seen_ns)
      × All (IsEarliest (merge_values m values).first_seen_ns) values
unfolding merge_values merge_value
merge_values-first m [] s = (λ h. omega arith, λ h. h, tt)
merge_values-first m (value ∷ values) (s, rest) =
    let (below, positive, all) = merge_values-first (merge_value m value) values rest in
    (λ h. ground arith, λ h. ground arith, (λ h. ground arith, all))

-- Merging the values of one kernel map entry, at least one, under a key that decodes: the packet
-- and byte totals are the sums over the CPUs, capped at 2^64 - 1; the last-seen time is that of no
-- CPU earlier; and if every CPU that counted a packet has a first-seen time above zero, the
-- first-seen time is no later than any of these. With a key that does not decode, or no value,
-- there is no merged flow.
pub merge_entry-total :
    (key : Abi.FlowKey) (value : FlowValue) (values : List FlowValue)
    → ((decoded : FlowKey)
        → decode_key key ≡ some decoded
        → (merged : MergedFlow) × (merge_entry key (value ∷ values) ≡ some merged)
          × (merged.key ≡ decoded)
          × (merged.total.packets ≡ min (sum_packets (value ∷ values)) u64_max)
          × (merged.total.bytes ≡ min (sum_bytes (value ∷ values)) u64_max)
          × All (λ v. v.last_seen_mono_ns ≤ merged.last_seen_ns) (value ∷ values)
          × (All Started (value ∷ values) → All (IsEarliest merged.first_seen_ns) (value ∷ values)))
      × (decode_key key ≡ none → merge_entry key (value ∷ values) ≡ none)
      × (merge_entry key [] ≡ none)
unfolding merge_entry
merge_entry-total key value values =
    let m = merge_values untouched (value ∷ values) in
    let (packets, bytes) =
      merge_values-total untouched (value ∷ values) (omega arith) (omega arith) in
    (
      λ decoded e. (
        record {
          key = decoded;
          total = record { packets = m.packets; bytes = m.bytes };
          first_seen_ns = m.first_seen_ns;
          last_seen_ns = m.last_seen_ns;
          tcp_flags = m.tcp_flags;
        },
        rw e,
        refl,
        omega arith,
        omega arith,
        (merge_values-last untouched (value ∷ values)).1,
        λ s. (merge_values-first untouched (value ∷ values) s).2,
      ),
      λ e. rw e,
      refl,
    )
