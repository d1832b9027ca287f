-- ===== src/TrafficPath/Sampling.antt =====
-- The samples of zimascope-ebpf/src/tc.rs: the first payload of a flow, and evidence of domains.
use Prim.Native.Nat.{min, bit_or}
use zima_scope.Abi.{
  Direction, IpFamily, TransportProtocol, SampleKind, FlowKey, FlowValue, DomainSample,
  ServiceSample, direction_code, family_code, transport_code, sample_kind_code, domain_sample_max,
  service_sample_max,
}
use zima_scope.Base.{
  ℕ, zero, suc, ◌+◌, ◌-◌, ◌%◌, Bool, not, ◌&&◌, ◌||◌, Option, some, none, List, [], ◌∷◌, ◌==◌,
  if◌then◌else◌, has_bit, swap16,
}
use zima_scope.Packet.Parse.{ParsedFlow}
use zima_scope.TrafficPath.State.{
  KernelState, Env, with_stats, record_emitted, record_dropped, record_service_emitted,
  record_service_dropped,
}

-- The length of a sample: at least one byte and at most the buffer.
abbrev pub sample_len : ℕ → ℕ → ℕ
sample_len available limit = min (available - 1) (limit - 1) + 1

-- A `u32` argument of the load.
abbrev pub load : Env → ℕ → ℕ → Option (List ℕ)
load env offset len = env.load_bytes (offset % 4294967296) len

-- The part of `sample_service` behind its guards: the sample goes to the ring buffer or is counted
-- as dropped.
unfoldable pub emit_service : Env → FlowKey → ParsedFlow → KernelState → KernelState
emit_service env key f s =
    let len = sample_len (f.payload_end - f.payload_offset) service_sample_max in
    if not env.reserve_service
    then with_stats record_service_dropped s
    else elim (load env f.payload_offset len) [
      | none ↦ with_stats record_service_dropped s
      | some payload ↦
          let sample : ServiceSample = record {
            observed_mono_ns = env.observed_mono_ns;
            key = key;
            payload_len = len % 65536;
            payload = payload;
          } in
          with_stats record_service_emitted
            (record s { service_events = sample ∷ s.service_events })
    ]

-- The guards of `sample_service`: not sampled yet, TCP or UDP, and a payload.
unfoldable pub wants_service : ParsedFlow → FlowValue → Bool
wants_service f value =
    not (has_bit value.service_flags 0)
    && (f.protocol == transport_code TransportProtocol.tcp
        || f.protocol == transport_code TransportProtocol.udp)
    && not (f.payload_end - f.payload_offset == 0)

unfoldable pub sample_service :
    Env → FlowKey → ParsedFlow → FlowValue → KernelState → FlowValue × KernelState
sample_service env key f value s =
    if wants_service f value
    then (record value { service_flags = bit_or value.service_flags 1 }, emit_service env key f s)
    else (value, s)

unfoldable pub emit_domain_sample : Env → ParsedFlow → ℕ → List ℕ → ℕ → KernelState → KernelState
emit_domain_sample env f kind address direction s =
    let available = f.payload_end - f.payload_offset in
    let len = sample_len available domain_sample_max in
    if available == 0
    then s
    else if not env.reserve_domain
    then with_stats record_dropped s
    else elim (load env f.payload_offset len) [
      | none ↦ with_stats record_dropped s
      | some payload ↦
          let sample : DomainSample = record {
            observed_mono_ns = env.observed_mono_ns;
            ifindex = env.ifindex;
            payload_len = len % 65536;
            kind = kind;
            transport = f.protocol;
            ip_family = family_code IpFamily.v4;
            direction = direction;
            address = address;
            payload = payload;
          } in
          with_stats record_emitted (record s { domain_events = sample ∷ s.domain_events })
    ]

abbrev pub peek_len : ℕ
peek_len = 8

-- `peek[i]` of the eight bytes that were loaded.
abbrev pub at : List ℕ → ℕ → ℕ
at [] i = 0
at (x ∷ xs) zero = x
at (x ∷ xs) (suc i) = at xs i

-- The kind of evidence in a peek, by the ports of the flow and the first payload bytes.
unfoldable pub sample_kind : ParsedFlow → Bool → List ℕ → Option SampleKind
sample_kind f outbound peek =
    let is_tcp = f.protocol == transport_code TransportProtocol.tcp in
    let is_udp = f.protocol == transport_code TransportProtocol.udp in
    let is_dns = (is_tcp || is_udp) && (f.src_port_be == swap16 53 || f.dst_port_be == swap16 53) in
    let is_tls = outbound && is_tcp && f.dst_port_be == swap16 443 in
    let first = at peek 0 in
    if is_dns
    then (if has_bit (if is_tcp then at peek 4 else at peek 2) 7 then some SampleKind.dns else none)
    else if is_tls
    then (if first == 0x16 && at peek 5 == 0x01 then some SampleKind.tls_client_hello else none)
    else if first == b'G' || first == b'P' || first == b'H' || first == b'D'
    then some SampleKind.http_request
    else none

-- The port filter at the head of `sample_domains`.
unfoldable pub is_candidate : ParsedFlow → Bool → Bool
is_candidate f outbound =
    let is_tcp = f.protocol == transport_code TransportProtocol.tcp in
    let is_udp = f.protocol == transport_code TransportProtocol.udp in
    ((is_tcp || is_udp) && (f.src_port_be == swap16 53 || f.dst_port_be == swap16 53))
    || (outbound && is_tcp && f.dst_port_be == swap16 443)
    || (outbound && is_tcp && f.dst_port_be == swap16 80)

unfoldable pub sample_domains : Env → ParsedFlow → ℕ → KernelState → KernelState
sample_domains env f direction s =
    let outbound = direction == direction_code Direction.outbound in
    if not (is_candidate f outbound) then s else elim (load env f.payload_offset peek_len) [
      | none ↦ s
      | some peek ↦ elim (sample_kind f outbound peek) [
        | none ↦ s
        | some kind ↦
            emit_domain_sample env f (sample_kind_code kind)
              (if outbound then f.dst_addr else f.src_addr) direction s
      ]
    ]
