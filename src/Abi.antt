-- ===== src/Abi.antt =====
-- The kernel contract, zimascope-common/src/kernel_abi.rs: the enumerations and fixed-size records
-- that the eBPF programs and the daemon share. Byte arrays are lists of bytes and integers are
-- natural numbers. The `reserved` padding, always written as zero, is left out of every record.
pub mod RoundTrip
use native.Mathlib.Decide.{ℕ_discrete}
use zima_scope.Base.{ℕ, Option, some, none, List, if◌then◌else◌, ◌==◌}

abbrev pub domain_max_len : ℕ
domain_max_len = 253

abbrev pub domain_sample_max : ℕ
domain_sample_max = 512

abbrev pub service_sample_max : ℕ
service_sample_max = 64

abbrev pub default_traffic_rule_capacity : ℕ
default_traffic_rule_capacity = 64

pub data IpFamily : Type 0 where
  v4 v6 : IpFamily

pub data Direction : Type 0 where
  inbound outbound : Direction

pub data TransportProtocol : Type 0 where
  tcp udp : TransportProtocol

pub data SampleKind : Type 0 where
  dns tls_client_hello http_request : SampleKind

pub data OwnerKind : Type 0 where
  socket listener : OwnerKind

pub data RuleAction : Type 0 where
  limit block : RuleAction

-- `value as u8`, the discriminant, and `from_abi`, the checked way back.
abbrev pub family_code : IpFamily → ℕ
family_code v4 = 4
family_code v6 = 6

abbrev pub family_from_abi : ℕ → Option IpFamily
family_from_abi n = if n == 4 then some v4 else if n == 6 then some v6 else none

abbrev pub direction_code : Direction → ℕ
direction_code inbound = 1
direction_code outbound = 2

abbrev pub direction_from_abi : ℕ → Option Direction
direction_from_abi n = if n == 1 then some inbound else if n == 2 then some outbound else none

abbrev pub transport_code : TransportProtocol → ℕ
transport_code tcp = 6
transport_code udp = 17

abbrev pub transport_from_abi : ℕ → Option TransportProtocol
transport_from_abi n = if n == 6 then some tcp else if n == 17 then some udp else none

abbrev pub sample_kind_code : SampleKind → ℕ
sample_kind_code dns = 1
sample_kind_code tls_client_hello = 2
sample_kind_code http_request = 3

abbrev pub sample_kind_from_abi : ℕ → Option SampleKind
sample_kind_from_abi n =
    if n == 1
    then some dns
    else if n == 2
    then some tls_client_hello
    else if n == 3
    then some http_request
    else none

abbrev pub owner_kind_code : OwnerKind → ℕ
owner_kind_code socket = 1
owner_kind_code listener = 2

abbrev pub owner_kind_from_abi : ℕ → Option OwnerKind
owner_kind_from_abi n = if n == 1 then some socket else if n == 2 then some listener else none

abbrev pub action_code : RuleAction → ℕ
action_code limit = 1
action_code block = 2

abbrev pub action_from_abi : ℕ → Option RuleAction
action_from_abi n = if n == 1 then some limit else if n == 2 then some block else none

pub record FlowKey : Type 0 where
  pub src_addr : List ℕ
  pub dst_addr : List ℕ
  pub src_port_be : ℕ
  pub dst_port_be : ℕ
  pub ifindex : ℕ
  pub protocol : ℕ
  pub direction : ℕ
  pub ip_family : ℕ

pub record FlowValue : Type 0 where
  pub packets : ℕ
  pub bytes : ℕ
  pub first_seen_mono_ns : ℕ
  pub last_seen_mono_ns : ℕ
  pub tcp_flags : ℕ
  pub parse_flags : ℕ
  pub service_flags : ℕ

pub record OwnerKey : Type 0 where
  pub remote_addr : List ℕ
  pub remote_port_be : ℕ
  pub local_port_be : ℕ
  pub protocol : ℕ
  pub kind : ℕ
  pub ip_family : ℕ

pub record OwnerValue : Type 0 where
  pub tgid : ℕ
  pub pid : ℕ
  pub uid : ℕ
  pub cgroup_id : ℕ
  pub comm : List ℕ
  pub observed_mono_ns : ℕ

pub record RuleRef : Type 0 where
  pub rule_id : ℕ
  pub action : ℕ

pub record BucketKey : Type 0 where
  pub rule_id : ℕ
  pub direction : ℕ

-- The spin lock around the packet path's read-modify-write makes each update one step, so the
-- lock word is left out.
pub record RuleState : Type 0 where
  pub rate_bytes_per_s : ℕ
  pub burst_bytes : ℕ
  pub tokens : ℕ
  pub last_refill_mono_ns : ℕ
  pub matched_packets : ℕ
  pub matched_bytes : ℕ
  pub dropped_packets : ℕ
  pub dropped_bytes : ℕ

pub record EndpointMatchKey : Type 0 where
  pub addr : List ℕ
  pub port_be : ℕ

pub record PolicyConfig : Type 0 where
  pub enabled : ℕ
  pub app_rules : ℕ
  pub endpoint_rules : ℕ
  pub revision : ℕ

pub record DomainSample : Type 0 where
  pub observed_mono_ns : ℕ
  pub ifindex : ℕ
  pub payload_len : ℕ
  pub kind : ℕ
  pub transport : ℕ
  pub ip_family : ℕ
  pub direction : ℕ
  pub address : List ℕ
  pub payload : List ℕ

pub record ServiceSample : Type 0 where
  pub observed_mono_ns : ℕ
  pub key : FlowKey
  pub payload_len : ℕ
  pub payload : List ℕ

pub record KernelStats : Type 0 where
  pub packets_seen : ℕ
  pub packets_parsed : ℕ
  pub parse_failures : ℕ
  pub map_update_failures : ℕ
  pub flow_evictions : ℕ
  pub domain_events_emitted : ℕ
  pub domain_events_dropped : ℕ
  pub service_events_emitted : ℕ
  pub service_events_dropped : ℕ
  pub owner_events_inserted : ℕ
  pub owner_events_dropped : ℕ
  pub policy_dropped_packets : ℕ
  pub policy_dropped_bytes : ℕ
  pub policy_missing_state : ℕ

-- The derived `Eq` of the map keys.
unfoldable pub FlowKey-discrete : Discrete FlowKey
FlowKey-discrete = hlevel ℕ_discrete

unfoldable pub OwnerKey-discrete : Discrete OwnerKey
OwnerKey-discrete = hlevel ℕ_discrete

unfoldable pub BucketKey-discrete : Discrete BucketKey
BucketKey-discrete = hlevel ℕ_discrete

unfoldable pub EndpointMatchKey-discrete : Discrete EndpointMatchKey
EndpointMatchKey-discrete = hlevel ℕ_discrete

unfoldable pub Direction-discrete : Discrete Direction
Direction-discrete = hlevel
