-- ===== src/Model/Health.antt =====
-- The health types of zimascope-common/src/model.rs: counters of the kernel, gaps of observation,
-- and the health of interfaces and of the collector.
use zima_scope.Abi.{KernelStats}
use zima_scope.Base.{ℕ, ◌-◌, Bool, ◌&&◌, Option, List, leb}

pub record KernelCounters : Type 0 where
  pub packets_seen : ℕ
  pub packets_parsed : ℕ
  pub parse_failures : ℕ
  pub map_update_failures : ℕ
  pub flow_evictions : ℕ
  pub domain_events_emitted : ℕ
  pub domain_events_dropped : ℕ
  pub service_events_emitted : ℕ
  pub service_events_dropped : ℕ
  pub owner_events_inserted : ℕ
  pub owner_events_dropped : ℕ
  pub policy_dropped_packets : ℕ
  pub policy_dropped_bytes : ℕ
  pub policy_missing_state : ℕ

-- `From<KernelStats>`.
abbrev pub from_stats : KernelStats → KernelCounters
from_stats stats = record {
  packets_seen = stats.packets_seen;
  packets_parsed = stats.packets_parsed;
  parse_failures = stats.parse_failures;
  map_update_failures = stats.map_update_failures;
  flow_evictions = stats.flow_evictions;
  domain_events_emitted = stats.domain_events_emitted;
  domain_events_dropped = stats.domain_events_dropped;
  service_events_emitted = stats.service_events_emitted;
  service_events_dropped = stats.service_events_dropped;
  owner_events_inserted = stats.owner_events_inserted;
  owner_events_dropped = stats.owner_events_dropped;
  policy_dropped_packets = stats.policy_dropped_packets;
  policy_dropped_bytes = stats.policy_dropped_bytes;
  policy_missing_state = stats.policy_missing_state;
}

unfoldable pub is_monotonic_from : KernelCounters → KernelCounters → Bool
is_monotonic_from current previous =
    leb previous.packets_seen current.packets_seen
    && leb previous.packets_parsed current.packets_parsed
    && leb previous.parse_failures current.parse_failures
    && leb previous.map_update_failures current.map_update_failures
    && leb previous.flow_evictions current.flow_evictions
    && leb previous.domain_events_emitted current.domain_events_emitted
    && leb previous.domain_events_dropped current.domain_events_dropped
    && leb previous.service_events_emitted current.service_events_emitted
    && leb previous.service_events_dropped current.service_events_dropped
    && leb previous.owner_events_inserted current.owner_events_inserted
    && leb previous.owner_events_dropped current.owner_events_dropped
    && leb previous.policy_dropped_packets current.policy_dropped_packets
    && leb previous.policy_dropped_bytes current.policy_dropped_bytes
    && leb previous.policy_missing_state current.policy_missing_state

-- The source subtracts only after `is_monotonic_from`.
unfoldable pub delta_from : KernelCounters → KernelCounters → KernelCounters
delta_from current previous = record {
  packets_seen = current.packets_seen - previous.packets_seen;
  packets_parsed = current.packets_parsed - previous.packets_parsed;
  parse_failures = current.parse_failures - previous.parse_failures;
  map_update_failures = current.map_update_failures - previous.map_update_failures;
  flow_evictions = current.flow_evictions - previous.flow_evictions;
  domain_events_emitted = current.domain_events_emitted - previous.domain_events_emitted;
  domain_events_dropped = current.domain_events_dropped - previous.domain_events_dropped;
  service_events_emitted = current.service_events_emitted - previous.service_events_emitted;
  service_events_dropped = current.service_events_dropped - previous.service_events_dropped;
  owner_events_inserted = current.owner_events_inserted - previous.owner_events_inserted;
  owner_events_dropped = current.owner_events_dropped - previous.owner_events_dropped;
  policy_dropped_packets = current.policy_dropped_packets - previous.policy_dropped_packets;
  policy_dropped_bytes = current.policy_dropped_bytes - previous.policy_dropped_bytes;
  policy_missing_state = current.policy_missing_state - previous.policy_missing_state;
}

abbrev pub zero_counters : KernelCounters
zero_counters = record {
  packets_seen = 0;
  packets_parsed = 0;
  parse_failures = 0;
  map_update_failures = 0;
  flow_evictions = 0;
  domain_events_emitted = 0;
  domain_events_dropped = 0;
  service_events_emitted = 0;
  service_events_dropped = 0;
  owner_events_inserted = 0;
  owner_events_dropped = 0;
  policy_dropped_packets = 0;
  policy_dropped_bytes = 0;
  policy_missing_state = 0;
}

pub data GapReason : Type 0 where
  interface_detached : ℕ → GapReason
  map_read_failed : GapReason

pub record ObservationGap : Type 0 where
  pub started_at : ℕ
  pub ended_at : Option ℕ
  pub reason : GapReason

pub data CollectorState : Type 0 where
  running degraded stopped : CollectorState

pub record ApplicationHealth : Type 0 where
  pub attached : Bool
  pub udp_attached : Bool
  pub last_error : Option (List ℕ)

pub record InterfaceHealth : Type 0 where
  pub ifindex : ℕ
  pub name : List ℕ
  pub ingress_attached : Bool
  pub egress_attached : Bool
  pub last_error : Option (List ℕ)

pub record CollectorHealth : Type 0 where
  pub state : CollectorState
  pub attached_interfaces : List InterfaceHealth
  pub map_entries : ℕ
  pub map_capacity : ℕ
  pub kernel : KernelCounters
  pub gaps : List ObservationGap
  pub application : ApplicationHealth
