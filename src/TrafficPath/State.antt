-- ===== src/TrafficPath/State.antt =====
-- The state behind the TC entry points of zimascope-ebpf/src/tc.rs, what the kernel answers for one
-- packet, and the counters, each a saturating increment of `KERNEL_STATS`.

use zima_scope.Abi.{FlowKey, FlowValue, DomainSample, ServiceSample, KernelStats}
use zima_scope.Base.{ℕ, Bool, Option, List, saturating_add}
use zima_scope.Enforcer.Evaluate.{PolicyMaps}

pub record KernelState : Type 0 where
  pub policy : PolicyMaps
  pub flows : List (FlowKey × FlowValue)
  pub domain_events : List DomainSample
  pub service_events : List ServiceSample

-- `load_bytes offset len` is `bpf_skb_load_bytes`; the two `reserve` flags say whether the ring
-- buffer has space; `flow_insert` is the insertion into the bounded LRU map.
pub record Env : Type 0 where
  pub observed_mono_ns : ℕ
  pub enforce_mono_ns : ℕ
  pub packet_len : ℕ
  pub ifindex : ℕ
  pub load_bytes : ℕ → ℕ → Option (List ℕ)
  pub reserve_domain : Bool
  pub reserve_service : Bool
  pub flow_insert :
      FlowKey → FlowValue → List (FlowKey × FlowValue) → Option (List (FlowKey × FlowValue))

pub data Action : Type 0 where
  tc_act_unspec tc_act_shot : Action

-- The counters, each a saturating increment of `KERNEL_STATS`.
unfoldable pub with_stats : (KernelStats → KernelStats) → KernelState → KernelState
with_stats f s = let p = s.policy in record s { policy = record p { stats = f p.stats } }

unfoldable pub record_seen : KernelStats → KernelStats
record_seen stats = record stats { packets_seen = saturating_add stats.packets_seen 1 }

unfoldable pub record_seen_and_parsed : KernelStats → KernelStats
record_seen_and_parsed stats = record stats {
  packets_seen = saturating_add stats.packets_seen 1;
  packets_parsed = saturating_add stats.packets_parsed 1;
}

unfoldable pub record_parse_failure : KernelStats → KernelStats
record_parse_failure stats = record stats { parse_failures = saturating_add stats.parse_failures 1 }

unfoldable pub record_map_update_failure : KernelStats → KernelStats
record_map_update_failure stats = record stats {
  map_update_failures = saturating_add stats.map_update_failures 1;
}

unfoldable pub record_policy_drop : ℕ → KernelStats → KernelStats
record_policy_drop packet_len stats = record stats {
  policy_dropped_packets = saturating_add stats.policy_dropped_packets 1;
  policy_dropped_bytes = saturating_add stats.policy_dropped_bytes packet_len;
}

unfoldable pub record_emitted : KernelStats → KernelStats
record_emitted stats = record stats {
  domain_events_emitted = saturating_add stats.domain_events_emitted 1;
}

unfoldable pub record_dropped : KernelStats → KernelStats
record_dropped stats = record stats {
  domain_events_dropped = saturating_add stats.domain_events_dropped 1;
}

unfoldable pub record_service_emitted : KernelStats → KernelStats
record_service_emitted stats = record stats {
  service_events_emitted = saturating_add stats.service_events_emitted 1;
}

unfoldable pub record_service_dropped : KernelStats → KernelStats
record_service_dropped stats = record stats {
  service_events_dropped = saturating_add stats.service_events_dropped 1;
}
