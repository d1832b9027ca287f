-- ===== src/Tests/Data.antt =====
-- Test data: the documented values of `network-types`, one captured frame, one policy, one state.
use zima_scope.Abi.{
  RuleAction, OwnerValue, RuleRef, RuleState, PolicyConfig, KernelStats, FlowKey-discrete,
  action_code,
}
use zima_scope.Base.Assoc.{insert}
use zima_scope.Base.{ℕ, true, some, none, List, [], ◌∷◌, ◌++◌, ◌==◌, if◌then◌else◌, replicate}
use zima_scope.Enforcer.Evaluate.{MatchMaps, PolicyMaps}
use zima_scope.Packet.Parse.{Headers, ParsedFlow}
use zima_scope.TrafficPath.State.{KernelState, Env}

abbrev pub wire : Headers
wire = record {
  eth_len = 14;
  eth_ether_type = 12;
  vlan_len = 4;
  vlan_ether_type = 2;
  ipv4_len = 20;
  ipv4_vihl = 0;
  ipv4_tot_len = 2;
  ipv4_frags = 6;
  ipv4_proto = 9;
  ipv4_src_addr = 12;
  ipv4_dst_addr = 16;
  tcp_len = 20;
  tcp_source = 0;
  tcp_dest = 2;
  udp_len = 8;
  udp_src = 0;
  udp_dst = 2;
  ieee8021q = 0x8100;
  ieee8021ad = 0x88A8;
  ipv4_type = 0x0800;
  tcp_proto = 6;
  udp_proto = 17;
}

-- 192.168.1.10:40000 → 1.2.3.4:80 over TCP with ACK and PSH, and the payload `GET `.
abbrev pub http_frame : List ℕ
http_frame =
    replicate 12 2
    ++ (0x08 ∷ 0x00 ∷ [])
    ++ (0x45 ∷ 0 ∷ 0 ∷ 44 ∷ 0 ∷ 1 ∷ 0 ∷ 0 ∷ 64 ∷ 6 ∷ 0 ∷ 0 ∷ [])
    ++ (192 ∷ 168 ∷ 1 ∷ 10 ∷ 1 ∷ 2 ∷ 3 ∷ 4 ∷ [])
    ++ (0x9C ∷ 0x40 ∷ 0 ∷ 80 ∷ 0 ∷ 0 ∷ 0 ∷ 1 ∷ 0 ∷ 0 ∷ 0 ∷ 1 ∷ 0x50 ∷ 0x18 ∷ 1 ∷ 0 ∷ 0 ∷ 0 ∷ 0 ∷ 0
        ∷ [])
    ++ (71 ∷ 69 ∷ 84 ∷ 32 ∷ [])

abbrev pub local_addr : List ℕ
local_addr = replicate 12 0 ++ (192 ∷ 168 ∷ 1 ∷ 10 ∷ [])

abbrev pub peer_addr : List ℕ
peer_addr = replicate 12 0 ++ (1 ∷ 2 ∷ 3 ∷ 4 ∷ [])

abbrev pub http_flow : ParsedFlow
http_flow = record {
  src_addr = local_addr;
  dst_addr = peer_addr;
  src_port_be = 0x409C;
  dst_port_be = 0x5000;
  protocol = 6;
  ip_family = 4;
  tcp_flags = 0x18;
  parse_flags = 0;
  payload_offset = 54;
  payload_end = 58;
}

abbrev pub comm : List ℕ
comm = 99 ∷ 117 ∷ 114 ∷ 108 ∷ replicate 12 0

abbrev pub owner : OwnerValue
owner = record {
  tgid = 700;
  pid = 701;
  uid = 1000;
  cgroup_id = 5;
  comm = comm;
  observed_mono_ns = 10;
}

abbrev pub limit_rule : RuleRef
limit_rule = record { rule_id = 1; action = action_code RuleAction.limit }

abbrev pub block_rule : RuleRef
block_rule = record { rule_id = 2; action = action_code RuleAction.block }

abbrev pub bucket : RuleState
bucket = record {
  rate_bytes_per_s = 1000;
  burst_bytes = 1000;
  tokens = 500;
  last_refill_mono_ns = 0;
  matched_packets = 0;
  matched_bytes = 0;
  dropped_packets = 0;
  dropped_bytes = 0;
}

abbrev pub no_matches : MatchMaps
no_matches = record {
  app_cgroup = λ id. none;
  app_comm = λ name. none;
  endpoint_exact = λ key. none;
  endpoint_cidr = λ addr. none;
}

-- A container rule, a process rule that blocks, and a rule for every port of the peer.
abbrev pub matches : MatchMaps
matches = record {
  app_cgroup = λ id. if id == 5 then some limit_rule else none;
  app_comm = λ name. some block_rule;
  endpoint_exact = λ key. if key.port_be == 0 then some limit_rule else none;
  endpoint_cidr = λ addr. none;
}

abbrev pub zero_stats : KernelStats
zero_stats = record {
  packets_seen = 0;
  packets_parsed = 0;
  parse_failures = 0;
  map_update_failures = 0;
  flow_evictions = 0;
  domain_events_emitted = 0;
  domain_events_dropped = 0;
  service_events_emitted = 0;
  service_events_dropped = 0;
  owner_events_inserted = 0;
  owner_events_dropped = 0;
  policy_dropped_packets = 0;
  policy_dropped_bytes = 0;
  policy_missing_state = 0;
}

abbrev pub config : PolicyConfig
config = record { enabled = 1; app_rules = 2; endpoint_rules = 1; revision = 1 }

abbrev pub endpoint_config : PolicyConfig
endpoint_config = record config { app_rules = 0 }

-- The outbound policy; both rules have a bucket.
abbrev pub policy : PolicyMaps
policy = record {
  config = some config;
  ingress = no_matches;
  egress = matches;
  owners = λ key. some owner;
  listeners = λ key. none;
  rule_states =
      (record { rule_id = 1; direction = 2 }, bucket)
      ∷ (record { rule_id = 2; direction = 2 }, bucket)
      ∷ [];
  stats = zero_stats;
}

abbrev pub endpoint_policy : PolicyMaps
endpoint_policy = record policy { config = some endpoint_config }

abbrev pub state : KernelState
state = record { policy = policy; flows = []; domain_events = []; service_events = [] }

abbrev pub endpoint_state : KernelState
endpoint_state = record state { policy = endpoint_policy }

-- A packet of the given length; its loads succeed, both rings have space, and the map takes the
-- flow.
abbrev pub env : ℕ → Env
env packet_len = record {
  observed_mono_ns = 100;
  enforce_mono_ns = 100;
  packet_len = packet_len;
  ifindex = 3;
  load_bytes = λ offset len. some (replicate len 71);
  reserve_domain = true;
  reserve_service = true;
  flow_insert = λ key value flows. some (insert FlowKey-discrete key value flows);
}
