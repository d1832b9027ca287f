-- ===== src/TrafficPath.antt =====
-- The TC entry points of zimascope-ebpf/src/tc.rs: one packet in, one verdict out, with the flow
-- map, the policy maps, the ring buffers and the counters as one state. What the kernel answers for
-- one packet (clock, skb fields, payload loads, ring space, flow-map insertion) is the environment.
pub mod State
pub mod Sampling
pub mod Stats
pub mod Accounting
pub mod Samples
pub mod Verdicts
use Prim.Native.Nat.{bit_or}
use zima_scope.Abi.{FlowKey, FlowValue, FlowKey-discrete}
use zima_scope.Base.Assoc.{get, insert}
use zima_scope.Base.{ℕ, Bool, true, false, some, none, ◌==◌, if◌then◌else◌, saturating_add}
use zima_scope.Enforcer.Bucket.{Verdict, pass, drop}
use zima_scope.Enforcer.Evaluate.{evaluate}
use zima_scope.Packet.Cursor.{PacketCursor}
use zima_scope.Packet.Parse.{
  Headers, ParsedFlow, ParseResult, flow, skipped, truncated, invalid, is_failure, parse,
}
use zima_scope.TrafficPath.State.{
  tc_act_shot, tc_act_unspec, KernelState, Env, Action, with_stats, record_seen,
  record_seen_and_parsed, record_parse_failure, record_map_update_failure, record_policy_drop,
}
use zima_scope.TrafficPath.Sampling.{sample_service, sample_domains}

unfoldable pub flow_key : ParsedFlow → ℕ → ℕ → FlowKey
flow_key f direction ifindex = record {
  src_addr = f.src_addr;
  dst_addr = f.dst_addr;
  src_port_be = f.src_port_be;
  dst_port_be = f.dst_port_be;
  ifindex = ifindex;
  protocol = f.protocol;
  direction = direction;
  ip_family = f.ip_family;
}

-- `record` of the source.
unfoldable pub record_packet : FlowValue → ParsedFlow → ℕ → ℕ → FlowValue
record_packet value f now packet_len = record value {
  first_seen_mono_ns = if value.packets == 0 then now else value.first_seen_mono_ns;
  packets = saturating_add value.packets 1;
  bytes = saturating_add value.bytes packet_len;
  last_seen_mono_ns = now;
  tcp_flags = bit_or value.tcp_flags f.tcp_flags;
  parse_flags = bit_or value.parse_flags f.parse_flags;
}

abbrev pub default_flow_value : FlowValue
default_flow_value = record {
  packets = 0;
  bytes = 0;
  first_seen_mono_ns = 0;
  last_seen_mono_ns = 0;
  tcp_flags = 0;
  parse_flags = 0;
  service_flags = 0;
}

-- The existing entry is written through its pointer; a new one is inserted.
unfoldable pub update_flow : Env → FlowKey → ParsedFlow → KernelState → KernelState × Bool
update_flow env key f s = elim (get FlowKey-discrete key s.flows) [
  | some old ↦
      let value = record_packet old f env.observed_mono_ns env.packet_len in
      let (sampled, s') = sample_service env key f value s in
      (record s' { flows = insert FlowKey-discrete key sampled s'.flows }, true)
  | none ↦
      let value = record_packet default_flow_value f env.observed_mono_ns env.packet_len in
      let (sampled, s') = sample_service env key f value s in
      elim (env.flow_insert key sampled s'.flows) [
        | some flows ↦ (record s' { flows = flows }, true)
        | none ↦ (s', false)
      ]
]

-- A packet that the policy passes.
unfoldable pub account : Env → ParsedFlow → ℕ → KernelState → KernelState
account env f direction s =
    let (s', recorded) = update_flow env (flow_key f direction env.ifindex) f s in
    if recorded then sample_domains env f direction s' else with_stats record_map_update_failure s'

-- The policy's verdict on a packet that was counted.
unfoldable pub apply_verdict : Env → ParsedFlow → ℕ → KernelState → Verdict → KernelState × Action
apply_verdict env f direction s drop =
    (with_stats (record_policy_drop env.packet_len) s, tc_act_shot)
apply_verdict env f direction s pass = (account env f direction s, tc_act_unspec)

-- The `ParseResult::Flow` branch of `process`.
unfoldable pub process_flow : Env → ParsedFlow → ℕ → KernelState → KernelState × Action
process_flow env f direction s =
    let counted = with_stats record_seen_and_parsed s in
    let (maps, verdict) = evaluate counted.policy f direction env.enforce_mono_ns env.packet_len in
    apply_verdict env f direction (record counted { policy = maps }) verdict

-- The other branches.
unfoldable pub process_other : ParseResult → KernelState → KernelState × Action
process_other result s =
    let counted = with_stats record_seen s in
    (if is_failure result then with_stats record_parse_failure counted else counted, tc_act_unspec)

-- The `match parse(&cursor)`.
unfoldable pub process_result : Env → ℕ → KernelState → ParseResult → KernelState × Action
process_result env direction s (flow f) = process_flow env f direction s
process_result env direction s skipped = process_other skipped s
process_result env direction s truncated = process_other truncated s
process_result env direction s invalid = process_other invalid s

unfoldable pub process : Headers → PacketCursor → Env → ℕ → KernelState → KernelState × Action
process h cursor env direction s = process_result env direction s (parse h cursor)
