-- ===== src/TrafficPath/Stats.antt =====
-- The packet counters and the verdict of `process` in zimascope-ebpf/src/tc.rs.
use zima_scope.Abi.{FlowKey, FlowValue, KernelStats}
use zima_scope.Base.{ℕ, ◌+◌, ◌<◌, ◌≡◌, refl, Bool, false, List, arith, if◌then◌else◌, u64_max}
use zima_scope.Enforcer.Evaluate.{PolicyMaps, enforce, evaluate, record_missing_state}
use zima_scope.Packet.Cursor.{PacketCursor}
use zima_scope.Packet.Parse.{
  Headers, ParsedFlow, ParseResult, flow, skipped, truncated, invalid, is_flow, is_failure, parse,
}
use zima_scope.TrafficPath.State.{
  tc_act_shot, tc_act_unspec, KernelState, Env, Action, with_stats, record_seen,
  record_seen_and_parsed, record_parse_failure, record_map_update_failure, record_policy_drop,
  record_emitted, record_dropped, record_service_emitted, record_service_dropped,
}
use zima_scope.TrafficPath.{
  update_flow, account, apply_verdict, process_flow, process_other, process_result, process,
}
use zima_scope.TrafficPath.Sampling.{
  emit_service, sample_service, emit_domain_sample, sample_domains,
}

-- The three packet counters, and the packets that the policy dropped.
abbrev pub seen_counters : KernelStats → ℕ × ℕ × ℕ × ℕ
seen_counters stats =
    (stats.packets_seen, stats.packets_parsed, stats.parse_failures, stats.policy_dropped_packets)

abbrev pub stats_of : KernelState → KernelStats
stats_of s = s.policy.stats

-- What follows a passing verdict leaves these counters alone.
emit_service-seen_counters :
    (env : Env) (key : FlowKey) (f : ParsedFlow) (s : KernelState)
    → seen_counters (stats_of (emit_service env key f s)) ≡ seen_counters (stats_of s)
unfolding emit_service with_stats record_service_emitted record_service_dropped
emit_service-seen_counters env key f s = ground arith

sample_service-seen_counters :
    (env : Env) (key : FlowKey) (f : ParsedFlow) (value : FlowValue) (s : KernelState)
    → seen_counters (stats_of (sample_service env key f value s).1) ≡ seen_counters (stats_of s)
unfolding sample_service
sample_service-seen_counters env key f value s =
    ground (arith, emit_service-seen_counters env key f s)

update_flow-seen_counters :
    (env : Env) (key : FlowKey) (f : ParsedFlow) (s : KernelState)
    → seen_counters (stats_of (update_flow env key f s).0) ≡ seen_counters (stats_of s)
unfolding update_flow
update_flow-seen_counters env key f s = grind (arith, sample_service-seen_counters)

emit_domain_sample-seen_counters :
    (env : Env) (f : ParsedFlow) (kind : ℕ) (address : List ℕ) (direction : ℕ) (s : KernelState)
    → seen_counters (stats_of (emit_domain_sample env f kind address direction s))
      ≡ seen_counters (stats_of s)
unfolding emit_domain_sample with_stats record_emitted record_dropped
emit_domain_sample-seen_counters env f kind address direction s = ground arith

sample_domains-seen_counters :
    (env : Env) (f : ParsedFlow) (direction : ℕ) (s : KernelState)
    → seen_counters (stats_of (sample_domains env f direction s)) ≡ seen_counters (stats_of s)
unfolding sample_domains
sample_domains-seen_counters env f direction s = grind (arith, emit_domain_sample-seen_counters)

account-seen_counters :
    (env : Env) (f : ParsedFlow) (direction : ℕ) (s : KernelState)
    → seen_counters (stats_of (account env f direction s)) ≡ seen_counters (stats_of s)
unfolding account with_stats record_map_update_failure
account-seen_counters env f direction s =
    grind (arith, sample_domains-seen_counters, update_flow-seen_counters)

evaluate-seen_counters :
    (maps : PolicyMaps) (f : ParsedFlow) (direction now packet_len : ℕ)
    → seen_counters (evaluate maps f direction now packet_len).0.stats ≡ seen_counters maps.stats
unfolding evaluate enforce record_missing_state
evaluate-seen_counters maps f direction now packet_len = ground arith

abbrev pub count : Bool → ℕ
count b = if b then 1 else 0

abbrev pub shot : Action → ℕ
shot tc_act_shot = 1
shot tc_act_unspec = 0

module _ (env : Env) (direction : ℕ) (s : KernelState) (seen : (stats_of s).packets_seen < u64_max)
    (parsed : (stats_of s).packets_parsed < u64_max)
    (failed : (stats_of s).parse_failures < u64_max)
    (dropped : (stats_of s).policy_dropped_packets < u64_max) where
  -- The counters after one packet with the given parse result and action.
  abbrev Counted : ParseResult → KernelState × Action → Type 0
  Counted result (after, action) = seen_counters (stats_of after) ≡ (
    (stats_of s).packets_seen + 1,
    (stats_of s).packets_parsed + count (is_flow result),
    (stats_of s).parse_failures + count (is_failure result),
    (stats_of s).policy_dropped_packets + shot action,
  )

  process_other-Counted :
      (result : ParseResult) → is_flow result ≡ false → Counted result (process_other result s)
  unfolding process_other with_stats record_seen record_parse_failure
  process_other-Counted result e = ground arith

  process_flow-Counted : (f : ParsedFlow) → Counted (flow f) (process_flow env f direction s)
  unfolding process_flow apply_verdict with_stats record_seen_and_parsed record_policy_drop
  process_flow-Counted f =
      let counted = with_stats record_seen_and_parsed s in
      let (maps, verdict) =
        evaluate counted.policy f direction env.enforce_mono_ns env.packet_len in
      ground (
        arith,
        evaluate-seen_counters counted.policy f direction env.enforce_mono_ns env.packet_len,
        account-seen_counters env f direction (record counted { policy = maps }),
      )

  process_result-Counted :
      (result : ParseResult) → Counted result (process_result env direction s result)
  unfolding process_result
  process_result-Counted (flow f) = process_flow-Counted f
  process_result-Counted skipped = process_other-Counted skipped refl
  process_result-Counted truncated = process_other-Counted truncated refl
  process_result-Counted invalid = process_other-Counted invalid refl

-- While the counters do not saturate, each packet is counted once as seen, and once as parsed or as
-- a parse failure according to the parse result: a skipped packet is neither. A packet that is
-- dropped is counted once as dropped by the policy, and no other packet is.
pub process-counts :
    (h : Headers) (cursor : PacketCursor) (env : Env) (direction : ℕ) (s : KernelState)
    → (stats_of s).packets_seen < u64_max
    → (stats_of s).packets_parsed < u64_max
    → (stats_of s).parse_failures < u64_max
    → (stats_of s).policy_dropped_packets < u64_max
    → let (after, action) = process h cursor env direction s in
      let result = parse h cursor in
      seen_counters (stats_of after) ≡ (
        (stats_of s).packets_seen + 1,
        (stats_of s).packets_parsed + count (is_flow result),
        (stats_of s).parse_failures + count (is_failure result),
        (stats_of s).policy_dropped_packets + shot action,
      )
unfolding process
process-counts h cursor env direction s a b c d =
    process_result-Counted env direction s a b c d (parse h cursor)
