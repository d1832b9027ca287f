-- ===== src/Tests/Path.antt =====
-- Whole packets through the TC program: one that a rule blocks, and one that is counted and sampled.
use native.Mathlib.Decide.{ℕ_discrete}
use zima_scope.Abi.{
  FlowKey, FlowValue, BucketKey-discrete, EndpointMatchKey-discrete, FlowKey-discrete,
}
use zima_scope.Base.Assoc.{get, insert, get-insert_self}
use zima_scope.Base.{
  ℕ, ◌+◌, ◌≤◌, ◌≡◌, ◌≢◌, refl, ap, sym, ◌∙◌, arith, true, some, none, List, [], ◌∷◌, length,
  replicate, zero, suc, saturating_add, has_bit,
}
use zima_scope.Enforcer.Bucket.{earned, refill, drop_packet, count_match, decide, enforce_locked}
use zima_scope.Enforcer.Evaluate.{
  socket_key, lookup_owner, prefer, pick, app_rule, endpoint_rule, enforce, matched_rule, evaluate,
}
use zima_scope.Packet.Cursor.{has, read_each, slice, memory_u16, memory_u32, memory_cursor}
use zima_scope.Packet.Parse.{
  ParsedFlow, is_flow, is_failure, ipv4_storage, parse_flags_of, parse_ports, parse_l4, parse_ipv4,
  parse,
}
use zima_scope.Tests.Data.{wire, http_frame, http_flow, state, endpoint_state, env}
use zima_scope.TrafficPath.State.{
  tc_act_shot, tc_act_unspec, Env, with_stats, record_seen, record_seen_and_parsed,
  record_parse_failure, record_map_update_failure, record_policy_drop, record_emitted,
  record_dropped, record_service_emitted, record_service_dropped,
}
use zima_scope.TrafficPath.{
  flow_key, record_packet, update_flow, account, apply_verdict, process_flow, process_other,
  process_result, process,
}
use zima_scope.TrafficPath.Sampling.{
  emit_service, wants_service, sample_service, emit_domain_sample, sample_kind, is_candidate,
  sample_domains,
}
use zima_scope.TrafficPath.Accounting.{Inserts, entry, update_flow-counts}
use zima_scope.TrafficPath.Samples.{Loads, Fits, sample_run, sample_run-once, process-Fits}
use zima_scope.TrafficPath.Stats.{stats_of, seen_counters, count, shot, process-counts}
use zima_scope.TrafficPath.Verdicts.{Dropped, process-shot}

path_program : Unit {0}
unfolding ℕ_discrete BucketKey-discrete EndpointMatchKey-discrete FlowKey-discrete get insert earned
    refill drop_packet count_match decide enforce_locked socket_key lookup_owner prefer pick
    app_rule endpoint_rule enforce matched_rule evaluate has read_each slice memory_u16 memory_u32
    ipv4_storage parse_flags_of parse_ports parse_l4 parse_ipv4 parse with_stats record_seen
    record_seen_and_parsed record_parse_failure record_map_update_failure record_policy_drop
    record_emitted record_dropped record_service_emitted record_service_dropped flow_key
    record_packet emit_service wants_service sample_service update_flow emit_domain_sample
    sample_kind is_candidate sample_domains account apply_verdict process_flow process_other
    process_result process
path_program = tt

http_key : FlowKey
http_key = flow_key http_flow 2 3

blocked_packet : (process wire (memory_cursor http_frame) (env 58) 2 state).1 ≡ tc_act_shot
unfolding path_program
blocked_packet = refl

-- The endpoint policy lets the packet pass, which is counted and sampled in both rings.
passed_packet :
    let (after, action) = process wire (memory_cursor http_frame) (env 58) 2 endpoint_state in
    (action ≡ tc_act_unspec)
    × (length after.flows ≡ 1)
    × (length after.domain_events ≡ 1)
    × (length after.service_events ≡ 1)
unfolding path_program
passed_packet = (refl, refl, refl, refl)

process-shot_example :
    Dropped
      (env 58)
      2
      state
      (parse wire (memory_cursor http_frame))
      (process wire (memory_cursor http_frame) (env 58) 2 state).0
process-shot_example = process-shot wire (memory_cursor http_frame) (env 58) 2 state blocked_packet

process-counts_example :
    let (after, action) = process wire (memory_cursor http_frame) (env 58) 2 state in
    let result = parse wire (memory_cursor http_frame) in
    seen_counters (stats_of after)
    ≡ (0 + 1, 0 + count (is_flow result), 0 + count (is_failure result), 0 + shot action)
process-counts_example =
    process-counts wire (memory_cursor http_frame) (env 58) 2 state (omega arith) (omega arith)
      (omega arith) (omega arith)

-- The map of the test data takes every entry, and its loads return as many bytes as asked for.
env-Inserts : Inserts (env 58)
env-Inserts key value flows flows' e =
    ap (λ o. elim o [ none ↦ none | some l ↦ get FlowKey-discrete key l ]) (sym e)
    ∙ get-insert_self FlowKey-discrete key value flows

length-replicate : (n b : ℕ) → length (replicate n b) ≡ n
length-replicate zero b = refl
length-replicate (suc n) b = ap suc (length-replicate n b)

env-Loads : Loads (env 58)
env-Loads offset len bytes e =
    ap (λ o. elim o [ none ↦ len | some l ↦ length l ]) (sym e) ∙ length-replicate len 71

taken : (update_flow (env 58) http_key http_flow endpoint_state).1 ≡ true
unfolding path_program
taken = refl

update_flow-counts_example :
    (after : FlowValue) × (get FlowKey-discrete http_key
        (update_flow (env 58) http_key http_flow endpoint_state).0.flows
      ≡ some after)
    × (after.packets ≡ saturating_add (entry http_key endpoint_state).packets 1)
    × (after.bytes ≡ saturating_add (entry http_key endpoint_state).bytes 58)
    × (after.last_seen_mono_ns ≡ 100)
    × ((entry http_key endpoint_state).packets ≡ 0 → after.first_seen_mono_ns ≡ 100)
    × ((entry http_key endpoint_state).packets ≢ 0
        → after.first_seen_mono_ns ≡ (entry http_key endpoint_state).first_seen_mono_ns)
update_flow-counts_example =
    update_flow-counts (env 58) http_key http_flow endpoint_state env-Inserts taken

abbrev two_packets : List (Env × ParsedFlow)
two_packets = (env 58, http_flow) ∷ (env 60, http_flow) ∷ []

abbrev unseen : FlowValue
unseen = record {
  packets = 0;
  bytes = 0;
  first_seen_mono_ns = 0;
  last_seen_mono_ns = 0;
  tcp_flags = 0;
  parse_flags = 0;
  service_flags = 0;
}

sample_run-once_example :
    (length (sample_run http_key two_packets unseen state).1.service_events ≤ 0 + 1)
    × (has_bit 0 0 ≡ true → (sample_run http_key two_packets unseen state).1 ≡ state)
sample_run-once_example = sample_run-once http_key two_packets unseen state

process-Fits_example : Fits (process wire (memory_cursor http_frame) (env 58) 2 endpoint_state).0
process-Fits_example =
    process-Fits (env 58) env-Loads wire (memory_cursor http_frame) 2 endpoint_state
      (record { domain = tt; service = tt })
