-- ===== src/Enforcer/Bucket/Counters.antt =====
-- The counters that `enforce` of zimascope-ebpf/src/policy.rs keeps for one rule in one direction.
use zima_scope.Abi.{RuleState}
use zima_scope.Base.{ℕ, ◌+◌, ◌≤◌, ◌≡◌, List, [], ◌∷◌, length, arith, u64_max}
use zima_scope.Enforcer.Bucket.{
  pass, drop, refill, drop_packet, count_match, decide, enforce_locked, run_packets,
}

abbrev pub total_len : List (ℕ × ℕ) → ℕ
total_len [] = 0
total_len ((now, packet_len) ∷ packets) = packet_len + total_len packets

-- One packet is matched once; its bytes either pass or are counted as dropped.
enforce_locked-counts :
    (action : ℕ) (state : RuleState) (now packet_len : ℕ)
    → state.matched_packets + 1 ≤ u64_max
    → state.matched_bytes + packet_len ≤ u64_max
    → state.dropped_packets ≤ state.matched_packets
    → state.dropped_bytes ≤ state.matched_bytes
    → let (after, verdict) = enforce_locked action state now packet_len in
      (after.matched_packets ≡ state.matched_packets + 1)
      × (after.matched_bytes ≡ state.matched_bytes + packet_len)
      × (after.dropped_bytes + (elim verdict [ pass ↦ packet_len | drop ↦ 0 ])
          ≡ state.dropped_bytes + packet_len)
      × (after.dropped_packets ≤ after.matched_packets)
      × (after.dropped_bytes ≤ after.matched_bytes)
unfolding enforce_locked decide count_match drop_packet refill
enforce_locked-counts action state now packet_len p b dp db = ground arith

-- As long as the 64-bit counters do not saturate, a run of packets of one rule in one direction
-- counts every packet and every byte as matched, and the bytes that pass are the bytes matched
-- less the bytes counted as dropped.
pub run_packets-counts :
    (action : ℕ) (state : RuleState) (packets : List (ℕ × ℕ))
    → state.matched_packets + length packets ≤ u64_max
    → state.matched_bytes + total_len packets ≤ u64_max
    → state.dropped_packets ≤ state.matched_packets
    → state.dropped_bytes ≤ state.matched_bytes
    → let (last, bytes) = run_packets action state packets in
      (last.matched_packets ≡ state.matched_packets + length packets)
      × (last.matched_bytes ≡ state.matched_bytes + total_len packets)
      × (last.dropped_bytes + bytes ≡ state.dropped_bytes + total_len packets)
      × (last.dropped_packets ≤ last.matched_packets)
unfolding run_packets
run_packets-counts action state [] p b dp db = (omega arith, omega arith, omega arith, dp)
run_packets-counts action state ((now, packet_len) ∷ packets) p b dp db =
    let after = (enforce_locked action state now packet_len).0 in
    let (c1, c2, c3, c4, c5) =
      enforce_locked-counts action state now packet_len (omega arith) (omega arith) dp db in
    let (r1, r2, r3, r4) =
      run_packets-counts action after packets (omega arith) (omega arith) c4 c5 in
    (omega arith, omega arith, omega arith, r4)
