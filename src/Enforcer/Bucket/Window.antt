-- ===== src/Enforcer/Bucket/Window.antt =====
-- The limit of zimascope-ebpf/src/policy.rs over any part of a rule's traffic, not only from the start.
use zima_scope.Abi.{RuleState}
use zima_scope.Base.{ℕ, ◌+◌, ◌-◌, ◌*◌, ◌≤◌, ◌≡◌, refl, List, [], ◌∷◌, All, arith}
use zima_scope.Enforcer.Bucket.Limit.{
  run_packets-le-rate, run_packets-clock, run_packets-keeps, refill-tokens-le,
}
use zima_scope.Enforcer.Bucket.{
  ns_per_second, refill, drop_packet, count_match, decide, enforce_locked, run_packets,
}

refill-burst : (state : RuleState) (now : ℕ) → (refill state now).burst_bytes ≡ state.burst_bytes
unfolding refill
refill-burst state now = ground arith

-- A packet keeps the tokens within the burst, and the burst as it is.
enforce_locked-tokens-le :
    (action : ℕ) (state : RuleState) (now packet_len : ℕ)
    → state.tokens ≤ state.burst_bytes
    → ((enforce_locked action state now packet_len).0.tokens ≤ state.burst_bytes)
      × ((enforce_locked action state now packet_len).0.burst_bytes ≡ state.burst_bytes)
unfolding enforce_locked decide count_match drop_packet
enforce_locked-tokens-le action state now packet_len full =
    ground (arith, refill-tokens-le state now full, refill-burst state now)

run_packets-tokens-le :
    (action : ℕ) (state : RuleState) (packets : List (ℕ × ℕ))
    → state.tokens ≤ state.burst_bytes
    → ((run_packets action state packets).0.tokens ≤ state.burst_bytes)
      × ((run_packets action state packets).0.burst_bytes ≡ state.burst_bytes)
unfolding run_packets
run_packets-tokens-le action state [] full = (full, refl)
run_packets-tokens-le action state ((now, packet_len) ∷ packets) full =
    let (full', kept) = enforce_locked-tokens-le action state now packet_len full in
    let (tokens, burst) =
      run_packets-tokens-le action (enforce_locked action state now packet_len).0 packets
        (omega arith) in
    (omega arith, omega arith)

-- Take a bucket that holds at most its burst, any earlier packets, and any packets after them, none
-- of all these timed after `until`. The later packets that pass have at most the burst plus the
-- rate times the time from the last refill before them to `until` (times in nanoseconds, rate in
-- bytes per second).
pub run_packets-window :
    (action : ℕ) (state : RuleState) (earlier packets : List (ℕ × ℕ)) (until : ℕ)
    → state.tokens ≤ state.burst_bytes
    → state.last_refill_mono_ns ≤ until
    → All (λ p. p.0 ≤ until) earlier
    → All (λ p. p.0 ≤ until) packets
    → let start = (run_packets action state earlier).0 in
      ns_per_second * (run_packets action start packets).1
      ≤ ns_per_second * state.burst_bytes
        + (until - start.last_refill_mono_ns) * state.rate_bytes_per_s
run_packets-window action state earlier packets until full h before during =
    let start = (run_packets action state earlier).0 in
    let (tokens, burst) = run_packets-tokens-le action state earlier full in
    let (_, rate) = run_packets-keeps action state earlier in
    let bound =
      run_packets-le-rate action start packets until (omega arith)
        (run_packets-clock action state earlier until h before) during in
    rw (burst, rate) at bound
