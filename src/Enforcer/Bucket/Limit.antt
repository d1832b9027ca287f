-- ===== src/Enforcer/Bucket/Limit.antt =====
-- The rate that the token bucket of zimascope-ebpf/src/policy.rs enforces.
use Prim.Native.Nat.{min}
use native.Mathlib.Nat.{mod-eq_of_lt}
use zima_scope.Abi.{RuleAction, RuleState, action_code}
use zima_scope.Base.{
  ℕ, ◌+◌, ◌-◌, ◌*◌, ◌/◌, ◌≤◌, ◌<◌, ◌≡◌, refl, ap, List, [], ◌∷◌, All, ◌↔◌, arith, leb,
  if◌then◌else◌, ◌∙◌,
}
use zima_scope.Enforcer.Bucket.{
  pass, drop, ns_per_second, refill_cap_ns, earned, refill, drop_packet, count_match, decide,
  enforce_locked, run_packets,
}

min_mul-le : (a b r : ℕ) → min a b * r ≤ a * r
min_mul-le a b r = let h : min a b ≤ a = omega arith in grind arith

min_mul-le_right : (a b r : ℕ) → min a b * r ≤ b * r
min_mul-le_right a b r = let h : min a b ≤ b = omega arith in grind arith

-- What the bucket never earns beyond: the rate over the time since the last refill, the cap of one
-- second and the wrap-around included.
earned-le :
    (state : RuleState) (now : ℕ)
    → earned state now * ns_per_second ≤ (now - state.last_refill_mono_ns) * state.rate_bytes_per_s
unfolding earned
earned-le state now =
    let capped : min (now - state.last_refill_mono_ns) refill_cap_ns * state.rate_bytes_per_s
        ≤ (now - state.last_refill_mono_ns) * state.rate_bytes_per_s =
      min_mul-le _ _ _ in
    omega arith

-- Tokens never pass the burst.
pub refill-tokens-le :
    (state : RuleState) (now : ℕ)
    → state.tokens ≤ state.burst_bytes
    → (refill state now).tokens ≤ state.burst_bytes
unfolding refill
refill-tokens-le state now h = ground arith

-- One packet: what passes, with the tokens left, is covered by the tokens before and the rate over
-- the time that the refill clock moves.
enforce_locked-conserves :
    (action : ℕ) (state : RuleState) (now packet_len : ℕ)
    → let (after, verdict) = enforce_locked action state now packet_len in
      (ns_per_second * ((elim verdict [ pass ↦ packet_len | drop ↦ 0 ]) + after.tokens)
        ≤ ns_per_second * state.tokens
          + (after.last_refill_mono_ns - state.last_refill_mono_ns) * state.rate_bytes_per_s)
      × (state.last_refill_mono_ns ≤ after.last_refill_mono_ns)
      × (after.rate_bytes_per_s ≡ state.rate_bytes_per_s)
      × (after.burst_bytes ≡ state.burst_bytes)
unfolding enforce_locked decide count_match drop_packet refill
enforce_locked-conserves action state now packet_len = ground (arith, earned-le state now)

-- The last packet of a run leaves the refill clock no earlier, and the rate and burst as they were.
pub run_packets-keeps :
    (action : ℕ) (state : RuleState) (packets : List (ℕ × ℕ))
    → let last = (run_packets action state packets).0 in
      (state.last_refill_mono_ns ≤ last.last_refill_mono_ns)
      × (last.rate_bytes_per_s ≡ state.rate_bytes_per_s)
unfolding run_packets
run_packets-keeps action state [] = (omega arith, refl)
run_packets-keeps action state ((now, packet_len) ∷ packets) =
    let step = enforce_locked-conserves action state now packet_len in
    let rest = run_packets-keeps action (enforce_locked action state now packet_len).0 packets in
    (omega arith, rest.1 ∙ step.2)

sub_chain : (a b c r : ℕ) → a ≤ b → b ≤ c → (b - a) * r + (c - b) * r ≡ (c - a) * r
sub_chain a b c r h k = let e : c - a ≡ (b - a) + (c - b) = omega arith in rw e (omega arith)

-- What passes, with the tokens left, is covered by the tokens at the start and the rate over the
-- time that the refill clock moves.
run_packets-conserves :
    (action : ℕ) (state : RuleState) (packets : List (ℕ × ℕ))
    → let (last, bytes) = run_packets action state packets in
      ns_per_second * (bytes + last.tokens)
      ≤ ns_per_second * state.tokens
        + (last.last_refill_mono_ns - state.last_refill_mono_ns) * state.rate_bytes_per_s
unfolding run_packets
run_packets-conserves action state [] = omega arith
run_packets-conserves action state ((now, packet_len) ∷ packets) =
    let after = (enforce_locked action state now packet_len).0 in
    let (step, moved, rate, _) = enforce_locked-conserves action state now packet_len in
    let rest = run_packets-conserves action after packets in
    let (later, _) = run_packets-keeps action after packets in
    let rest' : ns_per_second
          * ((run_packets action after packets).1 + (run_packets action after packets).0.tokens)
        ≤ ns_per_second * after.tokens
          + ((run_packets action after packets).0.last_refill_mono_ns - after.last_refill_mono_ns)
            * state.rate_bytes_per_s =
      rw rate at rest in
    omega (
      arith,
      sub_chain state.last_refill_mono_ns after.last_refill_mono_ns
          (run_packets action after packets).0.last_refill_mono_ns state.rate_bytes_per_s moved
          later,
    )

-- A packet leaves the refill clock where it was, or sets it to the time of the packet.
enforce_locked-clock :
    (action : ℕ) (state : RuleState) (now packet_len until : ℕ)
    → state.last_refill_mono_ns ≤ until
    → now ≤ until
    → (enforce_locked action state now packet_len).0.last_refill_mono_ns ≤ until
unfolding enforce_locked decide count_match drop_packet refill
enforce_locked-clock action state now packet_len until h k = ground arith

pub run_packets-clock :
    (action : ℕ) (state : RuleState) (packets : List (ℕ × ℕ)) (until : ℕ)
    → state.last_refill_mono_ns ≤ until
    → All (λ p. p.0 ≤ until) packets
    → (run_packets action state packets).0.last_refill_mono_ns ≤ until
unfolding run_packets
run_packets-clock action state [] until h all = h
run_packets-clock action state ((now, packet_len) ∷ packets) until h (k, all) =
    run_packets-clock action (enforce_locked action state now packet_len).0 packets until
      (enforce_locked-clock action state now packet_len until h k) all

-- Take any sequence of packets that one rule meets in one direction, none timed after `until`, on a
-- bucket that holds at most its burst and was last refilled no later than `until`. The bytes that
-- pass are at most the burst plus the rate times the time from that refill to `until` (times in
-- nanoseconds, rate in bytes per second), whatever the order of the clock readings.
pub run_packets-le-rate :
    (action : ℕ) (state : RuleState) (packets : List (ℕ × ℕ)) (until : ℕ)
    → state.tokens ≤ state.burst_bytes
    → state.last_refill_mono_ns ≤ until
    → All (λ p. p.0 ≤ until) packets
    → ns_per_second * (run_packets action state packets).1
      ≤ ns_per_second * state.burst_bytes
        + (until - state.last_refill_mono_ns) * state.rate_bytes_per_s
run_packets-le-rate action state packets until full h all =
    let last = (run_packets action state packets).0.last_refill_mono_ns in
    let first = state.last_refill_mono_ns in
    let clock : last ≤ until = run_packets-clock action state packets until h all in
    let (later, _) = run_packets-keeps action state packets in
    omega (
      arith,
      run_packets-conserves action state packets,
      sub_chain first last until state.rate_bytes_per_s later clock,
    )

-- A limit rule lets a packet pass exactly when the refilled bucket holds its length, and takes that
-- many tokens; otherwise it drops the packet and takes none. A block rule drops every packet and
-- takes no token.
pub enforce_locked-limit :
    (state : RuleState) (now packet_len : ℕ)
    → let (after, verdict) = enforce_locked (action_code RuleAction.limit) state now packet_len in
      ((verdict ≡ pass) ↔ (packet_len ≤ (refill state now).tokens))
      × (after.tokens ≡ (
          if leb packet_len (refill state now).tokens
          then (refill state now).tokens - packet_len
          else (refill state now).tokens))
      × ((enforce_locked (action_code RuleAction.block) state now packet_len).1 ≡ drop)
      × ((enforce_locked (action_code RuleAction.block) state now packet_len).0.tokens
          ≡ (refill state now).tokens)
unfolding enforce_locked decide count_match drop_packet
enforce_locked-limit state now packet_len = ground arith

-- The rates that validation admits, at most 10 GiB per second, keep the product of `refill` below
-- 2^64: the bucket then earns the rate over the time since the last refill, one second at most.
pub earned_exact :
    (state : RuleState) (now : ℕ)
    → state.rate_bytes_per_s ≤ 10737418240
    → earned state now
      ≡ min (now - state.last_refill_mono_ns) ns_per_second * state.rate_bytes_per_s / ns_per_second
unfolding earned
earned_exact state now h =
    let within : min (now - state.last_refill_mono_ns) ns_per_second * state.rate_bytes_per_s
        ≤ ns_per_second * state.rate_bytes_per_s =
      min_mul-le_right _ _ _ in
    ap (λ n. n / ns_per_second) (mod-eq_of_lt (omega arith))

-- A packet longer than the burst never passes a limit rule whose bucket holds at most its burst,
-- however long the rule has been idle.
pub drop_of_burst_lt :
    (state : RuleState) (now packet_len : ℕ)
    → state.tokens ≤ state.burst_bytes
    → state.burst_bytes < packet_len
    → (enforce_locked (action_code RuleAction.limit) state now packet_len).1 ≡ drop
unfolding enforce_locked decide count_match
drop_of_burst_lt state now packet_len full h = ground (arith, refill-tokens-le state now)
