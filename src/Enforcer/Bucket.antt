-- ===== src/Enforcer/Bucket.antt =====
-- The token bucket and the counters of one rule in one direction: `refill`, `drop_packet` and the
-- locked part of `enforce` in zimascope-ebpf/src/policy.rs. Integers are `u64`; the product in
-- `refill` keeps its wrap-around.
pub mod Limit
pub mod Counters
pub mod Window
use Prim.Native.Nat.{min}
use zima_scope.Abi.{RuleAction, RuleRef, RuleState, action_code}
use zima_scope.Base.{
  ℕ, ◌+◌, ◌-◌, ◌*◌, ◌/◌, ◌%◌, Bool, true, false, List, [], ◌∷◌, ltb, leb, ◌==◌, if◌then◌else◌,
  u64_mod, saturating_add,
}

pub data Verdict : Type 0 where
  pass drop : Verdict

abbrev pub ns_per_second : ℕ
ns_per_second = 1000000000

abbrev pub refill_cap_ns : ℕ
refill_cap_ns = ns_per_second

-- The bytes that `refill` adds at the clock reading `now`, before the burst caps them.
unfoldable pub earned : RuleState → ℕ → ℕ
earned state now =
    min (now - state.last_refill_mono_ns) refill_cap_ns
    * state.rate_bytes_per_s
    % u64_mod
    / ns_per_second

unfoldable pub refill : RuleState → ℕ → RuleState
refill state now =
    let add = earned state now in
    if ltb 0 add
    then record state {
      tokens = min (saturating_add state.tokens add) state.burst_bytes;
      last_refill_mono_ns = now;
    }
    else state

unfoldable pub drop_packet : RuleState → ℕ → RuleState
drop_packet state packet_len = record state {
  dropped_packets = saturating_add state.dropped_packets 1;
  dropped_bytes = saturating_add state.dropped_bytes packet_len;
}

-- The matched counters, between `refill` and the decision.
unfoldable pub count_match : RuleState → ℕ → RuleState
count_match state packet_len = record state {
  matched_packets = saturating_add state.matched_packets 1;
  matched_bytes = saturating_add state.matched_bytes packet_len;
}

-- The decision on the refilled state.
unfoldable pub decide : ℕ → RuleState → ℕ → RuleState × Verdict
decide action state packet_len =
    if action == action_code RuleAction.block
    then (drop_packet state packet_len, drop)
    else if leb packet_len state.tokens
    then (record state { tokens = state.tokens - packet_len }, pass)
    else (drop_packet state packet_len, drop)

-- What happens between `bpf_spin_lock` and `bpf_spin_unlock`.
unfoldable pub enforce_locked : ℕ → RuleState → ℕ → ℕ → RuleState × Verdict
enforce_locked action state now packet_len =
    decide action (count_match (refill state now) packet_len) packet_len

-- The packets that one rule meets in one direction, each with the clock reading and its length, and
-- the bytes that pass.
unfoldable pub run_packets : ℕ → RuleState → List (ℕ × ℕ) → RuleState × ℕ
run_packets action state [] = (state, 0)
run_packets action state ((now, packet_len) ∷ packets) =
    let (after, verdict) = enforce_locked action state now packet_len in
    let (last, bytes) = run_packets action after packets in
    (last, (elim verdict [ pass ↦ packet_len | drop ↦ 0 ]) + bytes)
