-- ===== src/TrafficPath/Verdicts.antt =====
-- The packets that `process` of zimascope-ebpf/src/tc.rs drops.
use zima_scope.Base.{ℕ, ◌≡◌, refl}
use zima_scope.Enforcer.Bucket.{Verdict, pass, drop}
use zima_scope.Enforcer.Evaluate.FailOpen.{Enforced, evaluate-drop}
use zima_scope.Packet.Cursor.{PacketCursor}
use zima_scope.Packet.Parse.{
  Headers, ParsedFlow, ParseResult, flow, skipped, truncated, invalid, parse,
}
use zima_scope.TrafficPath.State.{tc_act_shot, KernelState, Env, with_stats, record_seen_and_parsed}
use zima_scope.TrafficPath.{apply_verdict, process_flow, process_other, process_result, process}

-- The traffic records of a state: the flow map and both ring buffers.
abbrev pub SameTraffic : KernelState → KernelState → Type 0
SameTraffic s t =
    (t.flows ≡ s.flows)
    × (t.domain_events ≡ s.domain_events)
    × (t.service_events ≡ s.service_events)

module _ (env : Env) (direction : ℕ) (s : KernelState) where
  -- Why a packet with this parse result was dropped.
  abbrev pub Dropped : ParseResult → KernelState → Type 0
  Dropped result after =
      (f : ParsedFlow) × (result ≡ flow f)
      × Enforced (with_stats record_seen_and_parsed s).policy f direction env.enforce_mono_ns
          env.packet_len
      × SameTraffic s after

  apply_verdict-shot :
      (f : ParsedFlow) (t : KernelState) (verdict : Verdict)
      → (apply_verdict env f direction t verdict).1 ≡ tc_act_shot
      → (verdict ≡ drop) × SameTraffic t (apply_verdict env f direction t verdict).0
  unfolding apply_verdict with_stats
  apply_verdict-shot f t pass e = absurd (cc)
  apply_verdict-shot f t drop e = (refl, (refl, refl, refl))

  process_result-shot :
      (result : ParseResult)
      → (process_result env direction s result).1 ≡ tc_act_shot
      → Dropped result (process_result env direction s result).0
  unfolding process_result process_flow process_other with_stats
  process_result-shot (flow f) e =
      let counted = with_stats record_seen_and_parsed s in
      let (verdict, same) = apply_verdict-shot f _ _ e in
      (f, refl, evaluate-drop counted.policy f direction _ _ verdict, same)
  process_result-shot skipped e = absurd (cc)
  process_result-shot truncated e = absurd (cc)
  process_result-shot invalid e = absurd (cc)

-- A packet is dropped only if it parses to a flow that an installed rule of the enabled policy
-- selects and refuses, and then neither the flow map nor a ring buffer changes: a dropped packet
-- is not accounted and not sampled.
pub process-shot :
    (h : Headers) (cursor : PacketCursor) (env : Env) (direction : ℕ) (s : KernelState)
    → (process h cursor env direction s).1 ≡ tc_act_shot
    → Dropped env direction s (parse h cursor) (process h cursor env direction s).0
unfolding process
process-shot h cursor env direction s e = process_result-shot env direction s (parse h cursor) e
