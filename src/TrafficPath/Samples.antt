-- ===== src/TrafficPath/Samples.antt =====
-- The payload samples that zimascope-ebpf/src/tc.rs sends to user space: their size, and how often a
-- flow is sampled.
use zima_scope.Abi.{
  FlowKey, FlowValue, KernelStats, FlowKey-discrete, DomainSample, ServiceSample, domain_sample_max,
  service_sample_max,
}
use zima_scope.Base.Assoc.{get}
use zima_scope.Base.Bits.{bit_or-one_odd}
use zima_scope.Base.{
  ℕ, ◌+◌, ◌%◌, ◌≤◌, ◌≡◌, inl, inr, refl, ap, true, false, some, List, [], ◌∷◌, arith, has_bit,
  length, All, Option-cases, Bool-cases, ◌-◌,
}
use zima_scope.Enforcer.Bucket.{Verdict, pass, drop}
use zima_scope.Packet.Cursor.{PacketCursor}
use zima_scope.Packet.Parse.{
  Headers, ParsedFlow, ParseResult, flow, skipped, truncated, invalid, is_failure, parse,
}
use zima_scope.TrafficPath.State.{
  KernelState, Env, with_stats, record_map_update_failure, record_policy_drop,
}
use zima_scope.TrafficPath.{
  apply_verdict, default_flow_value, flow_key, record_packet, update_flow, account, process_flow,
  process_other, process_result, process,
}
use zima_scope.TrafficPath.Sampling.{
  load, sample_len, emit_service, wants_service, sample_service, emit_domain_sample, sample_domains,
}

-- One packet after another of one flow whose entry stays in the map: the entry is updated and
-- perhaps sampled, as `update_flow` does.
unfoldable pub sample_run :
    FlowKey → List (Env × ParsedFlow) → FlowValue → KernelState → FlowValue × KernelState
sample_run key [] value s = (value, s)
sample_run key ((env, f) ∷ packets) value s =
    let updated = record_packet value f env.observed_mono_ns env.packet_len in
    let (sampled, s') = sample_service env key f updated s in sample_run key packets sampled s'

emit_service-length :
    (env : Env) (key : FlowKey) (f : ParsedFlow) (s : KernelState)
    → length (emit_service env key f s).service_events ≤ length s.service_events + 1
unfolding emit_service with_stats
emit_service-length env key f s = ground arith

sample_run_flagged :
    (key : FlowKey) (packets : List (Env × ParsedFlow)) (value : FlowValue) (s : KernelState)
    → has_bit value.service_flags 0 ≡ true
    → (sample_run key packets value s).1 ≡ s
unfolding sample_run sample_service wants_service record_packet
sample_run_flagged key [] value s h = refl
sample_run_flagged key ((env, f) ∷ packets) value s h =
    let updated = record_packet value f env.observed_mono_ns env.packet_len in
    ground (arith, sample_run_flagged key packets updated s)

sample_service-wanted :
    (env : Env) (key : FlowKey) (f : ParsedFlow) (value : FlowValue) (s : KernelState)
    → wants_service f value ≡ true
    → (has_bit (sample_service env key f value s).0.service_flags 0 ≡ true)
      × ((sample_service env key f value s).1 ≡ emit_service env key f s)
unfolding sample_service
sample_service-wanted env key f value s h =
    (ground (arith, bit_or-one_odd value.service_flags), ground arith)

sample_service-unwanted :
    (env : Env) (key : FlowKey) (f : ParsedFlow) (value : FlowValue) (s : KernelState)
    → wants_service f value ≡ false
    → (sample_service env key f value s).1 ≡ s
unfolding sample_service
sample_service-unwanted env key f value s h = ground arith

sample_run-length :
    (key : FlowKey) (packets : List (Env × ParsedFlow)) (value : FlowValue) (s : KernelState)
    → length (sample_run key packets value s).1.service_events ≤ length s.service_events + 1
unfolding sample_run
sample_run-length key [] value s = omega arith
sample_run-length key ((env, f) ∷ packets) value s =
    let updated = record_packet value f env.observed_mono_ns env.packet_len in
    let (sampled, s') = sample_service env key f updated s in
    elim (Bool-cases (wants_service f updated)) [
      | inl wanted ↦
          let (flagged, emitted) = sample_service-wanted env key f updated s wanted in
          rw (sample_run_flagged key packets sampled s' flagged, emitted)
            (emit_service-length env key f s)
      | inr unwanted ↦ omega (
        arith,
        sample_run-length key packets sampled s',
        ap (λ (t : KernelState). length t.service_events)
            (sample_service-unwanted env key f updated s unwanted),
      )
    ]

-- However many packets of a flow the entry sees, at most one service sample is put into the ring
-- buffer, and none once the entry's flag is set: then nothing but the entry changes.
pub sample_run-once :
    (key : FlowKey) (packets : List (Env × ParsedFlow)) (value : FlowValue) (s : KernelState)
    → (length (sample_run key packets value s).1.service_events ≤ length s.service_events + 1)
      × (has_bit value.service_flags 0 ≡ true → (sample_run key packets value s).1 ≡ s)
sample_run-once key packets value s =
    (sample_run-length key packets value s, sample_run_flagged key packets value s)

-- What is documented of `bpf_skb_load_bytes`: a load that succeeds fills the whole buffer.
abbrev pub Loads : Env → Type 0
Loads env =
    (offset len : ℕ) (bytes : List ℕ) → env.load_bytes offset len ≡ some bytes → length bytes ≡ len

-- A sample has between one byte and its buffer's size, and says how many.
abbrev pub DomainFits : DomainSample → Type 0
DomainFits sample =
    (1 ≤ sample.payload_len)
    × (sample.payload_len ≤ domain_sample_max)
    × (length sample.payload ≡ sample.payload_len)

abbrev pub ServiceFits : ServiceSample → Type 0
ServiceFits sample =
    (1 ≤ sample.payload_len)
    × (sample.payload_len ≤ service_sample_max)
    × (length sample.payload ≡ sample.payload_len)

pub record Fits (s : KernelState) : Type 0 where
  pub domain : All DomainFits s.domain_events
  pub service : All ServiceFits s.service_events

with_stats-Fits : (g : KernelStats → KernelStats) (s : KernelState) → Fits s → Fits (with_stats g s)
unfolding with_stats
with_stats-Fits g s h = record { domain = h.domain; service = h.service }

module _ (env : Env) (loads : Loads env) where
  emit_service-Fits :
      (key : FlowKey) (f : ParsedFlow) (s : KernelState) → Fits s → Fits (emit_service env key f s)
  unfolding emit_service with_stats
  emit_service-Fits key f s h =
      let len = sample_len (f.payload_end - f.payload_offset) service_sample_max in
      elim (Option-cases (load env f.payload_offset len)) [
        | inl failed ↦ ground arith
        | inr (bytes, loaded) ↦
            ground (arith, loads (f.payload_offset % 4294967296) len bytes loaded)
      ]

  sample_service-Fits :
      (key : FlowKey) (f : ParsedFlow) (value : FlowValue) (s : KernelState)
      → Fits s
      → Fits (sample_service env key f value s).1
  unfolding sample_service
  sample_service-Fits key f value s h = elim (Bool-cases (wants_service f value)) [
    | inl wanted ↦ rw wanted (emit_service-Fits key f s h)
    | inr unwanted ↦ rw unwanted h
  ]

  update_flow-Fits :
      (key : FlowKey) (f : ParsedFlow) (s : KernelState) → Fits s → Fits (update_flow env key f s).0
  unfolding update_flow
  update_flow-Fits key f s h = elim (Option-cases (get FlowKey-discrete key s.flows)) [
    | inr (old, found) ↦
        let value = record_packet old f env.observed_mono_ns env.packet_len in
        ground (arith, sample_service-Fits key f value s h)
    | inl missing ↦
        let value = record_packet default_flow_value f env.observed_mono_ns env.packet_len in
        ground (arith, sample_service-Fits key f value s h)
  ]

  emit_domain_sample-Fits :
      (f : ParsedFlow) (kind : ℕ) (address : List ℕ) (direction : ℕ) (s : KernelState)
      → Fits s
      → Fits (emit_domain_sample env f kind address direction s)
  unfolding emit_domain_sample with_stats
  emit_domain_sample-Fits f kind address direction s h =
      let len = sample_len (f.payload_end - f.payload_offset) domain_sample_max in
      elim (Option-cases (load env f.payload_offset len)) [
        | inl failed ↦ ground arith
        | inr (bytes, loaded) ↦
            ground (arith, loads (f.payload_offset % 4294967296) len bytes loaded)
      ]

  sample_domains-Fits :
      (f : ParsedFlow) (direction : ℕ) (s : KernelState)
      → Fits s
      → Fits (sample_domains env f direction s)
  unfolding sample_domains
  sample_domains-Fits f direction s h = grind (arith, emit_domain_sample-Fits)

  account-Fits :
      (f : ParsedFlow) (direction : ℕ) (s : KernelState) → Fits s → Fits (account env f direction s)
  unfolding account
  account-Fits f direction s h =
      let (s', recorded) = update_flow env (flow_key f direction env.ifindex) f s in
      let kept = update_flow-Fits (flow_key f direction env.ifindex) f s h in
      elim (Bool-cases recorded) [
        | inl done ↦ rw done (sample_domains-Fits f direction s' kept)
        | inr failed ↦ rw failed (with_stats-Fits record_map_update_failure s' kept)
      ]

  apply_verdict-Fits :
      (f : ParsedFlow) (direction : ℕ) (s : KernelState) (verdict : Verdict)
      → Fits s
      → Fits (apply_verdict env f direction s verdict).0
  unfolding apply_verdict
  apply_verdict-Fits f direction s pass h = account-Fits f direction s h
  apply_verdict-Fits f direction s drop h = with_stats-Fits (record_policy_drop env.packet_len) s h

  process_flow-Fits :
      (f : ParsedFlow) (direction : ℕ) (s : KernelState)
      → Fits s
      → Fits (process_flow env f direction s).0
  unfolding process_flow with_stats
  process_flow-Fits f direction s h =
      apply_verdict-Fits f direction _ _ (record { domain = h.domain; service = h.service })

  process_other-Fits :
      (result : ParseResult) (s : KernelState) → Fits s → Fits (process_other result s).0
  unfolding process_other
  process_other-Fits result s h = elim (Bool-cases (is_failure result)) [
    | inl failed ↦ rw failed (with_stats-Fits _ _ (with_stats-Fits _ s h))
    | inr fine ↦ rw fine (with_stats-Fits _ s h)
  ]

  process_result-Fits :
      (direction : ℕ) (s : KernelState) (result : ParseResult)
      → Fits s
      → Fits (process_result env direction s result).0
  unfolding process_result
  process_result-Fits direction s (flow f) h = process_flow-Fits f direction s h
  process_result-Fits direction s skipped h = process_other-Fits skipped s h
  process_result-Fits direction s truncated h = process_other-Fits truncated s h
  process_result-Fits direction s invalid h = process_other-Fits invalid s h

  -- Provided that a successful load fills its buffer, processing any packet keeps every sample in
  -- the ring buffers between one byte and 512 bytes of domain evidence or 64 bytes of a service,
  -- with as many bytes as the sample says.
  pub process-Fits :
      (h : Headers) (cursor : PacketCursor) (direction : ℕ) (s : KernelState)
      → Fits s
      → Fits (process h cursor env direction s).0
  unfolding process
  process-Fits h cursor direction s fits = process_result-Fits direction s (parse h cursor) fits
