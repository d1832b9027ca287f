-- ===== src/TrafficPath/Accounting.antt =====
-- What `process` of zimascope-ebpf/src/tc.rs writes into the flow map.
use zima_scope.Abi.{FlowKey, FlowValue, FlowKey-discrete}
use zima_scope.Base.Assoc.{get, get-insert_self}
use zima_scope.Base.{
  ◌≡◌, ◌≢◌, inl, inr, true, some, none, List, arith, saturating_add, Option-cases,
}
use zima_scope.Packet.Parse.{ParsedFlow}
use zima_scope.TrafficPath.State.{KernelState, Env, with_stats}
use zima_scope.TrafficPath.{record_packet, default_flow_value, update_flow}
use zima_scope.TrafficPath.Sampling.{emit_service, sample_service}

-- The entry of a flow, or the zeroed one that a new flow starts from.
abbrev pub entry : FlowKey → KernelState → FlowValue
entry key s = elim (get FlowKey-discrete key s.flows) [
  | none ↦ default_flow_value
  | some value ↦ value
]

-- What is documented of an insertion into the bounded map: where it succeeds, the key is present
-- with the value. (Other entries may be evicted.)
abbrev pub Inserts : Env → Type 0
Inserts env =
    (key : FlowKey) (value : FlowValue) (flows flows' : List (FlowKey × FlowValue))
    → env.flow_insert key value flows ≡ some flows'
    → get FlowKey-discrete key flows' ≡ some value

emit_service-flows :
    (env : Env) (key : FlowKey) (f : ParsedFlow) (s : KernelState)
    → (emit_service env key f s).flows ≡ s.flows
unfolding emit_service with_stats
emit_service-flows env key f s = ground arith

sample_service-counters :
    (env : Env) (key : FlowKey) (f : ParsedFlow) (value : FlowValue) (s : KernelState)
    → let (sampled, s') = sample_service env key f value s in
      (sampled.packets ≡ value.packets)
      × (sampled.bytes ≡ value.bytes)
      × (sampled.first_seen_mono_ns ≡ value.first_seen_mono_ns)
      × (sampled.last_seen_mono_ns ≡ value.last_seen_mono_ns)
      × (s'.flows ≡ s.flows)
unfolding sample_service
sample_service-counters env key f value s = ground (arith, emit_service-flows env key f s)

-- The entry that `update_flow` stores.
stored : Env → FlowKey → ParsedFlow → KernelState → FlowValue
stored env key f s =
    (sample_service env key f (record_packet (entry key s) f env.observed_mono_ns env.packet_len)
      s).0

update_flow-stored :
    (env : Env) (key : FlowKey) (f : ParsedFlow) (s : KernelState)
    → Inserts env
    → (update_flow env key f s).1 ≡ true
    → get FlowKey-discrete key (update_flow env key f s).0.flows ≡ some (stored env key f s)
unfolding update_flow stored
update_flow-stored env key f s inserts e = elim (Option-cases (get FlowKey-discrete key s.flows)) [
  | inr (old, found) ↦
      let value = record_packet old f env.observed_mono_ns env.packet_len in
      ground (
        arith,
        get-insert_self FlowKey-discrete key (sample_service env key f value s).0
            (sample_service env key f value s).1.flows,
      )
  | inl missing ↦
      let value = record_packet default_flow_value f env.observed_mono_ns env.packet_len in
      let (sampled, s') = sample_service env key f value s in
      elim (Option-cases (env.flow_insert key sampled s'.flows)) [
        | inl full ↦ absurd (ground arith)
        | inr (flows, ok) ↦ ground (arith, inserts key sampled s'.flows flows ok)
      ]
]

-- Where the flow map takes the entry, a packet raises the packet count of its flow by one and the
-- byte count by its length, both saturating at 2^64 - 1, from zero for a new flow; the last-seen
-- time becomes that of the packet, and so does the first-seen time if no packet was counted before,
-- which it otherwise leaves alone.
pub update_flow-counts :
    (env : Env) (key : FlowKey) (f : ParsedFlow) (s : KernelState)
    → Inserts env
    → (update_flow env key f s).1 ≡ true
    → (after : FlowValue) × (get FlowKey-discrete key (update_flow env key f s).0.flows
        ≡ some after)
      × (after.packets ≡ saturating_add (entry key s).packets 1)
      × (after.bytes ≡ saturating_add (entry key s).bytes env.packet_len)
      × (after.last_seen_mono_ns ≡ env.observed_mono_ns)
      × ((entry key s).packets ≡ 0 → after.first_seen_mono_ns ≡ env.observed_mono_ns)
      × ((entry key s).packets ≢ 0 → after.first_seen_mono_ns ≡ (entry key s).first_seen_mono_ns)
unfolding stored record_packet
update_flow-counts env key f s inserts e =
    let value = record_packet (entry key s) f env.observed_mono_ns env.packet_len in
    let (c1, c2, c3, c4, c5) = sample_service-counters env key f value s in
    (
      stored env key f s,
      update_flow-stored env key f s inserts e,
      ground arith,
      ground arith,
      ground arith,
      λ h. ground arith,
      λ h. ground arith,
    )
