-- ===== src/Enforcer/Evaluate.antt =====
-- `evaluate` of zimascope-ebpf/src/policy.rs over the kernel maps of zimascope-ebpf/src/maps.rs. A
-- map is its lookup; what the kernel's longest-prefix match returns is part of the maps. The map of
-- rule states, the only one that this path writes, is an association list.
pub mod FailOpen
pub mod Precedence
use zima_scope.Abi.{
  IpFamily, Direction, TransportProtocol, OwnerKind, RuleAction, OwnerKey, OwnerValue, RuleRef,
  BucketKey, RuleState, EndpointMatchKey, PolicyConfig, KernelStats, family_code, direction_code,
  transport_code, owner_kind_code, action_code, BucketKey-discrete,
}
use zima_scope.Base.Assoc.{get, insert}
use zima_scope.Base.{
  ℕ, ◌+◌, Bool, true, false, Option, some, none, List, [], ◌∷◌, ◌==◌, if◌then◌else◌, drop as skip,
  replicate, ◌>>=◌, saturating_add,
}
use zima_scope.Enforcer.Bucket.{Verdict, pass, drop, enforce_locked}
use zima_scope.Packet.Parse.{ParsedFlow}

-- The pair of maps of one kind, chosen by the direction.
pub record MatchMaps : Type 0 where
  pub app_cgroup : ℕ → Option RuleRef
  pub app_comm : List ℕ → Option RuleRef
  pub endpoint_exact : EndpointMatchKey → Option RuleRef
  pub endpoint_cidr : List ℕ → Option RuleRef

pub record PolicyMaps : Type 0 where
  pub config : Option PolicyConfig
  pub ingress : MatchMaps
  pub egress : MatchMaps
  pub owners : OwnerKey → Option OwnerValue
  pub listeners : OwnerKey → Option OwnerValue
  pub rule_states : List (BucketKey × RuleState)
  pub stats : KernelStats

abbrev pub match_maps : PolicyMaps → Bool → MatchMaps
match_maps maps outbound = if outbound then maps.egress else maps.ingress

unfoldable pub socket_key : ParsedFlow → Bool → OwnerKey
socket_key flow outbound =
    let is_udp = flow.protocol == transport_code TransportProtocol.udp in
    let local_port_be = if outbound then flow.src_port_be else flow.dst_port_be in
    record {
      remote_addr = if outbound then flow.dst_addr else flow.src_addr;
      remote_port_be = if outbound then flow.dst_port_be else flow.src_port_be;
      local_port_be = if is_udp then 0 else local_port_be;
      protocol = flow.protocol;
      kind = owner_kind_code OwnerKind.socket;
      ip_family = flow.ip_family;
    }

unfoldable pub listener_key : ParsedFlow → Bool → OwnerKey
listener_key flow outbound = record {
  remote_addr = replicate 16 0;
  remote_port_be = 0;
  local_port_be = if outbound then flow.src_port_be else flow.dst_port_be;
  protocol = flow.protocol;
  kind = owner_kind_code OwnerKind.listener;
  ip_family = flow.ip_family;
}

unfoldable pub lookup_owner : PolicyMaps → ParsedFlow → Bool → Option OwnerValue
lookup_owner maps flow outbound = elim (maps.owners (socket_key flow outbound)) [
  | some owner ↦ some owner
  | none ↦
      if flow.protocol == transport_code TransportProtocol.udp
      then none
      else maps.listeners (listener_key flow outbound)
]

unfoldable pub prefer : RuleRef → RuleRef → RuleRef
prefer container process =
    if container.action == action_code RuleAction.block
    then container
    else if process.action == action_code RuleAction.block
    then process
    else container

-- The `match (cgroup, comm)`.
unfoldable pub pick : Option RuleRef → Option RuleRef → Option RuleRef
pick (some container) (some process) = some (prefer container process)
pick (some container) none = some container
pick none (some process) = some process
pick none none = none

unfoldable pub app_rule : PolicyMaps → ParsedFlow → Bool → Option RuleRef
app_rule maps flow outbound = do
  owner ← lookup_owner maps flow outbound
  let rules = match_maps maps outbound
  pick (rules.app_cgroup owner.cgroup_id) (rules.app_comm owner.comm)

unfoldable pub endpoint_rule : PolicyMaps → ParsedFlow → Bool → Option RuleRef
endpoint_rule maps flow outbound =
    let addr = if outbound then flow.dst_addr else flow.src_addr in
    let port_be = if outbound then flow.dst_port_be else flow.src_port_be in
    let rules = match_maps maps outbound in
    elim (rules.endpoint_exact (record { addr = addr; port_be = port_be })) [
      | some rule ↦ some rule
      | none ↦ elim (rules.endpoint_exact (record { addr = addr; port_be = 0 })) [
        | some rule ↦ some rule
        | none ↦
            if flow.ip_family == family_code IpFamily.v4
            then rules.endpoint_cidr (skip 12 addr)
            else none
      ]
    ]

unfoldable pub record_missing_state : KernelStats → KernelStats
record_missing_state stats = record stats {
  policy_missing_state = saturating_add stats.policy_missing_state 1;
}

unfoldable pub enforce : PolicyMaps → RuleRef → ℕ → ℕ → ℕ → PolicyMaps × Verdict
enforce maps rule direction now packet_len =
    let key : BucketKey = record { rule_id = rule.rule_id; direction = direction } in
    elim (get BucketKey-discrete key maps.rule_states) [
      | none ↦ (record maps { stats = record_missing_state maps.stats }, pass)
      | some state ↦
          let (after, verdict) = enforce_locked rule.action state now packet_len in
          (
            record maps { rule_states = insert BucketKey-discrete key after maps.rule_states },
            verdict,
          )
    ]

-- The tiers under an enabled configuration.
unfoldable pub matched_rule : PolicyMaps → PolicyConfig → ParsedFlow → Bool → Option RuleRef
matched_rule maps config flow outbound =
    let endpoint = if config.endpoint_rules == 0 then none else endpoint_rule maps flow outbound in
    if config.app_rules == 0
    then endpoint
    else elim (app_rule maps flow outbound) [ some rule ↦ some rule | none ↦ endpoint ]

unfoldable pub evaluate : PolicyMaps → ParsedFlow → ℕ → ℕ → ℕ → PolicyMaps × Verdict
evaluate maps flow direction now packet_len = elim maps.config [
  | none ↦ (maps, pass)
  | some config ↦
      if config.enabled == 0
      then (maps, pass)
      else elim (matched_rule maps config flow (direction == direction_code Direction.outbound)) [
        | none ↦ (maps, pass)
        | some rule ↦ enforce maps rule direction now packet_len
      ]
]
