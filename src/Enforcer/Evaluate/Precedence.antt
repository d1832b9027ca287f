-- ===== src/Enforcer/Evaluate/Precedence.antt =====
-- Which rule wins in zimascope-ebpf/src/policy.rs when several match.
use zima_scope.Abi.{OwnerValue, RuleAction, RuleRef, PolicyConfig, action_code}
use zima_scope.Base.{◌≡◌, ◌≢◌, ◌↔◌, ◌⊎◌, Bool, some, none, arith, if◌then◌else◌, drop as skip}
use zima_scope.Enforcer.Evaluate.{
  PolicyMaps, match_maps, lookup_owner, prefer, pick, app_rule, endpoint_rule, matched_rule,
}
use zima_scope.Packet.Parse.{ParsedFlow}

-- Where the owner of a flow has a container rule and a process rule, one of these two is selected,
-- before any endpoint rule, and the selected rule blocks exactly when one of the two blocks.
pub matched_rule-app :
    (maps : PolicyMaps) (config : PolicyConfig) (flow : ParsedFlow) (outbound : Bool)
    (owner : OwnerValue) (container process : RuleRef)
    → config.app_rules ≢ 0
    → lookup_owner maps flow outbound ≡ some owner
    → (match_maps maps outbound).app_cgroup owner.cgroup_id ≡ some container
    → (match_maps maps outbound).app_comm owner.comm ≡ some process
    → (rule : RuleRef) × (matched_rule maps config flow outbound ≡ some rule)
      × ((rule ≡ container) ⊎ (rule ≡ process))
      × ((rule.action ≡ action_code RuleAction.block) ↔ (
          (container.action ≡ action_code RuleAction.block)
          ⊎ (process.action ≡ action_code RuleAction.block)))
unfolding matched_rule app_rule pick prefer
matched_rule-app maps config flow outbound owner container process on owned c p =
    (prefer container process, ground arith, ground arith, ground arith)

-- Where no application rule matches, an exact endpoint rule for the peer's port is selected; failing
-- that, the rule for every port of the peer; failing that, for IPv4, what the longest prefix match
-- of the peer's last four address bytes returns; the peer is the destination of an outbound packet
-- and the source of an inbound one.
pub matched_rule-endpoint :
    (maps : PolicyMaps) (config : PolicyConfig) (flow : ParsedFlow) (outbound : Bool)
    → config.endpoint_rules ≢ 0
    → (config.app_rules ≡ 0) ⊎ (app_rule maps flow outbound ≡ none)
    → flow.ip_family ≡ 4
    → let addr = if outbound then flow.dst_addr else flow.src_addr in
      let port = if outbound then flow.dst_port_be else flow.src_port_be in
      let rules = match_maps maps outbound in
      ((rule : RuleRef)
        → rules.endpoint_exact (record { addr = addr; port_be = port }) ≡ some rule
        → matched_rule maps config flow outbound ≡ some rule)
      × ((rule : RuleRef)
          → rules.endpoint_exact (record { addr = addr; port_be = port }) ≡ none
          → rules.endpoint_exact (record { addr = addr; port_be = 0 }) ≡ some rule
          → matched_rule maps config flow outbound ≡ some rule)
      × (rules.endpoint_exact (record { addr = addr; port_be = port }) ≡ none
          → rules.endpoint_exact (record { addr = addr; port_be = 0 }) ≡ none
          → matched_rule maps config flow outbound ≡ rules.endpoint_cidr (skip 12 addr))
unfolding matched_rule endpoint_rule
matched_rule-endpoint maps config flow outbound on no_app v4 =
    (λ rule e. ground arith, λ rule e f. ground arith, λ e f. ground arith)
