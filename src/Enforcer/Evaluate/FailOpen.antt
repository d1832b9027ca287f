-- ===== src/Enforcer/Evaluate/FailOpen.antt =====
-- The packet path of zimascope-ebpf/src/policy.rs fails open: it drops a packet only on a rule.
use zima_scope.Abi.{
  Direction, RuleAction, RuleRef, RuleState, PolicyConfig, direction_code, action_code,
  BucketKey-discrete,
}
use zima_scope.Base.Assoc.{get}
use zima_scope.Base.{ℕ, ◌<◌, ◌≡◌, ◌≢◌, ◌⊎◌, inl, inr, some, ◌==◌, arith, Option-cases}
use zima_scope.Enforcer.Bucket.{drop, refill, count_match, decide, enforce_locked}
use zima_scope.Enforcer.Evaluate.{PolicyMaps, enforce, matched_rule, evaluate}
use zima_scope.Packet.Parse.{ParsedFlow}

-- A rule that the tiers select, whose bucket is installed, and that blocks or has too few tokens.
pub record Enforced (maps : PolicyMaps) (flow : ParsedFlow) (direction now len : ℕ) : Type 0 where
  pub config : PolicyConfig
  pub rule : RuleRef
  pub state : RuleState
  pub configured : maps.config ≡ some config
  pub enabled : config.enabled ≢ 0
  pub selected :
      matched_rule maps config flow (direction == direction_code Direction.outbound) ≡ some rule
  pub installed :
      get BucketKey-discrete
        (record { rule_id = rule.rule_id; direction = direction })
        maps.rule_states
      ≡ some state
  pub refused : (rule.action ≡ action_code RuleAction.block) ⊎ ((refill state now).tokens < len)

enforce_locked-drop :
    (action : ℕ) (state : RuleState) (now packet_len : ℕ)
    → (enforce_locked action state now packet_len).1 ≡ drop
    → (action ≡ action_code RuleAction.block) ⊎ ((refill state now).tokens < packet_len)
unfolding enforce_locked decide count_match
enforce_locked-drop action state now packet_len e = ground arith

module _ (maps : PolicyMaps) (flow : ParsedFlow) (direction now packet_len : ℕ) where
  enforce-drop :
      (rule : RuleRef)
      → (enforce maps rule direction now packet_len).1 ≡ drop
      → (state : RuleState) × (get BucketKey-discrete
            (record { rule_id = rule.rule_id; direction = direction })
            maps.rule_states
          ≡ some state)
        × ((rule.action ≡ action_code RuleAction.block) ⊎ ((refill state now).tokens < packet_len))
  unfolding enforce
  enforce-drop rule e =
      elim (Option-cases (
        get BucketKey-discrete (record { rule_id = rule.rule_id; direction = direction })
          maps.rule_states)) [
            | inl missing ↦ absurd (ground arith)
            | inr (state, found) ↦
                (state, found, enforce_locked-drop rule.action state now packet_len (ground arith))
          ]

  -- A packet is dropped only if an enabled configuration is installed, the tiers select a rule for
  -- the flow and direction, the bucket of that rule and direction is installed, and the rule is a
  -- block rule or its refilled bucket holds fewer tokens than the packet is long.
  pub evaluate-drop :
      (evaluate maps flow direction now packet_len).1 ≡ drop
      → Enforced maps flow direction now packet_len
  unfolding evaluate
  evaluate-drop e = elim (Option-cases maps.config) [
    | inl missing ↦ absurd (ground arith)
    | inr (config, configured) ↦
        elim (Option-cases
          (matched_rule maps config flow (direction == direction_code Direction.outbound))) [
            | inl missing ↦ absurd (ground arith)
            | inr (rule, selected) ↦
                let (state, installed, refused) = enforce-drop rule (ground arith) in
                record {
                  config = config;
                  rule = rule;
                  state = state;
                  configured = configured;
                  enabled = ground arith;
                  selected = selected;
                  installed = installed;
                  refused = refused;
                }
          ]
  ]
