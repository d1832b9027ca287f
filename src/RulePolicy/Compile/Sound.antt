-- ===== src/RulePolicy/Compile/Sound.antt =====
-- What a compiled program of zimascoped/src/policy/mod.rs guarantees to the diff and to the kernel.
use zima_scope.Base.{ℕ, ◌≤◌, ◌≡◌, ◌≢◌, ◌⊎◌, List, [], ◌∷◌, length, All}
use zima_scope.RulePolicy.Apply.States.{SeparateStates, DistinctKeys}
use zima_scope.RulePolicy.Compile.Tiers.{TiersFit}
use zima_scope.RulePolicy.Compile.{states_of, covered, all_matches, matches_from_targets}
use zima_scope.RulePolicy.Rules.{
  action, validate_action, TrafficRule, CompiledState, CompiledRule, CompiledProgram,
  max_traffic_rules, min_rate_bytes_per_s, max_rate_bytes_per_s,
}
use zima_scope.RulePolicy.Selectors.{Result, ok, ◌>>◌, Resolution}

-- A rate that validation admits, or the zero of a block rule.
abbrev pub InRange : CompiledState → Type 0
InRange s =
    ((s.rate_bytes_per_s ≡ 0) × (s.burst_bytes ≡ 0))
    ⊎ ((min_rate_bytes_per_s ≤ s.rate_bytes_per_s)
        × (s.rate_bytes_per_s ≤ max_rate_bytes_per_s)
        × (1 ≤ s.burst_bytes))

-- The rules of the user have different identifiers.
abbrev pub DistinctIds : List TrafficRule → Type 0
DistinctIds [] = Unit {0}
DistinctIds (r ∷ rs) = All (λ q. q.id ≢ r.id) rs × DistinctIds rs

record From (rule : TrafficRule) (r : CompiledRule) : Type 0 where
  same_id : r.id ≡ rule.id
  same_states : r.states ≡ states_of rule
  valid : validate_action rule.action ≡ ok tt

-- The rule that a resolution makes.
abbrev built : TrafficRule → Resolution → CompiledRule
built rule resolution = record {
  id = rule.id;
  action = action rule.action;
  matches = matches_from_targets resolution.targets rule.direction;
  states = states_of rule;
}

abbrev build : TrafficRule → Resolution → Result CompiledRule
build rule resolution = covered resolution.coverage >> ok (built rule resolution)

-- What the states of a rule of the given action and identifier promise.
abbrev Promised : ℕ → List CompiledState → Type 0
Promised id states = All (λ s. s.key.rule_id ≡ id) states × DistinctKeys states × All InRange states

-- What a successful compilation promises of the program.
pub record Sound (program : CompiledProgram) : Type 0 where
  pub rules_fit : length program.policy.rules ≤ max_traffic_rules
  pub tiers_fit : TiersFit (all_matches program.policy.rules)
  pub separate : SeparateStates program.policy.rules
  pub in_range : All (λ r. All InRange r.states) program.policy.rules
