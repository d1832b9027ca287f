-- ===== src/RulePolicy/Compile.antt =====
-- Validation and compilation of Traffic Rules in zimascoped/src/policy/mod.rs. The resolver and the
-- white-space test of the standard library are parameters.
pub mod Tiers
pub mod Sound
use zima_scope.Abi.{Direction, inbound, outbound, direction_code}
use zima_scope.Base.{
  ℕ, Bool, true, false, ◌&&◌, some, none, List, [], ◌∷◌, ◌++◌, map, ltb, leb, ◌==◌, if◌then◌else◌,
  length, swap16,
}
use mathlib.Core.Logic.{ite}
use zima_scope.Model.{ipv4_storage}
use zima_scope.RulePolicy.Rules.{
  RuleDirection, directions, action, rates, validate_action, TrafficRule, UnresolvedRule,
  MatchEntry, MatchEntry-discrete, CompiledState, CompiledRule, CompiledProgram, app_cgroup,
  app_comm, endpoint_exact, endpoint_cidr, max_traffic_rules,
}
use zima_scope.RulePolicy.Selectors.{
  Result, ok, err, ◌>>=◌, ◌>>◌, KernelPlan, kernel_plan, direct, resolved, unsupported, validate,
  Selector, Resolution, MatchTarget, Coverage, complete, unresolved, Resolver, too_many_rules,
  tier_overflow, resolver_reason,
}

abbrev pub plan_reason : KernelPlan → Result (Unit {0})
plan_reason direct = ok tt
plan_reason (resolved refresh expires) = ok tt
plan_reason (unsupported reason) = err reason

unfoldable pub validate_rule : (List ℕ → Bool) → TrafficRule → Result (Unit {0})
validate_rule is_blank rule = do
  validate is_blank rule.selector
  plan_reason (kernel_plan rule.selector)
  validate_action rule.action

abbrev pub entry_of : Direction → MatchTarget → MatchEntry
entry_of direction (MatchTarget.endpoint address port) =
    endpoint_exact direction
      (record { addr = ipv4_storage address; port_be = elim port [ none ↦ 0 | some p ↦ swap16 p ] })
entry_of direction (MatchTarget.cidr address prefix_len) =
    endpoint_cidr direction prefix_len address
entry_of direction (MatchTarget.app_cgroup cgroup_id) = app_cgroup direction cgroup_id
entry_of direction (MatchTarget.app_comm comm) = app_comm direction comm

abbrev pub entries_for : List Direction → List MatchTarget → List MatchEntry
entries_for [] targets = []
entries_for (d ∷ ds) targets = map (entry_of d) targets ++ entries_for ds targets

unfoldable pub matches_from_targets : List MatchTarget → RuleDirection → List MatchEntry
matches_from_targets targets direction = entries_for (directions direction) targets

unfoldable pub states_of : TrafficRule → List CompiledState
states_of rule =
    let (rate, burst) = rates rule.action in
    map
      (λ d. record {
        key = record { rule_id = rule.id; direction = direction_code d };
        rate_bytes_per_s = rate;
        burst_bytes = burst;
      })
      (directions rule.direction)

abbrev pub covered : Coverage → Result (Unit {0})
covered complete = ok tt
covered (unresolved reason) = err (resolver_reason reason)

unfoldable pub compile_rule :
    (List ℕ → Bool) → (Selector → Result Resolution) → TrafficRule → Result CompiledRule
compile_rule is_blank resolve rule = do
  validate_rule is_blank rule
  resolution ← resolve rule.selector
  covered resolution.coverage
  ok (record {
    id = rule.id;
    action = action rule.action;
    matches = matches_from_targets resolution.targets rule.direction;
    states = states_of rule;
  })

abbrev pub sorted_out :
    TrafficRule
    → Result CompiledRule
    → List CompiledRule × List UnresolvedRule
    → List CompiledRule × List UnresolvedRule
sorted_out rule (ok r) (compiled, failed) = (r ∷ compiled, failed)
sorted_out rule (err reason) (compiled, failed) =
    (compiled, record { rule_id = rule.id; reason = reason } ∷ failed)

abbrev pub is_valid : Result (Unit {0}) → Bool
is_valid (ok u) = true
is_valid (err reason) = false

-- The selectors that were resolved after a rule: an enabled rule that is valid has its own resolved.
abbrev pub asked_after : (List ℕ → Bool) → List Selector → TrafficRule → List Selector
asked_after is_blank asked rule =
    if rule.enabled && is_valid (validate_rule is_blank rule) then rule.selector ∷ asked else asked

-- The loop over the enabled rules, with the selectors that were resolved before.
unfoldable pub compile_rules :
    (List ℕ → Bool)
    → Resolver
    → List Selector
    → List TrafficRule
    → List CompiledRule × List UnresolvedRule
compile_rules is_blank resolve asked [] = ([], [])
compile_rules is_blank resolve asked (rule ∷ rules) =
    let rest = compile_rules is_blank resolve (asked_after is_blank asked rule) rules in
    if rule.enabled then sorted_out rule (compile_rule is_blank (resolve asked) rule) rest else rest

abbrev pub is_inbound : Direction → Bool
is_inbound inbound = true
is_inbound outbound = false

unfoldable pub tier_index : MatchEntry → ℕ
tier_index (app_cgroup d cgroup_id) = if is_inbound d then 0 else 1
tier_index (app_comm d comm) = if is_inbound d then 2 else 3
tier_index (endpoint_exact d key) = if is_inbound d then 4 else 5
tier_index (endpoint_cidr d prefix_len addr) = if is_inbound d then 6 else 7

-- A hash set of entries, as a list without repetition.
unfoldable pub add_entry : MatchEntry → List MatchEntry → List MatchEntry
add_entry e [] = e ∷ []
add_entry e (x ∷ xs) = ite (MatchEntry-discrete x e) (x ∷ xs) (x ∷ add_entry e xs)

-- The set of one tier.
unfoldable pub tier_set : ℕ → List MatchEntry → List MatchEntry
tier_set tier [] = []
tier_set tier (e ∷ es) =
    let rest = tier_set tier es in if tier_index e == tier then add_entry e rest else rest

abbrev pub tier_fits : List MatchEntry → ℕ → Bool
tier_fits entries tier = leb (length (tier_set tier entries)) max_traffic_rules

-- `check_capacity_tiers` over all eight tiers.
unfoldable pub check_capacity : List MatchEntry → Result (Unit {0})
check_capacity entries =
    if tier_fits entries 0
      && tier_fits entries 1
      && tier_fits entries 2
      && tier_fits entries 3
      && tier_fits entries 4
      && tier_fits entries 5
      && tier_fits entries 6
      && tier_fits entries 7
    then ok tt
    else err tier_overflow

abbrev pub all_matches : List CompiledRule → List MatchEntry
all_matches [] = []
all_matches (r ∷ rs) = r.matches ++ all_matches rs

unfoldable pub check_target_capacity : List MatchTarget → RuleDirection → Result (Unit {0})
check_target_capacity targets direction = check_capacity (matches_from_targets targets direction)

unfoldable pub compile :
    (List ℕ → Bool) → Resolver → List TrafficRule → ℕ → Bool → Result CompiledProgram
compile is_blank resolve rules revision enabled =
    let (compiled, failed) = compile_rules is_blank resolve [] rules in
    if ltb max_traffic_rules (length compiled)
    then err too_many_rules
    else check_capacity (all_matches compiled)
      >> ok (record {
        policy = record { revision = revision; enabled = enabled; rules = compiled };
        unresolved = failed;
      })
