-- ===== src/Tests/Policies.antt =====
-- Two policies: a container rule is replaced by a process rule, and an endpoint rule changes its
-- action.

use mathlib.Core.Path.{subst}
use native.Mathlib.Decide.{ℕ_discrete}
use zima_scope.Abi.{Direction, RuleAction, BucketKey-discrete}
use zima_scope.Base.Assoc.{get, insert, remove}
use zima_scope.Base.{ℕ, ◌≡◌, refl, sym, ap, All, true, none, some, List, [], ◌∷◌}
use zima_scope.RulePolicy.Apply.{
  KernelMaps, fits, fits_op, apply_ops, apply_op, insert_state, insert_match, delete_match,
  has_room, has_state_room, trie_key, updated_state, config_value,
}
use zima_scope.RulePolicy.Compile.{tier_index}
use zima_scope.Collector.Worker.{Round, tick, command, leave, apply, set_boundary, run_worker}
use zima_scope.Collector.Worker.Commands.{
  is_ok, maps_or, maps_after, IsApplied, run_worker-Installed,
}
use zima_scope.Tests.Collecting.{same_text, nothing, core, answers}
use zima_scope.RulePolicy.Apply.Refines.{Installed, diff-refines}
use zima_scope.RulePolicy.Apply.Sequence.{all_fit, apply_policies, apply_policies-Installed}
use zima_scope.RulePolicy.Apply.Removals.{Separate}
use zima_scope.RulePolicy.Apply.States.{SeparateStates}
use zima_scope.RulePolicy.Diff.{
  contains, diff, removals, additions, rule_ops, same_state, same_match,
}
use zima_scope.RulePolicy.Rules.{
  MatchEntry, app_cgroup, app_comm, endpoint_exact, endpoint_cidr, MatchEntry-discrete,
  CompiledRule, CompiledPolicy, config_op, has_app_rules, has_endpoint_rules,
}
use zima_scope.Tests.Data.{peer_addr, comm}

abbrev home : MatchEntry → ℕ
home (app_cgroup d cgroup_id) = 1
home (app_comm d name) = 2
home (endpoint_exact d key) = 3
home (endpoint_cidr d prefix_len addr) = 4

abbrev rule_of : ℕ → RuleAction → List MatchEntry → CompiledRule
rule_of id action entries = record {
  id = id;
  action = action;
  matches = entries;
  states =
      record {
        key = record { rule_id = id; direction = 2 };
        rate_bytes_per_s = 5000;
        burst_bytes = 5000;
      }
      ∷ [];
}

abbrev container : CompiledRule
container = rule_of 1 RuleAction.limit (app_cgroup Direction.outbound 5 ∷ [])

abbrev process : CompiledRule
process = rule_of 2 RuleAction.block (app_comm Direction.outbound comm ∷ [])

abbrev endpoint : RuleAction → CompiledRule
endpoint action =
    rule_of 3 action
      (endpoint_exact Direction.outbound (record { addr = peer_addr; port_be = 0 }) ∷ [])

abbrev before : CompiledPolicy
before = record { revision = 1; enabled = true; rules = container ∷ endpoint RuleAction.limit ∷ [] }

abbrev after : CompiledPolicy
after = record { revision = 2; enabled = true; rules = process ∷ endpoint RuleAction.block ∷ [] }

abbrev empty : KernelMaps
empty = record { config = none; states = []; matches = [] }

empty-Installed : Installed home nothing empty
unfolding get
empty-Installed = record {
  entries = λ e. refl;
  states = λ key h. absurd (cc);
  rates = λ key r s found wanted. absurd (cc);
}

before-Separate : Separate home before.rules
unfolding contains
before-Separate = (refl, (refl, tt), (refl, tt), (refl, (refl, tt), (refl, tt), tt))

after-Separate : Separate home after.rules
unfolding contains
after-Separate = (refl, (refl, tt), (refl, tt), (refl, (refl, tt), (refl, tt), tt))

before-SeparateStates : SeparateStates before.rules
before-SeparateStates = (refl, (refl, tt), (refl, tt), (refl, (refl, tt), (refl, tt), tt))

after-SeparateStates : SeparateStates after.rules
after-SeparateStates = (refl, (refl, tt), (refl, tt), (refl, (refl, tt), (refl, tt), tt))

-- The maps that carry the first policy.
abbrev carrying : KernelMaps
carrying = maps_or (apply_ops empty (diff nothing before)) empty

before-fits : fits empty (diff nothing before) ≡ true
unfolding fits fits_op apply_ops apply_op insert_state insert_match delete_match has_room
    has_state_room trie_key updated_state config_value diff removals additions rule_ops same_state
    same_match contains config_op has_app_rules has_endpoint_rules get insert remove tier_index
    MatchEntry-discrete BucketKey-discrete ℕ_discrete
before-fits = refl

running :
    (k : KernelMaps) × (apply_ops empty (diff nothing before) ≡ some k) × Installed home before k
running =
    diff-refines home nothing before empty tt before-Separate tt before-SeparateStates
      empty-Installed before-fits

carrying-Installed : Installed home before carrying
carrying-Installed =
    let (k, done, installed) = running in
    subst (Installed home before) (ap (λ o. maps_or o empty) (sym done)) installed

after-fits : fits carrying (diff before after) ≡ true
unfolding fits fits_op apply_ops apply_op insert_state insert_match delete_match has_room
    has_state_room trie_key updated_state config_value diff removals additions rule_ops same_state
    same_match contains config_op has_app_rules has_endpoint_rules get insert remove tier_index
    MatchEntry-discrete BucketKey-discrete ℕ_discrete
after-fits = refl

diff-refines_example :
    (k : KernelMaps) × (apply_ops carrying (diff before after) ≡ some k) × Installed home after k
diff-refines_example =
    diff-refines home before after carrying before-Separate after-Separate before-SeparateStates
      after-SeparateStates carrying-Installed after-fits

sequence_fits : all_fit empty nothing (before ∷ after ∷ nothing ∷ []) ≡ true
unfolding fits fits_op apply_ops apply_op insert_state insert_match delete_match has_room
    has_state_room trie_key updated_state config_value diff removals additions rule_ops same_state
    same_match contains config_op has_app_rules has_endpoint_rules get insert remove tier_index
    MatchEntry-discrete BucketKey-discrete ℕ_discrete
sequence_fits = refl

apply_policies-Installed_example :
    (k : KernelMaps) × (apply_policies empty nothing (before ∷ after ∷ nothing ∷ []) ≡ some k)
    × Installed home nothing k
apply_policies-Installed_example =
    apply_policies-Installed home empty nothing (before ∷ after ∷ nothing ∷ []) empty-Installed
      (tt, tt)
      (
        (before-Separate, before-SeparateStates),
        ((after-Separate, after-SeparateStates), ((tt, tt), tt)),
      )
      sequence_fits

-- The first policy is applied, and then removed again.
abbrev rounds : List Round
rounds =
    command (apply before (λ ops. true)) answers true
    ∷ tick answers true
    ∷ command (set_boundary [] 170 true) answers true
    ∷ leave
    ∷ []

run_worker-Installed_example :
    let (last, outputs) = run_worker same_text core rounds in
    Installed home last.applied_policy (maps_after empty nothing rounds) × All IsApplied outputs
run_worker-Installed_example =
    run_worker-Installed same_text home empty core rounds empty-Installed (tt, tt)
      (((before-Separate, before-SeparateStates), before-fits, sym (ap is_ok running.1)), (tt, tt))

-- Two networks whose addresses differ behind the prefix are one key.
one_key :
    trie_key (endpoint_cidr Direction.inbound 12 (10 ∷ 17 ∷ 3 ∷ []))
    ≡ trie_key (endpoint_cidr Direction.inbound 12 (10 ∷ 30 ∷ 9 ∷ []))
unfolding trie_key
one_key = refl
