-- ===== src/Tests/Rules.antt =====
-- One rule's bucket, and the rules that a policy selects.
use native.Mathlib.Decide.{ℕ_discrete}
use zima_scope.Abi.{RuleAction, RuleRef, action_code, BucketKey-discrete, EndpointMatchKey-discrete}
use zima_scope.Base.Assoc.{get, insert}
use zima_scope.Base.{
  ℕ, ◌+◌, ◌-◌, ◌*◌, ◌≤◌, ◌≡◌, ◌↔◌, ◌⊎◌, refl, arith, true, some, List, [], ◌∷◌, length,
}
use zima_scope.Enforcer.Bucket.{
  drop, ns_per_second, earned, refill, drop_packet, count_match, decide, enforce_locked,
  run_packets,
}
use zima_scope.Enforcer.Bucket.Counters.{total_len, run_packets-counts}
use zima_scope.Enforcer.Bucket.Limit.{drop_of_burst_lt}
use zima_scope.Enforcer.Bucket.Window.{run_packets-window}
use zima_scope.Enforcer.Evaluate.{
  socket_key, lookup_owner, prefer, pick, app_rule, endpoint_rule, enforce, matched_rule, evaluate,
}
use zima_scope.Enforcer.Evaluate.FailOpen.{Enforced, evaluate-drop}
use zima_scope.Enforcer.Evaluate.Precedence.{matched_rule-app}
use zima_scope.Tests.Data.{http_flow, owner, limit_rule, block_rule, bucket, policy, config}

policy_program : Unit {0}
unfolding ℕ_discrete BucketKey-discrete EndpointMatchKey-discrete get insert earned refill
    drop_packet count_match decide enforce_locked run_packets socket_key lookup_owner prefer pick
    app_rule endpoint_rule enforce matched_rule evaluate
policy_program = tt

-- 400 bytes pass, 400 are dropped, and half a second later 400 pass again.
abbrev packets : List (ℕ × ℕ)
packets = (0, 400) ∷ (0, 400) ∷ (500000000, 400) ∷ []

run_three : (run_packets 1 bucket packets).1 ≡ 800
unfolding policy_program
run_three = refl

-- The first packet passes; the two later ones are a window of their own.
run_packets-window_example :
    let start = (run_packets 1 bucket ((0, 400) ∷ [])).0 in
    ns_per_second * (run_packets 1 start ((0, 400) ∷ (500000000, 400) ∷ [])).1
    ≤ ns_per_second * 1000 + (500000000 - start.last_refill_mono_ns) * 1000
run_packets-window_example =
    run_packets-window 1 bucket ((0, 400) ∷ []) ((0, 400) ∷ (500000000, 400) ∷ []) 500000000
      (omega arith) (omega arith) (omega arith, tt) (omega arith, (omega arith, tt))

run_packets-counts_example :
    let (last, bytes) = run_packets 1 bucket packets in
    (last.matched_packets ≡ bucket.matched_packets + length packets)
    × (last.matched_bytes ≡ bucket.matched_bytes + total_len packets)
    × (last.dropped_bytes + bytes ≡ bucket.dropped_bytes + total_len packets)
    × (last.dropped_packets ≤ last.matched_packets)
run_packets-counts_example =
    run_packets-counts 1 bucket packets (omega arith) (omega arith) (omega arith) (omega arith)

drop_of_burst_lt_example :
    (enforce_locked (action_code RuleAction.limit) bucket 5000000000 1001).1 ≡ drop
drop_of_burst_lt_example = drop_of_burst_lt bucket 5000000000 1001 (omega arith) (omega arith)

owned : lookup_owner policy http_flow true ≡ some owner
unfolding policy_program
owned = refl

matched_rule-app_example :
    (rule : RuleRef) × (matched_rule policy config http_flow true ≡ some rule)
    × ((rule ≡ limit_rule) ⊎ (rule ≡ block_rule))
    × ((rule.action ≡ action_code RuleAction.block) ↔ (
        (limit_rule.action ≡ action_code RuleAction.block)
        ⊎ (block_rule.action ≡ action_code RuleAction.block)))
matched_rule-app_example =
    matched_rule-app policy config http_flow true owner limit_rule block_rule (λ e. omega arith)
      owned refl refl

blocked : (evaluate policy http_flow 2 100 400).1 ≡ drop
unfolding policy_program
blocked = refl

evaluate-drop_example : Enforced policy http_flow 2 100 400
evaluate-drop_example = evaluate-drop policy http_flow 2 100 400 blocked
