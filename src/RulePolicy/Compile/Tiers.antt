-- ===== src/RulePolicy/Compile/Tiers.antt =====
-- The capacity check of zimascoped/src/policy/mod.rs, for each of the eight match maps.
use zima_scope.Base.{ℕ, zero, suc, ◌≤◌, ◌<◌, ◌≡◌, arith, List, length}
use zima_scope.RulePolicy.Compile.{tier_set, check_capacity}
use zima_scope.RulePolicy.Rules.{MatchEntry, max_traffic_rules}
use zima_scope.RulePolicy.Selectors.{ok}

-- No tier of match entries exceeds the capacity of its kernel map.
abbrev pub TiersFit : List MatchEntry → Type 0
TiersFit entries = (tier : ℕ) → tier < 8 → length (tier_set tier entries) ≤ max_traffic_rules

pub check_capacity-TiersFit :
    (entries : List MatchEntry) → check_capacity entries ≡ ok tt → TiersFit entries
unfolding check_capacity
check_capacity-TiersFit entries e zero h = ground arith
check_capacity-TiersFit entries e (suc zero) h = ground arith
check_capacity-TiersFit entries e (suc (suc zero)) h = ground arith
check_capacity-TiersFit entries e (suc (suc (suc zero))) h = ground arith
check_capacity-TiersFit entries e (suc (suc (suc (suc zero)))) h = ground arith
check_capacity-TiersFit entries e (suc (suc (suc (suc (suc zero))))) h = ground arith
check_capacity-TiersFit entries e (suc (suc (suc (suc (suc (suc zero)))))) h = ground arith
check_capacity-TiersFit entries e (suc (suc (suc (suc (suc (suc (suc zero))))))) h = ground arith
check_capacity-TiersFit entries e (suc (suc (suc (suc (suc (suc (suc (suc n)))))))) h =
    absurd (omega arith)
