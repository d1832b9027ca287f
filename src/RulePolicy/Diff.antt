-- ===== src/RulePolicy/Diff.antt =====
-- `diff` of zimascoped/src/policy/mod.rs: the ordered operations between two compiled policies.
use zima_scope.Abi.{RuleRef, BucketKey, BucketKey-discrete, action_code}
use zima_scope.Base.{
  Bool, true, false, not, ◌&&◌, ◌||◌, Option, some, none, List, [], ◌∷◌, ◌++◌, ◌==◌, if◌then◌else◌,
}
use mathlib.Core.Logic.{ite}
use zima_scope.RulePolicy.Rules.{
  MatchEntry, MatchEntry-discrete, CompiledState, CompiledRule, CompiledPolicy, PolicyOp,
  upsert_state, remove_state, upsert_match, remove_match, find_rule, config_op,
}

-- `matches.contains(entry)`.
unfoldable pub contains : List MatchEntry → MatchEntry → Bool
contains [] e = false
contains (x ∷ xs) e = ite (MatchEntry-discrete x e) true (contains xs e)

abbrev pub ref_of : CompiledRule → RuleRef
ref_of r = record { rule_id = r.id; action = action_code r.action }

abbrev pub remove_matches : List MatchEntry → List PolicyOp
remove_matches [] = []
remove_matches (e ∷ es) = remove_match e ∷ remove_matches es

abbrev pub remove_states : List CompiledState → List PolicyOp
remove_states [] = []
remove_states (s ∷ ss) = remove_state s.key ∷ remove_states ss

-- The rules that are gone: their match entries, then their states.
unfoldable pub removals : List CompiledRule → List CompiledRule → List PolicyOp
removals [] next = []
removals (r ∷ rs) next = elim (find_rule next r.id) [
  | none ↦ (remove_matches r.matches ++ remove_states r.states) ++ removals rs next
  | some kept ↦ removals rs next
]

abbrev pub find_state : List CompiledState → BucketKey → Option CompiledState
find_state [] key = none
find_state (s ∷ ss) key = ite (BucketKey-discrete s.key key) (some s) (find_state ss key)

unfoldable pub same_state : Option CompiledRule → CompiledState → Bool
same_state none s = false
same_state (some before) s = elim (find_state before.states s.key) [
  | none ↦ false
  | some old ↦ old.rate_bytes_per_s == s.rate_bytes_per_s && old.burst_bytes == s.burst_bytes
]

abbrev pub upsert_states : Option CompiledRule → List CompiledState → List PolicyOp
upsert_states before [] = []
upsert_states before (s ∷ ss) =
    let rest = upsert_states before ss in
    if same_state before s then rest else upsert_state s.key s.rate_bytes_per_s s.burst_bytes ∷ rest

unfoldable pub same_match : Option CompiledRule → CompiledRule → MatchEntry → Bool
same_match none r e = false
same_match (some before) r e =
    action_code before.action == action_code r.action && contains before.matches e

abbrev pub upsert_matches : Option CompiledRule → CompiledRule → List MatchEntry → List PolicyOp
upsert_matches before r [] = []
upsert_matches before r (e ∷ es) =
    let rest = upsert_matches before r es in
    if same_match before r e then rest else upsert_match e (ref_of r) ∷ rest

abbrev pub remove_stale : CompiledRule → List MatchEntry → List PolicyOp
remove_stale r [] = []
remove_stale r (e ∷ es) =
    let rest = remove_stale r es in if contains r.matches e then rest else remove_match e ∷ rest

abbrev pub before_matches : Option CompiledRule → List MatchEntry
before_matches none = []
before_matches (some before) = before.matches

-- One rule of the next policy: its states, its new match entries, then its stale ones.
unfoldable pub rule_ops : List CompiledRule → CompiledRule → List PolicyOp
rule_ops previous r =
    let before = find_rule previous r.id in
    upsert_states before r.states
    ++ (upsert_matches before r r.matches ++ remove_stale r (before_matches before))

unfoldable pub additions : List CompiledRule → List CompiledRule → List PolicyOp
additions previous [] = []
additions previous (r ∷ rs) = rule_ops previous r ++ additions previous rs

unfoldable pub diff : CompiledPolicy → CompiledPolicy → List PolicyOp
diff previous next =
    let disabling = previous.enabled && not next.enabled in
    let first = if disabling then config_op next false ∷ [] else [] in
    let last = if next.enabled || not disabling then config_op next next.enabled ∷ [] else [] in
    first ++ (removals previous.rules next.rules ++ (additions previous.rules next.rules ++ last))
