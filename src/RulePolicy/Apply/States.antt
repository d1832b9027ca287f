-- ===== src/RulePolicy/Apply/States.antt =====
-- The rule states that `diff` in zimascoped/src/policy/mod.rs removes and upserts, one key at a time.
use mathlib.Core.Logic.{ite}
use zima_scope.Abi.{BucketKey, BucketKey-discrete}
use zima_scope.Base.{
  ℕ, ◌≡◌, ◌≢◌, refl, arith, Bool, true, false, Option, some, none, List, [], ◌∷◌, All,
}
use zima_scope.RulePolicy.Apply.Track.{track_state}
use zima_scope.RulePolicy.Diff.{
  remove_matches, remove_states, find_state, same_state, upsert_states, upsert_matches,
  remove_stale,
}
use zima_scope.RulePolicy.Rules.{MatchEntry, CompiledState, CompiledRule, find_rule}

-- Whether a list of states has the key.
abbrev pub keyed : List CompiledState → BucketKey → Bool
keyed [] key = false
keyed (s ∷ ss) key = ite (BucketKey-discrete s.key key) true (keyed ss key)

abbrev pub DistinctKeys : List CompiledState → Type 0
DistinctKeys [] = Unit {0}
DistinctKeys (s ∷ ss) = (keyed ss s.key ≡ false) × DistinctKeys ss

-- States whose keys name their rule, each once; the identifiers differ.
abbrev pub SeparateStates : List CompiledRule → Type 0
SeparateStates [] = Unit {0}
SeparateStates (r ∷ rs) =
    (find_rule rs r.id ≡ none)
    × All (λ s. s.key.rule_id ≡ r.id) r.states
    × DistinctKeys r.states
    × SeparateStates rs

abbrev pub held_by : Option CompiledRule → BucketKey → Bool
held_by none key = false
held_by (some r) key = keyed r.states key

-- Whether a policy wants a state at the key.
abbrev pub holds : List CompiledRule → BucketKey → Bool
holds rules key = held_by (find_rule rules key.rule_id) key

pub remove_matches-state :
    (es : List MatchEntry) (key : BucketKey) (v : Bool)
    → track_state (remove_matches es) key v ≡ some v
unfolding track_state
remove_matches-state [] key v = refl
remove_matches-state (x ∷ es) key v = remove_matches-state es key v

pub remove_states_out :
    (ss : List CompiledState) (key : BucketKey) (v : Bool)
    → keyed ss key ≡ false
    → track_state (remove_states ss) key v ≡ some v
unfolding track_state
remove_states_out [] key v out = refl
remove_states_out (s ∷ ss) key v out = ground (arith, remove_states_out ss key v)

pub remove_states_in :
    (ss : List CompiledState) (key : BucketKey)
    → DistinctKeys ss
    → keyed ss key ≡ true
    → track_state (remove_states ss) key true ≡ some false
unfolding track_state
remove_states_in [] key distinct holds = absurd (cc)
remove_states_in (s ∷ ss) key (fresh, distinct) holds =
    ground (arith, remove_states_in ss key distinct, remove_states_out ss key false)

pub keyed-away :
    (ss : List CompiledState) (key : BucketKey) (id : ℕ)
    → All (λ s. s.key.rule_id ≡ id) ss
    → key.rule_id ≢ id
    → keyed ss key ≡ false
keyed-away [] key id all away = refl
keyed-away (s ∷ ss) key id (at, all) away = ground (arith, keyed-away ss key id all away)

-- Neither upserting nor removing match entries touches a state.
pub upsert_matches-state :
    (before : Option CompiledRule) (r : CompiledRule) (es : List MatchEntry) (key : BucketKey)
    (v : Bool)
    → track_state (upsert_matches before r es) key v ≡ some v
unfolding track_state
upsert_matches-state before r [] key v = refl
upsert_matches-state before r (x ∷ es) key v =
    ground (arith, upsert_matches-state before r es key v)

pub remove_stale-state :
    (r : CompiledRule) (es : List MatchEntry) (key : BucketKey) (v : Bool)
    → track_state (remove_stale r es) key v ≡ some v
unfolding track_state
remove_stale-state r [] key v = refl
remove_stale-state r (x ∷ es) key v = ground (arith, remove_stale-state r es key v)

-- Upserting keeps a present state, and adds a wanted one that the previous rule did not have.
pub upsert_states_kept :
    (before : Option CompiledRule) (ss : List CompiledState) (key : BucketKey)
    → track_state (upsert_states before ss) key true ≡ some true
unfolding track_state
upsert_states_kept before [] key = refl
upsert_states_kept before (s ∷ ss) key = ground (arith, upsert_states_kept before ss key)

pub upsert_states_out :
    (before : Option CompiledRule) (ss : List CompiledState) (key : BucketKey) (v : Bool)
    → keyed ss key ≡ false
    → track_state (upsert_states before ss) key v ≡ some v
unfolding track_state
upsert_states_out before [] key v out = refl
upsert_states_out before (s ∷ ss) key v out = ground (arith, upsert_states_out before ss key v)

find_state-unkeyed :
    (ss : List CompiledState) (key : BucketKey) → keyed ss key ≡ false → find_state ss key ≡ none
find_state-unkeyed [] key out = refl
find_state-unkeyed (s ∷ ss) key out = ground (arith, find_state-unkeyed ss key)

same_state-unheld :
    (before : Option CompiledRule) (s : CompiledState)
    → held_by before s.key ≡ false
    → same_state before s ≡ false
unfolding same_state
same_state-unheld none s out = refl
same_state-unheld (some b) s out = ground (arith, find_state-unkeyed b.states s.key out)

pub upsert_states_new :
    (before : Option CompiledRule) (ss : List CompiledState) (key : BucketKey)
    → held_by before key ≡ false
    → keyed ss key ≡ true
    → track_state (upsert_states before ss) key false ≡ some true
unfolding track_state
upsert_states_new before [] key out wanted = absurd (cc)
upsert_states_new before (s ∷ ss) key out wanted = ground (
  arith,
  upsert_states_new before ss key out,
  upsert_states_kept before ss key,
  same_state-unheld before s,
)
