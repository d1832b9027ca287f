-- ===== src/RulePolicy/Apply/Upserts.antt =====
-- The rates and bursts that the operations of `diff` in zimascoped/src/policy/mod.rs leave.
use mathlib.Core.Logic.{ite}
use zima_scope.Abi.{BucketKey, BucketKey-discrete}
use zima_scope.Base.{
  ℕ, ◌≡◌, ◌≢◌, refl, sym, ap, ◌∙◌, arith, Bool, true, false, not, ◌&&◌, ◌||◌, Option, some, none,
  List, [], ◌∷◌, ◌++◌, ◌==◌, if◌then◌else◌, inl, inr, Option-cases, Bool-cases, ==_iff,
}
use zima_scope.RulePolicy.Apply.States.{SeparateStates, DistinctKeys, keyed, keyed-away}
use zima_scope.RulePolicy.Diff.{
  remove_matches, remove_states, removals, find_state, same_state, upsert_states, upsert_matches,
  remove_stale, before_matches, rule_ops, additions, diff,
}
use zima_scope.RulePolicy.Rules.{
  MatchEntry, CompiledState, CompiledRule, CompiledPolicy, find_rule, config_op,
}
use zima_scope.RulePolicy.Apply.Rates.{rates_after, rates_after-append}

-- Removals and match entries change no rate.
module _ (key : BucketKey) (v : ℕ × ℕ) where
  remove_matches-rates : (es : List MatchEntry) → rates_after (remove_matches es) key v ≡ v
  remove_matches-rates [] = refl
  remove_matches-rates (e ∷ es) = remove_matches-rates es

  remove_states-rates : (ss : List CompiledState) → rates_after (remove_states ss) key v ≡ v
  remove_states-rates [] = refl
  remove_states-rates (s ∷ ss) = remove_states-rates ss

  removals-rates : (rs next : List CompiledRule) → rates_after (removals rs next) key v ≡ v
  unfolding removals
  removals-rates [] next = refl
  removals-rates (r ∷ rs) next = elim (Option-cases (find_rule next r.id)) [
    | inl gone ↦
        rw (removals, gone)
          (rates_after-append (remove_matches r.matches ++ remove_states r.states)
              (removals rs next) key v
            ∙ ap (rates_after (removals rs next) key) (
                rates_after-append (remove_matches r.matches) (remove_states r.states) key v
                ∙ ap (rates_after (remove_states r.states) key) (remove_matches-rates r.matches)
                ∙ remove_states-rates r.states)
            ∙ removals-rates rs next)
    | inr (kept, found) ↦ rw (removals, found) (removals-rates rs next)
  ]

  upsert_matches-rates :
      (before : Option CompiledRule) (r : CompiledRule) (es : List MatchEntry)
      → rates_after (upsert_matches before r es) key v ≡ v
  upsert_matches-rates before r [] = refl
  upsert_matches-rates before r (e ∷ es) = ground (arith, upsert_matches-rates before r es)

  remove_stale-rates :
      (r : CompiledRule) (es : List MatchEntry) → rates_after (remove_stale r es) key v ≡ v
  remove_stale-rates r [] = refl
  remove_stale-rates r (e ∷ es) = ground (arith, remove_stale-rates r es)

  config-rates :
      (b : Bool) (p : CompiledPolicy) (enabled : Bool)
      → rates_after (if b then config_op p enabled ∷ [] else []) key v ≡ v
  unfolding config_op
  config-rates true p enabled = refl
  config-rates false p enabled = refl

upsert_states-rates_away :
    (before : Option CompiledRule) (ss : List CompiledState) (key : BucketKey) (v : ℕ × ℕ)
    → keyed ss key ≡ false
    → rates_after (upsert_states before ss) key v ≡ v
upsert_states-rates_away before [] key v out = refl
upsert_states-rates_away before (s ∷ ss) key v out =
    ground (arith, upsert_states-rates_away before ss key v)

abbrev pub rates_of : CompiledState → ℕ × ℕ
rates_of s = (s.rate_bytes_per_s, s.burst_bytes)

-- The rates of a state of a rule.
abbrev pub RatesOf : Option CompiledRule → BucketKey → ℕ × ℕ → Type 0
RatesOf none key v = Unit
RatesOf (some r) key v = (s : CompiledState) → find_state r.states key ≡ some s → rates_of s ≡ v

same_state-rates :
    (before : Option CompiledRule) (s : CompiledState) (v : ℕ × ℕ)
    → RatesOf before s.key v
    → same_state before s ≡ true
    → v ≡ rates_of s
unfolding same_state
same_state-rates none s v old same = absurd (cc)
same_state-rates (some b) s v old same = elim (Option-cases (find_state b.states s.key)) [
  | inl absent ↦ absurd (ground arith)
  | inr (o, found) ↦ sym (old o found) ∙ ground arith
]

set_own : (x key : BucketKey) (w v : ℕ × ℕ) → x ≡ key → ite (BucketKey-discrete x key) w v ≡ w
set_own x key w v same = ground arith

set_other : (x key : BucketKey) (w v : ℕ × ℕ) → x ≢ key → ite (BucketKey-discrete x key) w v ≡ v
set_other x key w v ne = ground arith

upsert_states-rates :
    (before : Option CompiledRule) (ss : List CompiledState) (key : BucketKey) (v : ℕ × ℕ)
    (s : CompiledState)
    → DistinctKeys ss
    → RatesOf before key v
    → find_state ss key ≡ some s
    → rates_after (upsert_states before ss) key v ≡ rates_of s
upsert_states-rates before [] key v s distinct old found = absurd (cc)
upsert_states-rates before (x ∷ ss) key v s (fresh, distinct) old found =
    elim (BucketKey-discrete x.key key) [
      | yes same ↦
          let is : x ≡ s = ground arith in
          let out : keyed ss key ≡ false = ap (keyed ss) (sym same) ∙ fresh in
          let away = λ (w : ℕ × ℕ). upsert_states-rates_away before ss key w out in
          elim (Bool-cases (same_state before x)) [
            | inl kept ↦
                rw kept (away v ∙ same_state-rates before x v (rw same old) kept ∙ ap rates_of is)
            | inr changed ↦ rw changed (
                ap (rates_after (upsert_states before ss) key)
                  (set_own x.key key (rates_of x) v same)
                ∙ away (rates_of x)
                ∙ ap rates_of is)
          ]
      | no ne ↦
          let later : find_state ss key ≡ some s = ground arith in
          let rest = upsert_states-rates before ss key v s distinct old later in
          elim (Bool-cases (same_state before x)) [
            | inl kept ↦ rw kept rest
            | inr changed ↦ rw changed (
                ap (rates_after (upsert_states before ss) key)
                  (set_other x.key key (rates_of x) v ne)
                ∙ rest)
          ]
    ]

rule_ops-rates :
    (prev : List CompiledRule) (r : CompiledRule) (rs : List CompiledRule) (key : BucketKey)
    (v : ℕ × ℕ)
    → rates_after (additions prev (r ∷ rs)) key v
      ≡ rates_after
          (additions prev rs)
          key
          (rates_after (upsert_states (find_rule prev r.id) r.states) key v)
unfolding rule_ops additions
rule_ops-rates prev r rs key v =
    let before = find_rule prev r.id in
    let states = upsert_states before r.states in
    let upserts = upsert_matches before r r.matches in
    let stale = remove_stale r (before_matches before) in
    let w = rates_after states key v in
    rates_after-append (states ++ (upserts ++ stale)) (additions prev rs) key v
    ∙ ap (rates_after (additions prev rs) key) (
        rates_after-append states (upserts ++ stale) key v
        ∙ rates_after-append upserts stale key w
        ∙ ap (rates_after stale key) (upsert_matches-rates key w before r r.matches)
        ∙ remove_stale-rates key w r (before_matches before))

module _ (prev : List CompiledRule) (key : BucketKey) where
  additions-rates_out :
      (rs : List CompiledRule) (v : ℕ × ℕ)
      → SeparateStates rs
      → find_rule rs key.rule_id ≡ none
      → rates_after (additions prev rs) key v ≡ v
  unfolding additions
  additions-rates_out [] v sep gone = refl
  additions-rates_out (r ∷ rs) v (fresh, at, distinct, sep) gone =
      let away : key.rule_id ≢ r.id = λ p. ground arith in
      rule_ops-rates prev r rs key v
      ∙ ap (rates_after (additions prev rs) key) (
          upsert_states-rates_away (find_rule prev r.id) r.states key v
            (keyed-away r.states key r.id at away))
      ∙ additions-rates_out rs v sep (ground arith)

  additions-rates :
      (rs : List CompiledRule) (r : CompiledRule) (s : CompiledState) (v : ℕ × ℕ)
      → SeparateStates rs
      → RatesOf (find_rule prev key.rule_id) key v
      → find_rule rs key.rule_id ≡ some r
      → find_state r.states key ≡ some s
      → rates_after (additions prev rs) key v ≡ rates_of s
  additions-rates [] r s v sep old found wanted = absurd (cc)
  additions-rates (x ∷ rs) r s v (fresh, at, distinct, sep) old found wanted =
      elim (Bool-cases (x.id == key.rule_id)) [
        | inl own ↦
            let same : x.id ≡ key.rule_id = (==_iff x.id key.rule_id).0 own in
            let is : x ≡ r = ground arith in
            let gone : find_rule rs key.rule_id ≡ none = ground arith in
            rule_ops-rates prev x rs key v
            ∙ additions-rates_out rs
                (rates_after (upsert_states (find_rule prev x.id) x.states) key v) sep gone
            ∙ upsert_states-rates (find_rule prev x.id) x.states key v s distinct (rw same old)
                (ap (λ (y : CompiledRule). find_state y.states key) is ∙ wanted)
        | inr other ↦
            let away : key.rule_id ≢ x.id = λ p. ground arith in
            rule_ops-rates prev x rs key v
            ∙ ap (rates_after (additions prev rs) key) (
                upsert_states-rates_away (find_rule prev x.id) x.states key v
                  (keyed-away x.states key x.id at away))
            ∙ additions-rates rs r s v sep old (ground arith) wanted
      ]

-- After the operations of a diff, a state of the next policy has its rates.
pub diff-rates :
    (prev next : CompiledPolicy) (key : BucketKey) (r : CompiledRule) (s : CompiledState)
    (v : ℕ × ℕ)
    → SeparateStates next.rules
    → RatesOf (find_rule prev.rules key.rule_id) key v
    → find_rule next.rules key.rule_id ≡ some r
    → find_state r.states key ≡ some s
    → rates_after (diff prev next) key v ≡ rates_of s
unfolding diff
diff-rates prev next key r s v sep old found wanted =
    let disabling = prev.enabled && not next.enabled in
    let first = if disabling then config_op next false ∷ [] else [] in
    let last = if next.enabled || not disabling then config_op next next.enabled ∷ [] else [] in
    let removed = removals prev.rules next.rules in
    let added = additions prev.rules next.rules in
    rates_after-append first (removed ++ (added ++ last)) key v
    ∙ ap (rates_after (removed ++ (added ++ last)) key) (config-rates key v disabling next false)
    ∙ rates_after-append removed (added ++ last) key v
    ∙ ap (rates_after (added ++ last) key) (removals-rates key v prev.rules next.rules)
    ∙ rates_after-append added last key v
    ∙ config-rates key (rates_after added key v) (next.enabled || not disabling) next next.enabled
    ∙ additions-rates prev.rules key next.rules r s v sep old found wanted

pub rates_of-RatesOf :
    (o : Option CompiledRule) (key : BucketKey) (v : ℕ × ℕ)
    → ((r : CompiledRule) (s : CompiledState)
        → o ≡ some r
        → find_state r.states key ≡ some s
        → rates_of s ≡ v)
    → RatesOf o key v
rates_of-RatesOf none key v h = tt
rates_of-RatesOf (some r) key v h = λ s found. h r s refl found

pub keyed_of_find_state :
    (ss : List CompiledState) (key : BucketKey) (s : CompiledState)
    → find_state ss key ≡ some s
    → keyed ss key ≡ true
keyed_of_find_state [] key s found = absurd (cc)
keyed_of_find_state (x ∷ ss) key s found = ground (arith, keyed_of_find_state ss key s)
