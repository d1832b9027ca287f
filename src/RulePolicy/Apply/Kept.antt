-- ===== src/RulePolicy/Apply/Kept.antt =====
-- Which rule states the upserts of `diff` in zimascoped/src/policy/mod.rs keep and add.
use zima_scope.Abi.{BucketKey}
use zima_scope.Base.{
  ◌≡◌, ◌≢◌, refl, sym, ap, ◌∙◌, arith, Bool, true, false, not, ◌&&◌, ◌||◌, Option, some, none, List,
  [], ◌∷◌, ◌++◌, ◌==◌, if◌then◌else◌, inl, inr, Option-cases, Bool-cases, ==_iff,
}
use zima_scope.RulePolicy.Apply.Settled.{choose, left_state, nil-state, removals-left_state}
use zima_scope.RulePolicy.Apply.States.{
  SeparateStates, keyed, held_by, holds, keyed-away, upsert_matches-state, remove_stale-state,
  upsert_states_kept, upsert_states_out, upsert_states_new,
}
use zima_scope.RulePolicy.Apply.Track.{track_state, track_state_then}
use zima_scope.RulePolicy.Diff.{
  removals, upsert_states, upsert_matches, remove_stale, before_matches, rule_ops, additions, diff,
}
use zima_scope.RulePolicy.Rules.{CompiledRule, CompiledPolicy, find_rule, config_op}

rule_ops-state :
    (prev : List CompiledRule) (r : CompiledRule) (rs : List CompiledRule) (key : BucketKey)
    (v w : Bool)
    → track_state (upsert_states (find_rule prev r.id) r.states) key v ≡ some w
    → track_state (additions prev (r ∷ rs)) key v ≡ track_state (additions prev rs) key w
unfolding rule_ops additions
rule_ops-state prev r rs key v w h =
    let before = find_rule prev r.id in
    let upserts = upsert_matches before r r.matches in
    let stale = remove_stale r (before_matches before) in
    track_state_then (rule_ops prev r) (additions prev rs) key v w (
      track_state_then (upsert_states before r.states) (upserts ++ stale) key v w h
      ∙ track_state_then upserts stale key w w (upsert_matches-state before r r.matches key w)
      ∙ remove_stale-state r (before_matches before) key w)

upsert_own :
    (before : Option CompiledRule) (r : CompiledRule) (key : BucketKey) (v : Bool)
    → keyed r.states key ≡ true
    → (held_by before key ≡ true → v ≡ true)
    → track_state (upsert_states before r.states) key v ≡ some true
upsert_own before r key true inside full = upsert_states_kept before r.states key
upsert_own before r key false inside full = elim (Bool-cases (held_by before key)) [
  | inl held ↦ absurd (let e : false ≡ true = full held in cc)
  | inr free ↦ upsert_states_new before r.states key free inside
]

module _ (prev : List CompiledRule) (key : BucketKey) where
  additions_state_out :
      (rs : List CompiledRule) (v : Bool)
      → SeparateStates rs
      → find_rule rs key.rule_id ≡ none
      → track_state (additions prev rs) key v ≡ some v
  unfolding additions
  additions_state_out [] v sep h = nil-state key v
  additions_state_out (r ∷ rs) v (fresh, at, distinct, sep) h =
      let away : key.rule_id ≢ r.id = λ p. ground arith in
      let rest : find_rule rs key.rule_id ≡ none = ground arith in
      rule_ops-state prev r rs key v v (
        upsert_states_out (find_rule prev r.id) r.states key v
          (keyed-away r.states key r.id at away))
      ∙ additions_state_out rs v sep rest

  additions-holds :
      (rs : List CompiledRule) (v : Bool)
      → SeparateStates rs
      → (find_rule rs key.rule_id ≢ none → holds prev key ≡ true → v ≡ true)
      → track_state (additions prev rs) key v ≡ some (if holds rs key then true else v)
  unfolding additions
  additions-holds [] v sep full = nil-state key v
  additions-holds (r ∷ rs) v (fresh, at, distinct, sep) full =
      elim (Bool-cases (r.id == key.rule_id)) [
        | inl own ↦
            let same : r.id ≡ key.rule_id = (==_iff r.id key.rule_id).0 own in
            let rest : find_rule rs key.rule_id ≡ none = ground arith in
            let found : find_rule (r ∷ rs) key.rule_id ≢ none = λ p. ground arith in
            let first : holds (r ∷ rs) key ≡ keyed r.states key = ground arith in
            elim (Bool-cases (keyed r.states key)) [
              | inl inside ↦
                  rule_ops-state prev r rs key v true (
                    upsert_own (find_rule prev r.id) r key v inside
                      (λ h. full found (ap (λ i. held_by (find_rule prev i) key) (sym same) ∙ h)))
                  ∙ additions_state_out rs true sep rest
                  ∙ ap (λ c. some (if c then true else v)) (sym (first ∙ inside))
              | inr outside ↦
                  rule_ops-state prev r rs key v v
                    (upsert_states_out (find_rule prev r.id) r.states key v outside)
                  ∙ additions_state_out rs v sep rest
                  ∙ ap (λ c. some (if c then true else v)) (sym (first ∙ outside))
            ]
        | inr other ↦
            let away : key.rule_id ≢ r.id = λ p. ground arith in
            let later : find_rule (r ∷ rs) key.rule_id ≡ find_rule rs key.rule_id = ground arith in
            rule_ops-state prev r rs key v v (
              upsert_states_out (find_rule prev r.id) r.states key v
                (keyed-away r.states key r.id at away))
            ∙ additions-holds rs v sep (λ p. full (λ q. p (sym later ∙ q)))
            ∙ ap (λ o. some (if held_by o key then true else v)) (sym later)
      ]

config-state :
    (b : Bool) (p : CompiledPolicy) (enabled : Bool) (key : BucketKey) (v : Bool)
    → track_state (if b then config_op p enabled ∷ [] else []) key v ≡ some v
unfolding track_state config_op
config-state true p enabled key v = refl
config-state false p enabled key v = refl

-- After the operations of a diff a state is present where the next policy has it, or where it was
-- present and was not removed with its rule.
abbrev pub settled : CompiledPolicy → CompiledPolicy → BucketKey → Bool → Bool
settled prev next key v =
    if holds next.rules key then true else left_state prev.rules next.rules key v

pub diff-settled :
    (prev next : CompiledPolicy) (key : BucketKey) (v : Bool)
    → SeparateStates prev.rules
    → SeparateStates next.rules
    → (holds prev.rules key ≡ true → v ≡ true)
    → track_state (diff prev next) key v ≡ some (settled prev next key v)
unfolding diff
diff-settled prev next key v sep sep' full =
    let disabling = prev.enabled && not next.enabled in
    let first = if disabling then config_op next false ∷ [] else [] in
    let last = if next.enabled || not disabling then config_op next next.enabled ∷ [] else [] in
    let u = left_state prev.rules next.rules key v in
    let w = settled prev next key v in
    let removed = removals prev.rules next.rules in
    let added = additions prev.rules next.rules in
    let kept : find_rule next.rules key.rule_id ≢ none → holds prev.rules key ≡ true → u ≡ true =
      λ p h. elim (Option-cases (find_rule next.rules key.rule_id)) [
        | inl gone ↦ absurd (p gone)
        | inr (r, found) ↦ ap (λ o. choose o (holds prev.rules key) v) found ∙ full h
      ] in
    track_state_then first (removed ++ (added ++ last)) key v v
      (config-state disabling next false key v)
    ∙ track_state_then removed (added ++ last) key v u
        (removals-left_state prev.rules next.rules key v sep full)
    ∙ track_state_then added last key u w (additions-holds prev.rules key next.rules u sep' kept)
    ∙ config-state (next.enabled || not disabling) next next.enabled key w
