-- ===== src/RulePolicy/Apply/Settled.antt =====
-- Which rule states are present after the operations of `diff` in zimascoped/src/policy/mod.rs.
use zima_scope.Abi.{BucketKey}
use zima_scope.Base.{
  ◌≡◌, ◌≢◌, refl, sym, ap, ◌∙◌, arith, Bool, true, false, Option, some, none, List, [], ◌∷◌, ◌++◌,
  ◌==◌, if◌then◌else◌, inl, inr, Option-cases, Bool-cases, ==_iff,
}
use zima_scope.RulePolicy.Apply.States.{
  SeparateStates, keyed, held_by, holds, remove_matches-state, remove_states_out, remove_states_in,
  keyed-away,
}
use zima_scope.RulePolicy.Apply.Track.{track_state, track_state_then}
use zima_scope.RulePolicy.Diff.{remove_matches, remove_states, removals}
use zima_scope.RulePolicy.Rules.{CompiledRule, find_rule}

abbrev pub choose : Option CompiledRule → Bool → Bool → Bool
choose none held v = if held then false else v
choose (some kept) held v = v

-- What is left of a key when the rules that are gone have been removed.
abbrev pub left_state : List CompiledRule → List CompiledRule → BucketKey → Bool → Bool
left_state rs next key v = choose (find_rule next key.rule_id) (holds rs key) v

pub nil-state : (key : BucketKey) (v : Bool) → track_state [] key v ≡ some v
unfolding track_state
nil-state key v = refl

gone_state :
    (r : CompiledRule) (rs next : List CompiledRule) (key : BucketKey) (v w : Bool)
    → find_rule next r.id ≡ none
    → track_state (remove_states r.states) key v ≡ some w
    → track_state (removals (r ∷ rs) next) key v ≡ track_state (removals rs next) key w
unfolding removals
gone_state r rs next key v w gone h =
    let ops = remove_matches r.matches ++ remove_states r.states in
    ap
      (λ o.
        track_state (elim o [ none ↦ ops ++ removals rs next | some kept ↦ removals rs next ]) key
          v)
      gone
    ∙ track_state_then ops (removals rs next) key v w (
        track_state_then (remove_matches r.matches) (remove_states r.states) key v v
          (remove_matches-state r.matches key v)
        ∙ h)

kept_state :
    (r kept : CompiledRule) (rs next : List CompiledRule) (key : BucketKey) (v : Bool)
    → find_rule next r.id ≡ some kept
    → track_state (removals (r ∷ rs) next) key v ≡ track_state (removals rs next) key v
unfolding removals
kept_state r kept rs next key v found =
    let ops = remove_matches r.matches ++ remove_states r.states in
    ap
      (λ o.
        track_state (elim o [ none ↦ ops ++ removals rs next | some kept ↦ removals rs next ]) key
          v)
      found

other_state :
    (r : CompiledRule) (rs next : List CompiledRule) (key : BucketKey) (v : Bool)
    → keyed r.states key ≡ false
    → track_state (removals (r ∷ rs) next) key v ≡ track_state (removals rs next) key v
other_state r rs next key v out = elim (Option-cases (find_rule next r.id)) [
  | inl gone ↦ gone_state r rs next key v v gone (remove_states_out r.states key v out)
  | inr (kept, found) ↦ kept_state r kept rs next key v found
]

removals_state_out :
    (rs next : List CompiledRule) (key : BucketKey) (v : Bool)
    → SeparateStates rs
    → find_rule rs key.rule_id ≡ none
    → track_state (removals rs next) key v ≡ some v
unfolding removals
removals_state_out [] next key v sep h = nil-state key v
removals_state_out (r ∷ rs) next key v (fresh, at, distinct, sep) h =
    let away : key.rule_id ≢ r.id = λ p. ground arith in
    let rest : find_rule rs key.rule_id ≡ none = ground arith in
    other_state r rs next key v (keyed-away r.states key r.id at away)
    ∙ removals_state_out rs next key v sep rest

pub removals-left_state :
    (rs next : List CompiledRule) (key : BucketKey) (v : Bool)
    → SeparateStates rs
    → (holds rs key ≡ true → v ≡ true)
    → track_state (removals rs next) key v ≡ some (left_state rs next key v)
unfolding removals
removals-left_state [] next key v sep full = nil-state key v ∙ ground arith
removals-left_state (r ∷ rs) next key v (fresh, at, distinct, sep) full =
    elim (Bool-cases (r.id == key.rule_id)) [
      | inl own ↦
          let same : r.id ≡ key.rule_id = (==_iff r.id key.rule_id).0 own in
          let rest : find_rule rs key.rule_id ≡ none = ground arith in
          let out = λ (w : Bool). removals_state_out rs next key w sep rest in
          let first : holds (r ∷ rs) key ≡ keyed r.states key = ground arith in
          elim (Option-cases (find_rule next r.id)) [
            | inl gone ↦
                let gone' : find_rule next key.rule_id ≡ none =
                  ap (find_rule next) (sym same) ∙ gone in
                elim (Bool-cases (keyed r.states key)) [
                  | inl inside ↦
                      let v' : v ≡ true = full (first ∙ inside) in
                      gone_state r rs next key v false gone (
                        ap (track_state (remove_states r.states) key) v'
                        ∙ remove_states_in r.states key distinct inside)
                      ∙ out false
                      ∙ ap some (
                          sym (
                            ap (λ o. choose o (holds (r ∷ rs) key) v) gone'
                            ∙ ap (λ c. choose none c v) (first ∙ inside)))
                  | inr outside ↦
                      other_state r rs next key v outside
                      ∙ out v
                      ∙ ap some (
                          sym (
                            ap (λ o. choose o (holds (r ∷ rs) key) v) gone'
                            ∙ ap (λ c. choose none c v) (first ∙ outside)))
                ]
            | inr (kept, found) ↦
                let found' : find_rule next key.rule_id ≡ some kept =
                  ap (find_rule next) (sym same) ∙ found in
                kept_state r kept rs next key v found
                ∙ out v
                ∙ ap some (sym (ap (λ o. choose o (holds (r ∷ rs) key) v) found'))
          ]
      | inr other ↦
          let away : key.rule_id ≢ r.id = λ p. ground arith in
          let later : find_rule (r ∷ rs) key.rule_id ≡ find_rule rs key.rule_id = ground arith in
          other_state r rs next key v (keyed-away r.states key r.id at away)
          ∙ removals-left_state rs next key v sep (λ h. full (ap (λ o. held_by o key) later ∙ h))
          ∙ ap (λ o. some (choose (find_rule next key.rule_id) (held_by o key) v)) (sym later)
    ]
