-- ===== src/RulePolicy/Apply/Refines.antt =====
-- Applying the operations of `diff` in zimascoped/src/policy/mod.rs turns the kernel's match maps of
-- one policy into those of the next.
use mathlib.Core.Path.{subst}
use zima_scope.Abi.{RuleRef, BucketKey, BucketKey-discrete}
use zima_scope.Base.Assoc.{get}
use zima_scope.Base.{
  ℕ, ◌≡◌, ◌≢◌, refl, sym, ap, ◌∙◌, arith, Bool, true, false, not, ◌&&◌, ◌||◌, Option, some, none,
  List, [], ◌∷◌, ◌++◌, ◌==◌, if◌then◌else◌, inl, inr, Bool-cases, Option-cases, ==_iff,
}
use zima_scope.RulePolicy.Apply.Additions.{rule_ops-away, rule_ops-own}
use zima_scope.RulePolicy.Apply.{KernelMaps, apply_ops, fits}
use zima_scope.RulePolicy.Apply.Kept.{diff-settled}
use zima_scope.RulePolicy.Apply.Settled.{left_state}
use zima_scope.RulePolicy.Apply.States.{SeparateStates, holds, held_by}
use zima_scope.RulePolicy.Apply.Removals.{Separate, listed, wanted, left, removals-left}
use zima_scope.RulePolicy.Apply.Track.{track, track_then, apply_ops-track, entry_at, state_at}
use zima_scope.RulePolicy.Apply.Rates.{HasRates, apply_ops-HasRates}
use zima_scope.RulePolicy.Apply.Upserts.{
  RatesOf, rates_of, diff-rates, rates_of-RatesOf, keyed_of_find_state,
}
use zima_scope.RulePolicy.Diff.{rule_ops, removals, additions, find_state, diff}
use zima_scope.RulePolicy.Rules.{
  MatchEntry, CompiledState, CompiledRule, CompiledPolicy, find_rule, config_op,
}

some-ne-none {ℓ} : {A : Type ℓ} {a : A} → some a ≢ none
some-ne-none e = cc

some-injective {ℓ} : {A : Type ℓ} {a b : A} → some a ≡ some b → a ≡ b
some-injective e = cc

-- The configuration is no match entry.
track-config :
    (b : Bool) (p : CompiledPolicy) (enabled : Bool) (e : MatchEntry) (v : Option RuleRef)
    → track (if b then config_op p enabled ∷ [] else []) e v ≡ some v
unfolding track config_op
track-config true p enabled e v = refl
track-config false p enabled e v = refl

track-nil : (e : MatchEntry) (v : Option RuleRef) → track [] e v ≡ some v
unfolding track
track-nil e v = refl

module _ (home : MatchEntry → ℕ) (prev : List CompiledRule) (sep : Separate home prev) where
  additions_step :
      (r : CompiledRule) (rs : List CompiledRule) (e : MatchEntry) (v w : Option RuleRef)
      → track (rule_ops prev r) e v ≡ some w
      → track (additions prev (r ∷ rs)) e v ≡ track (additions prev rs) e w
  unfolding additions
  additions_step r rs e v w h = track_then (rule_ops prev r) (additions prev rs) e v w h

  additions_out :
      (rs : List CompiledRule) (e : MatchEntry) (v : Option RuleRef)
      → Separate home rs
      → find_rule rs (home e) ≡ none
      → track (additions prev rs) e v ≡ some v
  unfolding additions
  additions_out [] e v sep' h = track-nil e v
  additions_out (r ∷ rs) e v (fresh, at, distinct, sep') h =
      let away : home e ≢ r.id = λ p. ground arith in
      let rest : find_rule rs (home e) ≡ none = ground arith in
      additions_step r rs e v v (rule_ops-away home prev r e v sep at away)
      ∙ additions_out rs e v sep' rest

  additions-wanted :
      (rs : List CompiledRule) (e : MatchEntry)
      → Separate home rs
      → track (additions prev rs) e (left home prev rs e) ≡ some (wanted home rs e)
  unfolding additions
  additions-wanted [] e sep' = track-nil e none
  additions-wanted (r ∷ rs) e (fresh, at, distinct, sep') =
      let old = wanted home prev e in
      let start : Option CompiledRule → Option RuleRef =
        λ o. elim o [ none ↦ none | some kept ↦ old ] in
      elim (Bool-cases (r.id == home e)) [
        | inl own ↦
            let same : r.id ≡ home e = (==_iff r.id (home e)).0 own in
            let rest : find_rule rs (home e) ≡ none = ground arith in
            let first : find_rule (r ∷ rs) (home e) ≡ some r = ground arith in
            ap (λ o. track (additions prev (r ∷ rs)) e (start o)) first
            ∙ ap (λ i. track (additions prev (r ∷ rs)) e (listed (find_rule prev i) e)) (sym same)
            ∙ additions_step r rs e (listed (find_rule prev r.id) e) (listed (some r) e)
                (rule_ops-own home prev r e sep)
            ∙ additions_out rs e (listed (some r) e) sep' rest
            ∙ ap (λ o. some (listed o e)) (sym first)
        | inr other ↦
            let away : home e ≢ r.id = λ p. ground arith in
            let later : find_rule (r ∷ rs) (home e) ≡ find_rule rs (home e) = ground arith in
            ap (λ o. track (additions prev (r ∷ rs)) e (start o)) later
            ∙ additions_step r rs e (left home prev rs e) (left home prev rs e)
                (rule_ops-away home prev r e (left home prev rs e) sep at away)
            ∙ additions-wanted rs e sep'
            ∙ ap (λ o. some (listed o e)) (sym later)
      ]

-- The operations of a diff act on an entry as its removals and additions do.
pub diff-wanted :
    (home : MatchEntry → ℕ) (prev next : CompiledPolicy) (e : MatchEntry)
    → Separate home prev.rules
    → Separate home next.rules
    → track (diff prev next) e (wanted home prev.rules e) ≡ some (wanted home next.rules e)
unfolding diff
diff-wanted home prev next e sep sep' =
    let disabling = prev.enabled && not next.enabled in
    let first = if disabling then config_op next false ∷ [] else [] in
    let last = if next.enabled || not disabling then config_op next next.enabled ∷ [] else [] in
    let v = wanted home prev.rules e in
    let u = left home prev.rules next.rules e in
    let w = wanted home next.rules e in
    let removed = removals prev.rules next.rules in
    let added = additions prev.rules next.rules in
    track_then first (removed ++ (added ++ last)) e v v (track-config disabling next false e v)
    ∙ track_then removed (added ++ last) e v u (removals-left home prev.rules next.rules e sep)
    ∙ track_then added last e u w (additions-wanted home prev.rules sep next.rules e sep')
    ∙ track-config (next.enabled || not disabling) next next.enabled e w

-- The kernel's maps carry a policy: each match entry has the reference of the rule that lists it and
-- no other entry has one, and the states of all rules are present, with their rates and bursts.
pub record Installed (home : MatchEntry → ℕ) (p : CompiledPolicy) (k : KernelMaps) : Type 0 where
  pub entries : (e : MatchEntry) → entry_at k e ≡ wanted home p.rules e
  pub states : (key : BucketKey) → holds p.rules key ≡ true → state_at k key ≡ true
  pub rates :
      (key : BucketKey) (r : CompiledRule) (s : CompiledState)
      → find_rule p.rules key.rule_id ≡ some r
      → find_state r.states key ≡ some s
      → HasRates k key (rates_of s)

-- The rates of a state in the maps that carry a policy are those of the policy.
installed_rates :
    (home : MatchEntry → ℕ) (p : CompiledPolicy) (k : KernelMaps) (key : BucketKey)
    → Installed home p k
    → (v : ℕ × ℕ) × HasRates k key v × RatesOf (find_rule p.rules key.rule_id) key v
installed_rates home p k key installed =
    let rule = find_rule p.rules key.rule_id in
    elim (Option-cases (get BucketKey-discrete key k.states)) [
      | inl absent ↦ (
        (0, 0),
        λ s found. absurd (cc),
        rates_of-RatesOf rule key (0, 0)
            λ r s found wanted.
              let held : holds p.rules key ≡ true =
                ap (λ o. held_by o key) found ∙ keyed_of_find_state r.states key s wanted in
              let there : state_at k key ≡ true = installed.states key held in
              absurd (ground arith),
      )
      | inr (old, there) ↦
          let v : ℕ × ℕ = (old.rate_bytes_per_s, old.burst_bytes) in
          (
            v,
            λ s found. ground arith,
            rates_of-RatesOf rule key v
                λ r s found wanted. sym (installed.rates key r s found wanted old there),
          )
    ]

-- Suppose that in each of two policies the rules have different identifiers, each rule lists its
-- match entries and its state keys once, the keys carry the rule's identifier, and no entry is
-- listed by two different rule identifiers, in one policy or across both; and that, as the
-- operations of the diff are carried out, none of them inserts a new key into a full map, and
-- each names a prefix by its own bits. Then on maps that carry the first policy, every operation of
-- the diff succeeds, and the maps then carry the second: every entry of a rule refers to it with
-- its action, entries of no rule are gone, and every state of a rule is present, with its rate and
-- its burst.
pub diff-refines :
    (home : MatchEntry → ℕ) (prev next : CompiledPolicy) (k : KernelMaps)
    → Separate home prev.rules
    → Separate home next.rules
    → SeparateStates prev.rules
    → SeparateStates next.rules
    → Installed home prev k
    → fits k (diff prev next) ≡ true
    → (k' : KernelMaps) × (apply_ops k (diff prev next) ≡ some k') × Installed home next k'
diff-refines home prev next k sep sep' keys keys' installed fit =
    let ops = diff prev next in
    let tracked = λ (e : MatchEntry).
      ap (track ops e) (installed.entries e) ∙ diff-wanted home prev next e sep sep' in
    let stated = λ (key : BucketKey).
      diff-settled prev next key (state_at k key) keys keys' (installed.states key) in
    let (k', done, entries, states) =
      apply_ops-track k ops fit (λ e fault. some-ne-none (sym (tracked e) ∙ fault))
        (λ key fault. some-ne-none (sym (stated key) ∙ fault)) in
    (
      k',
      done,
      record {
        entries = λ e. some-injective (sym (entries e) ∙ tracked e);
        states = λ key h.
            some-injective (sym (states key) ∙ stated key)
            ∙ ap (λ c. if c then true else left_state prev.rules next.rules key (state_at k key)) h;
        rates = λ key r s found wanted.
            let (v, has, old) = installed_rates home prev k key installed in
            subst (HasRates k' key) (diff-rates prev next key r s v keys' old found wanted)
              (apply_ops-HasRates k k' ops key v has done);
      },
    )
