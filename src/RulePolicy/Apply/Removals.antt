-- ===== src/RulePolicy/Apply/Removals.antt =====
-- The removals of `diff` in zimascoped/src/policy/mod.rs, one match entry at a time.

use zima_scope.Abi.{RuleRef}
use zima_scope.Base.{
  ℕ, ◌≡◌, ◌≢◌, refl, sym, ap, ◌∙◌, arith, true, false, Option, some, none, List, [], ◌∷◌, ◌++◌,
  ◌==◌, if◌then◌else◌, inl, inr, All, Option-cases, Bool-cases, ==_iff,
}
use zima_scope.RulePolicy.Apply.Track.{track, track_then}
use zima_scope.RulePolicy.Diff.{contains, ref_of, remove_matches, remove_states, removals}
use zima_scope.RulePolicy.Rules.{MatchEntry, CompiledState, CompiledRule, find_rule}

-- A list without repetition.
abbrev pub Distinct : List MatchEntry → Type 0
Distinct [] = Unit {0}
Distinct (e ∷ es) = (contains es e ≡ false) × Distinct es

-- Rules with different identifiers, and match entries that `home` gives to the rule that lists them.
abbrev pub Separate : (MatchEntry → ℕ) → List CompiledRule → Type 0
Separate home [] = Unit {0}
Separate home (r ∷ rs) =
    (find_rule rs r.id ≡ none)
    × All (λ e. home e ≡ r.id) r.matches
    × Distinct r.matches
    × Separate home rs

-- The reference that a rule has at an entry.
abbrev pub listed : Option CompiledRule → MatchEntry → Option RuleRef
listed none e = none
listed (some r) e = if contains r.matches e then some (ref_of r) else none

-- What a policy wants of an entry: the reference of the rule that lists it.
abbrev pub wanted : (MatchEntry → ℕ) → List CompiledRule → MatchEntry → Option RuleRef
wanted home rules e = listed (find_rule rules (home e)) e

track-remove_states :
    (ss : List CompiledState) (e : MatchEntry) (v : Option RuleRef)
    → track (remove_states ss) e v ≡ some v
unfolding track
track-remove_states [] e v = refl
track-remove_states (s ∷ ss) e v = track-remove_states ss e v

pub track-remove_matches_out :
    (es : List MatchEntry) (e : MatchEntry) (v : Option RuleRef)
    → contains es e ≡ false
    → track (remove_matches es) e v ≡ some v
unfolding track contains
track-remove_matches_out [] e v h = refl
track-remove_matches_out (x ∷ es) e v h = ground (arith, track-remove_matches_out es e v)

track-remove_matches_in :
    (es : List MatchEntry) (e : MatchEntry) (v : RuleRef)
    → Distinct es
    → contains es e ≡ true
    → track (remove_matches es) e (some v) ≡ some none
unfolding track contains
track-remove_matches_in [] e v d h = absurd (cc)
track-remove_matches_in (x ∷ es) e v (fresh, d) h =
    ground (arith, track-remove_matches_in es e v d, track-remove_matches_out es e none)

module _ (home : MatchEntry → ℕ) where
  pub contains-away :
      (es : List MatchEntry) (e : MatchEntry) (id : ℕ)
      → All (λ x. home x ≡ id) es
      → home e ≢ id
      → contains es e ≡ false
  unfolding contains
  contains-away [] e id all away = refl
  contains-away (x ∷ es) e id (at, all) away = ground (arith, contains-away es e id all away)

  -- The operations for a rule that is gone, and those of the rules after it.
  gone_then :
      (r : CompiledRule) (rs next : List CompiledRule) (e : MatchEntry) (v w : Option RuleRef)
      → find_rule next r.id ≡ none
      → track (remove_matches r.matches) e v ≡ some w
      → track (removals (r ∷ rs) next) e v ≡ track (removals rs next) e w
  unfolding removals
  gone_then r rs next e v w gone h =
      let ops = remove_matches r.matches ++ remove_states r.states in
      ap (λ o. track (elim o [ none ↦ ops ++ removals rs next | some kept ↦ removals rs next ]) e v)
        gone
      ∙ track_then ops (removals rs next) e v w (
          track_then (remove_matches r.matches) (remove_states r.states) e v w h
          ∙ track-remove_states r.states e w)

  kept_then :
      (r kept : CompiledRule) (rs next : List CompiledRule) (e : MatchEntry) (v : Option RuleRef)
      → find_rule next r.id ≡ some kept
      → track (removals (r ∷ rs) next) e v ≡ track (removals rs next) e v
  unfolding removals
  kept_then r kept rs next e v found =
      let ops = remove_matches r.matches ++ remove_states r.states in
      ap (λ o. track (elim o [ none ↦ ops ++ removals rs next | some kept ↦ removals rs next ]) e v)
        found

  -- A rule that does not own the entry leaves it alone.
  other_then :
      (r : CompiledRule) (rs next : List CompiledRule) (e : MatchEntry) (v : Option RuleRef)
      → All (λ x. home x ≡ r.id) r.matches
      → home e ≢ r.id
      → track (removals (r ∷ rs) next) e v ≡ track (removals rs next) e v
  other_then r rs next e v at away = elim (Option-cases (find_rule next r.id)) [
    | inl gone ↦
        gone_then r rs next e v v gone
          (track-remove_matches_out r.matches e v (contains-away r.matches e r.id at away))
    | inr (kept, found) ↦ kept_then r kept rs next e v found
  ]

  pub removals_out :
      (rs next : List CompiledRule) (e : MatchEntry) (v : Option RuleRef)
      → Separate home rs
      → find_rule rs (home e) ≡ none
      → track (removals rs next) e v ≡ some v
  unfolding track removals
  removals_out [] next e v sep h = refl
  removals_out (r ∷ rs) next e v (fresh, at, distinct, sep) h =
      let away : home e ≢ r.id = λ p. ground arith in
      let rest : find_rule rs (home e) ≡ none = ground arith in
      other_then r rs next e v at away ∙ removals_out rs next e v sep rest

  -- What is left of an entry when the rules that are gone have been removed.
  abbrev pub left : List CompiledRule → List CompiledRule → MatchEntry → Option RuleRef
  left rs next e = elim (find_rule next (home e)) [ none ↦ none | some kept ↦ wanted home rs e ]

  own_then :
      (r : CompiledRule) (e : MatchEntry)
      → Distinct r.matches
      → track (remove_matches r.matches) e (listed (some r) e) ≡ some none
  own_then r e distinct = elim (Bool-cases (contains r.matches e)) [
    | inl holds ↦
        ap (λ b. track (remove_matches r.matches) e (if b then some (ref_of r) else none)) holds
        ∙ track-remove_matches_in r.matches e (ref_of r) distinct holds
    | inr lacks ↦
        ap (λ b. track (remove_matches r.matches) e (if b then some (ref_of r) else none)) lacks
        ∙ track-remove_matches_out r.matches e none lacks
  ]

  pub removals-left :
      (rs next : List CompiledRule) (e : MatchEntry)
      → Separate home rs
      → track (removals rs next) e (wanted home rs e) ≡ some (left rs next e)
  unfolding track removals
  removals-left [] next e sep = ground arith
  removals-left (r ∷ rs) next e (fresh, at, distinct, sep) = elim (Bool-cases (r.id == home e)) [
    | inl own ↦
        let same : r.id ≡ home e = (==_iff r.id (home e)).0 own in
        let rest : find_rule rs (home e) ≡ none = ground arith in
        let first : find_rule (r ∷ rs) (home e) ≡ some r = ground arith in
        elim (Option-cases (find_rule next r.id)) [
          | inl gone ↦
              ap (λ o. track (removals (r ∷ rs) next) e (listed o e)) first
              ∙ gone_then r rs next e (listed (some r) e) none gone (own_then r e distinct)
              ∙ removals_out rs next e none sep rest
              ∙ ap (λ o. some (elim o [ none ↦ none | some kept ↦ wanted home (r ∷ rs) e ]))
                  (sym (ap (find_rule next) (sym same) ∙ gone))
          | inr (kept, found) ↦
              ap (λ o. track (removals (r ∷ rs) next) e (listed o e)) first
              ∙ kept_then r kept rs next e (listed (some r) e) found
              ∙ removals_out rs next e (listed (some r) e) sep rest
              ∙ ap (λ o. some (listed o e)) (sym first)
              ∙ ap (λ o. some (elim o [ none ↦ none | some kept ↦ wanted home (r ∷ rs) e ]))
                  (sym (ap (find_rule next) (sym same) ∙ found))
        ]
    | inr other ↦
        let away : home e ≢ r.id = λ p. ground arith in
        let later : find_rule (r ∷ rs) (home e) ≡ find_rule rs (home e) = ground arith in
        ap (λ o. track (removals (r ∷ rs) next) e (listed o e)) later
        ∙ other_then r rs next e (wanted home rs e) at away
        ∙ removals-left rs next e sep
        ∙ ap (λ o. some (elim (find_rule next (home e)) [ none ↦ none | some kept ↦ listed o e ]))
            (sym later)
  ]
