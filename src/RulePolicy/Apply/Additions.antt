-- ===== src/RulePolicy/Apply/Additions.antt =====
-- The upserts and stale removals of `diff` in zimascoped/src/policy/mod.rs, one entry at a time.

use zima_scope.Abi.{RuleRef}
use zima_scope.Base.{
  ℕ, ◌≡◌, ◌≢◌, refl, sym, ap, ◌∙◌, arith, Bool, true, false, Option, some, none, List, [], ◌∷◌,
  ◌++◌, ◌==◌, if◌then◌else◌, inl, inr, All, Option-cases, Bool-cases, ==_iff,
}
use zima_scope.RulePolicy.Apply.Removals.{Distinct, Separate, listed, contains-away}
use zima_scope.RulePolicy.Apply.Track.{track, track_then}
use zima_scope.RulePolicy.Diff.{
  contains, ref_of, same_state, upsert_states, same_match, upsert_matches, remove_stale,
  before_matches, rule_ops,
}
use zima_scope.RulePolicy.Rules.{MatchEntry, CompiledState, CompiledRule, find_rule}

contains-nil : (e : MatchEntry) → contains [] e ≡ false
unfolding contains
contains-nil e = refl

track-upsert_states :
    (before : Option CompiledRule) (ss : List CompiledState) (e : MatchEntry) (v : Option RuleRef)
    → track (upsert_states before ss) e v ≡ some v
unfolding track
track-upsert_states before [] e v = refl
track-upsert_states before (s ∷ ss) e v = elim (Bool-cases (same_state before s)) [
  | inl same ↦ rw same (track-upsert_states before ss e v)
  | inr changed ↦ rw changed (track-upsert_states before ss e v)
]

module _ (before : Option CompiledRule) (r : CompiledRule) (e : MatchEntry) where
  upsert_matches_same :
      (es : List MatchEntry) (v : Option RuleRef)
      → same_match before r e ≡ true
      → track (upsert_matches before r es) e v ≡ some v
  unfolding track
  upsert_matches_same [] v same = refl
  upsert_matches_same (x ∷ es) v same = ground (arith, upsert_matches_same es v same)

  upsert_matches_out :
      (es : List MatchEntry) (v : Option RuleRef)
      → contains es e ≡ false
      → track (upsert_matches before r es) e v ≡ some v
  unfolding track contains
  upsert_matches_out [] v out = refl
  upsert_matches_out (x ∷ es) v out = ground (arith, upsert_matches_out es v)

  upsert_matches_again :
      (es : List MatchEntry)
      → track (upsert_matches before r es) e (some (ref_of r)) ≡ some (some (ref_of r))
  unfolding track
  upsert_matches_again [] = refl
  upsert_matches_again (x ∷ es) = ground (arith, upsert_matches_again es)

  upsert_matches_in :
      (es : List MatchEntry) (v : Option RuleRef)
      → same_match before r e ≡ false
      → contains es e ≡ true
      → track (upsert_matches before r es) e v ≡ some (some (ref_of r))
  unfolding track contains
  upsert_matches_in [] v new holds = absurd (cc)
  upsert_matches_in (x ∷ es) v new holds =
      ground (arith, upsert_matches_in es v new, upsert_matches_again es)

  remove_stale_listed :
      (bs : List MatchEntry) (v : Option RuleRef)
      → contains r.matches e ≡ true
      → track (remove_stale r bs) e v ≡ some v
  unfolding track
  remove_stale_listed [] v holds = refl
  remove_stale_listed (x ∷ bs) v holds = ground (arith, remove_stale_listed bs v holds)

  remove_stale_out :
      (bs : List MatchEntry) (v : Option RuleRef)
      → contains bs e ≡ false
      → track (remove_stale r bs) e v ≡ some v
  unfolding track contains
  remove_stale_out [] v out = refl
  remove_stale_out (x ∷ bs) v out = ground (arith, remove_stale_out bs v)

  remove_stale_in :
      (bs : List MatchEntry) (w : RuleRef)
      → Distinct bs
      → contains bs e ≡ true
      → contains r.matches e ≡ false
      → track (remove_stale r bs) e (some w) ≡ some none
  unfolding track contains
  remove_stale_in [] w distinct holds lacks = absurd (cc)
  remove_stale_in (x ∷ bs) w (fresh, distinct) holds lacks =
      ground (arith, remove_stale_in bs w distinct, remove_stale_out bs none)

-- An entry that is not upserted again is already the rule's.
same_match-listed :
    (before : Option CompiledRule) (r : CompiledRule) (e : MatchEntry)
    → ((b : CompiledRule) → before ≡ some b → b.id ≡ r.id)
    → contains r.matches e ≡ true
    → same_match before r e ≡ true
    → listed before e ≡ listed (some r) e
unfolding same_match
same_match-listed none r e ids holds same = absurd (cc)
same_match-listed (some b) r e ids holds same = let own : b.id ≡ r.id = ids b refl in ground arith

-- An entry that the rule no longer lists is removed.
remove_stale-listed :
    (before : Option CompiledRule) (r : CompiledRule) (e : MatchEntry)
    → ((b : CompiledRule) → before ≡ some b → Distinct b.matches)
    → contains r.matches e ≡ false
    → track (remove_stale r (before_matches before)) e (listed before e) ≡ some (listed (some r) e)
remove_stale-listed none r e distinct lacks =
    remove_stale_out none r e [] none (contains-nil e)
    ∙ ap (λ c. some (if c then some (ref_of r) else none)) (sym lacks)
remove_stale-listed (some b) r e distinct lacks =
    let stale = λ (v : Option RuleRef). track (remove_stale r b.matches) e v in
    let value = λ (c : Bool). if c then some (ref_of b) else none in
    (elim (Bool-cases (contains b.matches e)) [
      | inl old ↦
          ap (λ c. stale (value c)) old
          ∙ remove_stale_in (some b) r e b.matches (ref_of b) (distinct b refl) old lacks
      | inr absent ↦
          ap (λ c. stale (value c)) absent ∙ remove_stale_out (some b) r e b.matches none absent
    ])
    ∙ ap (λ c. some (if c then some (ref_of r) else none)) (sym lacks)

-- The three parts of one rule's operations, given what each does to the entry.
rule_ops_parts :
    (prev : List CompiledRule) (r : CompiledRule) (e : MatchEntry) (v u w : Option RuleRef)
    → track (upsert_matches (find_rule prev r.id) r r.matches) e v ≡ some u
    → track (remove_stale r (before_matches (find_rule prev r.id))) e u ≡ some w
    → track (rule_ops prev r) e v ≡ some w
unfolding rule_ops
rule_ops_parts prev r e v u w h k =
    let before = find_rule prev r.id in
    let upserts = upsert_matches before r r.matches in
    let stale = remove_stale r (before_matches before) in
    track_then (upsert_states before r.states) (upserts ++ stale) e v v
      (track-upsert_states before r.states e v)
    ∙ track_then upserts stale e v u h
    ∙ k

module _ (home : MatchEntry → ℕ) where
  -- A rule that `find_rule` finds has the identifier, and its entries are its own.
  find_rule-found :
      (rules : List CompiledRule) (id : ℕ) (b : CompiledRule)
      → Separate home rules
      → find_rule rules id ≡ some b
      → (b.id ≡ id) × All (λ e. home e ≡ b.id) b.matches × Distinct b.matches
  find_rule-found [] id b sep found = absurd (cc)
  find_rule-found (r ∷ rs) id b (fresh, at, distinct, sep) found = elim (Bool-cases (r.id == id)) [
    | inl own ↦
        let same : r ≡ b = ground arith in rw (sym same) ((==_iff r.id id).0 own, at, distinct)
    | inr other ↦ find_rule-found rs id b sep (ground arith)
  ]

  before_matches-away :
      (prev : List CompiledRule) (id : ℕ) (e : MatchEntry)
      → Separate home prev
      → home e ≢ id
      → contains (before_matches (find_rule prev id)) e ≡ false
  unfolding contains
  before_matches-away prev id e sep away = elim (Option-cases (find_rule prev id)) [
    | inl absent ↦ rw absent refl
    | inr (b, found) ↦
        let (same, at, _) = find_rule-found prev id b sep found in
        rw found (contains-away home b.matches e b.id at (λ p. away (p ∙ same)))
  ]

  pub rule_ops-away :
      (prev : List CompiledRule) (r : CompiledRule) (e : MatchEntry) (v : Option RuleRef)
      → Separate home prev
      → All (λ x. home x ≡ r.id) r.matches
      → home e ≢ r.id
      → track (rule_ops prev r) e v ≡ some v
  rule_ops-away prev r e v sep at away =
      rule_ops_parts prev r e v v v
        (upsert_matches_out (find_rule prev r.id) r e r.matches v
          (contains-away home r.matches e r.id at away))
        (remove_stale_out (find_rule prev r.id) r e (before_matches (find_rule prev r.id)) v
          (before_matches-away prev r.id e sep away))

  pub rule_ops-own :
      (prev : List CompiledRule) (r : CompiledRule) (e : MatchEntry)
      → Separate home prev
      → track (rule_ops prev r) e (listed (find_rule prev r.id) e) ≡ some (listed (some r) e)
  rule_ops-own prev r e sep =
      let before = find_rule prev r.id in
      let old = listed before e in
      elim (Bool-cases (contains r.matches e)) [
        | inl holds ↦ elim (Bool-cases (same_match before r e)) [
          | inl same ↦
              rule_ops_parts prev r e old old (listed (some r) e)
                (upsert_matches_same before r e r.matches old same)
                (remove_stale_listed before r e (before_matches before) old holds
                  ∙ ap some (
                      same_match-listed before r e
                        (λ b found. (find_rule-found prev r.id b sep found).0) holds same))
          | inr new ↦
              rule_ops_parts prev r e old (some (ref_of r)) (listed (some r) e)
                (upsert_matches_in before r e r.matches old new holds)
                (remove_stale_listed before r e (before_matches before) (some (ref_of r)) holds
                  ∙ ap (λ c. some (if c then some (ref_of r) else none)) (sym holds))
        ]
        | inr lacks ↦
            rule_ops_parts prev r e old old (listed (some r) e)
              (upsert_matches_out before r e r.matches old lacks)
              (remove_stale-listed before r e (λ b found. (find_rule-found prev r.id b sep found).2)
                lacks)
      ]
