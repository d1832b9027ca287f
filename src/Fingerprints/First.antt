-- ===== src/Fingerprints/First.antt =====
-- Which rule `classify` of zimascoped/src/collector/fingerprint.rs takes.
use mathlib.Core.Path.{subst}
use zima_scope.Base.{
  ℕ, suc, ◌≡◌, refl, sym, ap, arith, true, false, Option, some, none, List, [], ◌∷◌, if◌then◌else◌,
  get_elem?, take, All, Bool-cases, inl, inr,
}
use zima_scope.Fingerprints.Match.{Predicate, predicate_matches, all_match, CompiledRule, classify}

-- Some predicate of the list does not hold of the payload.
pub data Fails (payload : List ℕ) : List Predicate → Type 0 where
  here :
      (p : Predicate) (ps : List Predicate)
      → predicate_matches p payload ≡ false
      → Fails payload (p ∷ ps)
  later : (p : Predicate) (ps : List Predicate) → Fails payload ps → Fails payload (p ∷ ps)

all_match-true :
    (ps : List Predicate) (payload : List ℕ)
    → all_match ps payload ≡ true
    → All (λ p. predicate_matches p payload ≡ true) ps
unfolding all_match
all_match-true [] payload h = tt
all_match-true (p ∷ ps) payload h = elim (Bool-cases (predicate_matches p payload)) [
  | inl yes_match ↦ (yes_match, all_match-true ps payload (rw yes_match at h))
  | inr no_match ↦ absurd (ground arith)
]

all_match-false :
    (ps : List Predicate) (payload : List ℕ) → all_match ps payload ≡ false → Fails payload ps
unfolding all_match
all_match-false [] payload h = absurd (ground arith)
all_match-false (p ∷ ps) payload h = elim (Bool-cases (predicate_matches p payload)) [
  | inl yes_match ↦ later p ps (all_match-false ps payload (rw yes_match at h))
  | inr no_match ↦ here p ps no_match
]

-- The rule at `i` is the first one whose predicates all hold.
pub record IsFirst (rules : List CompiledRule) (payload service : List ℕ) : Type 0 where
  pub i : ℕ
  pub rule : CompiledRule
  pub at_i : get_elem? rules i ≡ some rule
  pub named : rule.service ≡ service
  pub matches : All (λ p. predicate_matches p payload ≡ true) rule.predicates
  pub earlier : All (λ other. Fails payload other.predicates) (take i rules)

-- What the answer says about the rules.
unfoldable pub Explained : List CompiledRule → List ℕ → Option (List ℕ) → Type 0
Explained rules payload none = All (λ rule. Fails payload rule.predicates) rules
Explained rules payload (some service) = IsFirst rules payload service

-- A rule that fails, in front of the others.
behind :
    (rule : CompiledRule) (rules : List CompiledRule) (payload : List ℕ) (answer : Option (List ℕ))
    → Fails payload rule.predicates
    → Explained rules payload answer
    → Explained (rule ∷ rules) payload answer
unfolding Explained
behind rule rules payload none h k = (h, k)
behind rule rules payload (some service) h k = record {
  i = suc k.i;
  rule = k.rule;
  at_i = k.at_i;
  named = k.named;
  matches = k.matches;
  earlier = (h, k.earlier);
}

-- The service that `classify` returns is that of the first rule of which every predicate holds of the
-- payload: each rule before it has a predicate that does not. Where it returns none, every rule has
-- such a predicate.
pub classify-Explained :
    (rules : List CompiledRule) (payload : List ℕ)
    → Explained rules payload (classify rules payload)
unfolding classify Explained
classify-Explained [] payload = tt
classify-Explained (rule ∷ rules) payload = elim (Bool-cases (all_match rule.predicates payload)) [
  | inl all_hold ↦
      subst (Explained (rule ∷ rules) payload)
        (sym (ap (λ b. if b then some rule.service else classify rules payload) all_hold))
        (record {
          i = 0;
          rule = rule;
          at_i = refl;
          named = refl;
          matches = all_match-true rule.predicates payload all_hold;
          earlier = tt;
        })
  | inr one_fails ↦
      subst (Explained (rule ∷ rules) payload)
        (sym (ap (λ b. if b then some rule.service else classify rules payload) one_fails))
        (behind rule rules payload (classify rules payload)
          (all_match-false rule.predicates payload one_fails) (classify-Explained rules payload))
]
