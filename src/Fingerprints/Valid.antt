-- ===== src/Fingerprints/Valid.antt =====
-- What the validation of zimascoped/src/collector/fingerprint.rs lets through.
use zima_scope.Base.{
  ℕ, ◌≤◌, ◌≡◌, refl, arith, Bool, true, false, not, ◌||◌, ◌&&◌, List, [], ◌∷◌, ◌==◌, ltb, leb,
  length, All,
}
use mathlib.Core.Path.{subst}
use zima_scope.Fingerprints.Match.{
  Predicate, min_len, prefix_text, prefix_text_any, bytes, byte, int, builtin, CompiledRule,
}
use zima_scope.Fingerprints.Compile.{
  PredicateSpec, RuleSpec, FingerprintError, Outcome, refused, accepted, unless, ◌>>=◌, utf8, trim,
  is_empty, is_bad_text, max_offset, max_rules, max_predicates_per_rule, max_service_name,
  parse_hex, compile_texts, compile_predicate, compile_predicates, compile_rule, compile_rules,
  from_document,
}

-- `P` holds of what is accepted.
record Accepts {A : Type 0} (P : A → Type 0) (o : Outcome A) : Type 0 where
  of_accepted : (a : A) → o ≡ accepted a → P a

module _ {A : Type 0} {P : A → Type 0} where
  refused-Accepts : {reason : FingerprintError} → Accepts P (refused reason)
  refused-Accepts = record { of_accepted = λ a e. absurd (ground arith) }

  accepted-Accepts : {a : A} → P a → Accepts P (accepted a)
  accepted-Accepts {a} h = record {
    of_accepted = λ b e. subst (λ o. elim o [ refused _ ↦ P a | accepted c ↦ P c ]) e h;
  }

  unless-Accepts :
      (test : Bool) (reason : FingerprintError) {rest : Outcome A}
      → (test ≡ false → Accepts P rest)
      → Accepts P (unless test reason rest)
  unfolding unless
  unless-Accepts true reason h = refused-Accepts
  unless-Accepts false reason h = h refl

  bind-Accepts :
      {B : Type 0} (o : Outcome B) {f : B → Outcome A}
      → ((b : B) → o ≡ accepted b → Accepts P (f b))
      → Accepts P (o >>= f)
  bind-Accepts (refused reason) h = refused-Accepts
  bind-Accepts (accepted b) h = h b refl

abbrev IsText : List ℕ → Type 0
IsText text = (1 ≤ length text) × (length text ≤ 64)

-- The limits on a predicate.
unfoldable pub IsValidPredicate : Predicate → Type 0
IsValidPredicate (min_len minimum) = (1 ≤ minimum) × (minimum ≤ max_offset)
IsValidPredicate (prefix_text text) = IsText text
IsValidPredicate (prefix_text_any texts) = (1 ≤ length texts) × All IsText texts
IsValidPredicate (bytes offset wanted) = (offset ≤ max_offset) × IsText wanted
IsValidPredicate (byte offset mask compare) = (offset ≤ max_offset) × (is_empty compare ≡ false)
IsValidPredicate (int offset size endian compare) =
    (offset ≤ max_offset) × (1 ≤ size) × (size ≤ 4) × (is_empty compare ≡ false)
IsValidPredicate (builtin name) = Unit {0}

compile_texts-IsText :
    (values : List (List ℕ))
    → Accepts (λ texts. All IsText texts × (length texts ≡ length values)) (compile_texts values)
unfolding compile_texts
compile_texts-IsText [] = accepted-Accepts (tt, refl)
compile_texts-IsText (value ∷ values) = unless-Accepts (is_bad_text value) _ (λ fits.
    bind-Accepts (compile_texts values) (λ texts e.
      let (all, size) = (compile_texts-IsText values).of_accepted texts e in
      accepted-Accepts {a = utf8 value ∷ texts} (((ground arith, ground arith), all), omega arith)))

compile_predicate-IsValid :
    (spec : PredicateSpec) → Accepts IsValidPredicate (compile_predicate spec)
unfolding compile_predicate IsValidPredicate
compile_predicate-IsValid (PredicateSpec.min_len value) =
    unless-Accepts _ _ (λ fits. accepted-Accepts {a = min_len value} (ground arith, ground arith))
compile_predicate-IsValid (PredicateSpec.prefix_text value) =
    unless-Accepts _ _
      (λ fits. accepted-Accepts {a = prefix_text (utf8 value)} (ground arith, ground arith))
compile_predicate-IsValid (PredicateSpec.prefix_text_any values) =
    unless-Accepts (length values == 0) _ (λ some_values.
      bind-Accepts (compile_texts values) (λ texts e.
        let (all, size) = (compile_texts-IsText values).of_accepted texts e in
        accepted-Accepts {a = prefix_text_any texts} (ground (arith, size), all)))
compile_predicate-IsValid (PredicateSpec.bytes offset hex) =
    unless-Accepts (ltb max_offset offset) _ (λ near. bind-Accepts (parse_hex hex) (λ wanted _.
      unless-Accepts (length wanted == 0 || ltb 64 (length wanted)) _ (λ fits.
        accepted-Accepts {a = bytes offset wanted} (ground arith, (ground arith, ground arith)))))
compile_predicate-IsValid (PredicateSpec.byte offset mask compare) =
    unless-Accepts (ltb max_offset offset) _ (λ near.
      unless-Accepts (is_empty compare) _
        (λ given. accepted-Accepts {a = byte offset mask compare} (ground arith, given)))
compile_predicate-IsValid (PredicateSpec.int offset size endian compare) =
    unless-Accepts (ltb max_offset offset) _ (λ near.
      unless-Accepts (not (leb 1 size && leb size 4)) _ (λ fits.
        unless-Accepts (is_empty compare) _ (λ given.
          accepted-Accepts {a = int offset size endian compare}
            (ground arith, ground arith, ground arith, given))))
compile_predicate-IsValid (PredicateSpec.builtin name) = accepted-Accepts tt

compile_predicates-IsValid :
    (specs : List PredicateSpec)
    → Accepts
        (λ predicates. All IsValidPredicate predicates × (length predicates ≡ length specs))
        (compile_predicates specs)
unfolding compile_predicates
compile_predicates-IsValid [] = accepted-Accepts (tt, refl)
compile_predicates-IsValid (spec ∷ specs) = bind-Accepts (compile_predicate spec) (λ predicate one.
    bind-Accepts (compile_predicates specs) (λ predicates more.
      let (all, size) = (compile_predicates-IsValid specs).of_accepted predicates more in
      accepted-Accepts {a = predicate ∷ predicates}
        (((compile_predicate-IsValid spec).of_accepted predicate one, all), omega arith)))

-- The limits on a rule.
abbrev pub IsValidRule : CompiledRule → Type 0
IsValidRule rule =
    (1 ≤ length rule.service)
    × (length rule.service ≤ max_service_name)
    × (1 ≤ length rule.predicates)
    × (length rule.predicates ≤ max_predicates_per_rule)
    × All IsValidPredicate rule.predicates

compile_rule-IsValid : (spec : RuleSpec) → Accepts IsValidRule (compile_rule spec)
unfolding compile_rule
compile_rule-IsValid spec =
    let service = utf8 (trim spec.service) in
    unless-Accepts (length service == 0) _ (λ named.
      unless-Accepts (ltb max_service_name (length service)) _ (λ short.
        unless-Accepts (length spec.predicates == 0) _ (λ given.
          unless-Accepts (ltb max_predicates_per_rule (length spec.predicates)) _ (λ few.
            bind-Accepts (compile_predicates spec.predicates) (λ predicates e.
              let (all, size) =
                (compile_predicates-IsValid spec.predicates).of_accepted predicates e in
              accepted-Accepts {a = record { service = service; predicates = predicates }}
                (ground arith, ground arith, ground (arith, size), ground (arith, size), all))))))

compile_rules-IsValid :
    (specs : List RuleSpec)
    → Accepts (λ rules. All IsValidRule rules × (length rules ≡ length specs)) (compile_rules specs)
unfolding compile_rules
compile_rules-IsValid [] = accepted-Accepts (tt, refl)
compile_rules-IsValid (spec ∷ specs) = bind-Accepts (compile_rule spec) (λ rule one.
    bind-Accepts (compile_rules specs) (λ rules more.
      let (all, size) = (compile_rules-IsValid specs).of_accepted rules more in
      accepted-Accepts {a = rule ∷ rules}
        (((compile_rule-IsValid spec).of_accepted rule one, all), omega arith)))

from_document-Accepts :
    (specs : List RuleSpec)
    → Accepts
        (λ rules.
          All IsValidRule rules
          × (length rules ≡ length specs)
          × (1 ≤ length rules)
          × (length rules ≤ max_rules))
        (from_document specs)
unfolding from_document
from_document-Accepts specs = unless-Accepts (length specs == 0) _ (λ given.
    unless-Accepts (ltb max_rules (length specs)) _ (λ few. record {
      of_accepted = λ rules e.
          let (all, size) = (compile_rules-IsValid specs).of_accepted rules e in
          (all, size, ground (arith, size), ground (arith, size));
    }))

-- A library that is accepted has as many rules as the document, from 1 to 512; every rule has a service
-- name of 1 to 32 bytes and 1 to 16 predicates; and every predicate is within its limits: offsets of at
-- most 4096, integers of one to four bytes, texts and byte strings of 1 to 64 bytes, and comparisons
-- that are not empty.
pub from_document-IsValidRule :
    (specs : List RuleSpec) (rules : List CompiledRule)
    → from_document specs ≡ accepted rules
    → All IsValidRule rules
      × (length rules ≡ length specs)
      × (1 ≤ length rules)
      × (length rules ≤ max_rules)
from_document-IsValidRule specs rules e = (from_document-Accepts specs).of_accepted rules e
