-- ===== src/Fingerprints/Compile.antt =====
-- The validation of a library in zimascoped/src/collector/fingerprint.rs. A text is the list of its code
-- points, and its length is that of its UTF-8 form, as in the source.
use zima_scope.Base.{
  ℕ, ◌+◌, ◌*◌, ◌-◌, ◌/◌, ◌%◌, Bool, true, false, not, ◌&&◌, ◌||◌, Option, some, none, List, [], ◌∷◌,
  ◌++◌, ◌==◌, ltb, leb, if◌then◌else◌, length,
}
use zima_scope.Fingerprints.Match.{Endian, Compare, Builtin, Predicate, CompiledRule}

abbrev pub max_offset : ℕ
max_offset = 4096

abbrev pub max_rules : ℕ
max_rules = 512

abbrev pub max_predicates_per_rule : ℕ
max_predicates_per_rule = 16

abbrev pub max_service_name : ℕ
max_service_name = 32

-- The document's predicates and rules.
pub data PredicateSpec : Type 0 where
  min_len : ℕ → PredicateSpec
  prefix_text : List ℕ → PredicateSpec
  prefix_text_any : List (List ℕ) → PredicateSpec
  bytes : ℕ → List ℕ → PredicateSpec
  byte : ℕ → Option ℕ → Compare → PredicateSpec
  int : ℕ → ℕ → Endian → Compare → PredicateSpec
  builtin : Builtin → PredicateSpec

pub record RuleSpec : Type 0 where
  pub service : List ℕ
  pub predicates : List PredicateSpec

-- The reasons of a refusal, without the rule's index and name, which the source puts in front.
pub data FingerprintError : Type 0 where
  no_rules too_many_rules empty_service long_service no_predicates too_many_predicates :
      FingerprintError
  bad_min_len no_prefixes bad_text bad_offset bad_size empty_compare odd_hex invalid_hex bad_bytes
        invalid_json :
      FingerprintError

-- `Result<T, FingerprintError>`.
pub data Outcome (A : Type 0) : Type 0 where
  refused : FingerprintError → Outcome A
  accepted : A → Outcome A

infixl 5 ◌>>=◌
abbrev pub ◌>>=◌ : {A B : Type 0} → Outcome A → (A → Outcome B) → Outcome B
refused reason >>= next = refused reason
accepted value >>= next = next value

-- A guard: an early `return Err`.
unfoldable pub unless : {A : Type 0} → Bool → FingerprintError → Outcome A → Outcome A
unless true reason rest = refused reason
unless false reason rest = rest

-- The UTF-8 form of a code point, and of a text.
abbrev pub utf8_char : ℕ → List ℕ
utf8_char c =
    if ltb c 0x80
    then c ∷ []
    else if ltb c 0x800
    then (0xC0 + c / 64) ∷ (0x80 + c % 64) ∷ []
    else if ltb c 0x10000
    then (0xE0 + c / 4096) ∷ (0x80 + c / 64 % 64) ∷ (0x80 + c % 64) ∷ []
    else (0xF0 + c / 262144) ∷ (0x80 + c / 4096 % 64) ∷ (0x80 + c / 64 % 64) ∷ (0x80 + c % 64) ∷ []

unfoldable pub utf8 : List ℕ → List ℕ
utf8 [] = []
utf8 (c ∷ text) = utf8_char c ++ utf8 text

-- `char::is_whitespace`.
abbrev pub is_whitespace : ℕ → Bool
is_whitespace c =
    leb 9 c && leb c 13
    || c == 0x20
    || c == 0x85
    || c == 0xA0
    || c == 0x1680
    || leb 0x2000 c && leb c 0x200A
    || c == 0x2028
    || c == 0x2029
    || c == 0x202F
    || c == 0x205F
    || c == 0x3000

-- `trim`: without the white space at the front, and without it at the end.
unfoldable pub trim_start : List ℕ → List ℕ
trim_start [] = []
trim_start (c ∷ text) = let rest = trim_start text in if is_whitespace c then rest else c ∷ text

unfoldable pub trim_end : List ℕ → List ℕ
trim_end [] = []
trim_end (c ∷ text) = elim (trim_end text) [
  | [] ↦ if is_whitespace c then [] else c ∷ []
  | d ∷ rest ↦ c ∷ d ∷ rest
]

abbrev pub trim : List ℕ → List ℕ
trim text = trim_end (trim_start text)

abbrev pub is_none : {A : Type 0} → Option A → Bool
is_none none = true
is_none (some value) = false

unfoldable pub is_empty : Compare → Bool
is_empty c =
    is_none c.eq
    && is_none c.ne
    && is_none c.lt
    && is_none c.lte
    && is_none c.gt
    && is_none c.gte
    && is_none c.among

abbrev pub is_bad_text : List ℕ → Bool
is_bad_text value = length (utf8 value) == 0 || ltb 64 (length (utf8 value))

-- `chars().filter(|char| !char.is_whitespace())`.
unfoldable pub compact : List ℕ → List ℕ
compact [] = []
compact (c ∷ text) = let rest = compact text in if is_whitespace c then rest else c ∷ rest

abbrev pub hex_digit : ℕ → Option ℕ
hex_digit c =
    if leb b'0' c && leb c b'9'
    then some (c - b'0')
    else if leb b'a' c && leb c b'f'
    then some (c - b'a' + 10)
    else if leb b'A' c && leb c b'F'
    then some (c - b'A' + 10)
    else none

abbrev pub digit : ℕ → Outcome ℕ
digit c = elim (hex_digit c) [ none ↦ refused invalid_hex | some value ↦ accepted value ]

-- `u8::from_str_radix` on one and on two characters; it takes a sign before a digit.
abbrev pub hex_pair : ℕ → ℕ → Outcome ℕ
hex_pair c d =
    if c == b'+' then digit d else (do high ← digit c; low ← digit d; accepted (high * 16 + low))

-- The loop over the pairs; the last one has one character where the count is odd.
unfoldable pub hex_pairs : List ℕ → Outcome (List ℕ)
hex_pairs [] = accepted []
hex_pairs (c ∷ []) = do value ← digit c; accepted (value ∷ [])
hex_pairs (c ∷ d ∷ text) = do value ← hex_pair c d; rest ← hex_pairs text; accepted (value ∷ rest)

unfoldable pub parse_hex : List ℕ → Outcome (List ℕ)
parse_hex value =
    unless (not (length (utf8 (compact value)) % 2 == 0)) odd_hex (hex_pairs (compact value))

unfoldable pub compile_texts : List (List ℕ) → Outcome (List (List ℕ))
compile_texts [] = accepted []
compile_texts (value ∷ values) =
    unless (is_bad_text value) bad_text
      (do rest ← compile_texts values; accepted (utf8 value ∷ rest))

unfoldable pub compile_predicate : PredicateSpec → Outcome Predicate
compile_predicate (min_len value) =
    unless (value == 0 || ltb max_offset value) bad_min_len (accepted (Predicate.min_len value))
compile_predicate (prefix_text value) =
    unless (is_bad_text value) bad_text (accepted (Predicate.prefix_text (utf8 value)))
compile_predicate (prefix_text_any values) =
    unless (length values == 0) no_prefixes
      (do texts ← compile_texts values; accepted (Predicate.prefix_text_any texts))
compile_predicate (bytes offset hex) = unless (ltb max_offset offset) bad_offset (do
  wanted ← parse_hex hex
  unless (length wanted == 0 || ltb 64 (length wanted)) bad_bytes
      (accepted (Predicate.bytes offset wanted)))
compile_predicate (byte offset mask compare) =
    unless (ltb max_offset offset) bad_offset
      (unless (is_empty compare) empty_compare (accepted (Predicate.byte offset mask compare)))
compile_predicate (int offset size endian compare) = unless (ltb max_offset offset) bad_offset (
    unless (not (leb 1 size && leb size 4)) bad_size (
      unless (is_empty compare) empty_compare
        (accepted (Predicate.int offset size endian compare))))
compile_predicate (builtin name) = accepted (Predicate.builtin name)

unfoldable pub compile_predicates : List PredicateSpec → Outcome (List Predicate)
compile_predicates [] = accepted []
compile_predicates (spec ∷ specs) = do
  predicate ← compile_predicate spec
  rest ← compile_predicates specs
  accepted (predicate ∷ rest)

unfoldable pub compile_rule : RuleSpec → Outcome CompiledRule
compile_rule spec =
    let service = utf8 (trim spec.service) in
    unless (length service == 0) empty_service (
      unless (ltb max_service_name (length service)) long_service (
        unless (length spec.predicates == 0) no_predicates (
          unless (ltb max_predicates_per_rule (length spec.predicates)) too_many_predicates (do
            predicates ← compile_predicates spec.predicates
            accepted (record { service = service; predicates = predicates })))))

unfoldable pub compile_rules : List RuleSpec → Outcome (List CompiledRule)
compile_rules [] = accepted []
compile_rules (spec ∷ specs) = do
  rule ← compile_rule spec
  rest ← compile_rules specs
  accepted (rule ∷ rest)

-- `from_json` behind the reading of the document.
unfoldable pub from_document : List RuleSpec → Outcome (List CompiledRule)
from_document rules =
    unless (length rules == 0) no_rules
      (unless (ltb max_rules (length rules)) too_many_rules (compile_rules rules))
