-- ===== src/Fingerprints/Match.antt =====
-- The predicates of zimascoped/src/collector/fingerprint.rs on a payload, and `classify`.
use Prim.Native.Nat.{bit_and}
use zima_scope.Base.{
  ℕ, ◌+◌, ◌*◌, ◌^◌, Bool, true, false, not, ◌&&◌, Option, some, none, List, [], ◌∷◌, ◌==◌, ltb, leb,
  if◌then◌else◌, length, get_elem?, ◌>>=◌,
}
use zima_scope.Fingerprints.Question.{is_dns_query, is_yes, enough_rounds}
use zima_scope.Packet.Cursor.{slice}

pub data Endian : Type 0 where
  be le : Endian

pub record Compare : Type 0 where
  pub eq : Option ℕ
  pub ne : Option ℕ
  pub lt : Option ℕ
  pub lte : Option ℕ
  pub gt : Option ℕ
  pub gte : Option ℕ
  pub among : Option (List ℕ)

-- The one structural check is of DNS questions.
pub data Builtin : Type 0 where
  dns_query : Builtin

pub data Predicate : Type 0 where
  min_len : ℕ → Predicate
  prefix_text : List ℕ → Predicate
  prefix_text_any : List (List ℕ) → Predicate
  bytes : ℕ → List ℕ → Predicate
  byte : ℕ → Option ℕ → Compare → Predicate
  int : ℕ → ℕ → Endian → Compare → Predicate
  builtin : Builtin → Predicate

pub record CompiledRule : Type 0 where
  pub service : List ℕ
  pub predicates : List Predicate

-- A bound that is not given holds.
abbrev pub holds : {A : Type 0} → Option A → (A → Bool) → Bool
holds none test = true
holds (some bound) test = test bound

unfoldable pub contains : List ℕ → ℕ → Bool
contains [] value = false
contains (x ∷ xs) value = let rest = contains xs value in if x == value then true else rest

unfoldable pub compare_matches : Compare → ℕ → Bool
compare_matches c value =
    holds c.eq (λ eq. value == eq)
    && holds c.ne (λ ne. not (value == ne))
    && holds c.lt (λ lt. ltb value lt)
    && holds c.lte (λ lte. leb value lte)
    && holds c.gt (λ gt. ltb gt value)
    && holds c.gte (λ gte. leb gte value)
    && holds c.among (λ choices. contains choices value)

-- `starts_with`, and `==` on bytes.
unfoldable pub starts_with : List ℕ → List ℕ → Bool
starts_with payload [] = true
starts_with [] (b ∷ prefix) = false
starts_with (p ∷ payload) (b ∷ prefix) =
    let rest = starts_with payload prefix in if p == b then rest else false

unfoldable pub same_bytes : List ℕ → List ℕ → Bool
same_bytes [] [] = true
same_bytes [] (y ∷ ys) = false
same_bytes (x ∷ xs) [] = false
same_bytes (x ∷ xs) (y ∷ ys) = let rest = same_bytes xs ys in if x == y then rest else false

unfoldable pub any_prefix : List ℕ → List (List ℕ) → Bool
any_prefix payload [] = false
any_prefix payload (prefix ∷ prefixes) =
    let rest = any_prefix payload prefixes in if starts_with payload prefix then true else rest

-- The loops of `read_int`, with the value so far. At most four bytes are read, so that nothing is
-- shifted out of the 64 bits.
unfoldable pub big_endian : ℕ → List ℕ → ℕ
big_endian value [] = value
big_endian value (b ∷ window) = big_endian (value * 256 + b) window

unfoldable pub little_endian : ℕ → ℕ → List ℕ → ℕ
little_endian shift value [] = value
little_endian shift value (b ∷ window) = little_endian (shift + 1) (value + b * 256 ^ shift) window

unfoldable pub read_int : List ℕ → ℕ → ℕ → Endian → Option ℕ
read_int payload offset size endian = do
  window ← slice payload offset size
  some (elim endian [ be ↦ big_endian 0 window | le ↦ little_endian 0 0 window ])

abbrev pub masked : Option ℕ → ℕ → ℕ
masked none value = value
masked (some mask) value = bit_and value mask

unfoldable pub predicate_matches : Predicate → List ℕ → Bool
predicate_matches (min_len minimum) payload = leb minimum (length payload)
predicate_matches (prefix_text prefix) payload = starts_with payload prefix
predicate_matches (prefix_text_any prefixes) payload = any_prefix payload prefixes
predicate_matches (bytes offset wanted) payload =
    is_yes (do window ← slice payload offset (length wanted); some (same_bytes window wanted))
predicate_matches (byte offset mask compare) payload =
    is_yes (do value ← get_elem? payload offset; some (compare_matches compare (masked mask value)))
predicate_matches (int offset size endian compare) payload =
    is_yes (do value ← read_int payload offset size endian; some (compare_matches compare value))
predicate_matches (builtin dns_query) payload = is_yes (is_dns_query enough_rounds payload)

unfoldable pub all_match : List Predicate → List ℕ → Bool
all_match [] payload = true
all_match (predicate ∷ predicates) payload =
    let rest = all_match predicates payload in
    if predicate_matches predicate payload then rest else false

unfoldable pub classify : List CompiledRule → List ℕ → Option (List ℕ)
classify [] payload = none
classify (rule ∷ rules) payload =
    let later = classify rules payload in
    if all_match rule.predicates payload then some rule.service else later
