-- ===== src/Fingerprints/Library.antt =====
-- `FingerprintLibrary` of zimascoped/src/collector/fingerprint.rs: from a text or a file, with the
-- embedded library as the fallback. `parse` stands for `serde_json::from_str`, and `embedded` for the
-- document that ships inside the program.
use zima_scope.Base.{
  ℕ, Bool, true, false, Option, some, none, List, [], ◌∷◌, ◌==◌, ltb, if◌then◌else◌, map,
}
use zima_scope.Fingerprints.Match.{CompiledRule}
use zima_scope.Fingerprints.Compile.{
  RuleSpec, invalid_json, Outcome, refused, accepted, ◌>>=◌, from_document,
}

pub record FingerprintLibrary : Type 0 where
  pub rules : List CompiledRule
  pub raw : List ℕ
  pub custom : Bool

-- What the reading of a file comes to.
pub data FileRead : Type 0 where
  contents : List ℕ → FileRead
  not_found unreadable : FileRead

-- The order of `String`s, which is that of their bytes.
unfoldable pub text_lt : List ℕ → List ℕ → Bool
text_lt xs [] = false
text_lt [] (y ∷ ys) = true
text_lt (x ∷ xs) (y ∷ ys) =
    let rest = text_lt xs ys in if ltb x y then true else if x == y then rest else false

unfoldable pub insert_name : List ℕ → List (List ℕ) → List (List ℕ)
insert_name name [] = name ∷ []
insert_name name (other ∷ names) =
    let rest = insert_name name names in
    if text_lt name other
    then name ∷ other ∷ names
    else if text_lt other name
    then other ∷ rest
    else other ∷ names

-- `sort` and `dedup`: the names in order, each once.
unfoldable pub sorted_names : List (List ℕ) → List (List ℕ)
sorted_names [] = []
sorted_names (name ∷ names) = insert_name name (sorted_names names)

unfoldable pub services : FingerprintLibrary → List (List ℕ)
services library = sorted_names (map (λ rule. rule.service) library.rules)

unfoldable pub or_default :
    Outcome FingerprintLibrary → Outcome FingerprintLibrary → Outcome FingerprintLibrary
or_default (accepted library) fallback = accepted library
or_default (refused reason) fallback = fallback

module _ (parse : List ℕ → Option (List RuleSpec)) (embedded : List ℕ) where
  unfoldable pub from_json : List ℕ → Outcome FingerprintLibrary
  from_json raw = elim (parse raw) [
    | none ↦ refused invalid_json
    | some document ↦ do
      rules ← from_document document
      accepted (record { rules = rules; raw = raw; custom = true })
  ]

  -- A refusal is the panic of `expect`.
  unfoldable pub default_library : Outcome FingerprintLibrary
  default_library = do
    library ← from_json embedded
    accepted (record { rules = library.rules; raw = library.raw; custom = false })

  unfoldable pub load_or_default : FileRead → Outcome FingerprintLibrary
  load_or_default not_found = default_library
  load_or_default unreadable = default_library
  load_or_default (contents raw) = or_default (from_json raw) default_library
