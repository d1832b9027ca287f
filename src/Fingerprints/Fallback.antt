-- ===== src/Fingerprints/Fallback.antt =====
-- The library that zimascoped/src/collector/fingerprint.rs loads, whatever the file holds.
use mathlib.Core.Path.{subst}
use zima_scope.Base.{ℕ, ◌≤◌, ◌≡◌, refl, ◌⊎◌, inl, inr, true, false, Option, List, length, All}
use zima_scope.Domains.Options.{by_option}
use zima_scope.Fingerprints.Compile.{
  RuleSpec, FingerprintError, Outcome, refused, accepted, ◌>>=◌, from_document, max_rules,
}
use zima_scope.Fingerprints.Library.{
  FingerprintLibrary, FileRead, contents, not_found, unreadable, from_json, default_library,
  or_default, load_or_default,
}
use zima_scope.Fingerprints.Valid.{IsValidRule, from_document-IsValidRule}

-- Every rule is within the limits, and so is their number.
abbrev pub IsValidLibrary : FingerprintLibrary → Type 0
IsValidLibrary library =
    All IsValidRule library.rules × (1 ≤ length library.rules) × (length library.rules ≤ max_rules)

-- The library of a text that was given, and the embedded one.
abbrev pub IsCustom : List ℕ → FingerprintLibrary → Type 0
IsCustom raw library = IsValidLibrary library × (library.raw ≡ raw) × (library.custom ≡ true)

abbrev pub IsDefault : List ℕ → FingerprintLibrary → Type 0
IsDefault embedded library =
    IsValidLibrary library × (library.raw ≡ embedded) × (library.custom ≡ false)

-- What is loaded is the file's library or the embedded one.
abbrev pub Loaded : List ℕ → FileRead → FingerprintLibrary → Type 0
Loaded embedded file library =
    ((raw : List ℕ) × (file ≡ contents raw) × IsCustom raw library) ⊎ IsDefault embedded library

by_outcome :
    {A : Type 0} {B : Type 0} (P : Outcome A → Type 0) (o : Outcome B) {f : B → Outcome A}
    → ((reason : FingerprintError) → P (refused reason))
    → ((b : B) → o ≡ accepted b → P (f b))
    → P (o >>= f)
by_outcome P (refused reason) h k = h reason
by_outcome P (accepted b) h k = k b refl

-- What `from_json` accepts.
Read : List ℕ → Outcome FingerprintLibrary → Type 0
Read raw (refused reason) = Unit {0}
Read raw (accepted library) = IsCustom raw library

module _ (parse : List ℕ → Option (List RuleSpec)) (embedded : List ℕ) where
  from_json-Read : (raw : List ℕ) → Read raw (from_json parse embedded raw)
  unfolding from_json Read
  from_json-Read raw = by_option (Read raw) (parse raw) tt (λ document _.
      by_outcome (Read raw) (from_document document) (λ _. tt)
        (λ rules e.
          let (valid, _, given, few) = from_document-IsValidRule document rules e in
          ((valid, given, few), refl, refl)))

  embedded_loads :
      (shipped : FingerprintLibrary)
      → from_json parse embedded embedded ≡ accepted shipped
      → (library : FingerprintLibrary) × (default_library parse embedded ≡ accepted library)
        × IsDefault embedded library
  unfolding default_library Read
  embedded_loads shipped e =
      let (valid, same, _) : IsCustom embedded shipped =
        subst (Read embedded) e (from_json-Read embedded) in
      (
        record { rules = shipped.rules; raw = shipped.raw; custom = false },
        rw e refl,
        (valid, same, refl),
      )

  or_default-Loaded :
      (raw : List ℕ) (o : Outcome FingerprintLibrary) (shipped : FingerprintLibrary)
      → from_json parse embedded embedded ≡ accepted shipped
      → Read raw o
      → (library : FingerprintLibrary) × (or_default o (default_library parse embedded)
          ≡ accepted library)
        × Loaded embedded (contents raw) library
  unfolding or_default Read
  or_default-Loaded raw (accepted library) shipped e h = (library, refl, inl (raw, refl, h))
  or_default-Loaded raw (refused reason) shipped e h =
      let (library, loads, is_default) = embedded_loads shipped e in
      (library, loads, inr is_default)

  -- Where the embedded document is accepted, `load_or_default` returns a library for every outcome of
  -- the reading of the file, and that library is valid: it is the file's own, marked as custom, or the
  -- embedded one, which is not.
  pub load_or_default-Loaded :
      (shipped : FingerprintLibrary) (file : FileRead)
      → from_json parse embedded embedded ≡ accepted shipped
      → (library : FingerprintLibrary) × (load_or_default parse embedded file ≡ accepted library)
        × Loaded embedded file library
  unfolding load_or_default
  load_or_default-Loaded shipped not_found e =
      let (library, loads, is_default) = embedded_loads shipped e in
      (library, loads, inr is_default)
  load_or_default-Loaded shipped unreadable e =
      let (library, loads, is_default) = embedded_loads shipped e in
      (library, loads, inr is_default)
  load_or_default-Loaded shipped (contents raw) e =
      or_default-Loaded raw (from_json parse embedded raw) shipped e (from_json-Read raw)
