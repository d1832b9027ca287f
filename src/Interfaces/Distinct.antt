-- ===== src/Interfaces/Distinct.antt =====
-- What `resolve_selectors` of zimascoped/src/collector/interfaces.rs returns.
use zima_scope.Base.{ℕ, ◌+◌, ◌≡◌, ◌≢◌, false, some, List, [], ◌∷◌, length, All}
use zima_scope.Interfaces.Boundary.{
  InterfaceSelector, SystemView, ResolvedBoundary, Resolution, no_interfaces, duplicate, resolved,
  resolve_all, is_known,
}

-- No two interfaces have one name.
unfoldable pub IsDistinct : List (ℕ × List ℕ) → Type 0
IsDistinct [] = Unit {0}
IsDistinct ((ifindex, text) ∷ interfaces) =
    All (λ other. other.1 ≢ text) interfaces × IsDistinct interfaces

abbrev AreNew : List (List ℕ) → List (ℕ × List ℕ) → Type 0
AreNew seen interfaces = All (λ other. is_known (other.1) seen ≡ false) interfaces

module _ (system : SystemView) where
  -- Every interface has the index that the system gives for its name.
  abbrev pub AreNamed : List (ℕ × List ℕ) → Type 0
  AreNamed interfaces = All (λ entry. system.ifindex_for_name (entry.1) ≡ some (entry.0)) interfaces

  -- Every selector is resolved or pending.
  abbrev pub Covers : ℕ → ResolvedBoundary → Type 0
  Covers n boundary =
      AreNamed boundary.interfaces × (length boundary.interfaces + length boundary.pending ≡ n)

  -- What the answer says.
  unfoldable pub Answers : List InterfaceSelector → Resolution → Type 0
  Answers selectors no_interfaces = selectors ≡ []
  Answers selectors (duplicate text) = ¬ IsDistinct ((resolve_all system selectors).interfaces)
  Answers selectors (resolved boundary) =
      IsDistinct boundary.interfaces × Covers (length selectors) boundary
