-- ===== src/Interfaces/Boundary.antt =====
-- The Device Boundary: `resolve_selectors` of zimascoped/src/collector/interfaces.rs. What the file
-- system says while the selectors are resolved is the record `SystemView`.
use zima_scope.Base.{ℕ, Bool, true, false, Option, some, none, List, [], ◌∷◌, map, if◌then◌else◌}
use zima_scope.Fingerprints.Match.{same_bytes}

-- `InterfaceSelector` of zimascoped/src/collector/mod.rs.
pub data InterfaceSelector : Type 0 where
  default_route : InterfaceSelector
  name : List ℕ → InterfaceSelector
  index : ℕ → InterfaceSelector

-- `InterfaceSelector::from_names`.
unfoldable pub from_names : List (List ℕ) → List InterfaceSelector
from_names [] = default_route ∷ []
from_names (text ∷ texts) = map name (text ∷ texts)

-- `default_route_for`, where a failure counts as no route, `name_for_index` and `ifindex_for_name`.
pub record SystemView : Type 0 where
  pub default_route_for : Option (List ℕ)
  pub name_for_index : ℕ → Option (List ℕ)
  pub ifindex_for_name : List ℕ → Option ℕ

-- The texts of `pending`.
pub data PendingLabel : Type 0 where
  no_default_route : PendingLabel
  no_index : ℕ → PendingLabel
  no_name : List ℕ → PendingLabel

pub record ResolvedBoundary : Type 0 where
  pub interfaces : List (ℕ × List ℕ)
  pub pending : List PendingLabel

pub data Resolution : Type 0 where
  no_interfaces : Resolution
  duplicate : List ℕ → Resolution
  resolved : ResolvedBoundary → Resolution

-- A name that is known, or what is pushed to `pending`.
pub data Lookup : Type 0 where
  found : List ℕ → Lookup
  missing : PendingLabel → Lookup

abbrev pub found_or : Option (List ℕ) → PendingLabel → Lookup
found_or none label = missing label
found_or (some text) label = found text

module _ (system : SystemView) where
  abbrev pub name_of : InterfaceSelector → Lookup
  name_of default_route = found_or system.default_route_for no_default_route
  name_of (name text) = found text
  name_of (index ifindex) = found_or (system.name_for_index ifindex) (no_index ifindex)

  -- One round of the loop, in front of what the later rounds push.
  unfoldable pub push_name : List ℕ → ResolvedBoundary → ResolvedBoundary
  push_name text later = elim (system.ifindex_for_name text) [
    | none ↦ record { interfaces = later.interfaces; pending = no_name text ∷ later.pending }
    | some ifindex ↦ record {
      interfaces = (ifindex, text) ∷ later.interfaces;
      pending = later.pending;
    }
  ]

  unfoldable pub push_lookup : Lookup → ResolvedBoundary → ResolvedBoundary
  push_lookup (found text) later = push_name text later
  push_lookup (missing label) later = record {
    interfaces = later.interfaces;
    pending = label ∷ later.pending;
  }

  unfoldable pub resolve_all : List InterfaceSelector → ResolvedBoundary
  resolve_all [] = record { interfaces = []; pending = [] }
  resolve_all (selector ∷ selectors) = push_lookup (name_of selector) (resolve_all selectors)

unfoldable pub is_known : List ℕ → List (List ℕ) → Bool
is_known text [] = false
is_known text (earlier ∷ seen) =
    let rest = is_known text seen in if same_bytes earlier text then true else rest

-- The first name that stands earlier in the list, where `seen` are the names before it.
unfoldable pub find_duplicate : List (List ℕ) → List (ℕ × List ℕ) → Option (List ℕ)
find_duplicate seen [] = none
find_duplicate seen ((ifindex, text) ∷ interfaces) =
    let rest = find_duplicate (text ∷ seen) interfaces in
    if is_known text seen then some text else rest

unfoldable pub or_duplicate : Option (List ℕ) → ResolvedBoundary → Resolution
or_duplicate (some text) boundary = duplicate text
or_duplicate none boundary = resolved boundary

unfoldable pub resolve_selectors : SystemView → List InterfaceSelector → Resolution
resolve_selectors system [] = no_interfaces
resolve_selectors system (selector ∷ selectors) =
    let boundary = resolve_all system (selector ∷ selectors) in
    or_duplicate (find_duplicate [] boundary.interfaces) boundary
