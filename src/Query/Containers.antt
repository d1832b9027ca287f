-- ===== src/Query/Containers.antt =====
-- `CgroupIndex` of zimascoped/src/cgroup.rs. What the walk over the cgroup tree finds, each inode once with
-- the container that owns it, is an argument, as is the time. A container is a text.
use native.Mathlib.Decide.{ℕ_discrete}
use zima_scope.Base.Assoc.{get, insert}
use zima_scope.Base.{
  ℕ, ◌-◌, Bool, true, Option, some, none, List, [], ◌∷◌, ◌++◌, leb, if◌then◌else◌,
}
use zima_scope.Tracker.Clock.{secs}

unfoldable pub Text-discrete : Discrete (List ℕ)
Text-discrete = hlevel ℕ_discrete

abbrev pub index_refresh : ℕ
index_refresh = secs 5

pub record CgroupIndex : Type 0 where
  pub by_inode : List (ℕ × Option (List ℕ))
  pub by_container : List (List ℕ × List ℕ)
  pub refreshed_at : Option ℕ

abbrev pub empty_index : CgroupIndex
empty_index = record { by_inode = []; by_container = []; refreshed_at = none }

abbrev pub or_empty : Option (List ℕ) → List ℕ
or_empty none = []
or_empty (some inodes) = inodes

-- One round of the loop of `refresh`: `entry(..).or_default().push(inode)`.
unfoldable pub push_inode : List (List ℕ × List ℕ) → ℕ → Option (List ℕ) → List (List ℕ × List ℕ)
push_inode by_container inode none = by_container
push_inode by_container inode (some container) =
    let inodes = or_empty (get Text-discrete container by_container) in
    insert Text-discrete container (inodes ++ (inode ∷ [])) by_container

unfoldable pub group : List (List ℕ × List ℕ) → List (ℕ × Option (List ℕ)) → List (List ℕ × List ℕ)
group by_container [] = by_container
group by_container ((inode, container) ∷ entries) =
    group (push_inode by_container inode container) entries

unfoldable pub refresh : List (ℕ × Option (List ℕ)) → ℕ → CgroupIndex
refresh walked now = record {
  by_inode = walked;
  by_container = group [] walked;
  refreshed_at = some now;
}

unfoldable pub is_stale : Option ℕ → ℕ → Bool
is_stale none now = true
is_stale (some at) now = leb index_refresh (now - at)

unfoldable pub refresh_if_stale : CgroupIndex → List (ℕ × Option (List ℕ)) → ℕ → CgroupIndex
refresh_if_stale index walked now =
    if is_stale index.refreshed_at now then refresh walked now else index

unfoldable pub inodes_for_container :
    CgroupIndex → List (ℕ × Option (List ℕ)) → ℕ → List ℕ → CgroupIndex × List ℕ
inodes_for_container index walked now container =
    let refreshed = refresh_if_stale index walked now in
    (refreshed, or_empty (get Text-discrete container refreshed.by_container))

abbrev pub joined : Option (Option (List ℕ)) → Option (List ℕ)
joined none = none
joined (some container) = container

unfoldable pub container_for_inode :
    CgroupIndex → List (ℕ × Option (List ℕ)) → ℕ → ℕ → CgroupIndex × Option (List ℕ)
container_for_inode index walked now inode =
    let refreshed : CgroupIndex = elim (get ℕ_discrete inode index.by_inode) [
      | some container ↦ index
      | none ↦ refresh_if_stale index walked now
    ] in
    (refreshed, joined (get ℕ_discrete inode refreshed.by_inode))

-- The inodes of a container in what a walk finds.
abbrev pub inodes_of : List ℕ → List (ℕ × Option (List ℕ)) → List ℕ
inodes_of container [] = []
inodes_of container ((inode, none) ∷ entries) = inodes_of container entries
inodes_of container ((inode, some owner) ∷ entries) =
    let rest = inodes_of container entries in
    elim (Text-discrete owner container) [ yes same ↦ inode ∷ rest | no ne ↦ rest ]
