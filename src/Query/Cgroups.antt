-- ===== src/Query/Cgroups.antt =====
-- The targets of a container in zimascoped/src/query/resolver.rs.
use zima_scope.Base.{
  ℕ, ◌+◌, ◌<◌, ◌≡◌, refl, sym, ap, ◌∙◌, arith, Bool, false, ◌||◌, Option, List, [], ◌∷◌, ◌++◌, ltb,
  ◌==◌, if◌then◌else◌, map, All,
}
use zima_scope.Query.Agreement.{Request, inodes_for, serve_all, Made, inodes_for_container-Made}
use zima_scope.Query.Containers.{empty_index, index_refresh, inodes_for_container, inodes_of}
use zima_scope.Query.Resolving.{
  Messages, target_lt, insert_target, sorted_targets, complete_with, resolve_inodes,
  resolve_application_id, resolve,
}
use zima_scope.RulePolicy.Selectors.{app_cgroup, Selector, Resolution, cont_prefix}

abbrev pub contains : ℕ → List ℕ → Bool
contains id [] = false
contains id (x ∷ xs) = x == id || contains id xs

abbrev pub IsIncreasing : List ℕ → Type 0
IsIncreasing [] = Unit
IsIncreasing (x ∷ xs) = All (λ y. x < y) xs × IsIncreasing xs

abbrev pub insert_id : ℕ → List ℕ → List ℕ
insert_id c [] = c ∷ []
insert_id c (d ∷ ds) =
    let rest = insert_id c ds in
    if ltb c d then c ∷ d ∷ ds else if ltb d c then d ∷ rest else d ∷ ds

abbrev pub sorted_ids : List ℕ → List ℕ
sorted_ids [] = []
sorted_ids (c ∷ cs) = insert_id c (sorted_ids cs)

insert_target-map :
    (c : ℕ) (ds : List ℕ)
    → insert_target (app_cgroup c) (map app_cgroup ds) ≡ map app_cgroup (insert_id c ds)
unfolding insert_target target_lt
insert_target-map c [] = refl
insert_target-map c (d ∷ ds) = ground (arith, insert_target-map c ds)

sorted_targets-map :
    (cs : List ℕ) → sorted_targets (map app_cgroup cs) ≡ map app_cgroup (sorted_ids cs)
unfolding sorted_targets
sorted_targets-map [] = refl
sorted_targets-map (c ∷ cs) =
    ap (insert_target (app_cgroup c)) (sorted_targets-map cs) ∙ insert_target-map c (sorted_ids cs)

All-weaken : (c d : ℕ) (xs : List ℕ) → c < d → All (λ y. d < y) xs → All (λ y. c < y) xs
All-weaken c d [] lt all = tt
All-weaken c d (x ∷ xs) lt (first, all) = (omega arith, All-weaken c d xs lt all)

All-insert_id :
    (c d : ℕ) (xs : List ℕ) → d < c → All (λ y. d < y) xs → All (λ y. d < y) (insert_id c xs)
All-insert_id c d [] lt all = (lt, tt)
All-insert_id c d (x ∷ xs) lt (first, all) = ground (arith, All-insert_id c d xs lt all)

insert_id-IsIncreasing : (c : ℕ) (xs : List ℕ) → IsIncreasing xs → IsIncreasing (insert_id c xs)
insert_id-IsIncreasing c [] inc = (tt, tt)
insert_id-IsIncreasing c (x ∷ xs) (above, inc) =
    ground (arith, insert_id-IsIncreasing c xs inc, All-insert_id c x xs, All-weaken c x xs)

sorted_ids-IsIncreasing : (cs : List ℕ) → IsIncreasing (sorted_ids cs)
sorted_ids-IsIncreasing [] = tt
sorted_ids-IsIncreasing (c ∷ cs) =
    insert_id-IsIncreasing c (sorted_ids cs) (sorted_ids-IsIncreasing cs)

contains-insert_id :
    (id c : ℕ) (xs : List ℕ) → contains id (insert_id c xs) ≡ (c == id || contains id xs)
contains-insert_id id c [] = refl
contains-insert_id id c (x ∷ xs) = ground (arith, contains-insert_id id c xs)

contains-sorted_ids : (id : ℕ) (cs : List ℕ) → contains id (sorted_ids cs) ≡ contains id cs
contains-sorted_ids id [] = refl
contains-sorted_ids id (c ∷ cs) =
    contains-insert_id id c (sorted_ids cs) ∙ ap (λ b. c == id || b) (contains-sorted_ids id cs)

-- What a resolution of a container looks like, given the inodes that belong to it.
abbrev pub IsCgroups : List ℕ → Resolution → Type 0
IsCgroups inodes r =
    (ids : List ℕ) × (r.targets ≡ map app_cgroup ids)
    × IsIncreasing ids
    × ((id : ℕ) → contains id ids ≡ contains id inodes)

resolve_inodes-IsCgroups :
    (messages : Messages) (stored_comm : List ℕ → Option (List ℕ)) (container inodes : List ℕ)
    → IsCgroups inodes (resolve_inodes messages stored_comm container inodes)
unfolding resolve_inodes complete_with
resolve_inodes-IsCgroups messages stored_comm container [] = ([], refl, tt, λ id. refl)
resolve_inodes-IsCgroups messages stored_comm container (inode ∷ inodes) =
    let all = inode ∷ inodes in
    (
      sorted_ids all,
      sorted_targets-map all,
      sorted_ids-IsIncreasing all,
      λ id. contains-sorted_ids id all,
    )

-- Whatever the index was asked before, from the empty one on: a selector for the container resolves
-- to cgroup targets, each once and in order, for exactly the inodes that one walk found under that
-- container; the walk came with this request or an earlier one, less than five seconds ago.
pub resolve-IsCgroups :
    (messages : Messages) (stored_comm : List ℕ → Option (List ℕ))
    (requests : List (List (ℕ × Option (List ℕ)) × ℕ × Request))
    (walked : List (ℕ × Option (List ℕ))) (now : ℕ) (container : List ℕ)
    → let (index, resolution) =
        resolve messages stored_comm
          (serve_all empty_index requests)
          walked
          now
          (Selector.application (cont_prefix ++ container)) in
      (w : List (ℕ × Option (List ℕ))) × (at : ℕ) × Made w at
        ((walked, now, inodes_for container) ∷ requests)
      × (now < at + index_refresh)
      × IsCgroups (inodes_of container w) resolution
unfolding resolve resolve_application_id
resolve-IsCgroups messages stored_comm requests walked now container =
    let (index, inodes) =
      inodes_for_container (serve_all empty_index requests) walked now container in
    let (same, (at, made, recent)) = inodes_for_container-Made requests walked now container in
    (
      index.by_inode,
      at,
      made,
      recent,
      rw (sym same) (resolve_inodes-IsCgroups messages stored_comm container inodes),
    )
