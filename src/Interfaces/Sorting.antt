-- ===== src/Interfaces/Sorting.antt =====
-- The order of the candidates in `select_default_route` of zimascoped/src/collector/interfaces.rs.
use zima_scope.Base.{ℕ, ◌≤◌, ◌≡◌, ◌⊎◌, inl, inr, arith, some, List, [], ◌∷◌, leb, All, Bool-cases}
use mathlib.Core.Option.{some-injective}
use mathlib.Core.Path.{subst}
use zima_scope.Interfaces.{DefaultRoute, insert_route, sort_by_metric, first}

-- The route is one of the list.
abbrev pub IsIn : DefaultRoute → List DefaultRoute → Type 0
IsIn x [] = ⊥
IsIn x (route ∷ routes) = (route ≡ x) ⊎ IsIn x routes

insert_route-IsIn :
    (x route : DefaultRoute) (routes : List DefaultRoute)
    → IsIn x (insert_route route routes)
    → (route ≡ x) ⊎ IsIn x routes
unfolding insert_route
insert_route-IsIn x route [] h = h
insert_route-IsIn x route (next ∷ routes) h = elim (Bool-cases (leb route.metric next.metric)) [
  | inl at_front ↦ (rw at_front at h)
  | inr behind ↦ elim (rw behind at h) [
    | inl same ↦ inr (inl same)
    | inr deeper ↦ elim (insert_route-IsIn x route routes deeper) [
      | inl mine ↦ inl mine
      | inr rest ↦ inr (inr rest)
    ]
  ]
]

pub sort_by_metric-IsIn :
    (x : DefaultRoute) (routes : List DefaultRoute) → IsIn x (sort_by_metric routes) → IsIn x routes
unfolding sort_by_metric
sort_by_metric-IsIn x [] h = h
sort_by_metric-IsIn x (route ∷ routes) h =
    elim (insert_route-IsIn x route (sort_by_metric routes) h) [
      | inl mine ↦ inl mine
      | inr rest ↦ inr (sort_by_metric-IsIn x routes rest)
    ]

module _ (P : DefaultRoute → Type 0) where
  insert_route-All :
      (route : DefaultRoute) (routes : List DefaultRoute)
      → P route
      → All P routes
      → All P (insert_route route routes)
  unfolding insert_route
  insert_route-All route [] h k = (h, tt)
  insert_route-All route (next ∷ routes) h (one, k) =
      elim (Bool-cases (leb route.metric next.metric)) [
        | inl at_front ↦ rw at_front (h, (one, k))
        | inr behind ↦ rw behind (one, insert_route-All route routes h k)
      ]

  All_of_insert :
      (route : DefaultRoute) (routes : List DefaultRoute)
      → All P (insert_route route routes)
      → P route × All P routes
  unfolding insert_route
  All_of_insert route [] h = h
  All_of_insert route (next ∷ routes) h = elim (Bool-cases (leb route.metric next.metric)) [
    | inl at_front ↦ (rw at_front at h)
    | inr behind ↦
        let (one, more) = rw behind at h in
        let (mine, k) = All_of_insert route routes more in (mine, (one, k))
  ]

  pub All_of_sorted : (routes : List DefaultRoute) → All P (sort_by_metric routes) → All P routes
  unfolding sort_by_metric
  All_of_sorted [] h = tt
  All_of_sorted (route ∷ routes) h =
      let (one, more) = All_of_insert route (sort_by_metric routes) h in
      (one, All_of_sorted routes more)

-- Each metric is at most those behind it.
unfoldable pub IsSorted : List DefaultRoute → Type 0
IsSorted [] = Unit {0}
IsSorted (route ∷ routes) = All (λ other. route.metric ≤ other.metric) routes × IsSorted routes

weaken :
    (low high : ℕ) (routes : List DefaultRoute)
    → low ≤ high
    → All (λ other. high ≤ other.metric) routes
    → All (λ other. low ≤ other.metric) routes
weaken low high [] h k = tt
weaken low high (next ∷ routes) h (one, k) = (omega arith, weaken low high routes h k)

pub insert_route-IsSorted :
    (route : DefaultRoute) (routes : List DefaultRoute)
    → IsSorted routes
    → IsSorted (insert_route route routes)
unfolding insert_route IsSorted
insert_route-IsSorted route [] h = (tt, tt)
insert_route-IsSorted route (next ∷ routes) (least, h) =
    elim (Bool-cases (leb route.metric next.metric)) [
      | inl at_front ↦
          let near : route.metric ≤ next.metric = ground arith in
          rw at_front ((near, weaken route.metric next.metric routes near least), (least, h))
      | inr behind ↦ rw behind (
        insert_route-All _ route routes (ground arith) least,
        insert_route-IsSorted route routes h,
      )
    ]

pub sort_by_metric-IsSorted : (routes : List DefaultRoute) → IsSorted (sort_by_metric routes)
unfolding sort_by_metric IsSorted
sort_by_metric-IsSorted [] = tt
sort_by_metric-IsSorted (route ∷ routes) =
    insert_route-IsSorted route (sort_by_metric routes) (sort_by_metric-IsSorted routes)

pub first_best :
    (sorted : List DefaultRoute) (best : DefaultRoute)
    → IsSorted sorted
    → first sorted ≡ some best
    → IsIn best sorted × All (λ route. best.metric ≤ route.metric) sorted
unfolding IsSorted
first_best [] best h e = absurd (ground arith)
first_best (route ∷ routes) best (least, h) e =
    let same : route ≡ best = some-injective route best e in
    (
      inl same,
      subst (λ r. All (λ x. r.metric ≤ x.metric) (route ∷ routes)) same (omega arith, least),
    )
