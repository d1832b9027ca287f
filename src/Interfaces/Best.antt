-- ===== src/Interfaces/Best.antt =====
-- Which default route `select_default_route` of zimascoped/src/collector/interfaces.rs takes.
use zima_scope.Base.{
  ℕ, ◌≤◌, ◌≡◌, refl, sym, ◌∙◌, ◌⊎◌, inl, inr, arith, true, false, Option, some, none, List, [], ◌∷◌,
  All, Bool-cases, Option-cases,
}
use mathlib.Core.Option.{some-injective}
use mathlib.Core.Path.{subst}
use zima_scope.Interfaces.{
  InterfaceKind, is_physical, is_loopback, DefaultRoute, sort_by_metric, candidates, find_uplink,
  first, select_default_route,
}
use zima_scope.Interfaces.Sorting.{
  IsIn, IsSorted, All_of_sorted, sort_by_metric-IsIn, sort_by_metric-IsSorted, first_best,
}

loopback_not_physical : (kind : InterfaceKind) → is_loopback kind ≡ true → is_physical kind ≡ false
loopback_not_physical kind h = ground arith

module _ (kind_of : List ℕ → InterfaceKind) where
  -- The best of the routes: of the physical interfaces where there is one, else of all that are no
  -- loopback.
  abbrev pub IsBest : List DefaultRoute → DefaultRoute → Type 0
  IsBest routes best =
      ((is_physical (kind_of best.name) ≡ true)
        × All (λ route. (is_physical (kind_of route.name) ≡ false) ⊎ (best.metric ≤ route.metric))
            routes)
      ⊎ ((is_loopback (kind_of best.name) ≡ false)
          × All (λ route. is_physical (kind_of route.name) ≡ false) routes
          × All (λ route. (is_loopback (kind_of route.name) ≡ true) ⊎ (best.metric ≤ route.metric))
              routes)

  candidates-IsIn :
      (x : DefaultRoute) (routes : List DefaultRoute)
      → IsIn x (candidates kind_of routes)
      → IsIn x routes × (is_loopback (kind_of x.name) ≡ false)
  unfolding candidates
  candidates-IsIn x [] h = absurd h
  candidates-IsIn x (route ∷ routes) h = elim (Bool-cases (is_loopback (kind_of route.name))) [
    | inl dropped ↦
        let (inside, kept) = candidates-IsIn x routes (rw dropped at h) in (inr inside, kept)
    | inr kept_route ↦ elim (rw kept_route at h) [
      | inl same ↦ (inl same, subst (λ r. is_loopback (kind_of r.name) ≡ false) same kept_route)
      | inr rest ↦ let (inside, kept) = candidates-IsIn x routes rest in (inr inside, kept)
    ]
  ]

  All_of_candidates :
      (P : DefaultRoute → Type 0) (routes : List DefaultRoute)
      → All P (candidates kind_of routes)
      → All (λ route. (is_loopback (kind_of route.name) ≡ true) ⊎ P route) routes
  unfolding candidates
  All_of_candidates P [] h = tt
  All_of_candidates P (route ∷ routes) h = elim (Bool-cases (is_loopback (kind_of route.name))) [
    | inl dropped ↦ (inl dropped, All_of_candidates P routes (rw dropped at h))
    | inr kept ↦ let (one, more) = rw kept at h in (inr one, All_of_candidates P routes more)
  ]

  find_uplink-none :
      (routes : List DefaultRoute)
      → find_uplink kind_of routes ≡ none
      → All (λ route. is_physical (kind_of route.name) ≡ false) routes
  unfolding find_uplink
  find_uplink-none [] e = tt
  find_uplink-none (route ∷ routes) e = elim (Bool-cases (is_physical (kind_of route.name))) [
    | inl uplink ↦ absurd (ground (arith, e, uplink))
    | inr not_uplink ↦ (not_uplink, find_uplink-none routes (rw not_uplink at e))
  ]

  all_behind :
      (low : ℕ) (routes : List DefaultRoute)
      → All (λ other. low ≤ other.metric) routes
      → All (λ route. (is_physical (kind_of route.name) ≡ false) ⊎ (low ≤ route.metric)) routes
  all_behind low [] h = tt
  all_behind low (route ∷ routes) (one, h) = (inr one, all_behind low routes h)

  find_uplink-some :
      (routes : List DefaultRoute) (best : DefaultRoute)
      → IsSorted routes
      → find_uplink kind_of routes ≡ some best
      → IsIn best routes
        × (is_physical (kind_of best.name) ≡ true)
        × All
            (λ route. (is_physical (kind_of route.name) ≡ false) ⊎ (best.metric ≤ route.metric))
            routes
  unfolding find_uplink IsSorted
  find_uplink-some [] best h e = absurd (ground arith)
  find_uplink-some (route ∷ routes) best (least, h) e =
      elim (Bool-cases (is_physical (kind_of route.name))) [
        | inl uplink ↦
            let same : route ≡ best = some-injective route best (rw uplink at e) in
            (
              inl same,
              subst (λ r. is_physical (kind_of r.name) ≡ true) same uplink,
              subst
                  (λ r.
                    All (λ x. (is_physical (kind_of x.name) ≡ false) ⊎ (r.metric ≤ x.metric))
                      (route ∷ routes))
                  same (inr (omega arith), all_behind route.metric routes least),
            )
        | inr not_uplink ↦
            let (inside, physical_best, more) =
              find_uplink-some routes best h (rw not_uplink at e) in
            (inr inside, physical_best, (inl not_uplink, more))
      ]

  -- The best of the sorted candidates.
  best_sorted :
      (sorted : List DefaultRoute) (best : DefaultRoute)
      → IsSorted sorted
      → elim (find_uplink kind_of sorted) [ none ↦ first sorted | some route ↦ some route ]
        ≡ some best
      → IsIn best sorted
        × (((is_physical (kind_of best.name) ≡ true)
              × All
                  (λ route.
                    (is_physical (kind_of route.name) ≡ false) ⊎ (best.metric ≤ route.metric))
                  sorted)
            ⊎ (All (λ route. is_physical (kind_of route.name) ≡ false) sorted
                × All (λ route. best.metric ≤ route.metric) sorted))
  best_sorted sorted best h e = elim (Option-cases (find_uplink kind_of sorted)) [
    | inr (route, found) ↦
        let same : find_uplink kind_of sorted ≡ some best = found ∙ (rw found at e) in
        let (inside, physical_best, more) = find_uplink-some sorted best h same in
        (inside, inl (physical_best, more))
    | inl missing ↦
        let (inside, least) = first_best sorted best h (rw missing at e) in
        (inside, inr (find_uplink-none sorted missing, least))
  ]

  nothing_sorted :
      (sorted : List DefaultRoute)
      → elim (find_uplink kind_of sorted) [ none ↦ first sorted | some route ↦ some route ] ≡ none
      → sorted ≡ []
  nothing_sorted [] e = refl
  nothing_sorted (route ∷ routes) e = elim (Option-cases (find_uplink kind_of (route ∷ routes))) [
    | inl missing ↦ absurd (let bad : some route ≡ none = rw missing at e in ground (arith, bad))
    | inr (found, some_found) ↦
        absurd (let bad : some found ≡ none = rw some_found at e in ground (arith, bad))
  ]

  none_physical :
      (routes : List DefaultRoute)
      → All
          (λ route.
            (is_loopback (kind_of route.name) ≡ true) ⊎ (is_physical (kind_of route.name) ≡ false))
          routes
      → All (λ route. is_physical (kind_of route.name) ≡ false) routes
  none_physical [] h = tt
  none_physical (route ∷ routes) (one, h) = (
    elim one [
      | inl looped ↦ loopback_not_physical (kind_of route.name) looped
      | inr not_uplink ↦ not_uplink
    ],
    none_physical routes h,
  )

  uplink_or_loopback :
      (low : ℕ) (routes : List DefaultRoute)
      → All
          (λ route.
            (is_loopback (kind_of route.name) ≡ true)
            ⊎ ((is_physical (kind_of route.name) ≡ false) ⊎ (low ≤ route.metric)))
          routes
      → All (λ route. (is_physical (kind_of route.name) ≡ false) ⊎ (low ≤ route.metric)) routes
  uplink_or_loopback low [] h = tt
  uplink_or_loopback low (route ∷ routes) (one, h) = (
    elim one [
      | inl looped ↦ inl (loopback_not_physical (kind_of route.name) looped)
      | inr fine ↦ fine
    ],
    uplink_or_loopback low routes h,
  )

  only_loopback :
      (routes : List DefaultRoute)
      → All (λ route. (is_loopback (kind_of route.name) ≡ true) ⊎ ⊥) routes
      → All (λ route. is_loopback (kind_of route.name) ≡ true) routes
  only_loopback [] h = tt
  only_loopback (route ∷ routes) (one, h) =
      (elim one [ inl looped ↦ looped | inr never ↦ absurd never ], only_loopback routes h)

  -- What the answer says about the routes.
  unfoldable pub Selected : List DefaultRoute → Option DefaultRoute → Type 0
  Selected routes none = All (λ route. is_loopback (kind_of route.name) ≡ true) routes
  Selected routes (some best) = IsIn best routes × IsBest routes best

  nothing_left :
      (routes : List DefaultRoute)
      → sort_by_metric (candidates kind_of routes) ≡ []
      → All (λ route. is_loopback (kind_of route.name) ≡ true) routes
  nothing_left routes e =
      let empty : All (λ _. ⊥) (candidates kind_of routes) =
        All_of_sorted (λ _. ⊥) (candidates kind_of routes) (subst (All (λ _. ⊥)) (sym e) tt) in
      only_loopback routes (All_of_candidates (λ _. ⊥) routes empty)

  answer_Selected :
      (routes : List DefaultRoute) (answer : Option DefaultRoute)
      → select_default_route kind_of routes ≡ answer
      → Selected routes answer
  unfolding select_default_route Selected
  answer_Selected routes none e =
      nothing_left routes (nothing_sorted (sort_by_metric (candidates kind_of routes)) e)
  answer_Selected routes (some best) e =
      let kept = candidates kind_of routes in
      let (inside, cases) =
        best_sorted (sort_by_metric kept) best (sort_by_metric-IsSorted kept) e in
      let (among, no_loopback) =
        candidates-IsIn best routes (sort_by_metric-IsIn best kept inside) in
      (
        among,
        elim cases [
          | inl (uplink, least) ↦ inl (
            uplink,
            uplink_or_loopback best.metric routes
                (All_of_candidates _ routes (All_of_sorted _ kept least)),
          )
          | inr (no_uplink, least) ↦ inr (
            no_loopback,
            none_physical routes (All_of_candidates _ routes (All_of_sorted _ kept no_uplink)),
            All_of_candidates _ routes (All_of_sorted _ kept least),
          )
        ],
      )

  -- The answer of `select_default_route` is one of the routes, through an interface that is no
  -- loopback. Where a route goes through a physical interface, the answer does too, with the least
  -- metric of all such routes; else it has the least metric of all routes that do not go through a
  -- loopback interface. There is no answer only where every route goes through a loopback interface.
  pub select_default_route-Selected :
      (routes : List DefaultRoute) → Selected routes (select_default_route kind_of routes)
  select_default_route-Selected routes =
      answer_Selected routes (select_default_route kind_of routes) refl
