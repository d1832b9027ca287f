-- ===== src/Query/Agreement.antt =====
-- The two directions of the index of zimascoped/src/cgroup.rs agree.
-- `CgroupIndex` of zimascoped/src/cgroup.rs. What the walk over the cgroup tree finds, an inode with
-- the container that owns it, is an argument, as is the time. A container is a text.
use native.Mathlib.Decide.{ℕ_discrete}
use zima_scope.Base.Assoc.{get, get-insert_self, get-insert_ne}
use zima_scope.Base.{
  ℕ, ◌+◌, ◌<◌, ◌≡◌, ◌≢◌, ◌⊎◌, refl, sym, ap, ◌∙◌, append_nil, append_assoc, arith, inl, inr,
  Bool-cases, Option-cases, false, Option, some, none, List, [], ◌∷◌, ◌++◌,
}
use zima_scope.Query.Containers.{
  Text-discrete, CgroupIndex, empty_index, or_empty, push_inode, group, refresh, is_stale,
  refresh_if_stale, inodes_for_container, container_for_inode, inodes_of, index_refresh,
}

push_inode-own :
    (c : List ℕ) (m : List (List ℕ × List ℕ)) (inode : ℕ)
    → or_empty (get Text-discrete c (push_inode m inode (some c)))
      ≡ or_empty (get Text-discrete c m) ++ (inode ∷ [])
unfolding push_inode
push_inode-own c m inode =
    ap or_empty
      (get-insert_self Text-discrete c (or_empty (get Text-discrete c m) ++ (inode ∷ [])) m)

push_inode-other :
    (c owner : List ℕ) (m : List (List ℕ × List ℕ)) (inode : ℕ)
    → c ≢ owner
    → or_empty (get Text-discrete c (push_inode m inode (some owner)))
      ≡ or_empty (get Text-discrete c m)
unfolding push_inode
push_inode-other c owner m inode ne = ap or_empty (
    get-insert_ne Text-discrete owner c (or_empty (get Text-discrete owner m) ++ (inode ∷ [])) m ne)

inodes_of_own :
    (c owner : List ℕ) (inode : ℕ) (entries : List (ℕ × Option (List ℕ)))
    → owner ≡ c
    → inodes_of c ((inode, some owner) ∷ entries) ≡ inode ∷ inodes_of c entries
inodes_of_own c owner inode entries same = ground arith

inodes_of_other :
    (c owner : List ℕ) (inode : ℕ) (entries : List (ℕ × Option (List ℕ)))
    → owner ≢ c
    → inodes_of c ((inode, some owner) ∷ entries) ≡ inodes_of c entries
inodes_of_other c owner inode entries ne = ground arith

group-inodes_of :
    (c : List ℕ) (m : List (List ℕ × List ℕ)) (walked : List (ℕ × Option (List ℕ)))
    → or_empty (get Text-discrete c (group m walked))
      ≡ or_empty (get Text-discrete c m) ++ inodes_of c walked
unfolding group push_inode
group-inodes_of c m [] = sym (append_nil (or_empty (get Text-discrete c m)))
group-inodes_of c m ((inode, none) ∷ entries) = group-inodes_of c (push_inode m inode none) entries
group-inodes_of c m ((inode, some owner) ∷ entries) =
    let before = or_empty (get Text-discrete c m) in
    let later = group-inodes_of c (push_inode m inode (some owner)) entries in
    elim (Text-discrete owner c)
      as (λ _.
        or_empty (get Text-discrete c (group m ((inode, some owner) ∷ entries)))
        ≡ before ++ inodes_of c ((inode, some owner) ∷ entries)) [
          | yes same ↦
              later
              ∙ ap (λ l. l ++ inodes_of c entries) (rw same (push_inode-own c m inode))
              ∙ append_assoc before (inode ∷ []) (inodes_of c entries)
              ∙ ap (λ l. before ++ l) (sym (inodes_of_own c owner inode entries same))
          | no ne ↦
              later
              ∙ ap (λ l. l ++ inodes_of c entries)
                  (push_inode-other c owner m inode (λ e. ne (sym e)))
              ∙ ap (λ l. before ++ l) (sym (inodes_of_other c owner inode entries ne))
        ]

-- Both directions of the index describe one walk.
abbrev pub IsConsistent : CgroupIndex → Type 0
IsConsistent index =
    (c : List ℕ) → or_empty (get Text-discrete c index.by_container) ≡ inodes_of c index.by_inode

abbrev pub IsFreshAt : ℕ → CgroupIndex → Type 0
IsFreshAt now index = is_stale index.refreshed_at now ≡ false

refresh_if_stale-IsConsistent :
    (index : CgroupIndex) (walked : List (ℕ × Option (List ℕ))) (now : ℕ)
    → IsConsistent index
    → IsConsistent (refresh_if_stale index walked now)
      × IsFreshAt now (refresh_if_stale index walked now)
unfolding refresh_if_stale refresh get is_stale
refresh_if_stale-IsConsistent index walked now consistent =
    elim (Bool-cases (is_stale index.refreshed_at now)) [
      | inl stale ↦ rw (refresh_if_stale, stale) (λ c. group-inodes_of c [] walked, ground arith)
      | inr fresh ↦ rw (refresh_if_stale, fresh) (consistent, fresh)
    ]

container_for_inode-IsConsistent :
    (index : CgroupIndex) (walked : List (ℕ × Option (List ℕ))) (now inode : ℕ)
    → IsConsistent index
    → IsConsistent (container_for_inode index walked now inode).0
unfolding container_for_inode
container_for_inode-IsConsistent index walked now inode consistent =
    elim (Option-cases (get ℕ_discrete inode index.by_inode)) [
      | inl e ↦
          rw (container_for_inode, e) (refresh_if_stale-IsConsistent index walked now consistent).0
      | inr (container, e) ↦ rw (container_for_inode, e) consistent
    ]

-- A request to the index, with what a walk would find and the time.
pub data Request : Type 0 where
  inodes_for : List ℕ → Request
  container_for : ℕ → Request

abbrev pub serve : CgroupIndex → List (ℕ × Option (List ℕ)) → ℕ → Request → CgroupIndex
serve index walked now (inodes_for container) = (inodes_for_container index walked now container).0
serve index walked now (container_for inode) = (container_for_inode index walked now inode).0

abbrev pub serve_all : CgroupIndex → List (List (ℕ × Option (List ℕ)) × ℕ × Request) → CgroupIndex
serve_all index [] = index
serve_all index ((walked, now, request) ∷ requests) =
    serve_all (serve index walked now request) requests

serve-IsConsistent :
    (index : CgroupIndex) (walked : List (ℕ × Option (List ℕ))) (now : ℕ) (request : Request)
    → IsConsistent index
    → IsConsistent (serve index walked now request)
unfolding inodes_for_container
serve-IsConsistent index walked now (inodes_for container) consistent =
    (refresh_if_stale-IsConsistent index walked now consistent).0
serve-IsConsistent index walked now (container_for inode) consistent =
    container_for_inode-IsConsistent index walked now inode consistent

serve_all-IsConsistent :
    (index : CgroupIndex) (requests : List (List (ℕ × Option (List ℕ)) × ℕ × Request))
    → IsConsistent index
    → IsConsistent (serve_all index requests)
serve_all-IsConsistent index [] consistent = consistent
serve_all-IsConsistent index ((walked, now, request) ∷ requests) consistent =
    serve_all-IsConsistent (serve index walked now request) requests
      (serve-IsConsistent index walked now request consistent)

-- Whatever an index was asked before, from the empty one on: the answer for a container is the
-- inodes that one walk, less than five seconds old, found under that container, in the order of
-- the walk, and it is the walk that the index answers from for single inodes.
pub inodes_for_container-inodes_of :
    (requests : List (List (ℕ × Option (List ℕ)) × ℕ × Request))
    (walked : List (ℕ × Option (List ℕ))) (now : ℕ) (container : List ℕ)
    → let (index, inodes) =
        inodes_for_container (serve_all empty_index requests) walked now container in
      (inodes ≡ inodes_of container index.by_inode) × IsFreshAt now index
unfolding inodes_for_container get
inodes_for_container-inodes_of requests walked now container =
    let before = serve_all-IsConsistent empty_index requests (λ c. refl) in
    let (consistent, fresh) =
      refresh_if_stale-IsConsistent (serve_all empty_index requests) walked now before in
    (consistent container, fresh)

-- One of the requests came with this walk at this time.
abbrev pub Made :
    List (ℕ × Option (List ℕ)) → ℕ → List (List (ℕ × Option (List ℕ)) × ℕ × Request) → Type 0
Made w at [] = ⊥
Made w at ((walked, now, request) ∷ requests) = ((w ≡ walked) × (at ≡ now)) ⊎ Made w at requests

module _ (P : List (ℕ × Option (List ℕ)) → ℕ → Type 0) where
  -- What the index holds is a walk of its time for which `P` holds.
  abbrev pub IsFrom : CgroupIndex → Type 0
  IsFrom index = (at : ℕ) → index.refreshed_at ≡ some at → P index.by_inode at

  pub refresh_if_stale-IsFrom :
      (index : CgroupIndex) (walked : List (ℕ × Option (List ℕ))) (now : ℕ)
      → IsFrom index
      → P walked now
      → IsFrom (refresh_if_stale index walked now)
  unfolding refresh_if_stale refresh
  refresh_if_stale-IsFrom index walked now from made =
      elim (Bool-cases (is_stale index.refreshed_at now)) [
        | inl stale ↦
            rw (refresh_if_stale, stale)
              (λ at e. let same : now ≡ at = ground arith in rw (sym same) made)
        | inr fresh ↦ rw (refresh_if_stale, fresh) from
      ]

  serve-IsFrom :
      (index : CgroupIndex) (walked : List (ℕ × Option (List ℕ))) (now : ℕ) (request : Request)
      → IsFrom index
      → P walked now
      → IsFrom (serve index walked now request)
  unfolding inodes_for_container container_for_inode
  serve-IsFrom index walked now (inodes_for container) from made =
      refresh_if_stale-IsFrom index walked now from made
  serve-IsFrom index walked now (container_for inode) from made =
      elim (Option-cases (get ℕ_discrete inode index.by_inode)) [
        | inl e ↦
            rw (serve, container_for_inode, e) (refresh_if_stale-IsFrom index walked now from made)
        | inr (container, e) ↦ rw (serve, container_for_inode, e) from
      ]

  pub serve_all-IsFrom :
      (index : CgroupIndex) (requests : List (List (ℕ × Option (List ℕ)) × ℕ × Request))
      → IsFrom index
      → ((w : List (ℕ × Option (List ℕ))) (at : ℕ) → Made w at requests → P w at)
      → IsFrom (serve_all index requests)
  serve_all-IsFrom index [] from made = from
  serve_all-IsFrom index ((walked, now, request) ∷ requests) from made =
      serve_all-IsFrom (serve index walked now request) requests
        (serve-IsFrom index walked now request from (made walked now (inl (refl, refl))))
        (λ w at m. made w at (inr m))

fresh_walk :
    (index : CgroupIndex) (now : ℕ)
    → IsFreshAt now index
    → (at : ℕ) × (index.refreshed_at ≡ some at) × (now < at + index_refresh)
unfolding is_stale
fresh_walk index now fresh = elim (Option-cases index.refreshed_at) [
  | inl e ↦ absurd (ground arith)
  | inr (at, e) ↦ (at, e, ground arith)
]

-- Whatever an index was asked before, from the empty one on: after a request for a container it
-- holds a walk that came with this request or an earlier one less than five seconds ago, and the
-- answer is the inodes that this walk found under the container, in the order of the walk.
pub inodes_for_container-Made :
    (requests : List (List (ℕ × Option (List ℕ)) × ℕ × Request))
    (walked : List (ℕ × Option (List ℕ))) (now : ℕ) (container : List ℕ)
    → let (index, inodes) =
        inodes_for_container (serve_all empty_index requests) walked now container in
      (inodes ≡ inodes_of container index.by_inode)
      × ((at : ℕ) × Made index.by_inode at ((walked, now, inodes_for container) ∷ requests)
          × (now < at + index_refresh))
unfolding inodes_for_container
inodes_for_container-Made requests walked now container =
    let P : List (ℕ × Option (List ℕ)) → ℕ → Type 0 =
      λ w at. Made w at ((walked, now, inodes_for container) ∷ requests) in
    let before = serve_all empty_index requests in
    let from : IsFrom P before =
      serve_all-IsFrom P empty_index requests (λ at e. absurd (cc)) (λ w at m. inr m) in
    let (same, fresh) = inodes_for_container-inodes_of requests walked now container in
    let (at, is, recent) = fresh_walk (refresh_if_stale before walked now) now fresh in
    (same, (at, refresh_if_stale-IsFrom P before walked now from (inl (refl, refl)) at is, recent))
