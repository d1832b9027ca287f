-- ===== src/Tracker/Reconcile/Fresh.antt =====
-- Which flows the tracker of zimascoped/src/collector/tracker.rs knows after a poll.
use mathlib.Core.Path.{subst₂}
use zima_scope.Base.Assoc.{get, insert, get-insert_self, get-insert_ne, All-insert}
use zima_scope.Base.{
  ℕ, ◌+◌, ◌-◌, ◌%◌, ◌<◌, ◌≡◌, ◌≢◌, ◌⊎◌, inl, inr, refl, sym, ◌∙◌, arith, true, some, none, List, [],
  ◌∷◌, All, if◌then◌else◌, u64_mod, Bool-cases, Option-cases,
}
use zima_scope.Model.{FlowKey, FlowKey-discrete}
use zima_scope.Tracker.Clock.{anchor_if_needed}
use zima_scope.Tracker.Merge.{MergedFlow}
use zima_scope.Tracker.Reconcile.Lookup.{purge_owners}
use zima_scope.Tracker.Reconcile.State.{FlowTracker, PreviousFlow, is_active}
use zima_scope.Tracker.Reconcile.{
  stays, age_out, ended_retention, reconcile, observe, observe_entry, observe_new, observe_all,
  newest,
}

-- The flow was read in this poll.
abbrev pub IsRead : List MergedFlow → FlowKey → Type 0
IsRead [] key = ⊥
IsRead (m ∷ ms) key = (m.key ≡ key) ⊎ IsRead ms key

-- An entry that was last seen less than the idle timeout ago if its flow is active, and less than
-- the retention of ended flows ago if not.
abbrev pub IsRecent : ℕ → ℕ → PreviousFlow → Type 0
IsRecent now idle_timeout p =
    now - p.last_seen < (if is_active p.state then idle_timeout else ended_retention idle_timeout)

-- The tracker has an entry of the key with the generation.
abbrev pub IsStamped : ℕ → List (FlowKey × PreviousFlow) → FlowKey → Type 0
IsStamped generation entries key =
    (p : PreviousFlow) × (get FlowKey-discrete key entries ≡ some p) × (p.generation ≡ generation)

observe_inserts :
    (wall : ℕ) (t : FlowTracker) (m : MergedFlow) (now : ℕ)
    → (p : PreviousFlow) × ((observe wall t m now).0.previous
        ≡ insert FlowKey-discrete m.key p t.previous)
      × (p.generation ≡ t.generation)
      × ((observe wall t m now).0.generation ≡ t.generation)
      × ((observe wall t m now).0.idle_timeout ≡ t.idle_timeout)
unfolding observe observe_new observe_entry
observe_inserts wall t m now = elim (Option-cases (get FlowKey-discrete m.key t.previous)) [
  | inl e ↦ rw (observe, e) (_, refl, refl, refl, refl)
  | inr (p, e) ↦ rw (observe, e) (_, refl, ground arith, refl, refl)
]

insert-IsStamped :
    (generation : ℕ) (k q : FlowKey) (p : PreviousFlow) (entries : List (FlowKey × PreviousFlow))
    → p.generation ≡ generation
    → IsStamped generation entries q ⊎ (k ≡ q)
    → IsStamped generation (insert FlowKey-discrete k p entries) q
insert-IsStamped generation k q p entries is case = elim (FlowKey-discrete q k) [
  | yes same ↦ rw same (p, get-insert_self FlowKey-discrete k p entries, is)
  | no ne ↦ elim case [
    | inl (old, found, stamp) ↦
        (old, get-insert_ne FlowKey-discrete k q p entries ne ∙ found, stamp)
    | inr own ↦ absurd (ne (sym own))
  ]
]

-- Every flow that the loop observes has an entry of the generation, and so has every other flow
-- that had one before.
observe_all-IsStamped :
    (wall : ℕ) (t : FlowTracker) (ms : List MergedFlow) (now generation : ℕ) (q : FlowKey)
    → t.generation ≡ generation
    → IsStamped generation t.previous q ⊎ IsRead ms q
    → IsStamped generation (observe_all wall t ms now).0.previous q
unfolding observe_all
observe_all-IsStamped wall t [] now generation q is (inl stamped) = stamped
observe_all-IsStamped wall t [] now generation q is (inr read) = elim read [ ]
observe_all-IsStamped wall t (m ∷ ms) now generation q is case =
    let (p, inserted, stamp, kept, idle) = observe_inserts wall t m now in
    let next =
      observe_all-IsStamped wall (observe wall t m now).0 ms now generation q (kept ∙ is) in
    let after = λ (c : IsStamped generation t.previous q ⊎ (m.key ≡ q)).
      next (inl (rw inserted (insert-IsStamped generation m.key q p t.previous (stamp ∙ is) c))) in
    elim case [
      | inl stamped ↦ after (inl stamped)
      | inr (inl own) ↦ after (inr own)
      | inr (inr later) ↦ next (inr later)
    ]

-- An entry that has the generation was read, where it is one of a poll.
abbrev pub IsOwn : List MergedFlow → ℕ → FlowKey × PreviousFlow → Type 0
IsOwn read generation (key, p) = IsRead read key ⊎ (p.generation ≢ generation)

unstamped-IsOwn :
    (read : List MergedFlow) (generation : ℕ) (entries : List (FlowKey × PreviousFlow))
    → All (λ (key, p). p.generation ≢ generation) entries
    → All (IsOwn read generation) entries
unstamped-IsOwn read generation [] old = tt
unstamped-IsOwn read generation ((key, p) ∷ entries) (other, old) =
    (inr other, unstamped-IsOwn read generation entries old)

observe_all-IsOwn :
    (read : List MergedFlow) (generation wall : ℕ) (t : FlowTracker) (ms : List MergedFlow)
    (now : ℕ)
    → ((key : FlowKey) → IsRead ms key → IsRead read key)
    → All (IsOwn read generation) t.previous
    → All (IsOwn read generation) (observe_all wall t ms now).0.previous
unfolding observe_all
observe_all-IsOwn read generation wall t [] now among own = own
observe_all-IsOwn read generation wall t (m ∷ ms) now among own =
    let (p, inserted, stamp, kept, idle) = observe_inserts wall t m now in
    observe_all-IsOwn read generation wall (observe wall t m now).0 ms now
      (λ key later. among key (inr later))
      (rw inserted (
        All-insert FlowKey-discrete (IsOwn read generation) m.key p t.previous
          (inl (among m.key (inl refl))) own))

observe_all-keeps :
    (wall : ℕ) (t : FlowTracker) (ms : List MergedFlow) (now : ℕ)
    → ((observe_all wall t ms now).0.idle_timeout ≡ t.idle_timeout)
      × ((observe_all wall t ms now).0.generation ≡ t.generation)
unfolding observe_all
observe_all-keeps wall t [] now = (refl, refl)
observe_all-keeps wall t (m ∷ ms) now =
    let (p, inserted, stamp, kept, idle) = observe_inserts wall t m now in
    let (i, g) = observe_all-keeps wall (observe wall t m now).0 ms now in (i ∙ idle, g ∙ kept)

module _ (now idle_timeout generation : ℕ) where
  -- Ageing keeps the entry of a key that has the generation.
  age_out-IsStamped :
      (entries : List (FlowKey × PreviousFlow)) (key : FlowKey)
      → IsStamped generation entries key
      → IsStamped generation (age_out now idle_timeout generation entries).0 key
  unfolding age_out stays get
  age_out-IsStamped [] key (p, found, is) = absurd (cc)
  age_out-IsStamped ((k, o) ∷ entries) key (p, found, is) = elim (FlowKey-discrete key k) [
    | yes same ↦
        let own : o ≡ p = ground arith in
        let stay : stays now idle_timeout generation o ≡ true = ground arith in
        rw (age_out, stay) (p, ground arith, is)
    | no ne ↦
        let rest : get FlowKey-discrete key entries ≡ some p = ground arith in
        let (p', found', is') = age_out-IsStamped entries key (p, rest, is) in
        elim (Bool-cases (stays now idle_timeout generation o)) [
          | inl stay ↦ rw (age_out, stay) (p', ground arith, is')
          | inr go ↦ rw (age_out, go) (p', found', is')
        ]
  ]

  stays-IsRead :
      (read : List MergedFlow) (key : FlowKey) (p : PreviousFlow)
      → stays now idle_timeout generation p ≡ true
      → IsOwn read generation (key, p)
      → IsRead read key ⊎ IsRecent now idle_timeout p
  unfolding stays
  stays-IsRead read key p stay (inl is) = inl is
  stays-IsRead read key p stay (inr other) = inr (ground arith)

  -- What ageing keeps was read in this poll, or is recent.
  age_out-IsRead :
      (read : List MergedFlow) (entries : List (FlowKey × PreviousFlow))
      → All (IsOwn read generation) entries
      → All
          (λ (key, p). IsRead read key ⊎ IsRecent now idle_timeout p)
          (age_out now idle_timeout generation entries).0
  unfolding age_out stays
  age_out-IsRead read [] own = tt
  age_out-IsRead read ((key, p) ∷ entries) (first, own) =
      elim (Bool-cases (stays now idle_timeout generation p)) [
        | inl stay ↦
            rw (age_out, stay) (stays-IsRead read key p stay first, age_out-IsRead read entries own)
        | inr go ↦ rw (age_out, go) (age_out-IsRead read entries own)
      ]

-- After a poll the tracker has an entry of every flow that the poll read, and where no earlier
-- entry has the generation of the poll, every entry is of a flow that the poll read, or was last
-- seen less than the idle timeout ago if the flow is active, and less than the retention of ended
-- flows ago if not.
pub reconcile-IsRead :
    (wall : ℕ) (t : FlowTracker) (now : ℕ)
    → All (λ (key, p). p.generation ≢ (t.generation + 1) % u64_mod) t.previous
    → ((key : FlowKey)
        → IsRead t.merged key
        → (p : PreviousFlow) × (get FlowKey-discrete key (reconcile wall t now).0.previous ≡ some p)
          × (p.generation ≡ (t.generation + 1) % u64_mod))
      × All
          (λ (key, p). IsRead t.merged key ⊎ IsRecent now t.idle_timeout p)
          (reconcile wall t now).0.previous
unfolding reconcile purge_owners
reconcile-IsRead wall t now old =
    let generation = (t.generation + 1) % u64_mod in
    let started : FlowTracker = record t {
      generation = generation;
      clock = elim (newest t.merged) [
        | none ↦ t.clock
        | some newest_ns ↦ anchor_if_needed t.clock newest_ns now
      ];
      merged = [];
    } in
    let observed = (observe_all wall started t.merged now).0 in
    let (idle, same) = observe_all-keeps wall started t.merged now in
    let own =
      observe_all-IsOwn t.merged generation wall started t.merged now (λ key is. is)
        (unstamped-IsOwn t.merged generation t.previous old) in
    (
      λ key is.
          let stamped =
            observe_all-IsStamped wall started t.merged now generation key refl (inr is) in
          subst₂ (λ i g. IsStamped generation (age_out now i g observed.previous).0 key) (sym idle)
            (sym same)
            (age_out-IsStamped now t.idle_timeout generation observed.previous key stamped),
      subst₂
          (λ i g.
            All (λ (key, p). IsRead t.merged key ⊎ IsRecent now t.idle_timeout p)
              (age_out now i g observed.previous).0)
          (sym idle) (sym same)
          (age_out-IsRead now t.idle_timeout generation t.merged observed.previous own),
    )
