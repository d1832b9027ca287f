-- ===== src/Collector/Attachment/Retried.antt =====
-- The entries that the `reconcile` of zimascoped/src/collector/aya.rs leaves, with both links or with an
-- error.
use zima_scope.Base.{
  ℕ, ◌+◌, ◌<◌, ◌≤◌, ◌≡◌, ◌⊎◌, inl, inr, refl, sym, ap, ◌∙◌, arith, Bool, true, false, not, ◌&&◌,
  some, none, List, [], ◌∷◌, ◌==◌, if◌then◌else◌, Bool-cases, Option-cases, ==_iff,
}
use zima_scope.Collector.Attachment.{
  AttachedInterface, Hooks, detach_link, detach_links, has_index, is_wanted, is_healthy, collect,
  find_index, drop_index, retain_wanted, attach_hook, attach_egress, attach_one, attach_entry,
  ensure, ensure_all, or_failed, failed_entry, reconcile,
}
use zima_scope.Collector.Attachment.Distinct.{
  ifindex-attach_one, retain_wanted-AreDistinct, ensure_all-AreDistinct,
}
use zima_scope.Collector.Attachment.Entries.{
  find_index-drop_other, find_index-sort, has_index_found,
}
use zima_scope.Collector.Attachment.Kept.{has_index-reconcile, find_index-attach_entry}
use zima_scope.Collector.Attachment.Ledger.{AreDistinct, collect_distinct}

attempts-detach_links :
    (hooks : Hooks) (a : AttachedInterface) → (detach_links hooks a).attempts ≡ hooks.attempts
unfolding detach_links detach_link
attempts-detach_links hooks a = ground arith

attempts-retain_wanted :
    (hooks : Hooks) (interfaces : List (ℕ × List ℕ)) (current : List AttachedInterface)
    → (retain_wanted hooks interfaces current).0.attempts ≡ hooks.attempts
unfolding retain_wanted
attempts-retain_wanted hooks interfaces [] = refl
attempts-retain_wanted hooks interfaces (a ∷ current) = ground (
  arith,
  attempts-retain_wanted hooks interfaces current,
  attempts-detach_links (retain_wanted hooks interfaces current).0 a,
)

module _ (accepts : ℕ → Bool) (add_qdisc : List ℕ → Bool) (error_text : List ℕ → List ℕ) where
  -- An entry with both links, or one with none and the error of an attempt that failed: the kernel
  -- refused a hook, in an attempt between the two given ones, or the qdisc.
  abbrev pub IsSettled : ℕ → ℕ → AttachedInterface → Type 0
  IsSettled from upto b =
      (is_healthy b ≡ true)
      ⊎ ((b.ingress ≡ none)
          × (b.egress ≡ none)
          × (b.last_error ≡ some (error_text b.name))
          × (((n : ℕ) × (from ≤ n) × (n < upto) × (accepts n ≡ false))
              ⊎ (add_qdisc b.name ≡ false)))

  abbrev AtSettled : ℕ → ℕ → ℕ → List AttachedInterface → Type 0
  AtSettled from upto j current =
      (b : AttachedInterface) → find_index j current ≡ some b → IsSettled from upto b

  widen_attempts :
      (from upto more : ℕ) (b : AttachedInterface)
      → upto ≤ more
      → IsSettled from upto b
      → IsSettled from more b
  widen_attempts from upto more b le (inl healthy) = inl healthy
  widen_attempts from upto more b le (inr (i, e, text, inl (n, lo, hi, refused))) =
      inr (i, e, text, inl (n, lo, omega arith, refused))
  widen_attempts from upto more b le (inr (i, e, text, inr qdisc)) = inr (i, e, text, inr qdisc)

  attach_one-IsSettled :
      (from : ℕ) (hooks : Hooks) (ifindex : ℕ) (name : List ℕ) (tcx : Bool)
      → from ≤ hooks.attempts
      → IsSettled from (attach_one accepts add_qdisc error_text hooks ifindex name tcx).0.attempts (
          or_failed accepts add_qdisc error_text
            (attach_one accepts add_qdisc error_text hooks ifindex name tcx).1
            (failed_entry accepts add_qdisc error_text ifindex name tcx))
  unfolding attach_one attach_egress attach_hook detach_link
  attach_one-IsSettled from hooks ifindex name tcx le =
      let n = hooks.attempts in
      elim (Bool-cases (not tcx && not (add_qdisc name))) [
        | inl refused ↦ rw (attach_one, refused) (inr (refl, refl, refl, inr (ground arith)))
        | inr asked ↦ elim (Bool-cases (accepts n)) [
          | inl first ↦ elim (Bool-cases (accepts (n + 1))) [
            | inl second ↦
                rw (attach_one, asked, attach_hook, first, attach_egress, second) (inl refl)
            | inr second ↦
                rw (attach_one, asked, attach_hook, first, attach_egress, second)
                  (inr (refl, refl, refl, inl (n + 1, omega arith, omega arith, second)))
          ]
          | inr first ↦
              rw (attach_one, asked, attach_hook, first)
                (inr (refl, refl, refl, inl (n, le, omega arith, first)))
        ]
      ]

  ifindex-attached :
      (hooks : Hooks) (ifindex : ℕ) (name : List ℕ) (tcx : Bool)
      → (or_failed accepts add_qdisc error_text
          (attach_one accepts add_qdisc error_text hooks ifindex name tcx).1
          (failed_entry accepts add_qdisc error_text ifindex name tcx)).ifindex
        ≡ ifindex
  ifindex-attached hooks ifindex name tcx =
      elim (Option-cases (attach_one accepts add_qdisc error_text hooks ifindex name tcx).1) [
        | inl e ↦ rw e refl
        | inr (a, e) ↦
            rw e (ifindex-attach_one accepts add_qdisc error_text hooks ifindex name tcx a e)
      ]

  attach_entry-IsSettled :
      (from : ℕ) (hooks : Hooks) (current : List AttachedInterface) (ifindex : ℕ) (name : List ℕ)
      (tcx : Bool)
      → from ≤ hooks.attempts
      → AtSettled from
          (attach_entry accepts add_qdisc error_text hooks current ifindex name tcx).0.attempts
          ifindex
          (attach_entry accepts add_qdisc error_text hooks current ifindex name tcx).1
  unfolding attach_entry find_index
  attach_entry-IsSettled from hooks current ifindex name tcx le b found =
      let entry =
        or_failed accepts add_qdisc error_text
          (attach_one accepts add_qdisc error_text hooks ifindex name tcx).1
          (failed_entry accepts add_qdisc error_text ifindex name tcx) in
      let own : (entry.ifindex == ifindex) ≡ true =
        (==_iff entry.ifindex ifindex).1 (ifindex-attached hooks ifindex name tcx) in
      let same : some entry ≡ some b =
        sym (ap (λ c. if c then some entry else find_index ifindex current) own) ∙ found in
      let is : entry ≡ b = cc in rw (sym is) (attach_one-IsSettled from hooks ifindex name tcx le)

  attempts-attach_entry :
      (hooks : Hooks) (current : List AttachedInterface) (ifindex : ℕ) (name : List ℕ) (tcx : Bool)
      → hooks.attempts
        ≤ (attach_entry accepts add_qdisc error_text hooks current ifindex name tcx).0.attempts
  unfolding attach_entry attach_one attach_egress attach_hook detach_link
  attempts-attach_entry hooks current ifindex name tcx = ground arith

  attempts-ensure :
      (hooks : Hooks) (current : List AttachedInterface) (ifindex : ℕ) (name : List ℕ) (tcx : Bool)
      → hooks.attempts
        ≤ (ensure accepts add_qdisc error_text hooks current ifindex name tcx).0.attempts
  unfolding ensure
  attempts-ensure hooks current ifindex name tcx =
      elim (Option-cases (find_index ifindex current)) [
        | inl e ↦ rw (ensure, e) (attempts-attach_entry hooks current ifindex name tcx)
        | inr (a, e) ↦ elim (Bool-cases (is_healthy a)) [
          | inl ok ↦ rw (ensure, e, ok) (omega arith)
          | inr bad ↦
              rw (ensure, e, bad)
                (omega (
                  arith,
                  attempts-detach_links hooks a,
                  attempts-attach_entry (detach_links hooks a) (drop_index ifindex current) ifindex
                      name tcx,
                ))
        ]
      ]

  ensure-own :
      (from : ℕ) (hooks : Hooks) (current : List AttachedInterface) (ifindex : ℕ) (name : List ℕ)
      (tcx : Bool)
      → from ≤ hooks.attempts
      → AtSettled from
          (ensure accepts add_qdisc error_text hooks current ifindex name tcx).0.attempts
          ifindex
          (ensure accepts add_qdisc error_text hooks current ifindex name tcx).1
  unfolding ensure
  ensure-own from hooks current ifindex name tcx le =
      elim (Option-cases (find_index ifindex current)) [
        | inl e ↦ rw (ensure, e) (attach_entry-IsSettled from hooks current ifindex name tcx le)
        | inr (a, e) ↦ elim (Bool-cases (is_healthy a)) [
          | inl ok ↦
              rw (ensure, e, ok)
                (λ b found. inl (let same : a ≡ b = ground arith in rw (sym same) ok))
          | inr bad ↦
              rw (ensure, e, bad)
                (attach_entry-IsSettled from (detach_links hooks a) (drop_index ifindex current)
                  ifindex name tcx (rw (attempts-detach_links hooks a) le))
        ]
      ]

  ensure-other :
      (j : ℕ) (hooks : Hooks) (current : List AttachedInterface) (ifindex : ℕ) (name : List ℕ)
      (tcx : Bool)
      → (ifindex == j) ≡ false
      → find_index j (ensure accepts add_qdisc error_text hooks current ifindex name tcx).1
        ≡ find_index j current
  unfolding ensure
  ensure-other j hooks current ifindex name tcx isnt =
      elim (Option-cases (find_index ifindex current)) [
        | inl e ↦
            rw (ensure, e)
              (find_index-attach_entry accepts add_qdisc error_text j hooks current ifindex name tcx
                isnt)
        | inr (a, e) ↦ elim (Bool-cases (is_healthy a)) [
          | inl ok ↦ rw (ensure, e, ok) refl
          | inr bad ↦
              rw (ensure, e, bad)
                (find_index-attach_entry accepts add_qdisc error_text j (detach_links hooks a)
                    (drop_index ifindex current) ifindex name tcx isnt
                  ∙ find_index-drop_other ifindex j current isnt)
        ]
      ]

  ensure_all-IsSettled :
      (from j : ℕ) (hooks : Hooks) (current : List AttachedInterface)
      (interfaces : List (ℕ × List ℕ)) (tcx : Bool)
      → from ≤ hooks.attempts
      → (is_wanted j interfaces ≡ true) ⊎ AtSettled from hooks.attempts j current
      → AtSettled from
          (ensure_all accepts add_qdisc error_text hooks current interfaces tcx).0.attempts
          j
          (ensure_all accepts add_qdisc error_text hooks current interfaces tcx).1
  unfolding ensure_all
  ensure_all-IsSettled from j hooks current [] tcx le (inl wanted) = absurd (cc)
  ensure_all-IsSettled from j hooks current [] tcx le (inr at) = at
  ensure_all-IsSettled from j hooks current ((ifindex, name) ∷ interfaces) tcx le case =
      let (hooks', current') = ensure accepts add_qdisc error_text hooks current ifindex name tcx in
      let le' : from ≤ hooks'.attempts =
        omega (arith, attempts-ensure hooks current ifindex name tcx) in
      let next = ensure_all-IsSettled from j hooks' current' interfaces tcx le' in
      elim (Bool-cases (ifindex == j)) [
        | inl is ↦
            let same = (==_iff ifindex j).0 is in
            next (inr (rw (sym same) (ensure-own from hooks current ifindex name tcx le)))
        | inr isnt ↦ elim case [
          | inl wanted ↦ next (inl (ground arith))
          | inr at ↦ next (
              inr (λ b found.
                widen_attempts from hooks.attempts hooks'.attempts b
                  (attempts-ensure hooks current ifindex name tcx)
                  (at b (sym (ensure-other j hooks current ifindex name tcx isnt) ∙ found))))
        ]
      ]

  -- Where the entries have different interface indices: after `reconcile` there is an entry for
  -- exactly the interfaces of the boundary, and each has both links, or none and an error, the
  -- latter only where in this call the kernel refused a hook, or the qdisc of that interface.
  pub reconcile-IsSettled :
      (hooks : Hooks) (attached : List AttachedInterface) (interfaces : List (ℕ × List ℕ))
      (tcx : Bool)
      → AreDistinct attached
      → let (hooks', entries) =
          reconcile accepts add_qdisc error_text hooks attached interfaces tcx in
        ((j : ℕ) → has_index j entries ≡ is_wanted j interfaces)
        × ((j : ℕ) (b : AttachedInterface)
            → find_index j entries ≡ some b
            → IsSettled hooks.attempts hooks'.attempts b)
  unfolding reconcile
  reconcile-IsSettled hooks attached interfaces tcx distinct =
      let current = collect attached in
      let same = collect_distinct attached distinct in
      let (retained, kept) = retain_wanted hooks interfaces current in
      let ensured = (ensure_all accepts add_qdisc error_text retained kept interfaces tcx).1 in
      let has = λ (j : ℕ).
        has_index-reconcile accepts add_qdisc error_text hooks attached interfaces tcx j distinct in
      let entries = (reconcile accepts add_qdisc error_text hooks attached interfaces tcx).1 in
      (
        has,
        λ j b found.
            ensure_all-IsSettled hooks.attempts j retained kept interfaces tcx
              (omega (arith, attempts-retain_wanted hooks interfaces current))
              (inl (sym (has j) ∙ has_index_found j entries b found)) b
              (sym (
                  find_index-sort j ensured (
                    ensure_all-AreDistinct accepts add_qdisc error_text retained kept interfaces tcx
                      (retain_wanted-AreDistinct hooks interfaces current (rw same distinct))))
                ∙ found),
      )
