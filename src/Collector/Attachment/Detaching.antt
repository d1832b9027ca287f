-- ===== src/Collector/Attachment/Detaching.antt =====
-- No link of the hooks of zimascoped/src/collector/aya.rs is lost or detached twice.
use zima_scope.Base.{
  ℕ, ◌+◌, ◌≡◌, inl, inr, refl, ap, ◌∙◌, arith, Bool, Option, some, none, List, [], ◌∷◌, ◌++◌,
  Option-cases,
}
use zima_scope.Collector.Attachment.{
  AttachedInterface, Hooks, detach_all, collect, retain_wanted, attach_one, attach_interfaces,
  ensure_all, reconcile,
}
use zima_scope.Collector.Attachment.Ledger.{
  count, held, AreDistinct, count-detach_all, held-sort_by_index, collect_distinct,
  sort_by_index-AreDistinct,
}
use zima_scope.Collector.Attachment.Distinct.{retain_wanted-AreDistinct, ensure_all-AreDistinct}
use zima_scope.Collector.Attachment.Gains.{
  acquired, Gains, own_of, acquired_of_attempts, attach_one-Gains, retain_wanted-Gains,
  ensure_all-Gains,
}

abbrev pub held_of : ℕ → Option (List AttachedInterface) → ℕ
held_of n none = 0
held_of n (some attached) = held n attached

held-append : (n : ℕ) (xs ys : List AttachedInterface) → held n (xs ++ ys) ≡ held n xs + held n ys
held-append n [] ys = omega arith
held-append n (x ∷ xs) ys = omega (arith, held-append n xs ys)

module _ (accepts : ℕ → Bool) (add_qdisc : List ℕ → Bool) (error_text : List ℕ → List ℕ) where
  module _ (n : ℕ) where
    attach_interfaces-Gains :
        (hooks : Hooks) (attached : List AttachedInterface) (interfaces : List (ℕ × List ℕ))
        (tcx : Bool)
        → let (after, result) =
            attach_interfaces accepts add_qdisc error_text hooks attached interfaces tcx in
          Gains accepts add_qdisc error_text n hooks after (held n attached) (held_of n result)
    unfolding attach_interfaces
    attach_interfaces-Gains hooks attached [] tcx = refl
    attach_interfaces-Gains hooks attached ((ifindex, name) ∷ interfaces) tcx =
        let (hooks', result) = attach_one accepts add_qdisc error_text hooks ifindex name tcx in
        let gains = attach_one-Gains accepts add_qdisc error_text n hooks ifindex name tcx in
        elim (Option-cases result) [
          | inl e ↦
              let (undone, tries) = count-detach_all n hooks' attached in
              rw (attach_interfaces, e)
                (omega (
                  arith,
                  gains,
                  undone,
                  ap (own_of n) e,
                  acquired_of_attempts accepts add_qdisc error_text n hooks'
                      (detach_all hooks' attached) tries,
                ))
          | inr (a, e) ↦
              rw (attach_interfaces, e)
                (omega (
                  arith,
                  gains,
                  ap (own_of n) e,
                  held-append n attached (a ∷ []),
                  attach_interfaces-Gains hooks' (attached ++ (a ∷ [])) interfaces tcx,
                ))
        ]

    reconcile-Gains :
        (hooks : Hooks) (attached : List AttachedInterface) (interfaces : List (ℕ × List ℕ))
        (tcx : Bool)
        → AreDistinct attached
        → let (after, entries) =
            reconcile accepts add_qdisc error_text hooks attached interfaces tcx in
          Gains accepts add_qdisc error_text n hooks after (held n attached) (held n entries)
    unfolding reconcile
    reconcile-Gains hooks attached interfaces tcx distinct =
        let (retained, kept) = retain_wanted hooks interfaces attached in
        let (hooks', current) =
          ensure_all accepts add_qdisc error_text retained kept interfaces tcx in
        rw (collect_distinct attached distinct) (
          omega (
            arith,
            retain_wanted-Gains accepts add_qdisc error_text n hooks interfaces attached,
            ensure_all-Gains accepts add_qdisc error_text n retained kept interfaces tcx
                (retain_wanted-AreDistinct hooks interfaces attached distinct),
            held-sort_by_index n current,
          ))

  reconcile-AreDistinct :
      (hooks : Hooks) (attached : List AttachedInterface) (interfaces : List (ℕ × List ℕ))
      (tcx : Bool)
      → AreDistinct attached
      → AreDistinct (reconcile accepts add_qdisc error_text hooks attached interfaces tcx).1
  unfolding reconcile
  reconcile-AreDistinct hooks attached interfaces tcx distinct =
      let (retained, kept) = retain_wanted hooks interfaces (collect attached) in
      let (hooks', current) =
        ensure_all accepts add_qdisc error_text retained kept interfaces tcx in
      sort_by_index-AreDistinct current (
        ensure_all-AreDistinct accepts add_qdisc error_text retained kept interfaces tcx (
          retain_wanted-AreDistinct hooks interfaces (collect attached)
            (rw (collect_distinct attached distinct) distinct)))

  -- Every link that was made is held by one entry, or was detached, once.
  abbrev pub IsAccounted : Hooks → List AttachedInterface → Type 0
  IsAccounted hooks attached =
      (n : ℕ)
      → held n attached + count n hooks.detached ≡ acquired accepts add_qdisc error_text n hooks

  -- One reconcile after the other, each with its boundary.
  abbrev pub reconcile_all :
      Hooks
      → List AttachedInterface
      → List (List (ℕ × List ℕ) × Bool)
      → Hooks × List AttachedInterface
  reconcile_all hooks attached [] = (hooks, attached)
  reconcile_all hooks attached ((interfaces, tcx) ∷ rounds) =
      let (hooks', attached') =
        reconcile accepts add_qdisc error_text hooks attached interfaces tcx in
      reconcile_all hooks' attached' rounds

  -- Suppose that the entries have different interface indices and that every link that was made so
  -- far is held by one entry or was detached once. However often the boundary then changes and
  -- attachments fail in between, this stays so; and once all hooks are detached at the end, every
  -- link that was ever made was detached exactly once.
  pub reconcile_all-IsAccounted :
      (hooks : Hooks) (attached : List AttachedInterface) (rounds : List (List (ℕ × List ℕ) × Bool))
      → AreDistinct attached
      → IsAccounted hooks attached
      → let (hooks', attached') = reconcile_all hooks attached rounds in
        IsAccounted hooks' attached'
        × ((n : ℕ)
            → count n (detach_all hooks' attached').detached
              ≡ acquired accepts add_qdisc error_text n hooks')
  reconcile_all-IsAccounted hooks attached [] distinct accounted =
      (accounted, λ n. (count-detach_all n hooks attached).0 ∙ accounted n)
  reconcile_all-IsAccounted hooks attached ((interfaces, tcx) ∷ rounds) distinct accounted =
      let (hooks', attached') =
        reconcile accepts add_qdisc error_text hooks attached interfaces tcx in
      reconcile_all-IsAccounted hooks' attached' rounds
        (reconcile-AreDistinct hooks attached interfaces tcx distinct)
        (λ n. omega (arith, accounted n, reconcile-Gains n hooks attached interfaces tcx distinct))
