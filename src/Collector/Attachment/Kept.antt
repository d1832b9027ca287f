-- ===== src/Collector/Attachment/Kept.antt =====
-- For which interfaces the `reconcile` of zimascoped/src/collector/aya.rs has entries.
use zima_scope.Base.{
  ℕ, ◌≡◌, inl, inr, refl, sym, ap, ◌∙◌, arith, Bool, false, ◌||◌, List, [], ◌∷◌, ◌==◌, Bool-cases,
  Option-cases, ==_iff,
}
use zima_scope.Collector.Attachment.{
  AttachedInterface, Hooks, detach_links, has_index, is_wanted, is_healthy, collect, find_index,
  drop_index, retain_wanted, attach_one, attach_entry, ensure, ensure_all, reconcile,
}
use zima_scope.Collector.Attachment.Distinct.{ifindex-attach_one}
use zima_scope.Collector.Attachment.Ledger.{AreDistinct, has_index-sort_by_index}
use zima_scope.Collector.Attachment.Entries.{
  has_index-retain, has_index-drop_other, has_index_found,
}

module _ (accepts : ℕ → Bool) (add_qdisc : List ℕ → Bool) (error_text : List ℕ → List ℕ) where
  has_index-attach_entry :
      (j : ℕ) (hooks : Hooks) (current : List AttachedInterface) (ifindex : ℕ) (name : List ℕ)
      (tcx : Bool)
      → has_index j (attach_entry accepts add_qdisc error_text hooks current ifindex name tcx).1
        ≡ (ifindex == j || has_index j current)
  unfolding attach_entry
  has_index-attach_entry j hooks current ifindex name tcx =
      let (hooks', result) = attach_one accepts add_qdisc error_text hooks ifindex name tcx in
      elim (Option-cases result) [
        | inl e ↦ rw e refl
        | inr (a, e) ↦
            rw (e, ifindex-attach_one accepts add_qdisc error_text hooks ifindex name tcx a e) refl
      ]

  has_index-ensure :
      (j : ℕ) (hooks : Hooks) (current : List AttachedInterface) (ifindex : ℕ) (name : List ℕ)
      (tcx : Bool)
      → has_index j (ensure accepts add_qdisc error_text hooks current ifindex name tcx).1
        ≡ (ifindex == j || has_index j current)
  unfolding ensure
  has_index-ensure j hooks current ifindex name tcx =
      elim (Option-cases (find_index ifindex current)) [
        | inl e ↦ rw (ensure, e) (has_index-attach_entry j hooks current ifindex name tcx)
        | inr (a, e) ↦ elim (Bool-cases (is_healthy a)) [
          | inl ok ↦
              rw (ensure, e, ok)
                (elim (Bool-cases (ifindex == j)) [
                  | inl is ↦ rw is (
                      ap (λ i. has_index i current) (sym ((==_iff ifindex j).0 is))
                      ∙ has_index_found ifindex current a e)
                  | inr isnt ↦ rw isnt refl
                ])
          | inr bad ↦
              rw (ensure, e, bad)
                (has_index-attach_entry j (detach_links hooks a) (drop_index ifindex current)
                    ifindex name tcx
                  ∙ elim (Bool-cases (ifindex == j)) [
                    | inl is ↦ rw is refl
                    | inr isnt ↦ rw isnt (has_index-drop_other ifindex j current isnt)
                  ])
        ]
      ]

  has_index-ensure_all :
      (j : ℕ) (hooks : Hooks) (current : List AttachedInterface) (interfaces : List (ℕ × List ℕ))
      (tcx : Bool)
      → has_index j (ensure_all accepts add_qdisc error_text hooks current interfaces tcx).1
        ≡ (is_wanted j interfaces || has_index j current)
  unfolding ensure_all
  has_index-ensure_all j hooks current [] tcx = refl
  has_index-ensure_all j hooks current ((ifindex, name) ∷ interfaces) tcx =
      let (hooks', current') = ensure accepts add_qdisc error_text hooks current ifindex name tcx in
      ground (
        arith,
        has_index-ensure_all j hooks' current' interfaces tcx,
        has_index-ensure j hooks current ifindex name tcx,
      )

  pub has_index-reconcile :
      (hooks : Hooks) (attached : List AttachedInterface) (interfaces : List (ℕ × List ℕ))
      (tcx : Bool) (j : ℕ)
      → AreDistinct attached
      → has_index j (reconcile accepts add_qdisc error_text hooks attached interfaces tcx).1
        ≡ is_wanted j interfaces
  unfolding reconcile
  has_index-reconcile hooks attached interfaces tcx j distinct =
      let (retained, kept) = retain_wanted hooks interfaces (collect attached) in
      has_index-sort_by_index j
        (ensure_all accepts add_qdisc error_text retained kept interfaces tcx).1
      ∙ has_index-ensure_all j retained kept interfaces tcx
      ∙ ground (arith, has_index-retain j hooks interfaces (collect attached))

  pub find_index-attach_entry :
      (j : ℕ) (hooks : Hooks) (current : List AttachedInterface) (ifindex : ℕ) (name : List ℕ)
      (tcx : Bool)
      → (ifindex == j) ≡ false
      → find_index j (attach_entry accepts add_qdisc error_text hooks current ifindex name tcx).1
        ≡ find_index j current
  unfolding attach_entry find_index
  find_index-attach_entry j hooks current ifindex name tcx differs =
      let (hooks', result) = attach_one accepts add_qdisc error_text hooks ifindex name tcx in
      elim (Option-cases result) [
        | inl e ↦ rw (e, differs) refl
        | inr (a, e) ↦
            rw
              (
                e,
                ifindex-attach_one accepts add_qdisc error_text hooks ifindex name tcx a e,
                differs,
              )
              refl
      ]
