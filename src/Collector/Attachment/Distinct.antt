-- ===== src/Collector/Attachment/Distinct.antt =====
-- The entries of zimascoped/src/collector/aya.rs keep different interface indices.
use zima_scope.Base.{
  ℕ, ◌≡◌, inl, inr, refl, arith, Bool, false, not, ◌&&◌, some, List, [], ◌∷◌, Bool-cases,
  Option-cases,
}
use zima_scope.Collector.Attachment.{
  AttachedInterface, Hooks, detach_links, has_index, is_healthy, find_index, drop_index,
  retain_wanted, attach_hook, attach_egress, attach_one, attach_entry, ensure, ensure_all,
}
use zima_scope.Collector.Attachment.Ledger.{
  AreDistinct, has_index-drop_index, drop_index-AreDistinct, has_index_of_find,
}

pub has_index-retain_wanted :
    (j : ℕ) (hooks : Hooks) (interfaces : List (ℕ × List ℕ)) (current : List AttachedInterface)
    → has_index j current ≡ false
    → has_index j (retain_wanted hooks interfaces current).1 ≡ false
unfolding retain_wanted
has_index-retain_wanted j hooks interfaces [] absent = refl
has_index-retain_wanted j hooks interfaces (a ∷ current) absent =
    ground (arith, has_index-retain_wanted j hooks interfaces current)

pub retain_wanted-AreDistinct :
    (hooks : Hooks) (interfaces : List (ℕ × List ℕ)) (current : List AttachedInterface)
    → AreDistinct current
    → AreDistinct (retain_wanted hooks interfaces current).1
unfolding retain_wanted
retain_wanted-AreDistinct hooks interfaces [] distinct = tt
retain_wanted-AreDistinct hooks interfaces (a ∷ current) (absent, distinct) = ground (
  arith,
  retain_wanted-AreDistinct hooks interfaces current distinct,
  has_index-retain_wanted a.ifindex hooks interfaces current absent,
)

module _ (accepts : ℕ → Bool) (add_qdisc : List ℕ → Bool) (error_text : List ℕ → List ℕ) where
  ifindex-attach_egress :
      (hooks : Hooks) (ingress ifindex : ℕ) (name : List ℕ) (tcx : Bool) (a : AttachedInterface)
      → (attach_egress accepts add_qdisc error_text hooks ingress ifindex name tcx).1 ≡ some a
      → a.ifindex ≡ ifindex
  unfolding attach_egress
  ifindex-attach_egress hooks ingress ifindex name tcx a e = ground arith

  pub ifindex-attach_one :
      (hooks : Hooks) (ifindex : ℕ) (name : List ℕ) (tcx : Bool) (a : AttachedInterface)
      → (attach_one accepts add_qdisc error_text hooks ifindex name tcx).1 ≡ some a
      → a.ifindex ≡ ifindex
  unfolding attach_one
  ifindex-attach_one hooks ifindex name tcx a =
      let (hooks', ingress) = attach_hook accepts add_qdisc error_text hooks in
      elim (Bool-cases (not tcx && not (add_qdisc name))) [
        | inl refused ↦ rw (attach_one, refused) (λ e. cc)
        | inr tried ↦ elim (Option-cases ingress) [
          | inl failed ↦ rw (attach_one, tried, failed) (λ e. cc)
          | inr (link, made) ↦
              rw (attach_one, tried, made) (ifindex-attach_egress hooks' link ifindex name tcx a)
        ]
      ]

  attach_entry-AreDistinct :
      (hooks : Hooks) (current : List AttachedInterface) (ifindex : ℕ) (name : List ℕ) (tcx : Bool)
      → has_index ifindex current ≡ false
      → AreDistinct current
      → AreDistinct (attach_entry accepts add_qdisc error_text hooks current ifindex name tcx).1
  unfolding attach_entry
  attach_entry-AreDistinct hooks current ifindex name tcx absent distinct =
      let (hooks', result) = attach_one accepts add_qdisc error_text hooks ifindex name tcx in
      elim (Option-cases result) [
        | inl e ↦ rw e (absent, distinct)
        | inr (a, e) ↦ rw (e, ifindex-attach_one hooks ifindex name tcx a e) (absent, distinct)
      ]

  pub ensure-AreDistinct :
      (hooks : Hooks) (current : List AttachedInterface) (ifindex : ℕ) (name : List ℕ) (tcx : Bool)
      → AreDistinct current
      → AreDistinct (ensure accepts add_qdisc error_text hooks current ifindex name tcx).1
  unfolding ensure
  ensure-AreDistinct hooks current ifindex name tcx distinct =
      elim (Option-cases (find_index ifindex current)) [
        | inl e ↦
            rw (ensure, e)
              (attach_entry-AreDistinct hooks current ifindex name tcx
                (has_index_of_find ifindex current e) distinct)
        | inr (a, e) ↦ elim (Bool-cases (is_healthy a)) [
          | inl ok ↦ rw (ensure, e, ok) distinct
          | inr bad ↦
              rw (ensure, e, bad)
                (attach_entry-AreDistinct (detach_links hooks a) (drop_index ifindex current)
                  ifindex name tcx (has_index-drop_index ifindex current)
                  (drop_index-AreDistinct ifindex current distinct))
        ]
      ]

  pub ensure_all-AreDistinct :
      (hooks : Hooks) (current : List AttachedInterface) (interfaces : List (ℕ × List ℕ))
      (tcx : Bool)
      → AreDistinct current
      → AreDistinct (ensure_all accepts add_qdisc error_text hooks current interfaces tcx).1
  unfolding ensure_all
  ensure_all-AreDistinct hooks current [] tcx distinct = distinct
  ensure_all-AreDistinct hooks current ((ifindex, name) ∷ interfaces) tcx distinct =
      let (hooks', current') = ensure accepts add_qdisc error_text hooks current ifindex name tcx in
      ensure_all-AreDistinct hooks' current' interfaces tcx
        (ensure-AreDistinct hooks current ifindex name tcx distinct)
