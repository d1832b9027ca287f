-- ===== src/Collector/Attachment/Gains.antt =====
-- How each step on the hooks of zimascoped/src/collector/aya.rs moves the links between the entries and the
-- detached ones.
use zima_scope.Base.{
  ℕ, ◌+◌, ◌≡◌, inl, inr, refl, ap, arith, Bool, not, ◌&&◌, Option, some, none, List, [], ◌∷◌, ltb,
  ◌==◌, if◌then◌else◌, Bool-cases, Option-cases, ==_iff,
}
use zima_scope.Collector.Attachment.{
  AttachedInterface, Hooks, detach_link, detach_links, is_wanted, is_healthy, find_index,
  drop_index, retain_wanted, attach_hook, attach_egress, attach_one, attach_entry, ensure,
  ensure_all,
}
use zima_scope.Collector.Attachment.Ledger.{
  occurs, count, own, held, AreDistinct, count-detach_link, count-detach_links, held-drop_index,
}
use zima_scope.Collector.Attachment.Distinct.{ensure-AreDistinct}

abbrev pub own_of : ℕ → Option AttachedInterface → ℕ
own_of n none = 0
own_of n (some a) = own n a

module _ (accepts : ℕ → Bool) (add_qdisc : List ℕ → Bool) (error_text : List ℕ → List ℕ) where
  -- Whether the link was made so far.
  abbrev pub acquired : ℕ → Hooks → ℕ
  acquired n hooks = if ltb n hooks.attempts && accepts n then 1 else 0

  module _ (n : ℕ) where
    pub acquired_of_attempts :
        (before after : Hooks)
        → after.attempts ≡ before.attempts
        → acquired n after ≡ acquired n before
    acquired_of_attempts before after same = rw same refl

    -- As many of the link as were made since were gained or detached since.
    abbrev pub Gains : Hooks → Hooks → ℕ → ℕ → Type 0
    Gains before after had has =
        acquired n before + has + count n after.detached
        ≡ acquired n after + had + count n before.detached

    acquired-attach_hook :
        (hooks : Hooks)
        → acquired n (attach_hook accepts add_qdisc error_text hooks).0
          ≡ acquired n hooks + occurs n (attach_hook accepts add_qdisc error_text hooks).1
    unfolding attach_hook
    acquired-attach_hook hooks = elim (Bool-cases (hooks.attempts == n)) [
      | inl is ↦ rw ((==_iff hooks.attempts n).0 is) (ground arith)
      | inr isnt ↦ ground arith
    ]

    detached-attach_hook :
        (hooks : Hooks)
        → (attach_hook accepts add_qdisc error_text hooks).0.detached ≡ hooks.detached
    unfolding attach_hook
    detached-attach_hook hooks = refl

    attach_egress-Gains :
        (hooks : Hooks) (ingress ifindex : ℕ) (name : List ℕ) (tcx : Bool)
        → let (after, result) =
            attach_egress accepts add_qdisc error_text hooks ingress ifindex name tcx in
          Gains hooks after (occurs n (some ingress)) (own_of n result)
    unfolding attach_egress
    attach_egress-Gains hooks ingress ifindex name tcx =
        let (hooks', egress) = attach_hook accepts add_qdisc error_text hooks in
        let made = acquired-attach_hook hooks in
        let same = ap (count n) (detached-attach_hook hooks) in
        let undone = count-detach_link n hooks' (some ingress) in
        elim (Option-cases egress) [
          | inl e ↦
              rw (attach_egress, e)
                (omega (
                  arith,
                  made,
                  ap (occurs n) e,
                  same,
                  undone.0,
                  acquired_of_attempts hooks' (detach_link hooks' (some ingress)) undone.1,
                ))
          | inr (link, e) ↦ rw (attach_egress, e) (omega (arith, made, ap (occurs n) e, same))
        ]

    pub attach_one-Gains :
        (hooks : Hooks) (ifindex : ℕ) (name : List ℕ) (tcx : Bool)
        → let (after, result) = attach_one accepts add_qdisc error_text hooks ifindex name tcx in
          Gains hooks after 0 (own_of n result)
    unfolding attach_one
    attach_one-Gains hooks ifindex name tcx =
        let (hooks', ingress) = attach_hook accepts add_qdisc error_text hooks in
        let made = acquired-attach_hook hooks in
        let same = ap (count n) (detached-attach_hook hooks) in
        elim (Bool-cases (not tcx && not (add_qdisc name))) [
          | inl refused ↦ rw (attach_one, refused) (omega arith)
          | inr tried ↦ elim (Option-cases ingress) [
            | inl e ↦ rw (attach_one, tried, e) (omega (arith, made, ap (occurs n) e, same))
            | inr (link, e) ↦
                rw (attach_one, tried, e)
                  (omega (
                    arith,
                    made,
                    ap (occurs n) e,
                    same,
                    attach_egress-Gains hooks' link ifindex name tcx,
                  ))
          ]
        ]

    attach_entry-Gains :
        (hooks : Hooks) (current : List AttachedInterface) (ifindex : ℕ) (name : List ℕ)
        (tcx : Bool)
        → let (after, entries) =
            attach_entry accepts add_qdisc error_text hooks current ifindex name tcx in
          Gains hooks after (held n current) (held n entries)
    unfolding attach_entry
    attach_entry-Gains hooks current ifindex name tcx =
        let (hooks', result) = attach_one accepts add_qdisc error_text hooks ifindex name tcx in
        let gains = attach_one-Gains hooks ifindex name tcx in
        elim (Option-cases result) [
          | inl e ↦ rw e (omega (arith, gains, ap (own_of n) e))
          | inr (a, e) ↦ rw e (omega (arith, gains, ap (own_of n) e))
        ]

    ensure-Gains :
        (hooks : Hooks) (current : List AttachedInterface) (ifindex : ℕ) (name : List ℕ)
        (tcx : Bool)
        → AreDistinct current
        → let (after, entries) =
            ensure accepts add_qdisc error_text hooks current ifindex name tcx in
          Gains hooks after (held n current) (held n entries)
    unfolding ensure
    ensure-Gains hooks current ifindex name tcx distinct =
        elim (Option-cases (find_index ifindex current)) [
          | inl e ↦ rw (ensure, e) (attach_entry-Gains hooks current ifindex name tcx)
          | inr (a, e) ↦ elim (Bool-cases (is_healthy a)) [
            | inl ok ↦ rw (ensure, e, ok) refl
            | inr bad ↦
                let (undone, tries) = count-detach_links n hooks a in
                rw (ensure, e, bad)
                  (omega (
                    arith,
                    undone,
                    held-drop_index n ifindex a current distinct e,
                    acquired_of_attempts hooks (detach_links hooks a) tries,
                    attach_entry-Gains (detach_links hooks a) (drop_index ifindex current) ifindex
                        name tcx,
                  ))
          ]
        ]

    pub retain_wanted-Gains :
        (hooks : Hooks) (interfaces : List (ℕ × List ℕ)) (current : List AttachedInterface)
        → let (after, entries) = retain_wanted hooks interfaces current in
          Gains hooks after (held n current) (held n entries)
    unfolding retain_wanted
    retain_wanted-Gains hooks interfaces [] = refl
    retain_wanted-Gains hooks interfaces (a ∷ current) =
        let (hooks', rest) = retain_wanted hooks interfaces current in
        let later = retain_wanted-Gains hooks interfaces current in
        elim (Bool-cases (is_wanted a.ifindex interfaces)) [
          | inl stays ↦ rw (retain_wanted, stays) (omega (arith, later))
          | inr goes ↦
              let (undone, tries) = count-detach_links n hooks' a in
              rw (retain_wanted, goes)
                (omega
                  (arith, later, undone, acquired_of_attempts hooks' (detach_links hooks' a) tries))
        ]

    pub ensure_all-Gains :
        (hooks : Hooks) (current : List AttachedInterface) (interfaces : List (ℕ × List ℕ))
        (tcx : Bool)
        → AreDistinct current
        → let (after, entries) =
            ensure_all accepts add_qdisc error_text hooks current interfaces tcx in
          Gains hooks after (held n current) (held n entries)
    unfolding ensure_all
    ensure_all-Gains hooks current [] tcx distinct = refl
    ensure_all-Gains hooks current ((ifindex, name) ∷ interfaces) tcx distinct =
        let (hooks', current') =
          ensure accepts add_qdisc error_text hooks current ifindex name tcx in
        omega (
          arith,
          ensure-Gains hooks current ifindex name tcx distinct,
          ensure_all-Gains hooks' current' interfaces tcx (
              ensure-AreDistinct accepts add_qdisc error_text hooks current ifindex name tcx
                distinct),
        )
