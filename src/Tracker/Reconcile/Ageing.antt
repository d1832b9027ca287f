-- ===== src/Tracker/Reconcile/Ageing.antt =====
-- How flows leave the tracker of zimascoped/src/collector/tracker.rs.
use zima_scope.Base.{
  ℕ, ◌+◌, ◌≡◌, inl, inr, arith, List, [], ◌∷◌, length, All, if◌then◌else◌, Bool-cases,
}
use zima_scope.Model.{FlowKey, EndReason, ended, FlowUpdate}
use zima_scope.Tracker.Reconcile.State.{PreviousFlow, is_active}
use zima_scope.Tracker.Reconcile.{stays, farewell, age_out}

abbrev pub count_active : List (FlowKey × PreviousFlow) → ℕ
count_active [] = 0
count_active ((key, p) ∷ entries) = (if is_active p.state then 1 else 0) + count_active entries

-- An update of a flow that is gone.
abbrev pub IsFarewell : FlowUpdate → Type 0
IsFarewell update =
    (update.state ≡ ended EndReason.evicted_or_unknown)
    × (update.delta.packets ≡ 0)
    × (update.delta.bytes ≡ 0)

-- Ageing reports each active flow that it removes, once, as evicted or unknown with no further
-- traffic, and reports no other flow: the active flows before are as many as the active flows that
-- stay and the reports together.
age_out-active :
    (now idle_timeout generation : ℕ) (entries : List (FlowKey × PreviousFlow))
    → let (kept, updates) = age_out now idle_timeout generation entries in
      (count_active entries ≡ count_active kept + length updates) × All IsFarewell updates
unfolding age_out farewell
age_out-active now idle_timeout generation [] = (omega arith, tt)
age_out-active now idle_timeout generation ((key, p) ∷ entries) =
    let rest = age_out-active now idle_timeout generation entries in
    elim (Bool-cases (stays now idle_timeout generation p)) [
      | inl stay ↦ rw stay (ground arith)
      | inr go ↦ rw go (ground arith)
    ]
