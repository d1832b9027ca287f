-- ===== src/Collector/Poll/Reports.antt =====
-- The state that `poll_once` of zimascoped/src/collector/mod.rs reports.

use zima_scope.Base.Assoc.{get, get-remove_self, get-remove_absent, nil_of_get}
use zima_scope.Base.{
  ℕ, ◌≡◌, ◌≢◌, ◌↔◌, refl, sym, ◌⊎◌, inl, inr, ap, ◌∙◌, arith, false, none, List, [], Bool-cases,
}
use zima_scope.Collector.Health.{GapKey, GapKey-discrete, HealthTracker, has_open_gaps, snapshot}
use zima_scope.Collector.Poll.{poll_once, poll_health, is_degraded, state_of}
use zima_scope.Collector.Poll.State.{CollectorCore, Answers}
use zima_scope.Model.Health.{running}
use zima_scope.Collector.Poll.Closing.{
  IsComplete, is_reported, IsComplete-iff, Gaps, remove_interfaces, remove_reads,
  open_gaps-poll_health, get-remove_interfaces_absent, get-remove_interfaces_reported,
  get-remove_interfaces_unreported, get-remove_reads,
}

-- No gap of an interface that is missing from the answers was open.
abbrev pub LeavesNone : CollectorCore → Answers → Type 0
LeavesNone core answers =
    (i : ℕ)
    → is_reported i answers.interfaces ≡ false
    → get GapKey-discrete (GapKey.interface_detached i) core.health.open_gaps ≡ none

closed_read :
    (q : GapKey) (gaps : Gaps)
    → ((i : ℕ) → GapKey.interface_detached i ≢ q)
    → get GapKey-discrete q (remove_reads gaps) ≡ none
closed_read (GapKey.interface_detached i) gaps ne = absurd (ne i refl)
closed_read GapKey.kernel_stats_read_failed gaps ne = search (get-remove_self GapKey-discrete)
closed_read GapKey.domain_events_read_failed gaps ne =
    search (get-remove_self GapKey-discrete, get-remove_absent GapKey-discrete)
closed_read GapKey.flow_map_read_failed gaps ne =
    search (get-remove_self GapKey-discrete, get-remove_absent GapKey-discrete)
closed_read GapKey.owner_map_read_failed gaps ne =
    search (get-remove_self GapKey-discrete, get-remove_absent GapKey-discrete)
closed_read GapKey.service_events_read_failed gaps ne =
    search (get-remove_self GapKey-discrete, get-remove_absent GapKey-discrete)

Interface-cases :
    (q : GapKey)
    → ((i : ℕ) × (q ≡ GapKey.interface_detached i)) ⊎ ((i : ℕ) → GapKey.interface_detached i ≢ q)
Interface-cases (GapKey.interface_detached i) = inl (i, refl)
Interface-cases GapKey.flow_map_read_failed = inr (λ i. ground arith)
Interface-cases GapKey.owner_map_read_failed = inr (λ i. ground arith)
Interface-cases GapKey.kernel_stats_read_failed = inr (λ i. ground arith)
Interface-cases GapKey.domain_events_read_failed = inr (λ i. ground arith)
Interface-cases GapKey.service_events_read_failed = inr (λ i. ground arith)

nil_iff : (h : HealthTracker) → (has_open_gaps h ≡ false) ↔ (h.open_gaps ≡ [])
unfolding has_open_gaps
nil_iff h = ground arith

closed_after :
    (core : CollectorCore) (answers : Answers) (q : GapKey)
    → LeavesNone core answers
    → get GapKey-discrete q
        (remove_interfaces answers.interfaces (remove_reads core.health.open_gaps))
      ≡ none
closed_after core answers q leaves = elim (Interface-cases q) [
  | inl (i, same) ↦ elim (Bool-cases (is_reported i answers.interfaces)) [
    | inl is ↦ rw same (
        get-remove_interfaces_reported i answers.interfaces (remove_reads core.health.open_gaps) is)
    | inr is ↦ rw same (
        get-remove_interfaces_unreported i answers.interfaces (remove_reads core.health.open_gaps)
          is
        ∙ get-remove_reads i core.health.open_gaps
        ∙ leaves i is)
  ]
  | inr ne ↦
      get-remove_interfaces_absent q answers.interfaces (remove_reads core.health.open_gaps)
        (closed_read q core.health.open_gaps ne)
]

state_of-running :
    (answers : Answers) (h : HealthTracker)
    → (state_of answers h ≡ running) ↔ ((is_degraded answers ≡ false) × (has_open_gaps h ≡ false))
unfolding state_of
state_of-running answers h = ground arith

poll_health-LeavesNone :
    (core : CollectorCore) (answers : Answers)
    → IsComplete answers
    → has_open_gaps (poll_health core.health answers) ≡ false
    → LeavesNone core answers
unfolding get
poll_health-LeavesNone core answers complete closed i unreported =
    let gaps = remove_reads core.health.open_gaps in
    let q = GapKey.interface_detached i in
    sym (get-remove_reads i core.health.open_gaps)
    ∙ sym (get-remove_interfaces_unreported i answers.interfaces gaps unreported)
    ∙ ap (get GapKey-discrete q) (
        sym (open_gaps-poll_health core.health answers complete)
        ∙ (nil_iff (poll_health core.health answers)).0 closed)

poll_health_closed :
    (core : CollectorCore) (answers : Answers)
    → IsComplete answers
    → LeavesNone core answers
    → has_open_gaps (poll_health core.health answers) ≡ false
poll_health_closed core answers complete leaves = (nil_iff (poll_health core.health answers)).1 (
    open_gaps-poll_health core.health answers complete
    ∙ nil_of_get GapKey-discrete _ (λ q. closed_after core answers q leaves))

-- A poll reports the collector as running exactly when every read of the poll succeeded, every
-- interface that is reported is attached, and no gap is open of an interface that is not reported
-- in this poll.
pub poll_once-running :
    (decode_comm : List ℕ → List ℕ) (core : CollectorCore) (answers : Answers)
    → ((poll_once decode_comm core answers).1.health.state ≡ running)
      ↔ (IsComplete answers × LeavesNone core answers)
unfolding poll_once snapshot
poll_once-running decode_comm core answers =
    let health = poll_health core.health answers in
    let state = state_of-running answers health in
    let complete = IsComplete-iff answers in
    (
      λ is.
          let (reads, closed) = state.0 is in
          (complete.0 reads, poll_health-LeavesNone core answers (complete.0 reads) closed),
      λ is. state.1 (complete.1 is.0, poll_health_closed core answers is.0 is.1),
    )
