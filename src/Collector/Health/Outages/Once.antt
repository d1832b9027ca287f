-- ===== src/Collector/Health/Outages/Once.antt =====
-- Every outage of an interface is reported once: zimascoped/src/collector/health.rs.
use zima_scope.Base.Assoc.{get}
use zima_scope.Base.{
  append_assoc, append_nil, ℕ, ◌≡◌, inl, inr, refl, sym, ap, ◌∙◌, Option, none, List, [], ◌∷◌, ◌++◌,
}
use zima_scope.Collector.Health.{HealthTracker, new, snapshot, values_of}
use zima_scope.Model.Health.{CollectorState, InterfaceHealth, ApplicationHealth}
use zima_scope.Collector.Health.Outages.{
  run, step, outages_of, next_since, ended_by, outages, Event, failed, succeeded, reported,
}
use zima_scope.Collector.Health.Outages.Tracking.{
  outages_of-append, outages_of-open, Tracks, is_key_of-cases, closed_gaps-open_gap,
  Tracks-open_self, Tracks-close_self, outages_of-close_self, Tracks-open_ne, Tracks-close_ne,
  outages_of-close_ne,
}

-- `step` is what `snapshot` does to the gaps.
step-snapshot :
    (h : HealthTracker) (state : CollectorState) (interfaces : List InterfaceHealth)
    (entries capacity : ℕ) (application : ApplicationHealth)
    → let (h', health) = snapshot h state interfaces entries capacity application in
      step h reported ≡ (h', health.gaps)
unfolding step snapshot
step-snapshot h state interfaces entries capacity application = refl

step-Tracks :
    (i : ℕ) (since : Option ℕ) (h : HealthTracker) (event : Event)
    → Tracks i since h
    → Tracks i (next_since i since event) (step h event).0
unfolding step
step-Tracks i since h (failed key at) tracks = elim (is_key_of-cases i key) [
  | inl (same, is) ↦ rw (is, same) (Tracks-open_self i since h at tracks)
  | inr (ne, is) ↦ rw is (Tracks-open_ne i since h at key ne tracks)
]
step-Tracks i since h (succeeded key at) tracks = elim (is_key_of-cases i key) [
  | inl (same, is) ↦ rw (is, same) (Tracks-close_self i since h at tracks)
  | inr (ne, is) ↦ rw is (Tracks-close_ne i since h at key ne tracks)
]
step-Tracks i since h reported tracks = tracks

step_outages :
    (i : ℕ) (since : Option ℕ) (h : HealthTracker) (event : Event)
    → Tracks i since h
    → outages_of i (step h event).1 ++ outages_of i (step h event).0.closed_gaps
      ≡ outages_of i h.closed_gaps ++ ended_by i since event
unfolding step
step_outages i since h (failed key at) tracks =
    rw (closed_gaps-open_gap h key at) (sym (append_nil (outages_of i h.closed_gaps)))
step_outages i since h (succeeded key at) tracks = elim (is_key_of-cases i key) [
  | inl (same, is) ↦ rw (is, same) (outages_of-close_self i since h at tracks)
  | inr (ne, is) ↦
      rw (is, outages_of-close_ne i since h at key ne is tracks)
        (sym (append_nil (outages_of i h.closed_gaps)))
]
step_outages i since h reported (all, started) =
    rw
      (outages_of-append i (values_of h.open_gaps) h.closed_gaps, outages_of-open i h.open_gaps all)
      refl

accounted_from :
    (i : ℕ) (since : Option ℕ) (h : HealthTracker) (events : List Event)
    → Tracks i since h
    → outages_of i (run h events).1 ++ outages_of i (run h events).0.closed_gaps
      ≡ outages_of i h.closed_gaps ++ outages i since events
accounted_from i since h [] tracks = sym (append_nil (outages_of i h.closed_gaps))
accounted_from i since h (event ∷ events) tracks =
    let (h', gaps) = step h event in
    let since' = next_since i since event in
    let now = outages_of i gaps in
    let rest = outages i since' events in
    let later = accounted_from i since' h' events (step-Tracks i since h event tracks) in
    rw (outages_of-append i gaps (run h' events).1) (
      append_assoc now (outages_of i (run h' events).1) (outages_of i (run h' events).0.closed_gaps)
      ∙ ap (λ l. now ++ l) later
      ∙ sym (append_assoc now (outages_of i h'.closed_gaps) rest)
      ∙ ap (λ l. l ++ rest) (step_outages i since h event tracks)
      ∙ append_assoc (outages_of i h.closed_gaps) (ended_by i since event) rest)

-- Whatever reads fail and succeed and whenever the health is reported, the ended gaps of an
-- interface that the reports and the pending list hold are, in order and each once, its outages:
-- each from the first failure since it was last seen attached to the next success.
pub run-outages :
    (ifindex : ℕ) (events : List Event)
    → let (h, gaps) = run new events in
      outages_of ifindex gaps ++ outages_of ifindex h.closed_gaps ≡ outages ifindex none events
unfolding get
run-outages ifindex events = accounted_from ifindex none new events (tt, refl)
