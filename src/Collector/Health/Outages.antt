-- ===== src/Collector/Health/Outages.antt =====
-- Which gaps `HealthTracker` of zimascoped/src/collector/health.rs reports, over any sequence of reads
-- and snapshots.
pub mod Tracking
pub mod Once
use zima_scope.Base.{ℕ, Bool, false, Option, some, none, List, [], ◌∷◌, ◌++◌, ◌==◌, if◌then◌else◌}
use zima_scope.Collector.Health.{GapKey, HealthTracker, open_gap, close_gap, values_of}
use zima_scope.Model.Health.{interface_detached, map_read_failed, ObservationGap}

-- A read that failed or succeeded at a time, or a report of the health.
pub data Event : Type 0 where
  failed succeeded : GapKey → ℕ → Event
  reported : Event

-- The gaps of a snapshot, whatever its other contents are.
abbrev pub gaps_of : HealthTracker → List ObservationGap
gaps_of h = values_of h.open_gaps ++ h.closed_gaps

-- The tracker after an event, and the gaps that it reports.
unfoldable pub step : HealthTracker → Event → HealthTracker × List ObservationGap
step h (failed key at) = (open_gap h key at, [])
step h (succeeded key at) = (close_gap h key at, [])
step h reported = (record h { closed_gaps = [] }, gaps_of h)

abbrev pub run : HealthTracker → List Event → HealthTracker × List ObservationGap
run h [] = (h, [])
run h (event ∷ events) =
    let (h', gaps) = step h event in let (h'', more) = run h' events in (h'', gaps ++ more)

-- Whether the gap is over and is one of the interface.
abbrev pub is_outage_of : ℕ → ObservationGap → Bool
is_outage_of ifindex gap = elim gap.ended_at [
  | none ↦ false
  | some ended ↦ elim gap.reason [ interface_detached i ↦ i == ifindex | map_read_failed ↦ false ]
]

abbrev pub outages_of : ℕ → List ObservationGap → List ObservationGap
outages_of ifindex [] = []
outages_of ifindex (gap ∷ gaps) =
    let rest = outages_of ifindex gaps in if is_outage_of ifindex gap then gap ∷ rest else rest

abbrev pub outage : ℕ → ℕ → ℕ → ObservationGap
outage ifindex started ended = record {
  started_at = started;
  ended_at = some ended;
  reason = interface_detached ifindex;
}

abbrev pub ended_outage : ℕ → Option ℕ → ℕ → List ObservationGap
ended_outage ifindex none at = []
ended_outage ifindex (some started) at = outage ifindex started at ∷ []

-- What the events say of the interface: since when it is out, if it is, and its outages so far.
abbrev pub is_key_of : ℕ → GapKey → Bool
is_key_of ifindex (GapKey.interface_detached i) = i == ifindex
is_key_of ifindex _ = false

abbrev pub since_or : Option ℕ → ℕ → Option ℕ
since_or none at = some at
since_or (some started) at = some started

abbrev pub next_since : ℕ → Option ℕ → Event → Option ℕ
next_since ifindex since (failed key at) =
    if is_key_of ifindex key then since_or since at else since
next_since ifindex since (succeeded key at) = if is_key_of ifindex key then none else since
next_since ifindex since reported = since

abbrev pub ended_by : ℕ → Option ℕ → Event → List ObservationGap
ended_by ifindex since (succeeded key at) =
    if is_key_of ifindex key then ended_outage ifindex since at else []
ended_by ifindex since _ = []

abbrev pub outages : ℕ → Option ℕ → List Event → List ObservationGap
outages ifindex since [] = []
outages ifindex since (event ∷ events) =
    ended_by ifindex since event ++ outages ifindex (next_since ifindex since event) events
