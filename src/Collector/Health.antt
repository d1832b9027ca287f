-- ===== src/Collector/Health.antt =====
-- `HealthTracker` of zimascoped/src/collector/health.rs. A `SystemTime` is a number. The result of a
-- kernel read that failed is `none`, since its error is only dropped here. A hash map lists its
-- entries in the order of the association list.
pub mod Counters
pub mod Outages
use native.Mathlib.Decide.{ℕ_discrete}
use zima_scope.Abi.{KernelStats}
use zima_scope.Base.Assoc.{get, insert, remove}
use zima_scope.Base.{
  ℕ, Bool, true, false, ◌&&◌, Option, some, none, List, [], ◌∷◌, ◌++◌, if◌then◌else◌, map,
}
use zima_scope.Model.Health.{
  KernelCounters, GapReason, map_read_failed, ObservationGap, CollectorState, InterfaceHealth,
  ApplicationHealth, CollectorHealth, from_stats, is_monotonic_from, delta_from, zero_counters,
}

pub data GapKey : Type 0 where
  flow_map_read_failed owner_map_read_failed kernel_stats_read_failed : GapKey
  domain_events_read_failed service_events_read_failed : GapKey
  interface_detached : ℕ → GapKey

unfoldable pub GapKey-discrete : Discrete GapKey
GapKey-discrete = hlevel ℕ_discrete

pub record HealthTracker : Type 0 where
  pub open_gaps : List (GapKey × ObservationGap)
  pub closed_gaps : List ObservationGap
  pub last_kernel : KernelCounters
  pub kernel_seen : Bool
  pub last_delta : KernelCounters

abbrev pub new : HealthTracker
new = record {
  open_gaps = [];
  closed_gaps = [];
  last_kernel = zero_counters;
  kernel_seen = false;
  last_delta = zero_counters;
}

-- The `match` of `open_gap`.
abbrev pub reason_of : GapKey → GapReason
reason_of (GapKey.interface_detached ifindex) = GapReason.interface_detached ifindex
reason_of _ = map_read_failed

unfoldable pub open_gap : HealthTracker → GapKey → ℕ → HealthTracker
open_gap h key at = elim (get GapKey-discrete key h.open_gaps) [
  | some gap ↦ h
  | none ↦
      let gap : ObservationGap = record {
        started_at = at;
        ended_at = none;
        reason = reason_of key;
      } in
      record h { open_gaps = insert GapKey-discrete key gap h.open_gaps }
]

unfoldable pub close_gap : HealthTracker → GapKey → ℕ → HealthTracker
close_gap h key at = elim (get GapKey-discrete key h.open_gaps) [
  | none ↦ h
  | some gap ↦
      let ended : ObservationGap = record gap { ended_at = some at } in
      record h {
        open_gaps = remove GapKey-discrete key h.open_gaps;
        closed_gaps = h.closed_gaps ++ (ended ∷ []);
      }
]

-- The state afterwards; the value of `observe` is the result itself, without the error.
unfoldable pub observe : {A : Type 0} → HealthTracker → Option A → GapKey → ℕ → HealthTracker
observe h (some value) key at = close_gap h key at
observe h none key at = open_gap h key at

-- The loop of `close_all`.
unfoldable pub close_keys : HealthTracker → List GapKey → ℕ → HealthTracker
close_keys h [] at = h
close_keys h (key ∷ keys) at = close_keys (close_gap h key at) keys at

abbrev pub keys_of : List (GapKey × ObservationGap) → List GapKey
keys_of = map (λ entry. entry.0)

unfoldable pub close_all : HealthTracker → ℕ → HealthTracker
close_all h at = close_keys h (keys_of h.open_gaps) at

unfoldable pub has_open_gaps : HealthTracker → Bool
has_open_gaps h = elim h.open_gaps [ [] ↦ false | entry ∷ entries ↦ true ]

unfoldable pub record_kernel : HealthTracker → KernelStats → HealthTracker × KernelCounters
record_kernel h stats =
    let current = from_stats stats in
    let delta =
      if h.kernel_seen && is_monotonic_from current h.last_kernel
      then delta_from current h.last_kernel
      else current in
    (record h { last_kernel = current; kernel_seen = true; last_delta = delta }, delta)

abbrev pub values_of : List (GapKey × ObservationGap) → List ObservationGap
values_of = map (λ entry. entry.1)

unfoldable pub snapshot :
    HealthTracker
    → CollectorState
    → List InterfaceHealth
    → ℕ
    → ℕ
    → ApplicationHealth
    → HealthTracker × CollectorHealth
snapshot h state interfaces map_entries map_capacity application = (
  record h { closed_gaps = [] },
  record {
    state = state;
    attached_interfaces = interfaces;
    map_entries = map_entries;
    map_capacity = map_capacity;
    kernel = h.last_delta;
    gaps = values_of h.open_gaps ++ h.closed_gaps;
    application = application;
  },
)
