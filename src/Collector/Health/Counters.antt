-- ===== src/Collector/Health/Counters.antt =====
-- What `record_kernel` reports over a sequence of readings of the kernel's counters.
use zima_scope.Abi.{KernelStats}
use zima_scope.Base.{ℕ, ◌+◌, ◌-◌, ◌≤◌, ◌≡◌, refl, ap, arith, true, false, List, [], ◌∷◌, ◌++◌}
use zima_scope.Collector.Health.{HealthTracker, new, record_kernel}
use zima_scope.Model.Health.{KernelCounters, from_stats, is_monotonic_from, delta_from}

-- The names of the counters, and the counter of a name.
pub data Counter : Type 0 where
  packets_seen packets_parsed parse_failures : Counter
  map_update_failures flow_evictions domain_events_emitted : Counter
  domain_events_dropped service_events_emitted service_events_dropped : Counter
  owner_events_inserted owner_events_dropped policy_dropped_packets : Counter
  policy_dropped_bytes policy_missing_state : Counter

abbrev pub value : Counter → KernelCounters → ℕ
value packets_seen counters = counters.packets_seen
value packets_parsed counters = counters.packets_parsed
value parse_failures counters = counters.parse_failures
value map_update_failures counters = counters.map_update_failures
value flow_evictions counters = counters.flow_evictions
value domain_events_emitted counters = counters.domain_events_emitted
value domain_events_dropped counters = counters.domain_events_dropped
value service_events_emitted counters = counters.service_events_emitted
value service_events_dropped counters = counters.service_events_dropped
value owner_events_inserted counters = counters.owner_events_inserted
value owner_events_dropped counters = counters.owner_events_dropped
value policy_dropped_packets counters = counters.policy_dropped_packets
value policy_dropped_bytes counters = counters.policy_dropped_bytes
value policy_missing_state counters = counters.policy_missing_state

value-delta_from :
    (c : Counter) (current previous : KernelCounters)
    → value c (delta_from current previous) ≡ value c current - value c previous
unfolding delta_from
value-delta_from packets_seen current previous = refl
value-delta_from packets_parsed current previous = refl
value-delta_from parse_failures current previous = refl
value-delta_from map_update_failures current previous = refl
value-delta_from flow_evictions current previous = refl
value-delta_from domain_events_emitted current previous = refl
value-delta_from domain_events_dropped current previous = refl
value-delta_from service_events_emitted current previous = refl
value-delta_from service_events_dropped current previous = refl
value-delta_from owner_events_inserted current previous = refl
value-delta_from owner_events_dropped current previous = refl
value-delta_from policy_dropped_packets current previous = refl
value-delta_from policy_dropped_bytes current previous = refl
value-delta_from policy_missing_state current previous = refl

le_of_monotonic :
    (c : Counter) (current previous : KernelCounters)
    → is_monotonic_from current previous ≡ true
    → value c previous ≤ value c current
unfolding is_monotonic_from
le_of_monotonic packets_seen current previous h = ground arith
le_of_monotonic packets_parsed current previous h = ground arith
le_of_monotonic parse_failures current previous h = ground arith
le_of_monotonic map_update_failures current previous h = ground arith
le_of_monotonic flow_evictions current previous h = ground arith
le_of_monotonic domain_events_emitted current previous h = ground arith
le_of_monotonic domain_events_dropped current previous h = ground arith
le_of_monotonic service_events_emitted current previous h = ground arith
le_of_monotonic service_events_dropped current previous h = ground arith
le_of_monotonic owner_events_inserted current previous h = ground arith
le_of_monotonic owner_events_dropped current previous h = ground arith
le_of_monotonic policy_dropped_packets current previous h = ground arith
le_of_monotonic policy_dropped_bytes current previous h = ground arith
le_of_monotonic policy_missing_state current previous h = ground arith

-- `record_kernel` on one reading after the other, with the deltas in order.
abbrev pub record_all : HealthTracker → List KernelStats → HealthTracker × List KernelCounters
record_all h [] = (h, [])
record_all h (stats ∷ more) =
    let (h', delta) = record_kernel h stats in
    let (h'', deltas) = record_all h' more in (h'', delta ∷ deltas)

abbrev pub sum_of : Counter → List KernelCounters → ℕ
sum_of c [] = 0
sum_of c (delta ∷ deltas) = value c delta + sum_of c deltas

-- No counter falls from one reading to the next.
abbrev pub IsRising : KernelStats → List KernelStats → Type 0
IsRising stats [] = Unit
IsRising stats (next ∷ more) =
    (is_monotonic_from (from_stats next) (from_stats stats) ≡ true) × IsRising next more

abbrev pub last_of : KernelStats → List KernelStats → KernelStats
last_of stats [] = stats
last_of stats (next ∷ more) = last_of next more

-- The readings of one kernel object: the first, and those after it.
abbrev pub Life : Type 0
Life = KernelStats × List KernelStats

abbrev pub readings : List Life → List KernelStats
readings [] = []
readings ((stats, more) ∷ lives) = stats ∷ (more ++ readings lives)

-- The counters rise within each life, and some counter falls from a life to the next.
abbrev pub AreLives : KernelStats → List Life → Type 0
AreLives stats [] = Unit
AreLives stats ((first, more) ∷ lives) =
    (is_monotonic_from (from_stats first) (from_stats stats) ≡ false)
    × IsRising first more
    × AreLives (last_of first more) lives

-- What the counter came to at the end of each life, added up.
abbrev pub total_of : Counter → List Life → ℕ
total_of c [] = 0
total_of c ((stats, more) ∷ lives) = value c (from_stats (last_of stats more)) + total_of c lives

HasSeen : HealthTracker → KernelStats → Type 0
HasSeen h stats = (h.kernel_seen ≡ true) × (h.last_kernel ≡ from_stats stats)

record_kernel-HasSeen :
    (h : HealthTracker) (stats : KernelStats) → HasSeen (record_kernel h stats).0 stats
unfolding record_kernel HasSeen
record_kernel-HasSeen h stats = (refl, refl)

record_kernel_rising :
    (c : Counter) (h : HealthTracker) (previous stats : KernelStats)
    → HasSeen h previous
    → is_monotonic_from (from_stats stats) (from_stats previous) ≡ true
    → value c (record_kernel h stats).1 + value c (from_stats previous) ≡ value c (from_stats stats)
unfolding record_kernel HasSeen
record_kernel_rising c h previous stats (seen, last) rises =
    rw (seen, last, rises, value-delta_from c (from_stats stats) (from_stats previous))
      (omega (arith, le_of_monotonic c (from_stats stats) (from_stats previous) rises))

record_kernel_fallen :
    (h : HealthTracker) (previous stats : KernelStats)
    → HasSeen h previous
    → is_monotonic_from (from_stats stats) (from_stats previous) ≡ false
    → (record_kernel h stats).1 ≡ from_stats stats
unfolding record_kernel HasSeen
record_kernel_fallen h previous stats (seen, last) falls = rw (seen, last, falls) refl

sum_of_lives :
    (c : Counter) (h : HealthTracker) (previous : KernelStats) (more : List KernelStats)
    (lives : List Life)
    → HasSeen h previous
    → IsRising previous more
    → AreLives (last_of previous more) lives
    → sum_of c (record_all h (more ++ readings lives)).1 + value c (from_stats previous)
      ≡ value c (from_stats (last_of previous more)) + total_of c lives
sum_of_lives c h previous [] [] seen rising separate = omega arith
sum_of_lives c h previous [] ((first, more) ∷ lives) seen rising (falls, rising', separate) =
    let later =
      sum_of_lives c (record_kernel h first).0 first more lives (record_kernel-HasSeen h first)
        rising' separate in
    omega (arith, later, ap (value c) (record_kernel_fallen h previous first seen falls))
sum_of_lives c h previous (stats ∷ more) lives seen (rises, rising) separate =
    let later =
      sum_of_lives c (record_kernel h stats).0 stats more lives (record_kernel-HasSeen h stats)
        rising separate in
    omega (arith, later, record_kernel_rising c h previous stats seen rises)

-- However often the kernel object is reloaded: where no counter falls within a life of the object
-- and some counter falls from one life to the next, the deltas that are reported from the start on
-- add up, for each counter, to the sum of what it came to at the end of each life.
pub record_kernel-total :
    (c : Counter) (first : KernelStats) (more : List KernelStats) (lives : List Life)
    → IsRising first more
    → AreLives (last_of first more) lives
    → sum_of c (record_all new (readings ((first, more) ∷ lives))).1
      ≡ total_of c ((first, more) ∷ lives)
unfolding record_kernel
record_kernel-total c first more lives rising separate = omega (
  arith,
  sum_of_lives c (record_kernel new first).0 first more lives (record_kernel-HasSeen new first)
      rising separate,
)
