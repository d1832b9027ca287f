-- ===== src/Collector/Poll.antt =====
-- `poll_once` of zimascoped/src/collector/mod.rs. The entries of a map that were visited count even where
-- the read failed half way.
pub mod State
pub mod Closing
pub mod Reports
pub mod Numbering
pub mod Unread
use zima_scope.Abi
use zima_scope.Abi.{
  FlowValue, OwnerKey, OwnerValue, DomainSample, ServiceSample, KernelStats, service_sample_max,
}
use zima_scope.Base.{
  ℕ, ◌+◌, ◌-◌, ◌%◌, Bool, true, false, not, ◌&&◌, ◌||◌, Option, some, none, List, [], ◌∷◌, ◌++◌,
  leb, ◌==◌, if◌then◌else◌, min, take, u64_mod,
}
use zima_scope.Collector.Poll.State.{
  CollectorCore, Answers, CollectionBatch, CollectorConfig, new_core, listener_seed_interval,
}
use zima_scope.Collector.Health.{
  GapKey, HealthTracker, observe, open_gap, close_gap, has_open_gaps, record_kernel, snapshot,
}
use zima_scope.Domains.Decoder.{DomainDecoder, DomainObservation, decode, purge_expired}
use zima_scope.Fingerprints.Library.{FingerprintLibrary}
use zima_scope.Fingerprints.Match.{classify}
use zima_scope.Model.Health.{CollectorState, running, degraded, InterfaceHealth}
use zima_scope.Model.{FlowUpdate}
use zima_scope.Tracker.Clock.{MonoClock}
use zima_scope.Tracker.Merge.{MergedFlow, merge_entry, decode_key}
use zima_scope.Tracker.Reconcile.State.{FlowTracker}
use zima_scope.Tracker.Reconcile.Lookup.{record_owner}
use zima_scope.Tracker.Reconcile.{reconcile, set_service}

-- The first lines of `poll_once`.
unfoldable pub begin_poll : CollectorCore → ℕ → CollectorCore
begin_poll core now = record core { last_poll = now; sequence = (core.sequence + 1) % u64_mod }

-- Whether the source is asked to resolve the boundary again.
unfoldable pub reconcile_due : CollectorCore → ℕ → Bool
reconcile_due core now =
    not (core.reconcile_interval == 0) && leb core.reconcile_interval (now - core.last_reconcile)

unfoldable pub note_reconcile : CollectorCore → ℕ → CollectorCore
note_reconcile core now =
    if reconcile_due core now then record core { last_reconcile = now } else core

unfoldable pub seed_due : Option ℕ → ℕ → Bool
seed_due none now = false
seed_due (some last_seed) now = leb listener_seed_interval (now - last_seed)

-- The visitor of `visit_flows`.
unfoldable pub merged_flows : List (Abi.FlowKey × List FlowValue) → List MergedFlow
merged_flows [] = []
merged_flows ((key, values) ∷ entries) =
    let rest = merged_flows entries in
    elim (merge_entry key values) [ none ↦ rest | some entry ↦ entry ∷ rest ]

-- The visitor of `drain_service_events` on one sample.
unfoldable pub record_service : FingerprintLibrary → FlowTracker → ServiceSample → FlowTracker
record_service library tracker sample =
    let length = min sample.payload_len service_sample_max in
    elim (classify library.rules (take length sample.payload)) [
      | none ↦ tracker
      | some service ↦ elim (decode_key sample.key) [
        | none ↦ tracker
        | some key ↦ set_service tracker key service
      ]
    ]

unfoldable pub record_services : FingerprintLibrary → FlowTracker → List ServiceSample → FlowTracker
record_services library tracker [] = tracker
record_services library tracker (sample ∷ samples) =
    record_services library (record_service library tracker sample) samples

-- `decode_comm` stands for the decoding of a `comm` text.
unfoldable pub record_owners :
    (List ℕ → List ℕ) → FlowTracker → List (OwnerKey × OwnerValue) → ℕ → FlowTracker
record_owners decode_comm tracker [] now = tracker
record_owners decode_comm tracker ((key, value) ∷ owners) now =
    record_owners decode_comm (record_owner decode_comm tracker key value now) owners now

unfoldable pub seed_listeners : (List ℕ → List ℕ) → CollectorCore → Answers → CollectorCore
seed_listeners decode_comm core answers =
    if seed_due core.listener_seed answers.poll_started
    then record core {
      tracker = record_owners decode_comm core.tracker answers.seeded answers.poll_started;
      listener_seed = some answers.poll_started;
    }
    else core

-- `CollectorCore::open`: a new core, whose tracker knows the owners that the first sweep found.
unfoldable pub open_core :
    (List ℕ → List ℕ) → CollectorConfig → ℕ → ℕ → List (OwnerKey × OwnerValue) → ℕ → CollectorCore
open_core decode_comm config last_reconcile last_poll swept now =
    let core = new_core config last_reconcile last_poll in
    record core {
      tracker = record_owners decode_comm core.tracker swept now;
      listener_seed = some now;
    }

-- The visitor of `drain_domain_events` over the samples.
unfoldable pub decode_all :
    DomainDecoder
    → List DomainSample
    → MonoClock
    → ℕ
    → DomainDecoder × MonoClock × List DomainObservation
decode_all decoder [] clock now = (decoder, clock, [])
decode_all decoder (sample ∷ samples) clock now =
    let (decoder', clock', first) = decode decoder sample clock now in
    let (last, clock'', others) = decode_all decoder' samples clock' now in
    (last, clock'', first ++ others)

-- The loop over the interfaces: the gaps, and whether an interface is detached.
abbrev pub is_attached : InterfaceHealth → Bool
is_attached interface = interface.ingress_attached && interface.egress_attached

unfoldable pub note_interface : HealthTracker → InterfaceHealth → ℕ → HealthTracker
note_interface h interface at =
    let key = GapKey.interface_detached interface.ifindex in
    if is_attached interface then close_gap h key at else open_gap h key at

unfoldable pub note_interfaces : HealthTracker → List InterfaceHealth → ℕ → HealthTracker
note_interfaces h [] at = h
note_interfaces h (interface ∷ interfaces) at =
    note_interfaces (note_interface h interface at) interfaces at

unfoldable pub some_detached : List InterfaceHealth → Bool
some_detached [] = false
some_detached (interface ∷ interfaces) = not (is_attached interface) || some_detached interfaces

-- The tracker while the kernel is read, up to its `reconcile`, which needs the flows to be read.
unfoldable pub poll_tracker :
    (List ℕ → List ℕ) → FingerprintLibrary → FlowTracker → Answers → FlowTracker × List FlowUpdate
poll_tracker decode_comm library tracker answers =
    let merging : FlowTracker = record tracker { merged = merged_flows answers.flow_values } in
    let served = record_services library merging answers.service_samples in
    let owned = record_owners decode_comm served answers.owner_values answers.poll_started in
    elim answers.flow_entries [
      | some entries ↦ reconcile answers.wall owned answers.poll_started
      | none ↦ (owned, [])
    ]

-- The result of a drain, which has no value.
abbrev pub drained : Bool → Option Bool
drained succeeded = if succeeded then some true else none

unfoldable pub observe_stats : HealthTracker → Option KernelStats → ℕ → HealthTracker
observe_stats h result at =
    let observed = observe h result GapKey.kernel_stats_read_failed at in
    elim result [ none ↦ observed | some stats ↦ (record_kernel observed stats).0 ]

-- The gaps over one poll, in the order of the reads.
unfoldable pub poll_health : HealthTracker → Answers → HealthTracker
poll_health h answers =
    let at = answers.collected_at in
    let services =
      observe h (drained answers.services_drained) GapKey.service_events_read_failed at in
    let owners = observe services answers.owner_entries GapKey.owner_map_read_failed at in
    let flows = observe owners answers.flow_entries GapKey.flow_map_read_failed at in
    let domains =
      observe flows (drained answers.domains_drained) GapKey.domain_events_read_failed at in
    note_interfaces (observe_stats domains answers.stats at) answers.interfaces at

abbrev pub is_err : {A : Type 0} → Option A → Bool
is_err none = true
is_err (some value) = false

-- `degraded` at the end of `poll_once`.
unfoldable pub is_degraded : Answers → Bool
is_degraded answers =
    not answers.services_drained
    || is_err answers.owner_entries
    || is_err answers.flow_entries
    || not answers.domains_drained
    || is_err answers.stats
    || some_detached answers.interfaces

abbrev pub or_kept : Option ℕ → ℕ → ℕ
or_kept none kept = kept
or_kept (some entries) kept = entries

unfoldable pub state_of : Answers → HealthTracker → CollectorState
state_of answers h = if is_degraded answers || has_open_gaps h then degraded else running

unfoldable pub poll_once :
    (List ℕ → List ℕ) → CollectorCore → Answers → CollectorCore × CollectionBatch
poll_once decode_comm core answers =
    let now = answers.poll_started in
    let begun = note_reconcile (begin_poll core now) now in
    let seeded = seed_listeners decode_comm begun answers in
    let (tracker, flows) = poll_tracker decode_comm core.fingerprints seeded.tracker answers in
    let (decoder, clock, domains) =
      decode_all core.domains answers.domain_samples tracker.clock now in
    let health = poll_health core.health answers in
    let map_entries = or_kept answers.flow_entries core.map_entries in
    let (reported, snapshot) =
      snapshot health (state_of answers health) answers.interfaces map_entries core.map_capacity
        answers.application in
    (
      record seeded {
        tracker = record tracker { clock = clock };
        domains = purge_expired decoder now;
        health = reported;
        map_entries = map_entries;
        owner_entries = or_kept answers.owner_entries core.owner_entries;
      },
      record {
        sequence = begun.sequence;
        collected_at = answers.collected_at;
        interval = now - core.last_poll;
        flows = flows;
        domains = domains;
        health = snapshot;
      },
    )
