-- ===== src/Collector/Poll/State.antt =====
-- The state of `CollectorCore` in zimascoped/src/collector/mod.rs, what the kernel source answers during
-- one poll, and the batch of zimascope-common/src/model.rs that a poll makes. Instants, durations and wall
-- times are numbers.
use zima_scope.Abi
use zima_scope.Abi.{
  FlowValue, OwnerKey, OwnerValue, DomainSample, ServiceSample, KernelStats, service_sample_max,
}
use zima_scope.Base.{ℕ, Bool, false, Option, none, List, []}
use zima_scope.Collector.Health
use zima_scope.Collector.Health.{
  GapKey, HealthTracker, observe, open_gap, close_gap, has_open_gaps, record_kernel, snapshot,
}
use zima_scope.Domains.Decoder.{DomainDecoder, DomainObservation}
use zima_scope.Fingerprints.Library.{FingerprintLibrary}
use zima_scope.Interfaces.Boundary.{InterfaceSelector}
use zima_scope.Model.Health.{InterfaceHealth, ApplicationHealth, CollectorHealth}
use zima_scope.Model.{FlowUpdate}
use zima_scope.RulePolicy.Rules.{CompiledPolicy}
use zima_scope.Tracker.Clock.{secs}
use zima_scope.Tracker.Reconcile.State
use zima_scope.Tracker.Reconcile.State.{FlowTracker}

pub record CollectorCore : Type 0 where
  pub tracker : FlowTracker
  pub domains : DomainDecoder
  pub fingerprints : FingerprintLibrary
  pub health : HealthTracker
  pub boundary : List InterfaceSelector
  pub reconcile_interval : ℕ
  pub last_reconcile : ℕ
  pub sequence : ℕ
  pub last_poll : ℕ
  pub map_entries : ℕ
  pub map_capacity : ℕ
  pub owner_entries : ℕ
  pub applied_policy : CompiledPolicy
  pub listener_seed : Option ℕ

-- The parts of the configuration that `CollectorCore::new` takes.
pub record CollectorConfig : Type 0 where
  pub interfaces : List InterfaceSelector
  pub idle_timeout : ℕ
  pub reconcile_interval : ℕ
  pub fingerprints : FingerprintLibrary

abbrev pub default_flow_capacity : ℕ
default_flow_capacity = 65536

-- `CollectorCore::new`; `last_reconcile` and `last_poll` are the readings of `Instant::now()`.
unfoldable pub new_core : CollectorConfig → ℕ → ℕ → CollectorCore
new_core config last_reconcile last_poll = record {
  tracker = State.new config.idle_timeout;
  domains = [];
  fingerprints = config.fingerprints;
  health = Health.new;
  boundary = config.interfaces;
  reconcile_interval = config.reconcile_interval;
  last_reconcile = last_reconcile;
  sequence = 0;
  last_poll = last_poll;
  map_entries = 0;
  map_capacity = default_flow_capacity;
  owner_entries = 0;
  applied_policy = record { revision = 0; enabled = false; rules = [] };
  listener_seed = none;
}

-- `wall` is what `Instant::now()` gives where the tracker's clock asks for it; `seeded` is what the
-- sweep over the listeners finds, used only if it is due.
pub record Answers : Type 0 where
  pub poll_started : ℕ
  pub collected_at : ℕ
  pub wall : ℕ
  pub seeded : List (OwnerKey × OwnerValue)
  pub flow_values : List (Abi.FlowKey × List FlowValue)
  pub flow_entries : Option ℕ
  pub service_samples : List ServiceSample
  pub services_drained : Bool
  pub owner_values : List (OwnerKey × OwnerValue)
  pub owner_entries : Option ℕ
  pub domain_samples : List DomainSample
  pub domains_drained : Bool
  pub stats : Option KernelStats
  pub interfaces : List InterfaceHealth
  pub application : ApplicationHealth

pub record CollectionBatch : Type 0 where
  pub sequence : ℕ
  pub collected_at : ℕ
  pub interval : ℕ
  pub flows : List FlowUpdate
  pub domains : List DomainObservation
  pub health : CollectorHealth

abbrev pub listener_seed_interval : ℕ
listener_seed_interval = secs 20
