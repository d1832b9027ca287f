-- ===== src/Tracker/Reconcile/State.antt =====
-- The state of `FlowTracker` in zimascoped/src/collector/tracker.rs.
use zima_scope.Abi
use zima_scope.Abi.{
  OwnerKind, TransportProtocol, owner_kind_from_abi, owner_kind_code, transport_code, family_code,
  OwnerKey-discrete,
}
use zima_scope.Base.{ℕ, Bool, true, false, Option, some, none, List, [], max}
use zima_scope.Model.{FlowKey, TrafficCounters, FlowState, active, ended, ApplicationRef}
use zima_scope.Tracker.Clock.{MonoClock, secs, saturating_mul}
use zima_scope.Tracker.Merge.{MergedFlow}

pub record PreviousFlow : Type 0 where
  pub total : TrafficCounters
  pub first_seen : ℕ
  pub last_seen : ℕ
  pub last_seen_ns : ℕ
  pub tcp_flags : ℕ
  pub state : FlowState
  pub generation : ℕ
  pub service : Option (List ℕ)
  pub application : Option ApplicationRef

pub record OwnerRecord : Type 0 where
  pub application : ApplicationRef
  pub observed_at : ℕ

abbrev pub owner_cache_capacity : ℕ
owner_cache_capacity = 65536

pub record FlowTracker : Type 0 where
  pub previous : List (FlowKey × PreviousFlow)
  pub pending_services : List (FlowKey × List ℕ)
  pub owners : List (Abi.OwnerKey × OwnerRecord)
  pub listeners : List (Abi.OwnerKey × OwnerRecord)
  pub owner_retention : ℕ
  pub idle_timeout : ℕ
  pub generation : ℕ
  pub clock : MonoClock
  pub merged : List MergedFlow

unfoldable pub new : ℕ → FlowTracker
new idle_timeout = record {
  previous = [];
  pending_services = [];
  owners = [];
  listeners = [];
  owner_retention = max (saturating_mul idle_timeout 2) (secs 30);
  idle_timeout = idle_timeout;
  generation = 0;
  clock = none;
  merged = [];
}

abbrev pub is_active : FlowState → Bool
is_active active = true
is_active (ended reason) = false

abbrev pub is_none : {A : Type 0} → Option A → Bool
is_none none = true
is_none (some a) = false
