-- ===== src/Tests/Collecting.antt =====
-- Polls, health, hooks and commands of the collector.
use zima_scope.Abi.{KernelStats}
use zima_scope.Base.{
  ℕ, ◌+◌, ◌%◌, ◌≡◌, ◌↔◌, refl, arith, Bool, true, false, some, none, List, [], ◌∷◌, ◌++◌, ltb,
  get_elem?, length, u64_mod,
}
use zima_scope.Collector.Attachment.{
  AttachedInterface, Hooks, reconcile, has_index, find_index, is_wanted, detach_all,
}
use zima_scope.Collector.Attachment.Detaching.{
  IsAccounted, reconcile_all, reconcile_all-IsAccounted,
}
use zima_scope.Collector.Attachment.Gains.{acquired}
use zima_scope.Collector.Attachment.Retried.{IsSettled, reconcile-IsSettled}
use zima_scope.Collector.Attachment.Ledger.{count}
use zima_scope.Collector.Health.Counters.{
  packets_seen, record_all, readings, sum_of, record_kernel-total,
}
use zima_scope.Collector.Health.Outages.Once.{run-outages}
use zima_scope.Collector.Health.Outages.{
  Event, failed, succeeded, reported, outages_of, outage, run,
}
use zima_scope.Collector.Health.{GapKey, new}
use zima_scope.Collector.Poll.Closing.{IsComplete}
use zima_scope.Collector.Poll.Numbering.{run_polls, sum_of_intervals, run_polls-batches}
use zima_scope.Collector.Poll.Reports.{LeavesNone, poll_once-running}
use zima_scope.Collector.Poll.Unread.{known, poll_once-unread}
use zima_scope.Collector.Poll.{poll_once}
use zima_scope.Collector.Poll.State.{
  CollectorCore, Answers, CollectionBatch, CollectorConfig, new_core,
}
use zima_scope.Collector.Worker.{tick, leave, run_worker}
use zima_scope.Model.Health.{
  is_monotonic_from, running, InterfaceHealth, ApplicationHealth, ObservationGap,
  interface_detached,
}
use zima_scope.Model.{FlowKey}
use zima_scope.RulePolicy.Rules.{CompiledPolicy}
use zima_scope.Tests.Data.{zero_stats}
use zima_scope.Tracker.Reconcile.State

abbrev events : List Event
events =
    failed (GapKey.interface_detached 3) 10
    ∷ failed GapKey.flow_map_read_failed 10
    ∷ failed (GapKey.interface_detached 3) 20
    ∷ reported
    ∷ succeeded (GapKey.interface_detached 3) 30
    ∷ reported
    ∷ []

run-outages_example :
    outages_of 3 (run new events).1 ++ outages_of 3 (run new events).0.closed_gaps
    ≡ outage 3 10 30 ∷ []
run-outages_example = run-outages 3 events

abbrev seen : ℕ → KernelStats
seen n = record zero_stats { packets_seen = n }

-- The counter rises to 9, and the object is reloaded.
record_kernel-total_example :
    sum_of packets_seen
      (record_all new (readings ((seen 5, seen 9 ∷ []) ∷ (seen 2, seen 4 ∷ []) ∷ []))).1
    ≡ 13
unfolding is_monotonic_from
record_kernel-total_example =
    record_kernel-total packets_seen (seen 5) (seen 9 ∷ []) ((seen 2, seen 4 ∷ []) ∷ []) (refl, tt)
      (refl, (refl, tt), tt)

abbrev pub same_text : List ℕ → List ℕ
same_text text = text

abbrev pub nothing : CompiledPolicy
nothing = record { revision = 0; enabled = false; rules = [] }

abbrev lost : ObservationGap
lost = record { started_at = 5; ended_at = none; reason = interface_detached 7 }

-- The interface 7 was detached and is no longer reported.
abbrev pub core : CollectorCore
core = record {
  tracker = State.new 60000000000;
  domains = [];
  fingerprints = record { rules = []; raw = []; custom = false };
  health = record new { open_gaps = (GapKey.interface_detached 7, lost) ∷ [] };
  boundary = [];
  reconcile_interval = 0;
  last_reconcile = 0;
  sequence = 4;
  last_poll = 100;
  map_entries = 0;
  map_capacity = 65536;
  owner_entries = 0;
  applied_policy = nothing;
  listener_seed = none;
}

abbrev hooks_up : ApplicationHealth
hooks_up = record { attached = true; udp_attached = true; last_error = none }

abbrev ethernet : InterfaceHealth
ethernet = record {
  ifindex = 3;
  name = b'e' ∷ b't' ∷ b'h' ∷ [];
  ingress_attached = true;
  egress_attached = true;
  last_error = none;
}

abbrev pub answers : Answers
answers = record {
  poll_started = 150;
  collected_at = 6;
  wall = 150;
  seeded = [];
  flow_values = [];
  flow_entries = some 0;
  service_samples = [];
  services_drained = true;
  owner_values = [];
  owner_entries = some 0;
  domain_samples = [];
  domains_drained = true;
  stats = some zero_stats;
  interfaces = ethernet ∷ [];
  application = hooks_up;
}

poll_once-running_example :
    ((poll_once same_text core answers).1.health.state ≡ running)
    ↔ (IsComplete answers × LeavesNone core answers)
poll_once-running_example = poll_once-running same_text core answers

abbrev unread : Answers
unread = record answers { flow_entries = none }

poll_once-unread_example :
    ((poll_once same_text core unread).1.flows ≡ [])
    × ((key : FlowKey)
        → known (poll_once same_text core unread).0.tracker key ≡ known core.tracker key)
poll_once-unread_example = poll_once-unread same_text core unread refl

abbrev polls : List Answers
polls = answers ∷ record answers { poll_started = 180 } ∷ []

run_polls-batches_example :
    let (core', batches) = run_polls same_text core polls in
    (sum_of_intervals batches + 100 ≡ core'.last_poll)
    × (length batches ≡ 2)
    × ((k : ℕ) (batch : CollectionBatch)
        → get_elem? batches k ≡ some batch
        → batch.sequence ≡ (5 + k) % u64_mod)
run_polls-batches_example = run_polls-batches same_text core polls (omega arith, (omega arith, tt))

abbrev config : CollectorConfig
config = record {
  interfaces = [];
  idle_timeout = 60000000000;
  reconcile_interval = 0;
  fingerprints = core.fingerprints;
}

-- The egress hook is lost before the second poll, and the worker is stopped.
abbrev unplugged : Answers
unplugged = record answers { interfaces = record ethernet { egress_attached = false } ∷ [] }

abbrev final_core : CollectorCore
final_core =
    (run_worker same_text (new_core config 100 100)
      (tick answers true ∷ tick unplugged true ∷ leave ∷ [])).0

-- The attachment of every second hook fails.
abbrev accepts : ℕ → Bool
accepts n = ltb (n % 2) 1

abbrev add_qdisc : List ℕ → Bool
add_qdisc name = true

abbrev no_hooks : Hooks
no_hooks = record { attempts = 0; detached = [] }

abbrev boundaries : List (List (ℕ × List ℕ) × Bool)
boundaries = ((3, []) ∷ [], true) ∷ ((4, []) ∷ [], true) ∷ []

abbrev final : Hooks × List AttachedInterface
final = reconcile_all accepts add_qdisc same_text no_hooks [] boundaries

reconcile_all-IsAccounted_example :
    IsAccounted accepts add_qdisc same_text final.0 final.1
    × ((n : ℕ)
        → count n (detach_all final.0 final.1).detached
          ≡ acquired accepts add_qdisc same_text n final.0)
reconcile_all-IsAccounted_example =
    reconcile_all-IsAccounted accepts add_qdisc same_text no_hooks [] boundaries tt
      (λ n. ground arith)

abbrev up : AttachedInterface
up = record {
  ifindex = 3;
  name = [];
  tcx = true;
  ingress = some 0;
  egress = some 2;
  last_error = none;
}

-- The entry of a failed attachment.
abbrev down : AttachedInterface
down = record up { ifindex = 4; ingress = none; egress = none; last_error = some [] }

reconcile-IsSettled_example :
    let interfaces : List (ℕ × List ℕ) = (3, []) ∷ (4, []) ∷ [] in
    let after = reconcile accepts add_qdisc same_text no_hooks (up ∷ down ∷ []) interfaces true in
    ((j : ℕ) → has_index j after.1 ≡ is_wanted j interfaces)
    × ((j : ℕ) (b : AttachedInterface)
        → find_index j after.1 ≡ some b
        → IsSettled accepts add_qdisc same_text 0 after.0.attempts b)
reconcile-IsSettled_example =
    reconcile-IsSettled accepts add_qdisc same_text no_hooks (up ∷ down ∷ [])
      ((3, []) ∷ (4, []) ∷ []) true (refl, (refl, tt))
