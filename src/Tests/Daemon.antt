-- ===== src/Tests/Daemon.antt =====
-- Polls of the daemon's flow tracker.

use zima_scope.Abi
use zima_scope.Abi.{Direction, OwnerKind, direction_code, OwnerKey-discrete}
use zima_scope.Base.Assoc.{get}
use zima_scope.Base.{
  ℕ, ◌+◌, ◌%◌, ◌≤◌, ◌≡◌, ◌⊎◌, inl, inr, refl, arith, true, some, none, List, [], ◌∷◌, All, min,
  u64_max, u64_mod,
}
use zima_scope.Enforcer.Evaluate.{socket_key, listener_key}
use zima_scope.Model.{IpAddr, Protocol, FlowDirection, FlowKey, FlowKey-discrete, active}
use zima_scope.Packet.Parse.{ipv4_storage}
use zima_scope.Tests.Data.{http_flow}
use zima_scope.Tracker.Merge.{
  MergedFlow, decode_key, merge_entry, Started, IsEarliest, merge_entry-total,
}
use zima_scope.Tracker.Reconcile.State.{PreviousFlow, OwnerRecord, FlowTracker}
use zima_scope.Tracker.Reconcile.{reconcile}
use zima_scope.Tracker.Reconcile.Lookup.{resolve_application}
use zima_scope.Tracker.Reconcile.Fresh.{IsRead, IsRecent, reconcile-IsRead}
use zima_scope.Base.Assoc.{get}
use zima_scope.Tracker.Reconcile.Deltas.{Poll, run_polls, run_polls-total}
use zima_scope.Tracker.Reconcile.Owners.{IsParsed, resolve_application-joins}
use zima_scope.TrafficPath.{flow_key}

abbrev kernel_key : Abi.FlowKey
kernel_key = record {
  src_addr = http_flow.src_addr;
  dst_addr = http_flow.dst_addr;
  src_port_be = http_flow.src_port_be;
  dst_port_be = http_flow.dst_port_be;
  ifindex = 3;
  protocol = 6;
  direction = 2;
  ip_family = 4;
}

-- What one CPU counted.
abbrev counted : ℕ → ℕ → Abi.FlowValue
counted packets bytes = record {
  packets = packets;
  bytes = bytes;
  first_seen_mono_ns = 10;
  last_seen_mono_ns = 20;
  tcp_flags = 0;
  parse_flags = 0;
  service_flags = 0;
}

abbrev key : FlowKey
key = record {
  source = record { address = IpAddr.v4 (192 ∷ 168 ∷ 1 ∷ 10 ∷ []); port = some 40000 };
  destination = record { address = IpAddr.v4 (1 ∷ 2 ∷ 3 ∷ 4 ∷ []); port = some 80 };
  interface_index = 3;
  protocol = Protocol.tcp;
  direction = FlowDirection.outbound;
}

merge_entry-total_example :
    ((decoded : FlowKey)
      → decode_key kernel_key ≡ some decoded
      → (merged : MergedFlow) × (merge_entry kernel_key (counted 1 50 ∷ counted 2 90 ∷ [])
          ≡ some merged)
        × (merged.key ≡ decoded)
        × (merged.total.packets ≡ min 3 u64_max)
        × (merged.total.bytes ≡ min 140 u64_max)
        × All (λ v. v.last_seen_mono_ns ≤ merged.last_seen_ns) (counted 1 50 ∷ counted 2 90 ∷ [])
        × (All Started (counted 1 50 ∷ counted 2 90 ∷ [])
            → All (IsEarliest merged.first_seen_ns) (counted 1 50 ∷ counted 2 90 ∷ [])))
    × (decode_key kernel_key ≡ none
        → merge_entry kernel_key (counted 1 50 ∷ counted 2 90 ∷ []) ≡ none)
    × (merge_entry kernel_key [] ≡ none)
merge_entry-total_example = merge_entry-total kernel_key (counted 1 50) (counted 2 90 ∷ [])

abbrev merged : ℕ → ℕ → MergedFlow
merged packets bytes = record {
  key = key;
  total = record { packets = packets; bytes = bytes };
  first_seen_ns = 10;
  last_seen_ns = 20 + packets;
  tcp_flags = 0;
}

abbrev previous : PreviousFlow
previous = record {
  total = record { packets = 3; bytes = 140 };
  first_seen = 10;
  last_seen = 20;
  last_seen_ns = 23;
  tcp_flags = 0;
  state = active;
  generation = 1;
  service = none;
  application = none;
}

abbrev poll_of : ℕ → ℕ → ℕ → Poll
poll_of generation packets bytes = record {
  now = 30;
  generation = generation;
  merged = merged packets bytes;
  first_seen = 10;
  last_seen = 25;
  application = none;
}

abbrev polls : List Poll
polls = poll_of 2 3 140 ∷ poll_of 3 5 200 ∷ []

run_polls-total_example :
    let (last, sum) = run_polls 1000 previous polls in
    (3 + sum.packets ≡ 5)
    × (140 + sum.bytes ≡ 200)
    × (last.total.packets ≡ 5)
    × (last.total.bytes ≡ 200)
run_polls-total_example = run_polls-total 1000 previous polls (
  omega arith,
  omega arith,
  inr (refl, refl, refl),
  (omega arith, omega arith, inl (omega arith), tt),
)

abbrev start : FlowTracker
start = record {
  previous = (key, previous) ∷ [];
  pending_services = [];
  owners = [];
  listeners = [];
  owner_retention = 30000000000;
  idle_timeout = 1000;
  generation = 1;
  clock = none;
  merged = merged 5 200 ∷ [];
}

reconcile-IsRead_example :
    ((k : FlowKey)
      → IsRead start.merged k
      → (p : PreviousFlow) × (get FlowKey-discrete k (reconcile 0 start 5000).0.previous ≡ some p)
        × (p.generation ≡ (1 + 1) % u64_mod))
    × All
        (λ (k, p). IsRead start.merged k ⊎ IsRecent 5000 1000 p)
        (reconcile 0 start 5000).0.previous
reconcile-IsRead_example = reconcile-IsRead 0 start 5000 (omega arith, tt)

abbrev found : OwnerRecord
found = record {
  application = record { tgid = 700; uid = 1000; cgroup_id = 5; comm = 99 ∷ [] };
  observed_at = 20;
}

abbrev owned : FlowTracker
owned = record start { owners = (socket_key http_flow true, found) ∷ [] }

http_flow-IsParsed : IsParsed http_flow
unfolding ipv4_storage
http_flow-IsParsed = record {
  src_word = 3232235786;
  dst_word = 16909060;
  src_is = refl;
  dst_is = refl;
  src_lt = omega arith;
  dst_lt = omega arith;
  family = refl;
  is_tcp = refl;
}

decoded_key : decode_key (flow_key http_flow 2 3) ≡ some key
unfolding decode_key flow_key
decoded_key = refl

resolve_application-joins_example :
    (get OwnerKey-discrete (socket_key http_flow true) owned.owners ≡ some found
      → resolve_application owned key ≡ some found.application)
    × (get OwnerKey-discrete (socket_key http_flow true) owned.owners ≡ none
        → get OwnerKey-discrete (listener_key http_flow true) owned.listeners ≡ some found
        → resolve_application owned key ≡ some found.application)
resolve_application-joins_example =
    resolve_application-joins owned http_flow Direction.outbound 3 key found http_flow-IsParsed
      decoded_key
