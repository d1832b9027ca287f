-- ===== src/Lib.antt =====
-- A model of ZimaScope's traffic path: what the eBPF program does with one packet, how the daemon
-- turns the kernel's counters into flow updates, and how traffic rules become kernel maps.
--
-- Parts, and the files that model them:
--
-- - Base: natural-number, list, option and association-list helpers. No code of the program.
-- - Abi: zimascope-common/src/kernel_abi.rs, the codes, keys and values that the kernel program and
--   the daemon share. Padding and the spin-lock word are left out.
-- - Packet.Cursor, Packet.Parse: the byte cursors and the parser of zimascope-ebpf/src/parse.rs, with
--   the packet-pointer cursor of zimascope-ebpf/src/tc.rs. The header layouts of the crate
--   network-types are the parameter `Headers`.
-- - Enforcer.Bucket, Enforcer.Evaluate: zimascope-ebpf/src/policy.rs, the token bucket of one rule,
--   and the choice of a rule for a packet (`evaluate`, `app_rule`, `endpoint_rule`, `enforce`).
-- - TrafficPath: zimascope-ebpf/src/tc.rs, `process` with the flow map; TrafficPath.State holds its
--   state and counters, TrafficPath.Sampling its samples. It calls Packet.Parse and
--   Enforcer.Evaluate as the source does.
-- - Model, Model.Health, Model.Scope: zimascope-common/src/model.rs, the daemon's types, the counters
--   of the kernel, and the scope of an address.
-- - Tracker.Clock, Tracker.Merge, Tracker.Reconcile: zimascoped/src/collector/tracker.rs, from the
--   per-CPU counters of the flow map to updates with deltas and states; Tracker.Reconcile.State and
--   Tracker.Reconcile.Lookup hold the tracker's state and the owner caches.
-- - RulePolicy.Selectors, RulePolicy.Rules, RulePolicy.Compile, RulePolicy.Diff, RulePolicy.Apply:
--   zimascoped/src/query/selector.rs, zimascoped/src/query/resolver.rs,
--   zimascoped/src/policy/mod.rs and `apply_policy` of zimascoped/src/collector/aya.rs: from the
--   rules of the user to the match entries and states of the kernel. RulePolicy.Apply holds
--   the kernel maps with the capacities of zimascope-ebpf/src/maps.rs, RulePolicy.Apply.Track and
--   RulePolicy.Apply.Rates follow one entry or one state key through a list of operations, and
--   RulePolicy.Apply.Sequence is
--   `apply_policy` of zimascoped/src/collector/mod.rs for one policy after another.
-- - Domains.Dns, Domains.Sni, Domains.Host: the parsers of zimascope-ebpf/src/domain.rs over a packet
--   cursor. Domains.Message is the message builder of its tests. Domains.Reading and Domains.Options
--   hold the lemmas on reads and on chains of reads, Domains.Padding those on bytes behind a payload.
-- - Domains.Names, Domains.Decoder: zimascoped/src/collector/domain.rs, from a payload sample to the
--   observations that are kept, over the parsers of Domains and the clock of Tracker.Clock.
-- - Interfaces, Interfaces.Boundary: zimascoped/src/collector/interfaces.rs, the class of an
--   interface, the choice of the default route and the resolution of selectors. What is read of the
--   file system is an argument.
-- - Fingerprints.Compile, Fingerprints.Match, Fingerprints.Question, Fingerprints.Library:
--   zimascoped/src/collector/fingerprint.rs, the validation of a library document, its rules on a
--   payload (`classify`), and the structural check of DNS questions (`is_dns_query`), which has a
--   loop without a bound and runs on 21 rounds of fuel.
-- - Collector.Health: zimascoped/src/collector/health.rs, observation gaps and kernel counters.
--   Collector.Health.Outages is the view of one interface on them.
-- - Collector.Poll.State, Collector.Poll: the state and `poll_once` of
--   zimascoped/src/collector/mod.rs, which calls the tracker, the fingerprints, the domain decoder and
--   the health as the source does. What the kernel source answers is the record `Answers`.
-- - Collector.Worker: the loop of the worker, its commands and its shutdown, in the same file. What the
--   channels bring is a list of rounds.
-- - Collector.Attachment: attaching, reconciling and detaching the hooks of
--   zimascoped/src/collector/aya.rs; a link is the number of the attempt that made it.
-- - Query.Lowering: zimascoped/src/query/lower.rs, from a query of the interface to a selector.
-- - Query.Containers, Query.Resolving: zimascoped/src/cgroup.rs and zimascoped/src/query/resolver.rs, from
--   a selector to targets, over what a walk of the cgroup tree finds.
--
-- State is explicit: an operation takes the state and returns the next one with its result, errors
-- are values, and a sequence of packets or polls is a list of steps. Integers are natural numbers;
-- where the source wraps or saturates, the model says so. Lists recurse structurally, and a loop
-- `for _ in 0..N` is a recursion on the rounds that are left. A hash map is an association list,
-- and a kernel map that is only read is a function. What the kernel answers for one packet (clock,
-- lengths, payload loads, ring space, insertion into the bounded flow map) is the record `Env` of
-- TrafficPath.State. One update of a rule state is one step, since the source holds a spin lock for
-- it.
--
-- Not modelled: the socket-owner hooks, the loading of the eBPF object, all reading of files and of the
-- cgroup tree, the tasks and channels of the runtime, the interface over HTTP and its storage,
-- enrichment, the proxy, the user interface and packaging. They are mostly calls of the kernel, of
-- a database or of the network.
pub mod Base
pub mod Abi
pub mod Packet
pub mod Domains
pub mod Fingerprints
pub mod Interfaces
pub mod Enforcer
pub mod TrafficPath
pub mod Model
pub mod Tracker
pub mod Collector
pub mod Query
pub mod RulePolicy
pub mod Tests
