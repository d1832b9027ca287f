-- ===== src/Collector/Worker.antt =====
-- The worker of zimascoped/src/collector/mod.rs: the loop of `run_worker` over what its channels
-- bring, with the policy commands and the shutdown of `CollectorCore`. The kernel source answers each
-- call, and its answer is an argument. An error is `none`, and a reply is the value that is sent back.
pub mod Commands
pub mod Shutdown
pub mod Ending
use zima_scope.Abi.{BucketKey, RuleState}
use zima_scope.Base.{ℕ, Bool, Option, some, none, List, [], ◌∷◌, ◌++◌, if◌then◌else◌, length}
use zima_scope.Collector.Health.{close_all, snapshot}
use zima_scope.Collector.Poll.{poll_once}
use zima_scope.Collector.Poll.State.{CollectorCore, Answers, CollectionBatch}
use zima_scope.Interfaces.Boundary.{InterfaceSelector}
use zima_scope.Model.Health.{stopped, InterfaceHealth, ApplicationHealth, CollectorHealth}
use zima_scope.RulePolicy.Diff.{diff}
use zima_scope.RulePolicy.Rules.{CompiledPolicy, PolicyOp}

pub record ApplySummary : Type 0 where
  pub revision : ℕ
  pub operations : ℕ
  pub rules : ℕ

-- The commands with what the source answers: whether the operations are applied, the states that
-- are read, the time and whether the boundary is reconciled.
pub data PolicyCommand : Type 0 where
  apply : CompiledPolicy → (List PolicyOp → Bool) → PolicyCommand
  rule_states : List BucketKey → (List BucketKey → Option (List (Option RuleState))) → PolicyCommand
  set_boundary : List InterfaceSelector → ℕ → Bool → PolicyCommand

pub data Reply : Type 0 where
  applied : Option ApplySummary → Reply
  states : Option (List (Option RuleState)) → Reply
  bounded : Bool → Reply

unfoldable pub apply_policy :
    CollectorCore → CompiledPolicy → (List PolicyOp → Bool) → CollectorCore × Option ApplySummary
apply_policy core program succeeds =
    let operations = diff core.applied_policy program in
    if succeeds operations
    then (
      record core { applied_policy = program },
      some (record {
        revision = program.revision;
        operations = length operations;
        rules = length program.rules;
      }),
    )
    else (core, none)

unfoldable pub apply_boundary : CollectorCore → List InterfaceSelector → ℕ → CollectorCore
apply_boundary core selectors now = record core { boundary = selectors; last_reconcile = now }

-- The arms of the `match` on a command.
unfoldable pub handle : CollectorCore → PolicyCommand → CollectorCore × Reply
handle core (apply program succeeds) =
    let (core', summary) = apply_policy core program succeeds in (core', applied summary)
handle core (rule_states keys read) = (core, states (read keys))
handle core (set_boundary selectors now reconciled) =
    (apply_boundary core selectors now, bounded reconciled)

-- What the first `select!` of a round yields: a tick or a command, then the poll's answers and
-- what the second `select!` yields, which is whether the batch is sent.
pub data Round : Type 0 where
  tick : Answers → Bool → Round
  command : PolicyCommand → Answers → Bool → Round
  -- The shutdown was requested, or every sender of commands is gone.
  leave : Round

-- What the worker shows to others.
pub data Output : Type 0 where
  reply : Reply → Output
  batch : CollectionBatch → Output

module _ (decode_comm : List ℕ → List ℕ) where
  -- The second half of a round: the core, and the batch where it is sent.
  unfoldable pub publish : CollectorCore → Answers → Bool → CollectorCore × List Output
  publish core answers sent =
      let (core', polled) = poll_once decode_comm core answers in
      (core', if sent then batch polled ∷ [] else [])

  -- The loop, up to its `break`; where the rounds run out, the worker still waits.
  unfoldable pub run_worker : CollectorCore → List Round → CollectorCore × List Output
  run_worker core [] = (core, [])
  run_worker core (leave ∷ rounds) = (core, [])
  run_worker core (tick answers sent ∷ rounds) =
      let (core', outputs) = publish core answers sent in
      let (last, later) = run_worker core' rounds in
      if sent then (last, outputs ++ later) else (core', outputs)
  run_worker core (command asked answers sent ∷ rounds) =
      let (handled, answer) = handle core asked in
      let (core', outputs) = publish handled answers sent in
      let (last, later) = run_worker core' rounds in
      if sent then (last, reply answer ∷ (outputs ++ later)) else (core', reply answer ∷ outputs)

-- `CollectorCore::shutdown` with whether `detach` succeeds: how often the hooks are detached, the
-- attempt of `drop` included, and the last health.
unfoldable pub shutdown :
    CollectorCore → ℕ → List InterfaceHealth → ApplicationHealth → Bool → ℕ × Option CollectorHealth
shutdown core at interfaces application detached =
    let closed = close_all core.health at in
    let (health, last) =
      snapshot closed stopped interfaces core.map_entries core.map_capacity application in
    if detached then (1, some last) else (2, none)
