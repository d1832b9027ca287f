-- ===== src/Collector/Worker/Commands.antt =====
-- Policies that are applied through the worker of zimascoped/src/collector/mod.rs.
use zima_scope.Base.{
  ℕ, ◌≡◌, refl, ap, ◌∙◌, arith, Bool, true, false, Option, some, none, List, [], ◌∷◌, All,
  if◌then◌else◌,
}
use zima_scope.Collector.Poll.{begin_poll, note_reconcile, seed_listeners, poll_once}
use zima_scope.Collector.Poll.State.{CollectorCore, Answers}
use zima_scope.Collector.Worker.{
  PolicyCommand, apply, rule_states, set_boundary, applied, apply_policy, apply_boundary, handle,
  Round, tick, command, leave, Output, reply, publish, run_worker,
}
use zima_scope.RulePolicy.Apply.{KernelMaps, apply_ops, fits}
use zima_scope.RulePolicy.Apply.Refines.{Installed, diff-refines}
use zima_scope.RulePolicy.Apply.Sequence.{IsSeparate}
use zima_scope.RulePolicy.Diff.{diff}
use zima_scope.RulePolicy.Rules.{MatchEntry, CompiledPolicy}

abbrev pub is_ok : {A : Type 0} → Option A → Bool
is_ok none = false
is_ok (some value) = true

abbrev pub maps_or : Option KernelMaps → KernelMaps → KernelMaps
maps_or none k = k
maps_or (some k') k = k'

-- The maps after a command, where `applied` is the policy that was applied last.
abbrev pub maps_after_command : KernelMaps → CompiledPolicy → PolicyCommand → KernelMaps
maps_after_command k last (apply program succeeds) = maps_or (apply_ops k (diff last program)) k
maps_after_command k last _ = k

abbrev pub policy_after : CompiledPolicy → PolicyCommand → CompiledPolicy
policy_after last (apply program succeeds) = program
policy_after last _ = last

-- The maps when the worker ends or waits, if every policy is applied.
abbrev pub maps_after : KernelMaps → CompiledPolicy → List Round → KernelMaps
maps_after k last [] = k
maps_after k last (leave ∷ rounds) = k
maps_after k last (tick answers sent ∷ rounds) =
    let rest = maps_after k last rounds in if sent then rest else k
maps_after k last (command asked answers sent ∷ rounds) =
    let k' = maps_after_command k last asked in
    let rest = maps_after k' (policy_after last asked) rounds in if sent then rest else k'

-- The kernel answers with what the operations come to on its maps, on which they find room.
module _ (home : MatchEntry → ℕ) where
  abbrev pub IsKernelAnswer : KernelMaps → CompiledPolicy → PolicyCommand → Type 0
  IsKernelAnswer k last (apply program succeeds) =
      IsSeparate home program
      × (fits k (diff last program) ≡ true)
      × (succeeds (diff last program) ≡ is_ok (apply_ops k (diff last program)))
  IsKernelAnswer k last _ = Unit

  abbrev pub AreKernelAnswers : KernelMaps → CompiledPolicy → List Round → Type 0
  AreKernelAnswers k last [] = Unit
  AreKernelAnswers k last (leave ∷ rounds) = Unit
  AreKernelAnswers k last (tick answers sent ∷ rounds) = AreKernelAnswers k last rounds
  AreKernelAnswers k last (command asked answers sent ∷ rounds) =
      IsKernelAnswer k last asked
      × AreKernelAnswers (maps_after_command k last asked) (policy_after last asked) rounds

-- A reply to `apply` carries the summary of the policy, and is no error.
abbrev pub IsApplied : Output → Type 0
IsApplied (reply (applied summary)) = is_ok summary ≡ true
IsApplied _ = Unit

applied-seed :
    (decode_comm : List ℕ → List ℕ) (core : CollectorCore) (answers : Answers)
    → (seed_listeners decode_comm core answers).applied_policy ≡ core.applied_policy
unfolding seed_listeners
applied-seed decode_comm core answers = ground arith

applied-begun :
    (core : CollectorCore) (now : ℕ)
    → (note_reconcile (begin_poll core now) now).applied_policy ≡ core.applied_policy
unfolding note_reconcile begin_poll
applied-begun core now = ground arith

applied-poll_once :
    (decode_comm : List ℕ → List ℕ) (core : CollectorCore) (answers : Answers)
    → (poll_once decode_comm core answers).0.applied_policy ≡ core.applied_policy
unfolding poll_once
applied-poll_once decode_comm core answers =
    applied-seed decode_comm
      (note_reconcile (begin_poll core answers.poll_started) answers.poll_started) answers
    ∙ applied-begun core answers.poll_started

handle_step :
    (home : MatchEntry → ℕ) (k : KernelMaps) (p : CompiledPolicy) (core : CollectorCore)
    (asked : PolicyCommand)
    → core.applied_policy ≡ p
    → Installed home p k
    → IsSeparate home p
    → IsKernelAnswer home k p asked
    → ((handle core asked).0.applied_policy ≡ policy_after p asked)
      × Installed home (policy_after p asked) (maps_after_command k p asked)
      × IsSeparate home (policy_after p asked)
      × IsApplied (reply (handle core asked).1)
unfolding handle apply_policy apply_boundary
handle_step home k p core (apply program succeeds) is installed sep (sep', fit, answer) =
    let (k', done, carried) =
      diff-refines home p program k sep.0 sep'.0 sep.1 sep'.1 installed fit in
    let succeeded : succeeds (diff p program) ≡ true = answer ∙ ap is_ok done in
    rw (is, succeeded, done) (refl, carried, sep', refl)
handle_step home k p core (rule_states keys read) is installed sep answer = (is, installed, sep, tt)
handle_step home k p core (set_boundary selectors now reconciled) is installed sep answer =
    (is, installed, sep, tt)

module _ (decode_comm : List ℕ → List ℕ) (home : MatchEntry → ℕ) where
  run_worker_from :
      (k : KernelMaps) (p : CompiledPolicy) (core : CollectorCore) (rounds : List Round)
      → core.applied_policy ≡ p
      → Installed home p k
      → IsSeparate home p
      → AreKernelAnswers home k p rounds
      → let (core', outputs) = run_worker decode_comm core rounds in
        Installed home core'.applied_policy (maps_after k p rounds) × All IsApplied outputs
  unfolding run_worker publish
  run_worker_from k p core [] is installed sep answers = (rw is installed, tt)
  run_worker_from k p core (leave ∷ rounds) is installed sep answers = (rw is installed, tt)
  run_worker_from k p core (tick polled false ∷ rounds) is installed sep answers =
      (rw (applied-poll_once decode_comm core polled ∙ is) installed, tt)
  run_worker_from k p core (tick polled true ∷ rounds) is installed sep answers =
      let core' = (poll_once decode_comm core polled).0 in
      let (carried, all) =
        run_worker_from k p core' rounds (applied-poll_once decode_comm core polled ∙ is) installed
          sep answers in
      (carried, (tt, all))
  run_worker_from k p core (command asked polled false ∷ rounds) is installed sep (answer, more) =
      let (same, carried, sep', ok) = handle_step home k p core asked is installed sep answer in
      let handled = (handle core asked).0 in
      (rw (applied-poll_once decode_comm handled polled ∙ same) carried, (ok, tt))
  run_worker_from k p core (command asked polled true ∷ rounds) is installed sep (answer, more) =
      let (same, carried, sep', ok) = handle_step home k p core asked is installed sep answer in
      let handled = (handle core asked).0 in
      let (last, all) =
        run_worker_from (maps_after_command k p asked) (policy_after p asked)
          (poll_once decode_comm handled polled).0 rounds
          (applied-poll_once decode_comm handled polled ∙ same) carried sep' more in
      (last, (ok, (tt, all)))

  -- Suppose that the maps carry the applied policy, that every answer of the kernel source is what
  -- the operations come to on the kernel's maps, that none of these operations inserts a new key
  -- into a full map or names a prefix by other than its own bits, and that in the applied policy
  -- and in those that follow the rules have different identifiers, each rule lists its entries and
  -- its state keys once and under its own identifier, and no two rule identifiers of any of them
  -- share a match entry. Then no request to apply a policy is answered with an error, and whenever
  -- the worker waits or ends, the maps carry the policy that was applied last, whatever polls and
  -- other commands came between.
  pub run_worker-Installed :
      (k : KernelMaps) (core : CollectorCore) (rounds : List Round)
      → Installed home core.applied_policy k
      → IsSeparate home core.applied_policy
      → AreKernelAnswers home k core.applied_policy rounds
      → let (core', outputs) = run_worker decode_comm core rounds in
        Installed home core'.applied_policy (maps_after k core.applied_policy rounds)
        × All IsApplied outputs
  run_worker-Installed k core rounds = run_worker_from k core.applied_policy core rounds refl
