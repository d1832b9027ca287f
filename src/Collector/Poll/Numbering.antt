-- ===== src/Collector/Poll/Numbering.antt =====
-- Several polls of zimascoped/src/collector/mod.rs: their numbers and intervals.

use zima_scope.Base.{
  ℕ, zero, suc, ◌+◌, ◌-◌, ◌%◌, ◌≤◌, ◌≡◌, refl, ap, ◌∙◌, arith, Option, some, none, List, [], ◌∷◌,
  u64_mod, length, get_elem?,
}
use zima_scope.Collector.Poll.{begin_poll, note_reconcile, seed_listeners, poll_once}
use zima_scope.Collector.Poll.State.{CollectorCore, Answers, CollectionBatch}

abbrev pub run_polls :
    (List ℕ → List ℕ) → CollectorCore → List Answers → CollectorCore × List CollectionBatch
run_polls decode_comm core [] = (core, [])
run_polls decode_comm core (answers ∷ more) =
    let (core', batch) = poll_once decode_comm core answers in
    let (core'', batches) = run_polls decode_comm core' more in (core'', batch ∷ batches)

abbrev pub sum_of_intervals : List CollectionBatch → ℕ
sum_of_intervals [] = 0
sum_of_intervals (batch ∷ batches) = batch.interval + sum_of_intervals batches

-- The polls are started one after the other, from a time on.
abbrev pub AreRising : ℕ → List Answers → Type 0
AreRising since [] = Unit
AreRising since (answers ∷ more) =
    (since ≤ answers.poll_started) × AreRising answers.poll_started more

abbrev pub sequence_of : Option CollectionBatch → ℕ
sequence_of none = 0
sequence_of (some batch) = batch.sequence

pub last_poll-seed :
    (decode_comm : List ℕ → List ℕ) (core : CollectorCore) (answers : Answers)
    → (seed_listeners decode_comm core answers).last_poll ≡ core.last_poll
unfolding seed_listeners
last_poll-seed decode_comm core answers = ground arith

pub sequence-seed :
    (decode_comm : List ℕ → List ℕ) (core : CollectorCore) (answers : Answers)
    → (seed_listeners decode_comm core answers).sequence ≡ core.sequence
unfolding seed_listeners
sequence-seed decode_comm core answers = ground arith

pub begun :
    (core : CollectorCore) (now : ℕ)
    → ((note_reconcile (begin_poll core now) now).last_poll ≡ now)
      × ((note_reconcile (begin_poll core now) now).sequence ≡ (core.sequence + 1) % u64_mod)
unfolding note_reconcile begin_poll
begun core now = ground arith

module _ (decode_comm : List ℕ → List ℕ) where
  last_poll-poll_once :
      (core : CollectorCore) (answers : Answers)
      → (poll_once decode_comm core answers).0.last_poll ≡ answers.poll_started
  unfolding poll_once
  last_poll-poll_once core answers =
      let noted = note_reconcile (begin_poll core answers.poll_started) answers.poll_started in
      last_poll-seed decode_comm noted answers ∙ (begun core answers.poll_started).0

  sequence-poll_once :
      (core : CollectorCore) (answers : Answers)
      → ((poll_once decode_comm core answers).0.sequence ≡ (core.sequence + 1) % u64_mod)
        × ((poll_once decode_comm core answers).1.sequence ≡ (core.sequence + 1) % u64_mod)
        × ((poll_once decode_comm core answers).1.interval ≡ answers.poll_started - core.last_poll)
  unfolding poll_once
  sequence-poll_once core answers =
      let noted = note_reconcile (begin_poll core answers.poll_started) answers.poll_started in
      let started = (begun core answers.poll_started).1 in
      (sequence-seed decode_comm noted answers ∙ started, started, refl)

  run_polls_intervals :
      (core : CollectorCore) (polls : List Answers)
      → AreRising core.last_poll polls
      → sum_of_intervals (run_polls decode_comm core polls).1 + core.last_poll
        ≡ (run_polls decode_comm core polls).0.last_poll
  run_polls_intervals core [] rising = omega arith
  run_polls_intervals core (answers ∷ more) (le, rising) =
      let (core', batch) = poll_once decode_comm core answers in
      let at = last_poll-poll_once core answers in
      let later = run_polls_intervals core' more (rw at rising) in
      let (_, _, interval) = sequence-poll_once core answers in
      omega (arith, le, at, later, interval)

  run_polls_sequence :
      (core : CollectorCore) (polls : List Answers) (k : ℕ) (batch : CollectionBatch)
      → get_elem? (run_polls decode_comm core polls).1 k ≡ some batch
      → batch.sequence ≡ (core.sequence + 1 + k) % u64_mod
  run_polls_sequence core [] k batch e = cc
  run_polls_sequence core (answers ∷ more) zero batch e =
      omega (arith, ap sequence_of e, (sequence-poll_once core answers).1)
  run_polls_sequence core (answers ∷ more) (suc k) batch e =
      let core' = (poll_once decode_comm core answers).0 in
      let (sequence, _, _) = sequence-poll_once core answers in
      omega (arith, run_polls_sequence core' more k batch e, sequence)

  length-run_polls :
      (core : CollectorCore) (polls : List Answers)
      → length (run_polls decode_comm core polls).1 ≡ length polls
  length-run_polls core [] = refl
  length-run_polls core (answers ∷ more) =
      ap suc (length-run_polls (poll_once decode_comm core answers).0 more)

  -- As long as the clock does not go back, the intervals of the batches add up to the time between
  -- the poll before the first and the last one, there is one batch per poll, and the batches are
  -- numbered one after the other modulo 2^64.
  pub run_polls-batches :
      (core : CollectorCore) (polls : List Answers)
      → AreRising core.last_poll polls
      → let (core', batches) = run_polls decode_comm core polls in
        (sum_of_intervals batches + core.last_poll ≡ core'.last_poll)
        × (length batches ≡ length polls)
        × ((k : ℕ) (batch : CollectionBatch)
            → get_elem? batches k ≡ some batch
            → batch.sequence ≡ (core.sequence + 1 + k) % u64_mod)
  run_polls-batches core polls rising = (
    run_polls_intervals core polls rising,
    length-run_polls core polls,
    run_polls_sequence core polls,
  )
