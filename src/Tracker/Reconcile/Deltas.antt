-- ===== src/Tracker/Reconcile/Deltas.antt =====
-- The traffic that the updates of one flow report, in zimascoped/src/collector/tracker.rs.
use zima_scope.Base.{
  ℕ, ◌+◌, ◌<◌, ◌≤◌, ◌≡◌, ◌↔◌, ◌⊎◌, inl, inr, refl, arith, true, false, Option, some, none, List, [],
  ◌∷◌,
}
use zima_scope.Model.{TrafficCounters, EndReason, active, ended, ApplicationRef, FlowUpdate}
use zima_scope.Tracker.Merge.{MergedFlow}
use zima_scope.Tracker.Reconcile.State.{PreviousFlow, is_active}
use zima_scope.Tracker.Reconcile.{is_moving, recreated, gained, next_state, observe_entry}

-- One poll as the entry of a flow sees it.
pub record Poll : Type 0 where
  pub now : ℕ
  pub generation : ℕ
  pub merged : MergedFlow
  pub first_seen : ℕ
  pub last_seen : ℕ
  pub application : Option ApplicationRef

abbrev pub reported : Option FlowUpdate → TrafficCounters
reported none = record { packets = 0; bytes = 0 }
reported (some update) = update.delta

-- `observe` on one entry, poll after poll, with the sum of the reported deltas.
unfoldable pub run_polls : ℕ → PreviousFlow → List Poll → PreviousFlow × TrafficCounters
run_polls idle_timeout p [] = (p, record { packets = 0; bytes = 0 })
run_polls idle_timeout p (poll ∷ polls) =
    let (p', update) =
      observe_entry poll.now idle_timeout poll.generation poll.merged p poll.first_seen
        poll.last_seen poll.application in
    let (last, sum) = run_polls idle_timeout p' polls in
    (
      last,
      record {
        packets = (reported update).packets + sum.packets;
        bytes = (reported update).bytes + sum.bytes;
      },
    )

-- From a time `ns` and totals `c` on, the kernel's totals of the flow never fall, and rise only
-- with a later time of its last packet.
abbrev pub Rising : ℕ → TrafficCounters → List Poll → Type 0
Rising ns c [] = Unit {0}
Rising ns c (poll ∷ polls) =
    (c.packets ≤ poll.merged.total.packets)
    × (c.bytes ≤ poll.merged.total.bytes)
    × ((ns < poll.merged.last_seen_ns)
        ⊎ ((poll.merged.last_seen_ns ≡ ns)
            × (poll.merged.total.packets ≡ c.packets)
            × (poll.merged.total.bytes ≡ c.bytes)))
    × Rising poll.merged.last_seen_ns poll.merged.total polls

-- The kernel's totals at the last poll.
abbrev pub kernel_total : TrafficCounters → List Poll → TrafficCounters
kernel_total c [] = c
kernel_total c (poll ∷ polls) = kernel_total poll.merged.total polls

-- An entry that knows the totals and the time of the last poll knows those of this one after it,
-- and reports the difference.
observe_entry-follows :
    (idle_timeout : ℕ) (p : PreviousFlow) (poll : Poll)
    → Rising p.last_seen_ns p.total (poll ∷ [])
    → let (after, update) =
        observe_entry poll.now idle_timeout poll.generation poll.merged p poll.first_seen
          poll.last_seen poll.application in
      (after.last_seen_ns ≡ poll.merged.last_seen_ns)
      × (after.total.packets ≡ poll.merged.total.packets)
      × (after.total.bytes ≡ poll.merged.total.bytes)
      × (p.total.packets + (reported update).packets ≡ poll.merged.total.packets)
      × (p.total.bytes + (reported update).bytes ≡ poll.merged.total.bytes)
unfolding observe_entry
observe_entry-follows idle_timeout p poll (packets, bytes, inl later, rest) = ground arith
observe_entry-follows idle_timeout p poll (packets, bytes, inr still, rest) = ground arith

run_polls-follows :
    (idle_timeout : ℕ) (p : PreviousFlow) (polls : List Poll) (ns : ℕ) (c : TrafficCounters)
    → p.last_seen_ns ≡ ns
    → p.total.packets ≡ c.packets
    → p.total.bytes ≡ c.bytes
    → Rising ns c polls
    → let (last, sum) = run_polls idle_timeout p polls in
      (p.total.packets + sum.packets ≡ (kernel_total c polls).packets)
      × (p.total.bytes + sum.bytes ≡ (kernel_total c polls).bytes)
      × (last.total.packets ≡ (kernel_total c polls).packets)
      × (last.total.bytes ≡ (kernel_total c polls).bytes)
unfolding run_polls
run_polls-follows idle_timeout p [] ns c at a b rising =
    (omega arith, omega arith, omega arith, omega arith)
run_polls-follows idle_timeout p (poll ∷ polls) ns c at a b (packets, bytes, moved, rest) =
    let after =
      (observe_entry poll.now idle_timeout poll.generation poll.merged p poll.first_seen
        poll.last_seen poll.application).0 in
    let moved' : (p.last_seen_ns < poll.merged.last_seen_ns)
        ⊎ ((poll.merged.last_seen_ns ≡ p.last_seen_ns)
            × (poll.merged.total.packets ≡ p.total.packets)
            × (poll.merged.total.bytes ≡ p.total.bytes)) =
      ground arith in
    let (time, tp, tb, sp, sb) =
      observe_entry-follows idle_timeout p poll (omega arith, omega arith, moved', tt) in
    let (kp, kb, lp, lb) =
      run_polls-follows idle_timeout after polls poll.merged.last_seen_ns poll.merged.total time tp
        tb rest in
    (omega arith, omega arith, lp, lb)

-- As long as the kernel's totals of a tracked flow never fall from poll to poll, and rise only with
-- a later time of its last packet, the deltas reported over any number of polls, added to the
-- totals tracked before, are exactly the kernel's totals at the last of the polls, in packets and
-- in bytes, which are the totals tracked then: no traffic is reported twice, and none is left out.
pub run_polls-total :
    (idle_timeout : ℕ) (p : PreviousFlow) (polls : List Poll)
    → Rising p.last_seen_ns p.total polls
    → let (last, sum) = run_polls idle_timeout p polls in
      (p.total.packets + sum.packets ≡ (kernel_total p.total polls).packets)
      × (p.total.bytes + sum.bytes ≡ (kernel_total p.total polls).bytes)
      × (last.total.packets ≡ (kernel_total p.total polls).packets)
      × (last.total.bytes ≡ (kernel_total p.total polls).bytes)
run_polls-total idle_timeout p polls rising =
    run_polls-follows idle_timeout p polls p.last_seen_ns p.total refl refl refl rising

-- One poll of a known flow: there is no update exactly when the flow has ended before and has not
-- moved since, and then the totals and the state stay; otherwise the update carries the kernel's
-- totals. A recreated entry, one whose totals fell, reports all of its traffic. A gained RST ends
-- the flow as reset, before a gained FIN, before idleness.
pub observe_entry-state :
    (now idle_timeout generation : ℕ) (m : MergedFlow) (p : PreviousFlow) (first_seen last_seen : ℕ)
    (application : Option ApplicationRef)
    → let (after, update) =
        observe_entry now idle_timeout generation m p first_seen last_seen application in
      ((update ≡ none) ↔ ((is_moving m p ≡ false) × (is_active p.state ≡ false)))
      × (update ≡ none → (after.total ≡ p.total) × (after.state ≡ p.state))
      × ((u : FlowUpdate)
          → update ≡ some u
          → (u.total ≡ m.total)
            × (after.total ≡ m.total)
            × (u.state ≡ after.state)
            × (recreated m p ≡ true → u.delta ≡ m.total)
            × (gained 2 m p ≡ true → u.state ≡ ended EndReason.tcp_reset)
            × (gained 2 m p ≡ false → gained 0 m p ≡ true → u.state ≡ ended EndReason.tcp_fin)
            × (gained 2 m p ≡ false
                → gained 0 m p ≡ false
                → is_moving m p ≡ true
                → u.state ≡ active))
unfolding observe_entry next_state
observe_entry-state now idle_timeout generation m p first_seen last_seen application = ground arith
