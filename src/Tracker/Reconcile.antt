-- ===== src/Tracker/Reconcile.antt =====
-- One poll of `FlowTracker` in zimascoped/src/collector/tracker.rs (`reconcile` over `observe`), and
-- fingerprinted services. The state and the socket owners are in the modules State and Lookup.
pub mod State
pub mod Lookup
pub mod Deltas
pub mod Ageing
pub mod Fresh
pub mod Owners
use zima_scope.Abi
use zima_scope.Base.Assoc.{get, insert, remove}
use zima_scope.Base.{
  ℕ, ◌+◌, ◌-◌, ◌%◌, Bool, not, ◌&&◌, ◌||◌, Option, some, none, List, [], ◌∷◌, ◌++◌, ltb, leb, ◌==◌,
  if◌then◌else◌, has_bit, max, u64_mod, length,
}
use zima_scope.Model.{
  FlowKey, TrafficCounters, EndReason, FlowState, active, ended, ApplicationRef, FlowUpdate,
  FlowKey-discrete,
}
use zima_scope.Tracker.Clock.{anchor_if_needed, to_instant, secs, saturating_mul}
use zima_scope.Tracker.Merge.{MergedFlow}
use zima_scope.Tracker.Reconcile.State.{PreviousFlow, FlowTracker, is_active, is_none}
use zima_scope.Tracker.Reconcile.Lookup.{resolve_application, purge_owners}

-- The totals went down: the kernel entry was recreated.
abbrev pub recreated : MergedFlow → PreviousFlow → Bool
recreated m p = ltb m.total.packets p.total.packets || ltb m.total.bytes p.total.bytes

abbrev pub is_moving : MergedFlow → PreviousFlow → Bool
is_moving m p = recreated m p || ltb p.last_seen_ns m.last_seen_ns

abbrev pub delta_of : MergedFlow → PreviousFlow → TrafficCounters
delta_of m p = if recreated m p then m.total else record {
  packets = m.total.packets - p.total.packets;
  bytes = m.total.bytes - p.total.bytes;
}

-- A flag that the merged flow has and the previous one had not; FIN is bit 0 and RST bit 2.
abbrev pub gained : ℕ → MergedFlow → PreviousFlow → Bool
gained k m p = has_bit m.tcp_flags k && not (has_bit p.tcp_flags k)

unfoldable pub next_state : ℕ → ℕ → MergedFlow → PreviousFlow → FlowState
next_state now idle_timeout m p =
    if gained 2 m p
    then ended EndReason.tcp_reset
    else if gained 0 m p
    then ended EndReason.tcp_fin
    else if not (is_moving m p) && leb idle_timeout (now - p.last_seen)
    then ended EndReason.idle_timeout
    else active

-- `observe` for a key that the tracker does not know.
unfoldable pub observe_new :
    FlowTracker → MergedFlow → ℕ → ℕ → Option ApplicationRef → FlowTracker × Option FlowUpdate
observe_new t m first_seen last_seen application =
    let service = get FlowKey-discrete m.key t.pending_services in
    let fresh : PreviousFlow = record {
      total = m.total;
      first_seen = first_seen;
      last_seen = last_seen;
      last_seen_ns = m.last_seen_ns;
      tcp_flags = m.tcp_flags;
      state = active;
      generation = t.generation;
      service = service;
      application = application;
    } in
    (
      record t {
        pending_services = remove FlowKey-discrete m.key t.pending_services;
        previous = insert FlowKey-discrete m.key fresh t.previous;
      },
      some (record {
        key = m.key;
        delta = m.total;
        total = m.total;
        first_seen = first_seen;
        last_seen = last_seen;
        state = active;
        service = service;
        application = application;
      }),
    )

-- The entry of a known key after `observe`, and the update, if there is one.
unfoldable pub observe_entry :
    ℕ
    → ℕ
    → ℕ
    → MergedFlow
    → PreviousFlow
    → ℕ
    → ℕ
    → Option ApplicationRef
    → PreviousFlow × Option FlowUpdate
observe_entry now idle_timeout generation m p first_seen last_seen application =
    let owner = if is_none p.application then application else p.application in
    let kept : PreviousFlow = record p { application = owner; generation = generation } in
    if not (is_moving m p) && not (is_active p.state)
    then (kept, none)
    else let state = next_state now idle_timeout m p in
      let first = if recreated m p then first_seen else p.first_seen in
      (
        record kept {
          total = m.total;
          first_seen = first;
          last_seen = last_seen;
          last_seen_ns = m.last_seen_ns;
          tcp_flags = m.tcp_flags;
          state = state;
        },
        some (record {
          key = m.key;
          delta = delta_of m p;
          total = m.total;
          first_seen = first;
          last_seen = last_seen;
          state = state;
          service = p.service;
          application = owner;
        }),
      )

unfoldable pub observe : ℕ → FlowTracker → MergedFlow → ℕ → FlowTracker × Option FlowUpdate
observe wall t m now =
    let first_seen = to_instant wall t.clock m.first_seen_ns in
    let last_seen = to_instant wall t.clock m.last_seen_ns in
    let application = resolve_application t m.key in
    elim (get FlowKey-discrete m.key t.previous) [
      | none ↦ observe_new t m first_seen last_seen application
      | some p ↦
          let (after, update) =
            observe_entry now t.idle_timeout t.generation m p first_seen last_seen application in
          (record t { previous = insert FlowKey-discrete m.key after t.previous }, update)
    ]

abbrev pub push : {A : Type 0} → Option A → List A → List A
push none l = l
push (some a) l = a ∷ l

-- The loop over the merged flows, with the updates in order.
unfoldable pub observe_all : ℕ → FlowTracker → List MergedFlow → ℕ → FlowTracker × List FlowUpdate
observe_all wall t [] now = (t, [])
observe_all wall t (m ∷ ms) now =
    let (t', update) = observe wall t m now in
    let (t'', updates) = observe_all wall t' ms now in (t'', push update updates)

abbrev pub ended_retention : ℕ → ℕ
ended_retention idle_timeout = max (saturating_mul idle_timeout 4) (secs 120)

-- The closure of `retain`: whether the entry stays.
unfoldable pub stays : ℕ → ℕ → ℕ → PreviousFlow → Bool
stays now idle_timeout generation p =
    p.generation == generation
    || ltb (now - p.last_seen)
        (if is_active p.state then idle_timeout else ended_retention idle_timeout)

-- What the closure pushes for an entry that goes: an active flow is reported as ended.
unfoldable pub farewell : FlowKey → PreviousFlow → Option FlowUpdate
farewell key p =
    if is_active p.state
    then some (record {
      key = key;
      delta = record { packets = 0; bytes = 0 };
      total = p.total;
      first_seen = p.first_seen;
      last_seen = p.last_seen;
      state = ended EndReason.evicted_or_unknown;
      service = p.service;
      application = p.application;
    })
    else none

unfoldable pub age_out :
    ℕ → ℕ → ℕ → List (FlowKey × PreviousFlow) → List (FlowKey × PreviousFlow) × List FlowUpdate
age_out now idle_timeout generation [] = ([], [])
age_out now idle_timeout generation ((key, p) ∷ entries) =
    let (kept, updates) = age_out now idle_timeout generation entries in
    if stays now idle_timeout generation p
    then ((key, p) ∷ kept, updates)
    else (kept, push (farewell key p) updates)

abbrev pub newest : List MergedFlow → Option ℕ
newest [] = none
newest (m ∷ ms) =
    some (elim (newest ms) [ none ↦ m.last_seen_ns | some later ↦ max m.last_seen_ns later ])

-- `reconcile`: the generation, the clock's anchor, the merged flows, ageing, and owners.
unfoldable pub reconcile : ℕ → FlowTracker → ℕ → FlowTracker × List FlowUpdate
reconcile wall t now =
    let started : FlowTracker = record t {
      generation = (t.generation + 1) % u64_mod;
      clock = elim (newest t.merged) [
        | none ↦ t.clock
        | some newest_ns ↦ anchor_if_needed t.clock newest_ns now
      ];
      merged = [];
    } in
    let (observed, updates) = observe_all wall started t.merged now in
    let (kept, farewells) =
      age_out now observed.idle_timeout observed.generation observed.previous in
    (purge_owners (record observed { previous = kept }) now, updates ++ farewells)

unfoldable pub set_service : FlowTracker → FlowKey → List ℕ → FlowTracker
set_service t key service = elim (get FlowKey-discrete key t.previous) [
  | some p ↦
      let after : PreviousFlow = record p { service = some service } in
      record t { previous = insert FlowKey-discrete key after t.previous }
  | none ↦
      if ltb (length t.pending_services) 65536
      then record t { pending_services = insert FlowKey-discrete key service t.pending_services }
      else t
]
