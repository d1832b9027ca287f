-- ===== src/Collector/Worker/Shutdown.antt =====
-- The end of the worker of zimascoped/src/collector/mod.rs: its last health.
use zima_scope.Base.Assoc.{get, remove, remove_of_none}
use zima_scope.Base.{
  append_assoc, append_nil, sym, ℕ, ◌≡◌, refl, ap, ◌∙◌, arith, true, false, some, none, List, [],
  ◌∷◌, ◌++◌,
}
use zima_scope.Collector.Health.{
  GapKey, GapKey-discrete, HealthTracker, close_gap, close_keys, close_all, keys_of, snapshot,
}
use zima_scope.Collector.Health.Outages.Tracking.{close_gap_known}
use zima_scope.Collector.Poll.State.{CollectorCore}
use zima_scope.Collector.Worker.{shutdown}
use zima_scope.Model.Health.{ObservationGap, stopped, InterfaceHealth, ApplicationHealth}

-- No key is listed twice, as in a hash map.
abbrev pub AreDistinct : List (GapKey × ObservationGap) → Type 0
AreDistinct [] = Unit
AreDistinct ((key, gap) ∷ gaps) = (get GapKey-discrete key gaps ≡ none) × AreDistinct gaps

abbrev pub ended : ℕ → ObservationGap → ObservationGap
ended at gap = record gap { ended_at = some at }

abbrev pub ended_all : ℕ → List (GapKey × ObservationGap) → List ObservationGap
ended_all at [] = []
ended_all at ((key, gap) ∷ gaps) = ended at gap ∷ ended_all at gaps

get_first :
    (key : GapKey) (gap : ObservationGap) (gaps : List (GapKey × ObservationGap))
    → get GapKey-discrete key ((key, gap) ∷ gaps) ≡ some gap
unfolding get
get_first key gap gaps = ground arith

remove_first :
    (key : GapKey) (gap : ObservationGap) (gaps : List (GapKey × ObservationGap))
    → get GapKey-discrete key gaps ≡ none
    → remove GapKey-discrete key ((key, gap) ∷ gaps) ≡ gaps
unfolding remove
remove_first key gap gaps absent = ground (arith, remove_of_none GapKey-discrete key gaps absent)

-- The first entry of the map is closed.
close_gap_first :
    (h : HealthTracker) (key : GapKey) (gap : ObservationGap)
    (gaps : List (GapKey × ObservationGap)) (at : ℕ)
    → h.open_gaps ≡ (key, gap) ∷ gaps
    → get GapKey-discrete key gaps ≡ none
    → ((close_gap h key at).open_gaps ≡ gaps)
      × ((close_gap h key at).closed_gaps ≡ h.closed_gaps ++ (ended at gap ∷ []))
close_gap_first h key gap gaps at is absent =
    let found : get GapKey-discrete key h.open_gaps ≡ some gap = rw is (get_first key gap gaps) in
    let (opened, closed) = close_gap_known h key at gap found in
    (opened ∙ ap (remove GapKey-discrete key) is ∙ remove_first key gap gaps absent, closed)

close_keys_all :
    (h : HealthTracker) (gaps : List (GapKey × ObservationGap)) (at : ℕ)
    → h.open_gaps ≡ gaps
    → AreDistinct gaps
    → ((close_keys h (keys_of gaps) at).open_gaps ≡ [])
      × ((close_keys h (keys_of gaps) at).closed_gaps ≡ h.closed_gaps ++ ended_all at gaps)
unfolding close_keys
close_keys_all h [] at is distinct = (is, sym (append_nil h.closed_gaps))
close_keys_all h ((key, gap) ∷ gaps) at is (absent, distinct) =
    let (opened, closed) = close_gap_first h key gap gaps at is absent in
    let (opened', closed') = close_keys_all (close_gap h key at) gaps at opened distinct in
    (
      opened',
      closed'
          ∙ ap (λ l. l ++ ended_all at gaps) closed
          ∙ append_assoc h.closed_gaps (ended at gap ∷ []) (ended_all at gaps),
    )

last_delta-close_gap :
    (h : HealthTracker) (key : GapKey) (at : ℕ) → (close_gap h key at).last_delta ≡ h.last_delta
unfolding close_gap
last_delta-close_gap h key at = ground arith

last_delta-close_keys :
    (h : HealthTracker) (keys : List GapKey) (at : ℕ)
    → (close_keys h keys at).last_delta ≡ h.last_delta
unfolding close_keys
last_delta-close_keys h [] at = refl
last_delta-close_keys h (key ∷ keys) at =
    last_delta-close_keys (close_gap h key at) keys at ∙ last_delta-close_gap h key at

-- Where the open gaps have different keys, the gaps of the last health, for which `detach` must
-- succeed: those that had ended and were not
-- yet reported, and each gap that was open, ended at the time of the shutdown; the state is stopped.
-- The hooks are detached once, and a second attempt is made where the first fails.
pub shutdown-gaps :
    (core : CollectorCore) (at : ℕ) (interfaces : List InterfaceHealth)
    (application : ApplicationHealth)
    → AreDistinct core.health.open_gaps
    → (shutdown core at interfaces application true ≡ (
      1,
      some (record {
        state = stopped;
        attached_interfaces = interfaces;
        map_entries = core.map_entries;
        map_capacity = core.map_capacity;
        kernel = core.health.last_delta;
        gaps = core.health.closed_gaps ++ ended_all at core.health.open_gaps;
        application = application;
      }),
    ))
      × (shutdown core at interfaces application false ≡ (2, none))
unfolding shutdown snapshot close_all
shutdown-gaps core at interfaces application distinct =
    let (opened, closed) = close_keys_all core.health core.health.open_gaps at refl distinct in
    rw (opened, closed, last_delta-close_keys core.health (keys_of core.health.open_gaps) at)
      (refl, refl)
