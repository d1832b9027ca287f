-- ===== src/Collector/Health/Outages/Tracking.antt =====
-- One open or close of a gap, as seen by one interface: `open_gap` and `close_gap` of
-- zimascoped/src/collector/health.rs.
use zima_scope.Base.Assoc.{
  get, insert, remove, get-insert_self, get-insert_ne, get-remove_self, get-remove_ne, All-insert,
  All-remove, All-get,
}
use zima_scope.Base.{
  append_nil, sym, ℕ, ◌≡◌, ◌≢◌, ◌⊎◌, inl, inr, refl, ap, ◌∙◌, arith, true, false, Option, some,
  none, List, [], ◌∷◌, ◌++◌, All, Option-cases,
}
use zima_scope.Collector.Health.{
  GapKey, GapKey-discrete, HealthTracker, reason_of, open_gap, close_gap, values_of,
}
use zima_scope.Model.Health.{interface_detached, ObservationGap}
use zima_scope.Collector.Health.Outages.{outages_of, outage, ended_outage, is_key_of, since_or}

pub outages_of-append :
    (i : ℕ) (xs ys : List ObservationGap)
    → outages_of i (xs ++ ys) ≡ outages_of i xs ++ outages_of i ys
outages_of-append i [] ys = refl
outages_of-append i (x ∷ xs) ys = ground (arith, outages_of-append i xs ys)

abbrev pub IsOpen : GapKey × ObservationGap → Type 0
IsOpen (key, gap) = (gap.ended_at ≡ none) × (gap.reason ≡ reason_of key)

pub outages_of-open :
    (i : ℕ) (m : List (GapKey × ObservationGap)) → All IsOpen m → outages_of i (values_of m) ≡ []
outages_of-open i [] all = refl
outages_of-open i ((key, gap) ∷ m) ((ongoing, reason), all) =
    rw (ongoing, outages_of-open i m all) refl

abbrev started_of : Option ObservationGap → Option ℕ
started_of none = none
started_of (some gap) = some gap.started_at

-- The open gaps are not over, and that of the interface is there since the given time.
abbrev pub Tracks : ℕ → Option ℕ → HealthTracker → Type 0
Tracks i since h =
    All IsOpen h.open_gaps
    × (started_of (get GapKey-discrete (GapKey.interface_detached i) h.open_gaps) ≡ since)

pub is_key_of-cases :
    (i : ℕ) (key : GapKey)
    → ((key ≡ GapKey.interface_detached i) × (is_key_of i key ≡ true))
      ⊎ ((GapKey.interface_detached i ≢ key) × (is_key_of i key ≡ false))
is_key_of-cases i (GapKey.interface_detached j) = ground arith
is_key_of-cases i GapKey.flow_map_read_failed = ground arith
is_key_of-cases i GapKey.owner_map_read_failed = ground arith
is_key_of-cases i GapKey.kernel_stats_read_failed = ground arith
is_key_of-cases i GapKey.domain_events_read_failed = ground arith
is_key_of-cases i GapKey.service_events_read_failed = ground arith

pub closed_gaps-open_gap :
    (h : HealthTracker) (key : GapKey) (at : ℕ) → (open_gap h key at).closed_gaps ≡ h.closed_gaps
unfolding open_gap
closed_gaps-open_gap h key at = ground arith

abbrev fresh : GapKey → ℕ → ObservationGap
fresh key at = record { started_at = at; ended_at = none; reason = reason_of key }

pub open_gap_new :
    (h : HealthTracker) (key : GapKey) (at : ℕ)
    → get GapKey-discrete key h.open_gaps ≡ none
    → (open_gap h key at).open_gaps ≡ insert GapKey-discrete key (fresh key at) h.open_gaps
unfolding open_gap
open_gap_new h key at e = rw (open_gap, e) refl

pub open_gap_known :
    (h : HealthTracker) (key : GapKey) (at : ℕ) (gap : ObservationGap)
    → get GapKey-discrete key h.open_gaps ≡ some gap
    → open_gap h key at ≡ h
unfolding open_gap
open_gap_known h key at gap e = rw (open_gap, e) refl

pub close_gap_unknown :
    (h : HealthTracker) (key : GapKey) (at : ℕ)
    → get GapKey-discrete key h.open_gaps ≡ none
    → close_gap h key at ≡ h
unfolding close_gap
close_gap_unknown h key at e = rw (close_gap, e) refl

pub close_gap_known :
    (h : HealthTracker) (key : GapKey) (at : ℕ) (gap : ObservationGap)
    → get GapKey-discrete key h.open_gaps ≡ some gap
    → ((close_gap h key at).open_gaps ≡ remove GapKey-discrete key h.open_gaps)
      × ((close_gap h key at).closed_gaps
          ≡ h.closed_gaps ++ (record gap { ended_at = some at } ∷ []))
unfolding close_gap
close_gap_known h key at gap e = rw (close_gap, e) (refl, refl)

pub outages_of-ended_self :
    (i at : ℕ) (gap : ObservationGap)
    → gap.reason ≡ interface_detached i
    → outages_of i (record gap { ended_at = some at } ∷ []) ≡ outage i gap.started_at at ∷ []
outages_of-ended_self i at gap reason = ground arith

pub outages_of-ended_ne :
    (i at : ℕ) (key : GapKey) (gap : ObservationGap)
    → gap.reason ≡ reason_of key
    → is_key_of i key ≡ false
    → outages_of i (record gap { ended_at = some at } ∷ []) ≡ []
outages_of-ended_ne i at key gap reason differs = ground arith

module _ (i : ℕ) (since : Option ℕ) (h : HealthTracker) (at : ℕ) where
  pub Tracks-open_self :
      Tracks i since h → Tracks i (since_or since at) (open_gap h (GapKey.interface_detached i) at)
  Tracks-open_self (all, started) =
      let key = GapKey.interface_detached i in
      elim (Option-cases (get GapKey-discrete key h.open_gaps)) [
        | inl e ↦
            rw (open_gap_new h key at e, sym started, e)
              (
                All-insert GapKey-discrete IsOpen key (fresh key at) h.open_gaps (refl, refl) all,
                ap started_of (get-insert_self GapKey-discrete key (fresh key at) h.open_gaps),
              )
        | inr (gap, e) ↦ rw (open_gap_known h key at gap e, sym started, e) (all, refl)
      ]

  pub Tracks-close_self :
      Tracks i since h → Tracks i none (close_gap h (GapKey.interface_detached i) at)
  Tracks-close_self (all, started) =
      let key = GapKey.interface_detached i in
      elim (Option-cases (get GapKey-discrete key h.open_gaps)) [
        | inl e ↦ rw (close_gap_unknown h key at e) (all, ap started_of e)
        | inr (gap, e) ↦ rw (close_gap_known h key at gap e).0 (
          All-remove GapKey-discrete IsOpen key h.open_gaps all,
          ap started_of (get-remove_self GapKey-discrete key h.open_gaps),
        )
      ]

  pub outages_of-close_self :
      Tracks i since h
      → outages_of i (close_gap h (GapKey.interface_detached i) at).closed_gaps
        ≡ outages_of i h.closed_gaps ++ ended_outage i since at
  outages_of-close_self (all, started) =
      let key = GapKey.interface_detached i in
      elim (Option-cases (get GapKey-discrete key h.open_gaps)) [
        | inl e ↦
            rw (close_gap_unknown h key at e, sym started, e)
              (sym (append_nil (outages_of i h.closed_gaps)))
        | inr (gap, e) ↦
            let (ongoing, reason) = All-get GapKey-discrete IsOpen key gap h.open_gaps all e in
            rw
              (
                (close_gap_known h key at gap e).1,
                sym started,
                e,
                outages_of-append i h.closed_gaps,
              )
              (ap (λ l. outages_of i h.closed_gaps ++ l) (outages_of-ended_self i at gap reason))
      ]

  module _ (key : GapKey) (ne : GapKey.interface_detached i ≢ key) where
    pub Tracks-open_ne : Tracks i since h → Tracks i since (open_gap h key at)
    Tracks-open_ne (all, started) = elim (Option-cases (get GapKey-discrete key h.open_gaps)) [
      | inl e ↦ rw (open_gap_new h key at e) (
        All-insert GapKey-discrete IsOpen key (fresh key at) h.open_gaps (refl, refl) all,
        ap started_of (
              get-insert_ne GapKey-discrete key (GapKey.interface_detached i) (fresh key at)
                h.open_gaps ne)
            ∙ started,
      )
      | inr (gap, e) ↦ rw (open_gap_known h key at gap e) (all, started)
    ]

    pub Tracks-close_ne : Tracks i since h → Tracks i since (close_gap h key at)
    Tracks-close_ne (all, started) = elim (Option-cases (get GapKey-discrete key h.open_gaps)) [
      | inl e ↦ rw (close_gap_unknown h key at e) (all, started)
      | inr (gap, e) ↦ rw (close_gap_known h key at gap e).0 (
        All-remove GapKey-discrete IsOpen key h.open_gaps all,
        ap started_of
              (get-remove_ne GapKey-discrete key (GapKey.interface_detached i) h.open_gaps ne)
            ∙ started,
      )
    ]

    pub outages_of-close_ne :
        is_key_of i key ≡ false
        → Tracks i since h
        → outages_of i (close_gap h key at).closed_gaps ≡ outages_of i h.closed_gaps
    outages_of-close_ne differs (all, started) =
        elim (Option-cases (get GapKey-discrete key h.open_gaps)) [
          | inl e ↦ rw (close_gap_unknown h key at e) refl
          | inr (gap, e) ↦
              let (ongoing, reason) = All-get GapKey-discrete IsOpen key gap h.open_gaps all e in
              rw
                (
                  (close_gap_known h key at gap e).1,
                  outages_of-append i h.closed_gaps,
                  outages_of-ended_ne i at key gap reason differs,
                )
                (append_nil (outages_of i h.closed_gaps))
        ]
