-- ===== src/Collector/Poll/Unread.antt =====
-- Polls of zimascoped/src/collector/mod.rs whose reading of the flow map fails.
use zima_scope.Abi.{OwnerKey, OwnerValue, ServiceSample, service_sample_max}
use zima_scope.Fingerprints.Match.{classify}
use zima_scope.Tracker.Merge.{decode_key}
use zima_scope.Base.Assoc.{get, insert, get-insert_self, get-insert_ne}
use zima_scope.Base.{
  ℕ, ◌≡◌, inl, inr, refl, ap, ◌∙◌, arith, Option, some, none, List, [], ◌∷◌, Option-cases, take,
  min,
}
use zima_scope.Collector.Poll.{
  begin_poll, note_reconcile, seed_listeners, merged_flows, record_service, record_services,
  record_owners, poll_tracker, poll_once,
}
use zima_scope.Collector.Poll.State.{CollectorCore, Answers}
use zima_scope.Fingerprints.Library.{FingerprintLibrary}
use zima_scope.Model.{FlowKey, FlowKey-discrete}
use zima_scope.Tracker.Reconcile.Lookup.{record_owner}
use zima_scope.Tracker.Reconcile.State.{PreviousFlow, FlowTracker}
use zima_scope.Tracker.Reconcile.{set_service}

-- What the tracker knows of a flow, its service aside.
abbrev pub counted : Option PreviousFlow → Option PreviousFlow
counted none = none
counted (some p) = some (record p { service = none })

abbrev pub known : FlowTracker → FlowKey → Option PreviousFlow
known t key = counted (get FlowKey-discrete key t.previous)

previous-set_service_unknown :
    (t : FlowTracker) (key : FlowKey) (service : List ℕ)
    → get FlowKey-discrete key t.previous ≡ none
    → (set_service t key service).previous ≡ t.previous
unfolding set_service
previous-set_service_unknown t key service e = ground arith

previous-set_service_known :
    (t : FlowTracker) (key : FlowKey) (service : List ℕ) (p : PreviousFlow)
    → get FlowKey-discrete key t.previous ≡ some p
    → (set_service t key service).previous
      ≡ insert FlowKey-discrete key (record p { service = some service }) t.previous
unfolding set_service
previous-set_service_known t key service p e = rw (set_service, e) refl

known-set_service :
    (t : FlowTracker) (key q : FlowKey) (service : List ℕ)
    → known (set_service t key service) q ≡ known t q
known-set_service t key q service =
    let known_in : List (FlowKey × PreviousFlow) → Option PreviousFlow =
      λ m. counted (get FlowKey-discrete q m) in
    elim (Option-cases (get FlowKey-discrete key t.previous)) [
      | inl e ↦ ap known_in (previous-set_service_unknown t key service e)
      | inr (p, e) ↦
          ap known_in (previous-set_service_known t key service p e)
          ∙ elim (FlowKey-discrete q key) [
            | yes same ↦
                rw (same, e)
                  (ap counted (
                    get-insert_self FlowKey-discrete key (record p { service = some service })
                      t.previous))
            | no ne ↦ ap counted (
                get-insert_ne FlowKey-discrete key q (record p { service = some service })
                  t.previous ne)
          ]
    ]

known-record_service :
    (library : FingerprintLibrary) (t : FlowTracker) (sample : ServiceSample) (q : FlowKey)
    → known (record_service library t sample) q ≡ known t q
unfolding record_service
known-record_service library t sample q =
    let payload = take (min sample.payload_len service_sample_max) sample.payload in
    elim (Option-cases (classify library.rules payload)) [
      | inl e ↦ rw (record_service, e) refl
      | inr (service, e) ↦ elim (Option-cases (decode_key sample.key)) [
        | inl e' ↦ rw (record_service, e, e') refl
        | inr (key, e') ↦ rw (record_service, e, e') (known-set_service t key q service)
      ]
    ]

known-record_services :
    (library : FingerprintLibrary) (t : FlowTracker) (samples : List ServiceSample) (q : FlowKey)
    → known (record_services library t samples) q ≡ known t q
unfolding record_services
known-record_services library t [] q = refl
known-record_services library t (sample ∷ samples) q =
    known-record_services library (record_service library t sample) samples q
    ∙ known-record_service library t sample q

previous-record_owner :
    (decode_comm : List ℕ → List ℕ) (t : FlowTracker) (key : OwnerKey) (value : OwnerValue)
    (now : ℕ)
    → (record_owner decode_comm t key value now).previous ≡ t.previous
unfolding record_owner
previous-record_owner decode_comm t key value now = ground arith

previous-record_owners :
    (decode_comm : List ℕ → List ℕ) (t : FlowTracker) (owners : List (OwnerKey × OwnerValue))
    (now : ℕ)
    → (record_owners decode_comm t owners now).previous ≡ t.previous
unfolding record_owners
previous-record_owners decode_comm t [] now = refl
previous-record_owners decode_comm t ((key, value) ∷ owners) now =
    previous-record_owners decode_comm (record_owner decode_comm t key value now) owners now
    ∙ previous-record_owner decode_comm t key value now

previous-begun :
    (core : CollectorCore) (now : ℕ)
    → (note_reconcile (begin_poll core now) now).tracker.previous ≡ core.tracker.previous
unfolding note_reconcile begin_poll
previous-begun core now = ground arith

previous-seed :
    (decode_comm : List ℕ → List ℕ) (core : CollectorCore) (answers : Answers)
    → (seed_listeners decode_comm core answers).tracker.previous ≡ core.tracker.previous
unfolding seed_listeners
previous-seed decode_comm core answers =
    ground
      (arith, previous-record_owners decode_comm core.tracker answers.seeded answers.poll_started)

poll_tracker_unread :
    (decode_comm : List ℕ → List ℕ) (library : FingerprintLibrary) (t : FlowTracker)
    (answers : Answers)
    → answers.flow_entries ≡ none
    → poll_tracker decode_comm library t answers ≡ (
      record_owners decode_comm
          (record_services library
            (record t { merged = merged_flows answers.flow_values })
            answers.service_samples)
          answers.owner_values
          answers.poll_started,
      [],
    )
unfolding poll_tracker
poll_tracker_unread decode_comm library t answers unread = rw (poll_tracker, unread) refl

-- Where the flow map cannot be read, the poll reports no flow, and the tracker still knows of every
-- flow what it knew before, totals, times and state included, but for its service.
pub poll_once-unread :
    (decode_comm : List ℕ → List ℕ) (core : CollectorCore) (answers : Answers)
    → answers.flow_entries ≡ none
    → let (core', batch) = poll_once decode_comm core answers in
      (batch.flows ≡ []) × ((key : FlowKey) → known core'.tracker key ≡ known core.tracker key)
unfolding poll_once
poll_once-unread decode_comm core answers unread =
    let noted = note_reconcile (begin_poll core answers.poll_started) answers.poll_started in
    let seeded = seed_listeners decode_comm noted answers in
    let merging : FlowTracker = record seeded.tracker {
      merged = merged_flows answers.flow_values;
    } in
    let served = record_services core.fingerprints merging answers.service_samples in
    let tracked = poll_tracker_unread decode_comm core.fingerprints seeded.tracker answers unread in
    (
      ap (λ r. r.1) tracked,
      λ key.
          let known_in : List (FlowKey × PreviousFlow) → Option PreviousFlow =
            λ m. counted (get FlowKey-discrete key m) in
          ap (λ r. known_in r.0.previous) tracked
          ∙ ap known_in
              (previous-record_owners decode_comm served answers.owner_values answers.poll_started)
          ∙ known-record_services core.fingerprints merging answers.service_samples key
          ∙ ap known_in
              (previous-seed decode_comm noted answers ∙ previous-begun core answers.poll_started),
    )
