-- ===== src/Domains/Dedupe.antt =====
-- What the `dedupe` map of zimascoped/src/collector/domain.rs is for: an observation is not repeated
-- before it expires.
use mathlib.Core.Path.{subst}
use mathlib.Core.Option.{some-injective}
use zima_scope.Abi.{DomainSample}
use zima_scope.Base.Assoc.{get, get-insert_self, get-insert_ne}
use zima_scope.Base.{
  ℕ, zero, suc, get_elem?, ◌<◌, ◌≡◌, ◌≢◌, ap, sym, ◌∙◌, arith, true, Option, some, List, [], ◌∷◌,
  ◌++◌, inl, inr, Bool-cases, All,
}
use zima_scope.Domains.Decoder.{
  DomainDecoder, DomainDedupeKey, DomainDedupeKey-discrete, DomainObservation, key_of, is_live,
  push, purge_expired, push_all, accepted_kind, decode,
}
use zima_scope.Domains.Options.{by_option}
use zima_scope.Tracker.Clock.{MonoClock}

-- What the owner of the decoder does with it, each at a time.
pub data DecoderEvent : Type 0 where
  decoded : DomainSample → ℕ → DecoderEvent
  purged : ℕ → DecoderEvent

abbrev pub time_of : DecoderEvent → ℕ
time_of (decoded sample now) = now
time_of (purged now) = now

-- The observations of a sequence of events.
unfoldable pub run : DomainDecoder → MonoClock → List DecoderEvent → List DomainObservation
run dedupe clock [] = []
run dedupe clock (decoded sample now ∷ events) =
    let (later, anchored, observations) = decode dedupe sample clock now in
    observations ++ run later anchored events
run dedupe clock (purged now ∷ events) = run (purge_expired dedupe now) clock events

abbrev expiry_of : DomainDedupeKey → DomainDecoder → Option ℕ
expiry_of key dedupe = get DomainDedupeKey-discrete key dedupe

All-append :
    (P : DomainObservation → Type 0) (xs ys : List DomainObservation)
    → All P xs
    → All P ys
    → All P (xs ++ ys)
All-append P [] ys h k = k
All-append P (x ∷ xs) ys (one, h) k = (one, All-append P xs ys h k)

module _ (key : DomainDedupeKey) (expiry : ℕ) where
  abbrev Others : List DomainObservation → Type 0
  Others = All (λ o. key_of o ≢ key)

  purge-keeps :
      (dedupe : DomainDecoder) (now : ℕ)
      → now < expiry
      → expiry_of key dedupe ≡ some expiry
      → expiry_of key (purge_expired dedupe now) ≡ some expiry
  unfolding get purge_expired
  purge-keeps [] now h e = e
  purge-keeps ((other, until) ∷ dedupe) now h e = ground (arith, purge-keeps dedupe now)

  push-keeps :
      (dedupe : DomainDecoder) (o : DomainObservation) (now : ℕ)
      → now < expiry
      → expiry_of key dedupe ≡ some expiry
      → (expiry_of key ((push dedupe o now).0) ≡ some expiry) × Others ((push dedupe o now).1)
  unfolding push
  push-keeps dedupe o now h e = elim (DomainDedupeKey-discrete (key_of o) key) [
    | yes same ↦
        let live : is_live (expiry_of (key_of o) dedupe) now ≡ true =
          ap (λ k. is_live (expiry_of k dedupe) now) same
          ∙ ap (λ x. is_live x now) e
          ∙ ground arith in
        rw live (e, tt)
    | no other ↦ elim (Bool-cases (is_live (expiry_of (key_of o) dedupe) now)) [
      | inl live ↦ rw live (e, tt)
      | inr dead ↦
          rw dead
            (get-insert_ne _ (key_of o) key _ dedupe (λ back. other (sym back)) ∙ e, (other, tt))
    ]
  ]

  push_all-keeps :
      (dedupe : DomainDecoder) (os : List DomainObservation) (now : ℕ)
      → now < expiry
      → expiry_of key dedupe ≡ some expiry
      → (expiry_of key ((push_all dedupe os now).0) ≡ some expiry)
        × Others ((push_all dedupe os now).1)
  unfolding push_all
  push_all-keeps dedupe [] now h e = (e, tt)
  push_all-keeps dedupe (o ∷ os) now h e =
      let (e1, first) = push-keeps dedupe o now h e in
      let (e2, more) = push_all-keeps ((push dedupe o now).0) os now h e1 in
      (e2, All-append _ _ _ first more)

  decode-keeps :
      (dedupe : DomainDecoder) (sample : DomainSample) (clock : MonoClock) (now : ℕ)
      → now < expiry
      → expiry_of key dedupe ≡ some expiry
      → (expiry_of key ((decode dedupe sample clock now).0) ≡ some expiry)
        × Others ((decode dedupe sample clock now).2)
  unfolding decode
  decode-keeps dedupe sample clock now h e =
      by_option
        (λ (result : DomainDecoder × MonoClock × List DomainObservation).
          (expiry_of key (result.0) ≡ some expiry) × Others (result.2))
        (accepted_kind sample) (e, tt) (λ kind _. push_all-keeps dedupe _ now h e)

  run-Others :
      (events : List DecoderEvent) (dedupe : DomainDecoder) (clock : MonoClock)
      → All (λ event. time_of event < expiry) events
      → expiry_of key dedupe ≡ some expiry
      → Others (run dedupe clock events)
  unfolding run
  run-Others [] dedupe clock h e = tt
  run-Others (decoded sample now ∷ events) dedupe clock (early, h) e =
      let (e1, first) = decode-keeps dedupe sample clock now early e in
      All-append _ _ _ first (run-Others events _ _ h e1)
  run-Others (purged now ∷ events) dedupe clock (early, h) e =
      run-Others events (purge_expired dedupe now) clock h (purge-keeps dedupe now early e)

-- What a call of `push_all` emits, and has not expired, is remembered.
abbrev Remembered : ℕ → DomainDecoder → DomainObservation → Type 0
Remembered now dedupe o = now < o.expires_at → expiry_of (key_of o) dedupe ≡ some o.expires_at

push-Remembered :
    (dedupe : DomainDecoder) (o : DomainObservation) (now : ℕ)
    → All (Remembered now ((push dedupe o now).0)) ((push dedupe o now).1)
unfolding push
push-Remembered dedupe o now = elim (Bool-cases (is_live (expiry_of (key_of o) dedupe) now)) [
  | inl live ↦ rw live tt
  | inr dead ↦ rw dead ((λ _. get-insert_self _ (key_of o) o.expires_at dedupe), tt)
]

Remembered-push_all :
    (dedupe : DomainDecoder) (os emitted : List DomainObservation) (now : ℕ)
    → All (Remembered now dedupe) emitted
    → All (Remembered now ((push_all dedupe os now).0)) emitted
Remembered-push_all dedupe os [] now h = tt
Remembered-push_all dedupe os (o ∷ emitted) now (one, h) = (
  (λ early. (push_all-keeps (key_of o) o.expires_at dedupe os now early (one early)).0),
  Remembered-push_all dedupe os emitted now h,
)

push_all-Remembered :
    (dedupe : DomainDecoder) (os : List DomainObservation) (now : ℕ)
    → All (Remembered now ((push_all dedupe os now).0)) ((push_all dedupe os now).1)
unfolding push_all
push_all-Remembered dedupe [] now = tt
push_all-Remembered dedupe (o ∷ os) now =
    All-append _ _ _
      (Remembered-push_all ((push dedupe o now).0) os _ now (push-Remembered dedupe o now))
      (push_all-Remembered ((push dedupe o now).0) os now)

decode-Remembered :
    (dedupe : DomainDecoder) (sample : DomainSample) (clock : MonoClock) (now : ℕ)
    → All (Remembered now ((decode dedupe sample clock now).0)) ((decode dedupe sample clock now).2)
unfolding decode
decode-Remembered dedupe sample clock now =
    by_option
      (λ (result : DomainDecoder × MonoClock × List DomainObservation).
        All (Remembered now (result.0)) (result.2))
      (accepted_kind sample) tt (λ kind _. push_all-Remembered dedupe _ now)

All-get :
    (P : DomainObservation → Type 0) (os : List DomainObservation) (i : ℕ) (o : DomainObservation)
    → All P os
    → get_elem? os i ≡ some o
    → P o
All-get P [] i o h e = absurd (ground arith)
All-get P (x ∷ os) zero o (one, h) e = subst P (some-injective x o e) one
All-get P (x ∷ os) (suc i) o (one, h) e = All-get P os i o h e

-- An observation that `decode` appends and that has not expired at that time is not repeated before
-- it expires: whatever samples the decoder is given afterwards and whenever it is purged, as long as
-- all of it happens before the expiry, no later observation has the same name, address, kind of
-- evidence and interface.
pub decode-once :
    (dedupe : DomainDecoder) (sample : DomainSample) (clock : MonoClock) (now : ℕ) (i : ℕ)
    (o : DomainObservation) (events : List DecoderEvent)
    → get_elem? ((decode dedupe sample clock now).2) i ≡ some o
    → now < o.expires_at
    → All (λ event. time_of event < o.expires_at) events
    → All
        (λ later. key_of later ≢ key_of o)
        (run ((decode dedupe sample clock now).0) ((decode dedupe sample clock now).1) events)
decode-once dedupe sample clock now i o events e early h =
    run-Others (key_of o) o.expires_at events _ _ h
      (All-get _ _ i o (decode-Remembered dedupe sample clock now) e early)
