-- ===== src/Domains/Decoder.antt =====
-- `DomainDecoder` of zimascoped/src/collector/domain.rs. The kind of evidence, its confidence and the
-- observation are those of zimascope-common/src/model.rs.
use native.Mathlib.Decide.{ℕ_discrete}
use zima_scope.Abi.{
  DomainSample, SampleKind, IpFamily, TransportProtocol, domain_sample_max, family_from_abi,
  direction_from_abi, transport_from_abi, transport_code, sample_kind_from_abi,
}
use zima_scope.Base.{
  ℕ, ◌+◌, Bool, false, ◌||◌, Option, some, none, List, [], ◌∷◌, ◌++◌, ltb, leb, ◌==◌, if◌then◌else◌,
  take, min, max, ◌>>=◌,
}
use zima_scope.Base.Assoc.{get, insert}
use zima_scope.Domains.Dns.{DnsAnswer, parse_dns_response}
use zima_scope.Domains.Host.{extract_http_host}
use zima_scope.Domains.Names.{domain_from_buffer}
use zima_scope.Domains.Sni.{extract_tls_sni}
use zima_scope.Model.{IpAddr, v4, ipv4_from_abi}
use zima_scope.Packet.Cursor.{memory_cursor}
use zima_scope.Tracker.Clock.{MonoClock, secs, anchor_if_needed, to_instant}

pub data DomainEvidence : Type 0 where
  dns tls_sni http_host : DomainEvidence

pub data AssociationConfidence : Type 0 where
  direct inferred : AssociationConfidence

pub record DomainObservation : Type 0 where
  pub domain : List ℕ
  pub address : IpAddr
  pub evidence : DomainEvidence
  pub confidence : AssociationConfidence
  pub client_context : ℕ
  pub observed_at : ℕ
  pub expires_at : ℕ

pub record DomainDedupeKey : Type 0 where
  pub domain : List ℕ
  pub address : IpAddr
  pub evidence : DomainEvidence
  pub client_context : ℕ

unfoldable pub DomainDedupeKey-discrete : Discrete DomainDedupeKey
DomainDedupeKey-discrete = hlevel ℕ_discrete

-- `dedupe`: the expiry of what was observed.
abbrev pub DomainDecoder : Type 0
DomainDecoder = List (DomainDedupeKey × ℕ)

abbrev pub min_dns_ttl : ℕ
min_dns_ttl = secs 10

abbrev pub max_dns_ttl : ℕ
max_dns_ttl = secs 3600

abbrev pub direct_evidence_ttl : ℕ
direct_evidence_ttl = secs 300

abbrev pub confidence_for : DomainEvidence → AssociationConfidence
confidence_for dns = inferred
confidence_for _ = direct

abbrev pub clamp_dns_ttl : ℕ → ℕ
clamp_dns_ttl ttl_secs = min (max (secs ttl_secs) min_dns_ttl) max_dns_ttl

-- The observation that `push` appends.
abbrev pub observation : List ℕ → IpAddr → ℕ → DomainEvidence → ℕ → ℕ → DomainObservation
observation domain address ifindex evidence observed_at expires_at = record {
  domain = domain;
  address = address;
  evidence = evidence;
  confidence = confidence_for evidence;
  client_context = ifindex;
  observed_at = observed_at;
  expires_at = expires_at;
}

abbrev pub key_of : DomainObservation → DomainDedupeKey
key_of o = record {
  domain = o.domain;
  address = o.address;
  evidence = o.evidence;
  client_context = o.client_context;
}

-- Whether the observation is a duplicate that has not expired.
abbrev pub is_live : Option ℕ → ℕ → Bool
is_live none now = false
is_live (some existing_expiry) now = ltb now existing_expiry

-- The observation stands for the arguments of `push`, from which both the key and it are made.
unfoldable pub push : DomainDecoder → DomainObservation → ℕ → DomainDecoder × List DomainObservation
push dedupe o now =
    if is_live (get DomainDedupeKey-discrete (key_of o) dedupe) now
    then (dedupe, [])
    else (insert DomainDedupeKey-discrete (key_of o) o.expires_at dedupe, o ∷ [])

unfoldable pub purge_expired : DomainDecoder → ℕ → DomainDecoder
purge_expired [] now = []
purge_expired ((key, expiry) ∷ dedupe) now =
    let kept = purge_expired dedupe now in if ltb now expiry then (key, expiry) ∷ kept else kept

-- One `push` after the other.
unfoldable pub push_all :
    DomainDecoder → List DomainObservation → ℕ → DomainDecoder × List DomainObservation
push_all dedupe [] now = (dedupe, [])
push_all dedupe (o ∷ more) now =
    let (pushed, first) = push dedupe o now in
    let (last, others) = push_all pushed more now in (last, first ++ others)

-- What the answers of a DNS response are pushed as.
unfoldable pub dns_candidates : List (List ℕ × DnsAnswer) → ℕ → ℕ → List DomainObservation
dns_candidates [] ifindex observed_at = []
dns_candidates ((name, answer) ∷ answers) ifindex observed_at =
    let others = dns_candidates answers ifindex observed_at in
    elim (domain_from_buffer name) [
      | none ↦ others
      | some domain ↦
          observation domain (v4 (ipv4_from_abi answer.address)) ifindex dns observed_at
            (observed_at + clamp_dns_ttl answer.ttl_secs)
          ∷ others
    ]

-- What a name from the payload itself is pushed as: evidence for the sample's own peer.
abbrev pub direct_candidate :
    Option (List ℕ) → IpAddr → ℕ → DomainEvidence → ℕ → List DomainObservation
direct_candidate found peer ifindex evidence observed_at =
    elim (do name ← found; domain_from_buffer name) [
      | none ↦ []
      | some domain ↦
          observation domain peer ifindex evidence observed_at (observed_at + direct_evidence_ttl)
          ∷ []
    ]

-- The candidates of a sample whose header is accepted, by the kind of the sample.
unfoldable pub candidates : DomainSample → SampleKind → ℕ → List DomainObservation
candidates sample kind observed_at =
    let length = sample.payload_len in
    let cursor = memory_cursor (take length sample.payload) in
    let peer = v4 (ipv4_from_abi sample.address) in
    elim kind [
      | SampleKind.dns ↦
          let offset = if sample.transport == transport_code TransportProtocol.tcp then 2 else 0 in
          if leb length offset
          then []
          else dns_candidates (parse_dns_response cursor offset length) sample.ifindex observed_at
      | SampleKind.tls_client_hello ↦
          direct_candidate (extract_tls_sni cursor 0 length) peer sample.ifindex tls_sni observed_at
      | SampleKind.http_request ↦
          direct_candidate (extract_http_host cursor 0 length) peer sample.ifindex http_host
            observed_at
    ]

-- The kind of a sample whose header is accepted.
abbrev pub accepted_kind : DomainSample → Option SampleKind
accepted_kind sample = do
  family ← family_from_abi sample.ip_family
  direction ← direction_from_abi sample.direction
  transport ← transport_from_abi sample.transport
  kind ← sample_kind_from_abi sample.kind
  (elim family [
    | IpFamily.v6 ↦ none
    | IpFamily.v4 ↦
        if sample.payload_len == 0 || ltb domain_sample_max sample.payload_len
        then none
        else some kind
  ])

-- The decoder and the clock afterwards, and what is appended to `observations`.
unfoldable pub decode :
    DomainDecoder
    → DomainSample
    → MonoClock
    → ℕ
    → DomainDecoder × MonoClock × List DomainObservation
decode dedupe sample clock now = elim (accepted_kind sample) [
  | none ↦ (dedupe, clock, [])
  | some kind ↦
      let anchored = anchor_if_needed clock sample.observed_mono_ns now in
      let observed_at = to_instant now anchored sample.observed_mono_ns in
      let (later, observations) = push_all dedupe (candidates sample kind observed_at) now in
      (later, anchored, observations)
]
