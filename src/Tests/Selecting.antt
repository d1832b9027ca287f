-- ===== src/Tests/Selecting.antt =====
-- Queries that become selectors, and selectors that become targets.
use zima_scope.Base.{ℕ, ◌+◌, ◌<◌, ◌≡◌, ◌↔◌, refl, Option, some, none, List, [], ◌∷◌, ◌++◌}
use zima_scope.Model.{v4}
use zima_scope.Query.Agreement.{Request, inodes_for, container_for, serve_all, Made}
use zima_scope.Query.Cgroups.{IsCgroups, resolve-IsCgroups}
use zima_scope.Query.Containers.{empty_index, inodes_of}
use zima_scope.Query.Lowered.{IsPerPacket, IsView, try_from-IsView}
use zima_scope.Query.Lowering.{
  FlowQuery, lowered, unsupported, not_per_packet, domain, compose, lower_addresses,
  unsupported_fields, try_from,
}
use zima_scope.Query.Resolving.{Messages, resolve}
use zima_scope.RulePolicy.Selectors.{Selector, endpoint, cont_prefix}

abbrev peer : List ℕ
peer = 1 ∷ 2 ∷ 3 ∷ 4 ∷ []

-- The secure shells of one address.
abbrev shells : FlowQuery
shells = record {
  q = none;
  range = none;
  start = none;
  end = none;
  direction = none;
  protocol = none;
  interface = none;
  service = none;
  ip = some (v4 peer);
  src_ip = none;
  dst_ip = none;
  port = some 22;
  domain = none;
  application_id = none;
  country = none;
  asn = none;
  organization = none;
  scope = [];
  exclude_scope = [];
  state = none;
  has_domain = none;
  evidence = none;
  confidence = none;
  hide_noise = none;
  sort = none;
  limit = none;
  offset = none;
}

try_from-IsView_example :
    (try_from shells ≡ lowered (endpoint (v4 peer) (some 22)))
    ↔ (IsPerPacket shells × IsView shells (endpoint (v4 peer) (some 22)))
try_from-IsView_example = try_from-IsView shells (endpoint (v4 peer) (some 22)) refl refl refl refl

shells_lowered : try_from shells ≡ lowered (endpoint (v4 peer) (some 22))
unfolding try_from unsupported_fields lower_addresses compose
shells_lowered = refl

-- A domain is named in the refusal.
domain_refused :
    try_from (record shells { domain = some [] }) ≡ unsupported (domain ∷ []) not_per_packet
unfolding try_from unsupported_fields
domain_refused = refl

abbrev messages : Messages
messages = record {
  ipv6_later = [];
  empty_name = [];
  no_directory = λ container. container;
  no_stored_name = λ id. id;
  no_known_prefix = λ id. id;
}

abbrev no_names : List ℕ → Option (List ℕ)
no_names id = none

-- Two directories of the container `a`, one of `b` and one of none.
abbrev walked : List (ℕ × Option (List ℕ))
walked = (9, some (b'a' ∷ [])) ∷ (4, some (b'b' ∷ [])) ∷ (2, none) ∷ (5, some (b'a' ∷ [])) ∷ []

abbrev requests : List (List (ℕ × Option (List ℕ)) × ℕ × Request)
requests = ([], 0, container_for 9) ∷ (walked, 6000000000, inodes_for (b'b' ∷ [])) ∷ []

resolve-IsCgroups_example :
    let (index, resolution) =
      resolve messages no_names
        (serve_all empty_index requests)
        walked
        7000000000
        (Selector.application (cont_prefix ++ (b'a' ∷ []))) in
    (w : List (ℕ × Option (List ℕ))) × (at : ℕ) × Made w at
      ((walked, 7000000000, inodes_for (b'a' ∷ [])) ∷ requests)
    × (7000000000 < at + 5000000000)
    × IsCgroups (inodes_of (b'a' ∷ []) w) resolution
resolve-IsCgroups_example =
    resolve-IsCgroups messages no_names requests walked 7000000000 (b'a' ∷ [])
