-- ===== src/Query/Lowering.antt =====
-- `TryFrom<&FlowQuery> for Selector` of zimascoped/src/query/lower.rs, over `FlowQuery` of
-- zimascoped/src/api/dto.rs. The names of fields are constructors, and a reason names its text. A
-- signed time is its sign and its amount.
use zima_scope.Base.{ℕ, Bool, true, false, not, Option, some, none, List, [], ◌∷◌, if◌then◌else◌}
use zima_scope.Domains.Decoder.{DomainEvidence, AssociationConfidence}
use zima_scope.Model.{IpAddr, FlowDirection, Protocol}
use zima_scope.Model.Scope.{AddressScope}
use zima_scope.RulePolicy.Selectors.{Selector, endpoint, application}

pub data TimeRange : Type 0 where
  minute15 hour1 hour24 day7 : TimeRange

pub data FlowStateParam : Type 0 where
  active ended : FlowStateParam

pub record FlowQuery : Type 0 where
  pub q : Option (List ℕ)
  pub range : Option TimeRange
  pub start : Option (Bool × ℕ)
  pub end : Option (Bool × ℕ)
  pub direction : Option FlowDirection
  pub protocol : Option Protocol
  pub interface : Option (List ℕ)
  pub service : Option (List ℕ)
  pub ip : Option IpAddr
  pub src_ip : Option IpAddr
  pub dst_ip : Option IpAddr
  pub port : Option ℕ
  pub domain : Option (List ℕ)
  pub application_id : Option (List ℕ)
  pub country : Option (List ℕ)
  pub asn : Option ℕ
  pub organization : Option (List ℕ)
  pub scope : List AddressScope
  pub exclude_scope : List AddressScope
  pub state : Option FlowStateParam
  pub has_domain : Option Bool
  pub evidence : Option DomainEvidence
  pub confidence : Option AssociationConfidence
  pub hide_noise : Option Bool
  pub sort : Option (List ℕ)
  pub limit : Option ℕ
  pub offset : Option ℕ

-- The names that an error can list.
pub data Field : Type 0 where
  range protocol interface domain country asn organization scope exclude_scope : Field
  state has_domain evidence confidence hide_noise q sort limit offset : Field
  ip src_ip dst_ip port application_id : Field

pub data Refusal : Type 0 where
  not_per_packet one_address port_needs_address no_composition nothing_enforceable : Refusal

pub data Lowering : Type 0 where
  lowered : Selector → Lowering
  unsupported : List Field → Refusal → Lowering

abbrev pub is_some : {A : Type 0} → Option A → Bool
is_some none = false
is_some (some value) = true

abbrev pub is_empty : {A : Type 0} → List A → Bool
is_empty [] = true
is_empty (x ∷ xs) = false

-- `then_some`, in front of the other fields.
abbrev pub name_if : Bool → Field → List Field → List Field
name_if true field fields = field ∷ fields
name_if false field fields = fields

unfoldable pub unsupported_fields : FlowQuery → List Field
unsupported_fields query = name_if (is_some query.range) range (
    name_if (is_some query.protocol) protocol (
      name_if (is_some query.interface) interface (
        name_if (is_some query.domain) domain (
          name_if (is_some query.country) country (
            name_if (is_some query.asn) asn (
              name_if (is_some query.organization) organization (
                name_if (not (is_empty query.scope)) scope (
                  name_if (not (is_empty query.exclude_scope)) exclude_scope (
                    name_if (is_some query.state) state (
                      name_if (is_some query.has_domain) has_domain (
                        name_if (is_some query.evidence) evidence (
                          name_if (is_some query.confidence) confidence (
                            name_if (is_some query.hide_noise) hide_noise (
                              name_if (is_some query.q) q (
                                name_if (is_some query.sort) sort (
                                  name_if (is_some query.limit) limit
                                    (name_if (is_some query.offset) offset [])))))))))))))))))

abbrev pub flatten : List (Option IpAddr) → List IpAddr
flatten [] = []
flatten (none ∷ options) = flatten options
flatten (some address ∷ options) = address ∷ flatten options

abbrev pub addresses : FlowQuery → List IpAddr
addresses query = flatten (query.ip ∷ query.src_ip ∷ query.dst_ip ∷ [])

-- The last `match`.
unfoldable pub compose : Option Selector → Option (List ℕ) → Lowering
compose (some selector) none = lowered selector
compose none (some id) = lowered (application id)
compose (some selector) (some id) = unsupported (ip ∷ application_id ∷ []) no_composition
compose none none = unsupported [] nothing_enforceable

-- What follows the test for unsupported fields.
unfoldable pub lower_addresses : FlowQuery → List IpAddr → Lowering
lower_addresses query [] =
    if is_some query.port
    then unsupported (port ∷ []) port_needs_address
    else compose none query.application_id
lower_addresses query (address ∷ []) =
    compose (some (endpoint address query.port)) query.application_id
lower_addresses query (first ∷ second ∷ rest) = unsupported (ip ∷ src_ip ∷ dst_ip ∷ []) one_address

abbrev pub refuse_or : List Field → Lowering → Lowering
refuse_or [] result = result
refuse_or (field ∷ fields) result = unsupported (field ∷ fields) not_per_packet

unfoldable pub try_from : FlowQuery → Lowering
try_from query = refuse_or (unsupported_fields query) (lower_addresses query (addresses query))
