-- ===== src/Query/Lowered.antt =====
-- Which queries zimascoped/src/query/lower.rs lowers, and to what.
use zima_scope.Base.{◌≡◌, ◌↔◌, refl, arith, Option, some, none, not, List, [], ◌∷◌}
use zima_scope.Model.{IpAddr}
use zima_scope.Query.Lowering.{
  FlowQuery, Field, lowered, unsupported_fields, addresses, compose, lower_addresses, refuse_or,
  name_if, is_some, is_empty, range, protocol, interface, domain, country, asn, organization, scope,
  exclude_scope, state, has_domain, evidence, confidence, hide_noise, q, sort, limit, offset,
  try_from,
}
use zima_scope.RulePolicy.Selectors.{Selector, endpoint, cidr, application}

-- What a selector stands for, as a query: the one address filter with the port, or the application.
abbrev pub IsView : FlowQuery → Selector → Type 0
IsView query (endpoint address port) =
    (addresses query ≡ address ∷ []) × (query.port ≡ port) × (query.application_id ≡ none)
IsView query (application id) =
    (addresses query ≡ []) × (query.port ≡ none) × (query.application_id ≡ some id)
IsView query (cidr address prefix_len) = ⊥

compose_iff :
    (query : FlowQuery) (found : List IpAddr) (s : Selector)
    → addresses query ≡ found
    → (lower_addresses query found ≡ lowered s) ↔ IsView query s
unfolding lower_addresses compose
compose_iff query [] (endpoint a p) is = rw is (ground arith)
compose_iff query [] (application id) is = rw is (ground arith)
compose_iff query [] (cidr a n) is = ground arith
compose_iff query (address ∷ []) (endpoint a p) is = rw is (ground arith)
compose_iff query (address ∷ []) (application id) is = rw is (ground arith)
compose_iff query (address ∷ []) (cidr a n) is = ground arith
compose_iff query (first ∷ second ∷ rest) (endpoint a p) is = rw is (ground arith)
compose_iff query (first ∷ second ∷ rest) (application id) is = rw is (ground arith)
compose_iff query (first ∷ second ∷ rest) (cidr a n) is = ground arith

refuse_iff :
    (fields : List Field) (query : FlowQuery) (s : Selector)
    → (refuse_or fields (lower_addresses query (addresses query)) ≡ lowered s)
      ↔ ((fields ≡ []) × IsView query s)
refuse_iff [] query s = ground (arith, compose_iff query (addresses query) s refl)
refuse_iff (field ∷ fields) query s = ground arith

-- The query has none of the fields that a packet does not show, and does not ask for a page.
abbrev pub IsPerPacket : FlowQuery → Type 0
IsPerPacket query =
    (query.range ≡ none)
    × ((query.protocol ≡ none)
        × ((query.interface ≡ none)
            × ((query.domain ≡ none)
                × ((query.country ≡ none)
                    × ((query.asn ≡ none)
                        × ((query.organization ≡ none)
                            × ((query.scope ≡ [])
                                × ((query.exclude_scope ≡ [])
                                    × ((query.state ≡ none)
                                        × ((query.has_domain ≡ none)
                                            × ((query.evidence ≡ none)
                                                × ((query.confidence ≡ none)
                                                    × ((query.hide_noise ≡ none)
                                                        × ((query.q ≡ none)
                                                            × ((query.sort ≡ none)
                                                            × ((query.limit ≡ none)
                                                            × (query.offset ≡ none)))))))))))))))))

absent_iff :
    {A P : Type 0}
    → (o : Option A) (field : Field) (fields : List Field) → (fields ≡ []) ↔ P
    → (name_if (is_some o) field fields ≡ []) ↔ ((o ≡ none) × P)
absent_iff none field fields rest = (λ e. (refl, rest.0 e), λ (_, p). rest.1 p)
absent_iff (some x) field fields rest = (λ e. absurd (cc), λ (e, _). absurd (cc))

empty_iff :
    {A P : Type 0}
    → (l : List A) (field : Field) (fields : List Field) → (fields ≡ []) ↔ P
    → (name_if (not (is_empty l)) field fields ≡ []) ↔ ((l ≡ []) × P)
empty_iff [] field fields rest = (λ e. (refl, rest.0 e), λ (_, p). rest.1 p)
empty_iff (x ∷ l) field fields rest = (λ e. absurd (cc), λ (e, _). absurd (cc))

last_iff :
    {A : Type 0} → (o : Option A) (field : Field) → (name_if (is_some o) field [] ≡ []) ↔ (o ≡ none)
last_iff none field = (λ e. refl, λ e. refl)
last_iff (some x) field = (λ e. absurd (cc), λ e. absurd (cc))

unsupported_fields-IsPerPacket :
    (query : FlowQuery) → (unsupported_fields query ≡ []) ↔ IsPerPacket query
unfolding unsupported_fields
unsupported_fields-IsPerPacket query = absent_iff query.range range _ (
    absent_iff query.protocol protocol _ (
      absent_iff query.interface interface _ (
        absent_iff query.domain domain _ (
          absent_iff query.country country _ (
            absent_iff query.asn asn _ (
              absent_iff query.organization organization _ (
                empty_iff query.scope scope _ (
                  empty_iff query.exclude_scope exclude_scope _ (
                    absent_iff query.state state _ (
                      absent_iff query.has_domain has_domain _ (
                        absent_iff query.evidence evidence _ (
                          absent_iff query.confidence confidence _ (
                            absent_iff query.hide_noise hide_noise _ (
                              absent_iff query.q q _ (
                                absent_iff query.sort sort _ (
                                  absent_iff query.limit limit _
                                    (last_iff query.offset offset)))))))))))))))))

-- A query that filters no service, no direction and no window of two times becomes a selector
-- exactly when none of the eighteen fields of `IsPerPacket` is given, and it has either one address
-- filter, with or without a port, and no application, or an application and neither address nor
-- port; and the selector is that filter.
pub try_from-IsView :
    (query : FlowQuery) (s : Selector)
    → query.service ≡ none
    → query.direction ≡ none
    → query.start ≡ none
    → query.end ≡ none
    → (try_from query ≡ lowered s) ↔ (IsPerPacket query × IsView query s)
unfolding try_from
try_from-IsView query s service direction start end =
    let (refused, composed) = refuse_iff (unsupported_fields query) query s in
    let (plain, absent) = unsupported_fields-IsPerPacket query in
    (λ e. (plain (refused e).0, (refused e).1), λ (p, view). composed (absent p, view))
