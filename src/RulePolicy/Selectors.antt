-- ===== src/RulePolicy/Selectors.antt =====
-- `Selector`, its validation and its kernel plan in zimascoped/src/query/selector.rs, and the values
-- of zimascoped/src/query/resolver.rs. Texts are lists of bytes; an error is a value that names the
-- message.
use zima_scope.Base.{
  ℕ, Bool, true, false, ◌&&◌, ◌||◌, Option, some, none, List, [], ◌∷◌, leb, ◌==◌, if◌then◌else◌,
}
use zima_scope.Model.{IpAddr, v4, v6}

-- The messages of errors in this component.
pub data Reason : Type 0 where
  ipv6_unsupported not_matchable port_zero bad_prefix_len empty_application : Reason
  unknown_application rate_out_of_range burst_zero : Reason
  too_many_rules tier_overflow : Reason
  resolver_reason : List ℕ → Reason

-- `Result<T, String>`.
pub data Result (A : Type 0) : Type 0 where
  err : Reason → Result A
  ok : A → Result A

-- The `?` operator, and the same where the value is `()`.
infixl 5 ◌>>=◌
abbrev pub ◌>>=◌ : {A B : Type 0} → Result A → (A → Result B) → Result B
err reason >>= next = err reason
ok value >>= next = next value

infixl 5 ◌>>◌
abbrev pub ◌>>◌ : {B : Type 0} → Result (Unit {0}) → Result B → Result B
err reason >> after = err reason
ok checked >> after = after

pub data Selector : Type 0 where
  endpoint : IpAddr → Option ℕ → Selector
  cidr : IpAddr → ℕ → Selector
  application : List ℕ → Selector

pub data Refresh : Type 0 where
  container_index applications_table evidence : Refresh

pub data KernelPlan : Type 0 where
  direct : KernelPlan
  resolved : Refresh → Bool → KernelPlan
  unsupported : Reason → KernelPlan

abbrev pub is_prefix : List ℕ → List ℕ → Bool
is_prefix [] text = true
is_prefix (p ∷ ps) [] = false
is_prefix (p ∷ ps) (c ∷ cs) = p == c && is_prefix ps cs

-- "cont:", "proc:" and "proc:comm:".
abbrev pub cont_prefix : List ℕ
cont_prefix = b'c' ∷ b'o' ∷ b'n' ∷ b't' ∷ b':' ∷ []

abbrev pub proc_prefix : List ℕ
proc_prefix = b'p' ∷ b'r' ∷ b'o' ∷ b'c' ∷ b':' ∷ []

abbrev pub comm_prefix : List ℕ
comm_prefix = b'p' ∷ b'r' ∷ b'o' ∷ b'c' ∷ b':' ∷ b'c' ∷ b'o' ∷ b'm' ∷ b'm' ∷ b':' ∷ []

-- `Ipv4Addr::is_unspecified`, `is_multicast` and `is_broadcast`, on the octets.
abbrev pub is_reserved : List ℕ → Bool
is_reserved (a ∷ b ∷ c ∷ d ∷ []) =
    (a == 0 && b == 0 && c == 0 && d == 0)
    || (leb 224 a && leb a 239)
    || (a == 255 && b == 255 && c == 255 && d == 255)
is_reserved octets = false

unfoldable pub validate_address : IpAddr → Result (Unit {0})
validate_address (v4 octets) = if is_reserved octets then err not_matchable else ok tt
validate_address (v6 octets) = err ipv6_unsupported

-- `is_blank` is `id.trim().is_empty()`, the standard library's test for a text of white space.
unfoldable pub validate : (List ℕ → Bool) → Selector → Result (Unit {0})
validate is_blank (endpoint address port) = do
  validate_address address
  (elim port [ none ↦ ok tt | some p ↦ if p == 0 then err port_zero else ok tt ])
validate is_blank (cidr address prefix_len) = do
  validate_address address
  (if leb 1 prefix_len && leb prefix_len 32 then ok tt else err bad_prefix_len)
validate is_blank (application id) = if is_blank id then err empty_application else ok tt

abbrev pub address_plan : IpAddr → KernelPlan
address_plan (v4 octets) = direct
address_plan (v6 octets) = unsupported ipv6_unsupported

unfoldable pub kernel_plan : Selector → KernelPlan
kernel_plan (endpoint address port) = address_plan address
kernel_plan (cidr address prefix_len) = address_plan address
kernel_plan (application id) =
    if is_prefix comm_prefix id
    then direct
    else if is_prefix cont_prefix id
    then resolved container_index false
    else if is_prefix proc_prefix id
    then resolved applications_table false
    else unsupported unknown_application

pub data MatchTarget : Type 0 where
  endpoint : List ℕ → Option ℕ → MatchTarget
  cidr : List ℕ → ℕ → MatchTarget
  app_cgroup : ℕ → MatchTarget
  app_comm : List ℕ → MatchTarget

pub data Coverage : Type 0 where
  complete : Coverage
  unresolved : List ℕ → Coverage

pub record Resolution : Type 0 where
  pub targets : List MatchTarget
  pub coverage : Coverage

-- `EvidenceResolver::resolve`: a resolution, or the reason why none is available. The resolver has a
-- state, so its answer may depend on the selectors that it resolved before, the last first.
abbrev pub Resolver : Type 0
Resolver = List Selector → Selector → Result Resolution
