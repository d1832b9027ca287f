-- ===== src/Abi/RoundTrip.antt =====
-- The discriminants of zimascope-common/src/kernel_abi.rs survive the kernel boundary.
use zima_scope.Abi.{
  IpFamily, Direction, TransportProtocol, SampleKind, OwnerKind, RuleAction, family_code,
  family_from_abi, direction_code, direction_from_abi, transport_code, transport_from_abi,
  sample_kind_code, sample_kind_from_abi, owner_kind_code, owner_kind_from_abi, action_code,
  action_from_abi,
}
use zima_scope.Base.{ℕ, Option, some, ◌≡◌, ◌↔◌, arith}

-- `from_abi` accepts exactly the discriminants: a raw value decodes to an enumerator if and only if
-- it is that enumerator's code.
abbrev pub Decodes : {A : Type 0} → (A → ℕ) → (ℕ → Option A) → Type 0
Decodes {A} code decode = (n : ℕ) (a : A) → (decode n ≡ some a) ↔ (n ≡ code a)

family-Decodes : Decodes family_code family_from_abi
family-Decodes n IpFamily.v4 = ground arith
family-Decodes n _ = ground arith

direction-Decodes : Decodes direction_code direction_from_abi
direction-Decodes n Direction.inbound = ground arith
direction-Decodes n _ = ground arith

transport-Decodes : Decodes transport_code transport_from_abi
transport-Decodes n TransportProtocol.tcp = ground arith
transport-Decodes n _ = ground arith

sample_kind-Decodes : Decodes sample_kind_code sample_kind_from_abi
sample_kind-Decodes n SampleKind.dns = ground arith
sample_kind-Decodes n _ = ground arith

owner_kind-Decodes : Decodes owner_kind_code owner_kind_from_abi
owner_kind-Decodes n OwnerKind.socket = ground arith
owner_kind-Decodes n _ = ground arith

action-Decodes : Decodes action_code action_from_abi
action-Decodes n RuleAction.limit = ground arith
action-Decodes n _ = ground arith

-- A raw byte decodes to an enumerator exactly when it is the code of that enumerator, for the
-- address family, the direction, the transport protocol, the sample kind, the owner kind and the
-- rule action: every code decodes back to its enumerator, and no other byte decodes.
pub abi-Decodes :
    Decodes family_code family_from_abi
    × Decodes direction_code direction_from_abi
    × Decodes transport_code transport_from_abi
    × Decodes sample_kind_code sample_kind_from_abi
    × Decodes owner_kind_code owner_kind_from_abi
    × Decodes action_code action_from_abi
abi-Decodes = (
  family-Decodes, direction-Decodes, transport-Decodes, sample_kind-Decodes, owner_kind-Decodes,
  action-Decodes,
)
