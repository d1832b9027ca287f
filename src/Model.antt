-- ===== src/Model.antt =====
-- User-space values: zimascope-common/src/model.rs. Texts are lists of bytes, addresses are lists of
-- octets, and an `Instant` or a `Duration` is a number of nanoseconds; the earliest `Instant` that
-- the platform can represent is 0. The health types are in Model.Health.
pub mod Health
pub mod Scope
use native.Mathlib.Decide.{ℕ_discrete}
use zima_scope.Abi.{IpFamily, TransportProtocol, Direction, transport_from_abi, direction_from_abi}
use zima_scope.Base.{
  ℕ, Option, some, List, [], ◌∷◌, ◌++◌, if◌then◌else◌, ◌==◌, replicate, drop, ◌>>=◌,
}

pub data Protocol : Type 0 where
  tcp udp : Protocol

pub data FlowDirection : Type 0 where
  inbound outbound : FlowDirection

pub data IpAddr : Type 0 where
  v4 v6 : List ℕ → IpAddr

pub record Endpoint : Type 0 where
  pub address : IpAddr
  pub port : Option ℕ

pub record FlowKey : Type 0 where
  pub source : Endpoint
  pub destination : Endpoint
  pub interface_index : ℕ
  pub protocol : Protocol
  pub direction : FlowDirection

pub record TrafficCounters : Type 0 where
  pub packets : ℕ
  pub bytes : ℕ

pub data EndReason : Type 0 where
  idle_timeout tcp_fin tcp_reset evicted_or_unknown : EndReason

pub data FlowState : Type 0 where
  active : FlowState
  ended : EndReason → FlowState

pub record ApplicationRef : Type 0 where
  pub tgid : ℕ
  pub uid : ℕ
  pub cgroup_id : ℕ
  pub comm : List ℕ

pub record FlowUpdate : Type 0 where
  pub key : FlowKey
  pub delta : TrafficCounters
  pub total : TrafficCounters
  pub first_seen : ℕ
  pub last_seen : ℕ
  pub state : FlowState
  pub service : Option (List ℕ)
  pub application : Option ApplicationRef

unfoldable pub FlowKey-discrete : Discrete FlowKey
FlowKey-discrete = hlevel ℕ_discrete

abbrev pub protocol_from_abi : ℕ → Option Protocol
protocol_from_abi value = do
  transport ← transport_from_abi value
  some (elim transport [ TransportProtocol.tcp ↦ tcp | TransportProtocol.udp ↦ udp ])

abbrev pub flow_direction_from_abi : ℕ → Option FlowDirection
flow_direction_from_abi value = do
  direction ← direction_from_abi value
  some (elim direction [ Direction.inbound ↦ inbound | Direction.outbound ↦ outbound ])

abbrev pub ipv4_storage : List ℕ → List ℕ
ipv4_storage octets = replicate 12 0 ++ octets

abbrev pub ipv4_from_abi : List ℕ → List ℕ
ipv4_from_abi storage = drop 12 storage

abbrev pub ip_storage : IpAddr → List ℕ × IpFamily
ip_storage (v4 octets) = (ipv4_storage octets, IpFamily.v4)
ip_storage (v6 octets) = (octets, IpFamily.v6)

-- The bytes of a `comm` value up to its first NUL.
abbrev pub until_nul : List ℕ → List ℕ
until_nul [] = []
until_nul (b ∷ bs) = if b == 0 then [] else b ∷ until_nul bs
