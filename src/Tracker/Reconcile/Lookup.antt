-- ===== src/Tracker/Reconcile/Lookup.antt =====
-- The socket owners of `FlowTracker` in zimascoped/src/collector/tracker.rs: recording, joining with
-- flows, and dropping old ones.
use zima_scope.Abi
use zima_scope.Abi.{
  OwnerKind, TransportProtocol, owner_kind_from_abi, owner_kind_code, transport_code, family_code,
  OwnerKey-discrete,
}
use zima_scope.Base.Assoc.{get, insert}
use zima_scope.Base.{
  ℕ, ◌-◌, Option, some, none, List, [], ◌∷◌, ltb, ◌==◌, if◌then◌else◌, ◌>>=◌, swap16, length,
  replicate,
}
use zima_scope.Model.{
  Protocol, FlowDirection, IpAddr, FlowKey, ApplicationRef, ip_storage, until_nul,
}
use zima_scope.Tracker.Reconcile.State.{OwnerRecord, owner_cache_capacity, FlowTracker}

-- `owner_key`.
unfoldable pub owner_key : ℕ → OwnerKind → ℕ → IpAddr → Option ℕ → Abi.OwnerKey
owner_key protocol kind local_port remote remote_port =
    let (remote_addr, family) = ip_storage remote in
    record {
      remote_addr = remote_addr;
      remote_port_be = elim remote_port [ none ↦ 0 | some port ↦ swap16 port ];
      local_port_be = swap16 local_port;
      protocol = protocol;
      kind = owner_kind_code kind;
      ip_family = family_code family;
    }

abbrev pub protocol_code : Protocol → ℕ
protocol_code Protocol.tcp = transport_code TransportProtocol.tcp
protocol_code Protocol.udp = transport_code TransportProtocol.udp

abbrev pub application_of : Option OwnerRecord → Option ApplicationRef
application_of none = none
application_of (some found) = some found.application

-- The three lookups of `resolve_application`, in order.
unfoldable pub resolve_at : FlowTracker → Protocol → ℕ → IpAddr → Option ℕ → Option ApplicationRef
resolve_at t protocol local_port remote remote_port =
    let code = protocol_code protocol in
    let exact =
      get OwnerKey-discrete (owner_key code OwnerKind.socket local_port remote remote_port)
        t.owners in
    let by_remote =
      get OwnerKey-discrete
        (owner_key (transport_code TransportProtocol.udp) OwnerKind.socket 0 remote remote_port)
        t.owners in
    let listening =
      get OwnerKey-discrete
        (owner_key code OwnerKind.listener local_port (IpAddr.v4 (replicate 4 0)) none)
        t.listeners in
    elim exact [
      | some found ↦ some found.application
      | none ↦ elim protocol [
        | Protocol.tcp ↦ application_of listening
        | Protocol.udp ↦ elim by_remote [
          | some found ↦ some found.application
          | none ↦ application_of listening
        ]
      ]
    ]

-- The sides of a flow, by its direction; no local port, no application.
abbrev pub local_port : FlowKey → Option ℕ
local_port key = elim key.direction [
  | FlowDirection.outbound ↦ key.source.port
  | FlowDirection.inbound ↦ key.destination.port
]

unfoldable pub resolve_application : FlowTracker → FlowKey → Option ApplicationRef
resolve_application t key = do
  port ← local_port key
  elim key.direction [
    | FlowDirection.outbound ↦
        resolve_at t key.protocol port key.destination.address key.destination.port
    | FlowDirection.inbound ↦ resolve_at t key.protocol port key.source.address key.source.port
  ]

unfoldable pub retain_young :
    ℕ → ℕ → List (Abi.OwnerKey × OwnerRecord) → List (Abi.OwnerKey × OwnerRecord)
retain_young now retention [] = []
retain_young now retention ((key, o) ∷ entries) =
    let rest = retain_young now retention entries in
    if ltb (now - o.observed_at) retention then (key, o) ∷ rest else rest

abbrev pub bounded : List (Abi.OwnerKey × OwnerRecord) → List (Abi.OwnerKey × OwnerRecord)
bounded entries = if ltb owner_cache_capacity (length entries) then [] else entries

unfoldable pub purge_owners : FlowTracker → ℕ → FlowTracker
purge_owners t now = record t {
  owners = bounded (retain_young now t.owner_retention t.owners);
  listeners = bounded (retain_young now t.owner_retention t.listeners);
}

-- `application_ref`. `decode` stands for the UTF-8 decoding and trimming of `comm_text`.
unfoldable pub application_ref : (List ℕ → List ℕ) → Abi.OwnerValue → Option ApplicationRef
application_ref decode value =
    if value.tgid == 0
    then none
    else some (record {
      tgid = value.tgid;
      uid = value.uid;
      cgroup_id = value.cgroup_id;
      comm = decode (until_nul value.comm);
    })

unfoldable pub record_owner :
    (List ℕ → List ℕ) → FlowTracker → Abi.OwnerKey → Abi.OwnerValue → ℕ → FlowTracker
record_owner decode t key value observed_at = elim (owner_kind_from_abi key.kind) [
  | none ↦ t
  | some kind ↦ elim (application_ref decode value) [
    | none ↦ t
    | some application ↦
        let o : OwnerRecord = record { application = application; observed_at = observed_at } in
        elim kind [
          | OwnerKind.socket ↦ record t { owners = insert OwnerKey-discrete key o t.owners }
          | OwnerKind.listener ↦ record t { listeners = insert OwnerKey-discrete key o t.listeners }
        ]
  ]
]
