-- ===== src/Tracker/Reconcile/Owners.antt =====
-- Socket owners in zimascoped/src/collector/tracker.rs: how long they are kept, and that the daemon
-- finds the same owner for a flow as the packet path of zimascope-ebpf/src/policy.rs.
use zima_scope.Abi
use zima_scope.Abi.{
  Direction, OwnerKind, TransportProtocol, direction_code, transport_code, OwnerKey-discrete,
}
use zima_scope.Base.Assoc.{get}
use zima_scope.Base.{
  ℕ, ◌-◌, ◌≤◌, ◌<◌, ◌≡◌, inl, inr, refl, ap, ◌∙◌, arith, true, false, Option, some, none, List, [],
  ◌∷◌, length, All, ltb, ◌==◌, Bool-cases, swap16, swap16_self, drop, replicate,
}
use zima_scope.Enforcer.Evaluate.{socket_key, listener_key}
use zima_scope.Model.{ipv4_storage as storage, Protocol, FlowDirection, IpAddr, FlowKey}
use zima_scope.Packet.Parse.{ParsedFlow, ipv4_storage}
use zima_scope.TrafficPath.{flow_key}
use zima_scope.Tracker.Merge.{decode_key}
use zima_scope.Tracker.Reconcile.State.{FlowTracker, OwnerRecord, owner_cache_capacity}
use zima_scope.Tracker.Reconcile.Lookup.{
  bounded, retain_young, purge_owners, owner_key, resolve_at, resolve_application,
}

abbrev pub IsYoung : ℕ → ℕ → Abi.OwnerKey × OwnerRecord → Type 0
IsYoung now retention (key, o) = now - o.observed_at < retention

retain_young-IsYoung :
    (now retention : ℕ) (entries : List (Abi.OwnerKey × OwnerRecord))
    → All (IsYoung now retention) (retain_young now retention entries)
unfolding retain_young
retain_young-IsYoung now retention [] = tt
retain_young-IsYoung now retention ((key, o) ∷ entries) =
    elim (Bool-cases (ltb (now - o.observed_at) retention)) [
      | inl young ↦ rw young (ground arith, retain_young-IsYoung now retention entries)
      | inr old ↦ rw old (retain_young-IsYoung now retention entries)
    ]

bounded-le :
    (now retention : ℕ) (entries : List (Abi.OwnerKey × OwnerRecord))
    → All (IsYoung now retention) entries
    → (length (bounded entries) ≤ owner_cache_capacity)
      × All (IsYoung now retention) (bounded entries)
bounded-le now retention entries all =
    elim (Bool-cases (ltb owner_cache_capacity (length entries))) [
      | inl over ↦ rw over (omega arith, tt)
      | inr fits ↦ rw fits (ground arith, all)
    ]

-- After a purge each owner cache holds at most 65536 entries, all observed less than the retention
-- time ago.
pub purge_owners-bounded :
    (t : FlowTracker) (now : ℕ)
    → (length (purge_owners t now).owners ≤ owner_cache_capacity)
      × (length (purge_owners t now).listeners ≤ owner_cache_capacity)
      × All (IsYoung now t.owner_retention) (purge_owners t now).owners
      × All (IsYoung now t.owner_retention) (purge_owners t now).listeners
unfolding purge_owners
purge_owners-bounded t now =
    let (a, b) =
      bounded-le now t.owner_retention _ (retain_young-IsYoung now t.owner_retention t.owners) in
    let (c, d) =
      bounded-le now t.owner_retention _ (retain_young-IsYoung now t.owner_retention t.listeners) in
    (a, c, b, d)

-- An observation of the packet path with addresses and ports as the parser makes them.
pub record IsParsed (f : ParsedFlow) : Type 0 where
  pub src_word : ℕ
  pub dst_word : ℕ
  pub src_is : f.src_addr ≡ ipv4_storage src_word
  pub dst_is : f.dst_addr ≡ ipv4_storage dst_word
  pub src_lt : f.src_port_be < 65536
  pub dst_lt : f.dst_port_be < 65536
  pub family : f.ip_family ≡ 4
  pub is_tcp : f.protocol ≡ 6

-- The key that the daemon decodes for such an observation.
abbrev decoded : ParsedFlow → FlowDirection → ℕ → FlowKey
decoded f direction ifindex = record {
  source = record { address = IpAddr.v4 (drop 12 f.src_addr); port = some (swap16 f.src_port_be) };
  destination = record {
    address = IpAddr.v4 (drop 12 f.dst_addr);
    port = some (swap16 f.dst_port_be);
  };
  interface_index = ifindex;
  protocol = Protocol.tcp;
  direction = direction;
}

abbrev user_direction : Direction → FlowDirection
user_direction Direction.inbound = FlowDirection.inbound
user_direction Direction.outbound = FlowDirection.outbound

decode_key-decoded :
    (f : ParsedFlow) (direction : Direction) (ifindex : ℕ) (key : FlowKey)
    → IsParsed f
    → decode_key (flow_key f (direction_code direction) ifindex) ≡ some key
    → key ≡ decoded f (user_direction direction) ifindex
unfolding decode_key flow_key
decode_key-decoded f Direction.inbound ifindex key p e = ground arith
decode_key-decoded f Direction.outbound ifindex key p e = ground arith

-- Both programs build the same keys.
storage-drop : (addr : List ℕ) (word : ℕ) → addr ≡ ipv4_storage word → storage (drop 12 addr) ≡ addr
unfolding ipv4_storage
storage-drop addr word e = rw e refl

owner_key-socket_key :
    (f : ParsedFlow)
    → IsParsed f
    → (owner_key 6 OwnerKind.socket
          (swap16 f.src_port_be)
          (IpAddr.v4 (drop 12 f.dst_addr))
          (some (swap16 f.dst_port_be))
        ≡ socket_key f true)
      × (owner_key 6 OwnerKind.socket
            (swap16 f.dst_port_be)
            (IpAddr.v4 (drop 12 f.src_addr))
            (some (swap16 f.src_port_be))
          ≡ socket_key f false)
      × (owner_key 6 OwnerKind.listener (swap16 f.src_port_be) (IpAddr.v4 (replicate 4 0)) none
          ≡ listener_key f true)
      × (owner_key 6 OwnerKind.listener (swap16 f.dst_port_be) (IpAddr.v4 (replicate 4 0)) none
          ≡ listener_key f false)
unfolding owner_key socket_key listener_key
owner_key-socket_key f p =
    let src = storage-drop f.src_addr p.src_word p.src_is in
    let dst = storage-drop f.dst_addr p.dst_word p.dst_is in
    let sp = swap16_self f.src_port_be p.src_lt in
    let dp = swap16_self f.dst_port_be p.dst_lt in
    (ground arith, ground arith, ground arith, ground arith)

resolve_at-tcp :
    (t : FlowTracker) (port : ℕ) (remote : IpAddr) (remote_port : Option ℕ) (o : OwnerRecord)
    → let exact =
        get OwnerKey-discrete (owner_key 6 OwnerKind.socket port remote remote_port) t.owners in
      let listening =
        get OwnerKey-discrete
          (owner_key 6 OwnerKind.listener port (IpAddr.v4 (replicate 4 0)) none)
          t.listeners in
      (exact ≡ some o → resolve_at t Protocol.tcp port remote remote_port ≡ some o.application)
      × (exact ≡ none
          → listening ≡ some o
          → resolve_at t Protocol.tcp port remote remote_port ≡ some o.application)
unfolding resolve_at
resolve_at-tcp t port remote remote_port o = (λ e. ground arith, λ e l. ground arith)

-- For a TCP flow the daemon finds the owner that the packet path finds: if the daemon holds the
-- kernel's socket-owner entry of the flow, that is the application it resolves; and if it holds none
-- but holds the listener entry that the packet path falls back to, it resolves that one.
pub resolve_application-joins :
    (t : FlowTracker) (f : ParsedFlow) (direction : Direction) (ifindex : ℕ) (key : FlowKey)
    (o : OwnerRecord)
    → IsParsed f
    → decode_key (flow_key f (direction_code direction) ifindex) ≡ some key
    → let outbound = direction_code direction == direction_code Direction.outbound in
      (get OwnerKey-discrete (socket_key f outbound) t.owners ≡ some o
        → resolve_application t key ≡ some o.application)
      × (get OwnerKey-discrete (socket_key f outbound) t.owners ≡ none
          → get OwnerKey-discrete (listener_key f outbound) t.listeners ≡ some o
          → resolve_application t key ≡ some o.application)
unfolding resolve_application
resolve_application-joins t f Direction.inbound ifindex key o p e =
    let shape = decode_key-decoded f Direction.inbound ifindex key p e in
    let (_, socket, _, listener) = owner_key-socket_key f p in
    let tcp =
      resolve_at-tcp t (swap16 f.dst_port_be) (IpAddr.v4 (drop 12 f.src_addr))
        (some (swap16 f.src_port_be)) o in
    (
      λ owned. ap (resolve_application t) shape ∙ tcp.0 (rw socket owned),
      λ missing listening.
          ap (resolve_application t) shape ∙ tcp.1 (rw socket missing) (rw listener listening),
    )
resolve_application-joins t f Direction.outbound ifindex key o p e =
    let shape = decode_key-decoded f Direction.outbound ifindex key p e in
    let (socket, _, listener, _) = owner_key-socket_key f p in
    let tcp =
      resolve_at-tcp t (swap16 f.src_port_be) (IpAddr.v4 (drop 12 f.dst_addr))
        (some (swap16 f.dst_port_be)) o in
    (
      λ owned. ap (resolve_application t) shape ∙ tcp.0 (rw socket owned),
      λ missing listening.
          ap (resolve_application t) shape ∙ tcp.1 (rw socket missing) (rw listener listening),
    )
