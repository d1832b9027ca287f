-- ===== src/Interfaces.antt =====
-- Network interfaces: the pure part of zimascoped/src/collector/interfaces.rs, which judges facts read
-- from the system. A name is the list of its bytes.
pub mod Sorting
pub mod Best
pub mod Boundary
pub mod Distinct
use zima_scope.Base.{
  ℕ, Bool, true, false, not, ◌||◌, Option, some, none, List, [], ◌∷◌, ◌==◌, leb, if◌then◌else◌,
}
use zima_scope.Fingerprints.Match.{starts_with, same_bytes, contains}

pub data InterfaceKind : Type 0 where
  loopback physical bridge docker_bridge bond vlan tun_tap wireguard veth virtual other :
      InterfaceKind

abbrev pub is_physical : InterfaceKind → Bool
is_physical physical = true
is_physical _ = false

abbrev pub is_virtual : InterfaceKind → Bool
is_virtual kind = not (is_physical kind)

abbrev pub is_loopback : InterfaceKind → Bool
is_loopback loopback = true
is_loopback _ = false

pub record InterfaceFacts : Type 0 where
  pub ifindex : ℕ
  pub arphrd_type : Option ℕ
  pub has_bridge : Bool
  pub has_bonding : Bool
  pub has_tun_flags : Bool
  pub has_wireguard : Bool
  pub has_device : Bool
  pub has_lower : Bool
  pub iflink : Option ℕ

abbrev pub arphrd_loopback : ℕ
arphrd_loopback = 772

abbrev pub is_container_bridge : List ℕ → Bool
is_container_bridge name =
    same_bytes name (b'd' ∷ b'o' ∷ b'c' ∷ b'k' ∷ b'e' ∷ b'r' ∷ b'0' ∷ [])
    || starts_with name (b'b' ∷ b'r' ∷ b'-' ∷ [])

abbrev pub is_number : Option ℕ → ℕ → Bool
is_number none wanted = false
is_number (some value) wanted = value == wanted

abbrev pub is_other_number : Option ℕ → ℕ → Bool
is_other_number none own = false
is_other_number (some peer) own = not (peer == own)

unfoldable pub classify : List ℕ → InterfaceFacts → InterfaceKind
classify name facts =
    if same_bytes name (b'l' ∷ b'o' ∷ []) || is_number facts.arphrd_type arphrd_loopback
    then loopback
    else if facts.has_bridge
    then (if is_container_bridge name then docker_bridge else bridge)
    else if facts.has_bonding
    then bond
    else if facts.has_wireguard
    then wireguard
    else if facts.has_tun_flags
    then tun_tap
    else if facts.has_lower
    then (if contains name b'.' then vlan else virtual)
    else if facts.has_device
    then physical
    else if is_other_number facts.iflink facts.ifindex
    then veth
    else other

pub record DefaultRoute : Type 0 where
  pub name : List ℕ
  pub metric : ℕ

-- `sort_by_key`, which keeps the order of equal keys.
unfoldable pub insert_route : DefaultRoute → List DefaultRoute → List DefaultRoute
insert_route route [] = route ∷ []
insert_route route (next ∷ routes) =
    let rest = insert_route route routes in
    if leb route.metric next.metric then route ∷ next ∷ routes else next ∷ rest

unfoldable pub sort_by_metric : List DefaultRoute → List DefaultRoute
sort_by_metric [] = []
sort_by_metric (route ∷ routes) = insert_route route (sort_by_metric routes)

abbrev pub first : List DefaultRoute → Option DefaultRoute
first [] = none
first (route ∷ routes) = some route

module _ (kind_of : List ℕ → InterfaceKind) where
  unfoldable pub candidates : List DefaultRoute → List DefaultRoute
  candidates [] = []
  candidates (route ∷ routes) =
      let rest = candidates routes in
      if not (is_loopback (kind_of route.name)) then route ∷ rest else rest

  unfoldable pub find_uplink : List DefaultRoute → Option DefaultRoute
  find_uplink [] = none
  find_uplink (route ∷ routes) =
      let rest = find_uplink routes in
      if not (is_virtual (kind_of route.name)) then some route else rest

  unfoldable pub select_default_route : List DefaultRoute → Option DefaultRoute
  select_default_route routes =
      let sorted = sort_by_metric (candidates routes) in
      elim (find_uplink sorted) [ none ↦ first sorted | some route ↦ some route ]
