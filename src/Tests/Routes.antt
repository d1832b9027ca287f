-- ===== src/Tests/Routes.antt =====
-- Default routes through a tunnel, an uplink and a loopback interface.
use zima_scope.Base.{ℕ, ◌≡◌, refl, true, false, some, none, List, [], ◌∷◌, ◌==◌, if◌then◌else◌}
use zima_scope.Fingerprints.Match.{starts_with, same_bytes, contains}
use zima_scope.Interfaces.{
  InterfaceKind, InterfaceFacts, loopback, physical, tun_tap, docker_bridge, classify, DefaultRoute,
  insert_route, sort_by_metric, candidates, find_uplink, select_default_route,
}
use zima_scope.Interfaces.Boundary.{
  InterfaceSelector, default_route, name, index, SystemView, no_name, no_index, resolved, push_name,
  push_lookup, resolve_all, is_known, find_duplicate, or_duplicate, resolve_selectors,
}
use zima_scope.Interfaces.Best.{Selected, select_default_route-Selected}

judged : Unit {0}
unfolding starts_with same_bytes contains classify insert_route sort_by_metric candidates
    find_uplink select_default_route
judged = tt

-- `docker0`, with a bridge directory.
abbrev docker0 : InterfaceFacts
docker0 = record {
  ifindex = 4;
  arphrd_type = some 1;
  has_bridge = true;
  has_bonding = false;
  has_tun_flags = false;
  has_wireguard = false;
  has_device = false;
  has_lower = true;
  iflink = some 4;
}

docker0_kind :
    classify (b'd' ∷ b'o' ∷ b'c' ∷ b'k' ∷ b'e' ∷ b'r' ∷ b'0' ∷ []) docker0 ≡ docker_bridge
unfolding judged
docker0_kind = refl

abbrev kinds : List ℕ → InterfaceKind
kinds [] = tun_tap
kinds (c ∷ rest) = if c == b'e' then physical else if c == b'l' then loopback else tun_tap

abbrev route : ℕ → ℕ → DefaultRoute
route letter metric = record { name = letter ∷ []; metric = metric }

abbrev routes : List DefaultRoute
routes = route b'l' 0 ∷ route b't' 50 ∷ route b'e' 200 ∷ route b'e' 100 ∷ []

uplink_taken : select_default_route kinds routes ≡ some (route b'e' 100)
unfolding judged
uplink_taken = refl

select_default_route-Selected_example : Selected kinds routes (select_default_route kinds routes)
select_default_route-Selected_example = select_default_route-Selected kinds routes

-- A system with one interface, `e`, which carries the default route.
abbrev system : SystemView
system = record {
  default_route_for = some (b'e' ∷ []);
  name_for_index = λ ifindex. if ifindex == 2 then some (b'e' ∷ []) else none;
  ifindex_for_name = λ text. elim text [ [] ↦ none | c ∷ _ ↦ if c == b'e' then some 2 else none ];
}

abbrev selectors : List InterfaceSelector
selectors = default_route ∷ name (b't' ∷ []) ∷ index 7 ∷ []

selectors_resolved :
    resolve_selectors system selectors
    ≡ resolved (record {
      interfaces = (2, b'e' ∷ []) ∷ [];
      pending = no_name (b't' ∷ []) ∷ no_index 7 ∷ [];
    })
unfolding judged push_name push_lookup resolve_all is_known find_duplicate or_duplicate
    resolve_selectors
selectors_resolved = refl
