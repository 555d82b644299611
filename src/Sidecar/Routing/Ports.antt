-- ===== src/Sidecar/Routing/Ports.antt =====
-- The ports of the proxy, of the services and of the containers behind them.
use lapdev.Base.{
  ℕ, ◌≡◌, refl, ap, ◌∙◌, true, Option, none, some, List, [], ◌∷◌, arith, if◌then◌else◌, ◌==◌,
  nat_key, IsDistinct, contains, find, option_key,
}
use lapdev.Base.Map
use lapdev.Base.Map.{
  Map, map_some, is_some, get-modify, get-insert, get-remove, get-map_values, contains-keys,
}
use lapdev.Sidecar.Types.{ProxyPortRoute, RoutingTable}
use lapdev.Sidecar.Routing.{
  service_port_for_proxy, target_port_for_service, service_of, by_proxy_port, set_port_routes,
}

-- The last route of a list for a proxy port, or a default.
abbrev pub last_for : ℕ → List ProxyPortRoute → Option ProxyPortRoute → Option ProxyPortRoute
last_for port [] found = found
last_for port (route ∷ routes) found =
    last_for port routes (if route.proxy_port == port then some route else found)

extend-last_for :
    (port : ℕ) (routes : List ProxyPortRoute) (m : Map ℕ ProxyPortRoute)
    → Map.get port (Map.extend (by_proxy_port routes) m) ≡ last_for port routes (Map.get port m)
unfolding Map.extend
extend-last_for port [] m = refl
extend-last_for port (route ∷ routes) m =
    extend-last_for port routes (Map.insert route.proxy_port route m)
    ∙ ap (last_for port routes) (get-insert route.proxy_port port route m)

-- After `set_port_routes` the service port of a proxy port is that of the last route given for it, or the
-- proxy port itself where none was given; earlier routes of the table do not count.
pub service_port_for_proxy-set_port_routes :
    (port : ℕ) (routes : List ProxyPortRoute) (t : RoutingTable)
    → service_port_for_proxy port (set_port_routes routes t)
      ≡ service_of (last_for port routes none) port
unfolding service_port_for_proxy set_port_routes Map.get
service_port_for_proxy-set_port_routes port routes t =
    ap (λ o. service_of o port) (extend-last_for port routes [])

abbrev pub service_ports : List ProxyPortRoute → List ℕ
service_ports [] = []
service_ports (route ∷ routes) = route.service_port ∷ service_ports routes

get-contains :
    (p : ℕ) (route : ProxyPortRoute) (m : Map ℕ ProxyPortRoute)
    → Map.get p m ≡ some route
    → contains route.service_port (service_ports (Map.values m)) ≡ true
unfolding Map.get
get-contains p route [] e = cc
get-contains p route ((j, r) ∷ m) e = ground (arith, get-contains p route m)

find-get :
    (p : ℕ) (route : ProxyPortRoute) (m : Map ℕ ProxyPortRoute)
    → IsDistinct (service_ports (Map.values m))
    → Map.get p m ≡ some route
    → find (λ r. r.service_port == route.service_port) (Map.values m) ≡ some route
unfolding Map.get
find-get p route [] distinct e = cc
find-get p route ((j, r) ∷ m) (fresh, distinct) e =
    ground (arith, find-get p route m distinct, get-contains p route m)

-- Where no two routes share a service port, traffic that comes in at a route's proxy port is sent on
-- to that route's container port.
pub target_port_for_service-service_port_for_proxy :
    (p : ℕ) (route : ProxyPortRoute) (t : RoutingTable)
    → IsDistinct (service_ports (Map.values t.port_routes))
    → Map.get p t.port_routes ≡ some route
    → target_port_for_service (service_port_for_proxy p t) t ≡ route.target_port
unfolding target_port_for_service service_port_for_proxy
target_port_for_service-service_port_for_proxy p route t distinct e =
    rw e (rw (find-get p route t.port_routes distinct e) refl)
