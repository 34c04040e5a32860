-- ===== src/Filter.antt =====
-- broxy-core/src/filter.rs: the filters on a request's header.
--
-- A `HashSet<IpAddr>` is the list of its members. A custom function is any function of the peer and
-- the header, which may panic; it keeps no state of its own.
pub mod Laws
use broxy.Prelude.{
  ℕ, ◌==◌, if◌then◌else◌, Bool, true, false, List, [], ◌∷◌, Option, none, some, is_none, is_some,
}
use broxy.Outcome.{Called, of_called, of_result, Outcome, returns, map_ok, ok_or, host_empty}
use broxy.LoadBalancer.{IpAddr, v4, v6, SocketAddr}
use broxy.Crates.{Crates}

abbrev pub ip_eq : IpAddr → IpAddr → Bool
ip_eq (v4 a) (v4 b) = a == b
ip_eq (v6 a) (v6 b) = a == b
ip_eq _ _ = false

-- `HashSet::get`
unfoldable pub get : List IpAddr → IpAddr → Option IpAddr
get [] ip = none
get (x ∷ xs) ip = if ip_eq x ip then some x else get xs ip

module _ (c : Crates) where
  open c use {Method, method_eq, RequestParts, method_of, host_of, path_of, Regex, is_match}

  pub data Filter : Type 0 where
    method : Method → Filter
    host path : Regex → Filter
    black_list white_list : List IpAddr → Filter
    custom_function : (SocketAddr → RequestParts → Called Bool) → Filter

  unfoldable pub filter : Filter → SocketAddr → RequestParts → Outcome Bool
  filter (method m) from header = returns (method_eq (method_of header) m)
  filter (host host_regex) from header =
      of_result (map_ok (is_match host_regex) (ok_or (host_of header) host_empty))
  filter (path path_regex) from header = returns (is_match path_regex (path_of header))
  filter (black_list ip_addrs) from header = returns (is_none (get ip_addrs from.ip))
  filter (white_list ip_addrs) from header = returns (is_some (get ip_addrs from.ip))
  filter (custom_function function) from header = of_called (function from header)
