-- ===== src/Service.antt =====
-- broxy-core/src/service.rs: a service and how it is configured.
--
-- The function pointers `_process` and `_filter` are the names of the functions that they can point
-- to. A `*const LoadBalancer` is the address of a balancer in the shared memory.
pub mod Filtering
pub mod Processing
use broxy.Prelude.{
  ℕ, ◌≡◌, ltb, if◌then◌else◌, Bool, false, not, ◌||◌, List, Option, none, some, length, is_empty,
  is_some, get_elem?, set,
}
use broxy.Outcome.{Outcome, undefined, M}
use broxy.LoadBalancer.{SocketAddr, Upstream, LoadBalancer}
use broxy.LoadBalancer
use broxy.Crates.{Crates, Bytes}
use broxy.Filter.{Filter}
use broxy.BodyFilter.{BodyFilter}
use broxy.Middleware.{Middleware}
use broxy.Network.{Response, State}

pub data ProcessFunction : Type 0 where
  with_body without_body_with_middleware without_body_without_middleware : ProcessFunction

pub data FilterFunction : Type 0 where
  parallel_header sequential_header : FilterFunction

module _ (c : Crates) where
  pub record Service : Type 0 where
    pub filters : List (Filter c)
    pub body_filters : List (BodyFilter c)
    pub middleware : Option (Middleware c)
    pub load_balancer : ℕ
    pub not_found_body_response : Option (SocketAddr → Bytes → Response c)
    pub process : ProcessFunction
    pub filter : FilterFunction

  -- `has_middleware && middleware.as_ref().unwrap().incoming_needs_body`
  abbrev pub middleware_needs_body : Option (Middleware c) → Bool
  middleware_needs_body none = false
  middleware_needs_body (some middleware) = middleware.incoming_needs_body

  unfoldable pub new :
      List (Filter c)
      → List (BodyFilter c)
      → Option (Middleware c)
      → ℕ
      → Option (SocketAddr → Bytes → Response c)
      → Service
  new filters body_filters middleware load_balancer not_found_body_response =
      let has_body_filters = not (is_empty body_filters) in
      let has_middleware = is_some middleware in
      let needs_body = has_body_filters || middleware_needs_body middleware in
      record {
        filters = filters;
        body_filters = body_filters;
        middleware = middleware;
        load_balancer = load_balancer;
        not_found_body_response = not_found_body_response;
        process =
            if has_middleware
            then (if needs_body then with_body else without_body_with_middleware)
            else without_body_without_middleware;
        filter = if ltb 5 (length filters) then parallel_header else sequential_header;
      }

  -- A call on the balancer at an address; there is no promise at an address that holds none.
  abbrev pub call_balancer {ℓ} :
      {A : Type ℓ} → Option LoadBalancer → ℕ → M LoadBalancer A → M (State c) A
  call_balancer none address m s = (undefined, s)
  call_balancer (some lb) address m s =
      let (o, lb') = m lb in (o, record s { balancers = set s.balancers address lb' })

  unfoldable pub get_upstream : Service → M (State c) Upstream
  get_upstream service s =
      call_balancer (get_elem? s.balancers service.load_balancer) service.load_balancer
        LoadBalancer.get_upstream s
