-- ===== src/Bundle/Routing.antt =====
-- broxy-core/src/service.rs: which service a request goes to, and the answers without one.
use broxy.Prelude.{
  ◌*◌, ◌<◌, ◌≤◌, ◌≡◌, refl, ltb, true, false, List, [], ◌∷◌, ◌++◌, some, arith, get_elem?, set,
}
use broxy.Outcome.{Error, fails, returns}
use broxy.LoadBalancer.{SocketAddr, Upstream, LoadBalancer}
use broxy.LoadBalancer.Safety.{IsValid, advance, next_index, get_upstream-returns}
use broxy.Crates.{Crates}
use broxy.Network.{status_response, Network, State}
use broxy.Service.{Service, get_upstream}
use broxy.Service.Filtering.{filter_request_by_header}
use broxy.Service.Processing.{process}
use broxy.Bundle.{max_size, ServiceBundle, serve, each_service, call}

module _ (c : Crates) where
  -- The race of the search after those of as many services.
  abbrev pub race_after : List (Service c) → c.Race → c.Race
  race_after [] race = race
  race_after (service ∷ services) race = race_after services (c.next_race race)

module _ (c : Crates) (from : SocketAddr) (header : c.RequestParts) where
  -- The filters of the services do not match the request.
  abbrev pub AllSkip : List (Service c) → c.Race → Type 0
  AllSkip [] race = Unit
  AllSkip (service ∷ services) race =
      (filter_request_by_header c service race from header ≡ returns false)
      × AllSkip services (c.next_race race)

module _ (c : Crates) (net : Network c) (bundle : ServiceBundle c) (header : c.RequestParts)
    (body : c.Incoming) (s : State c) where
  skip-All :
      (pre post : List (Service c)) (race : c.Race)
      → AllSkip c bundle.from header pre race
      → each_service c net (pre ++ post) race bundle.from header body s
        ≡ each_service c net post (race_after c pre race) bundle.from header body s
  unfolding each_service
  skip-All [] post race h = refl
  skip-All (service ∷ pre) post race (e, h) = rw e (skip-All pre post (c.next_race race) h)

  none_matches :
      (services : List (Service c)) (race : c.Race)
      → AllSkip c bundle.from header services race
      → each_service c net services race bundle.from header body s
        ≡ (returns (status_response c 404), s)
  unfolding each_service
  none_matches [] race h = refl
  none_matches (service ∷ services) race (e, h) = rw e (none_matches services (c.next_race race) h)

  -- If no service matches, the answer is 404 and nothing changes.
  pub call-no_match :
      (race : c.Race)
      → AllSkip c bundle.from header bundle.services race
      → call c net bundle race header body s ≡ (returns (status_response c 404), s)
  unfolding call each_service
  call-no_match race h = none_matches bundle.services race h

  module _ (race : c.Race) (pre post : List (Service c)) (service : Service c)
      (listed : bundle.services ≡ pre ++ service ∷ post)
      (skipped : AllSkip c bundle.from header pre race) where
    -- The first service whose filters match serves the request, whatever stands behind it.
    call-first_match :
        filter_request_by_header c service (race_after c pre race) bundle.from header ≡ returns true
        → call c net bundle race header body s ≡ serve c net service bundle.from header body s
    unfolding call each_service
    call-first_match e = rw (listed, skip-All pre (service ∷ post) race skipped, e)

    -- If a filter fails before any service matched, the answer is 500: the services behind are not
    -- tried, and nothing changes.
    call-filter_error :
        (e : Error)
        → filter_request_by_header c service (race_after c pre race) bundle.from header ≡ fails e
        → call c net bundle race header body s ≡ (returns (status_response c 500), s)
    unfolding call each_service
    call-filter_error e h = rw (listed, skip-All pre (service ∷ post) race skipped, h)

    -- If the body may be longer than 64 KiB, or its length is not known, the answer is 413. No
    -- upstream is chosen, and nothing changes.
    call-too_large :
        filter_request_by_header c service (race_after c pre race) bundle.from header ≡ returns true
        → 1024 * 64 < max_size (c.size_hint_upper body)
        → call c net bundle race header body s ≡ (returns (status_response c 413), s)
    unfolding serve
    call-too_large e large = rw (call-first_match e) (ground arith)

    -- Otherwise the next server of the service's balancer is chosen, that balancer moves on by one,
    -- and the service processes the request with that server.
    pub call-served :
        (lb : LoadBalancer)
        → filter_request_by_header c service (race_after c pre race) bundle.from header
          ≡ returns true
        → max_size (c.size_hint_upper body) ≤ 1024 * 64
        → get_elem? s.balancers service.load_balancer ≡ some lb
        → IsValid lb
        → (u : Upstream) × (get_elem? lb.servers (next_index lb) ≡ some u)
          × (call c net bundle race header body s
              ≡ process c net service u bundle.from header body
                  (record s { balancers = set s.balancers service.load_balancer (advance lb) }))
    unfolding serve get_upstream
    call-served lb e small at v =
        let (u, found, now) = get_upstream-returns lb v in
        let fits : ltb (1024 * 64) (max_size (c.size_hint_upper body)) ≡ false = ground arith in
        (u, found, rw (call-first_match e, fits, at, now))
