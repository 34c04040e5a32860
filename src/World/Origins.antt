-- ===== src/World/Origins.antt =====
-- broxy-core/src/server.rs with broxy-core/src/service.rs: for whom a server sends requests upstream.
use mathlib.Core.Path.{subst}
use mathlib.Core.List.{Memᴰ}
use broxy.Prelude.{
  suc, get_elem?, some, ◌≢◌, ℕ, refl, inl, inr, ◌≡◌, sym, List, [], ◌∷◌, Option, All, All-get,
}
use broxy.Outcome.{ok}
use broxy.LoadBalancer.{SocketAddr, IpAddr, LoadBalancer}
use broxy.Crates.{Crates}
use broxy.Filter.{black_list}
use broxy.Filter.Laws.{filter-lists_iff}
use broxy.Network.{Network, State, Request}
use broxy.Service.{Service}
use broxy.Service.Filtering.Search.{Passes}
use broxy.Service.Filtering.Headers.{filter_request_by_header-Passes}
use broxy.Bundle.{ServiceBundle}
use broxy.Bundle.Runs.{Arrival, next}
use broxy.Server.{Tokio, Server, new}
use broxy.Executor.{arrivals, run_moves}
use broxy.Executor.Provenance.{Forwards, AllSent, AllSent-mono, IsForwarded, run_moves-forwards}
use broxy.World.{World, Input, at_start, run_inputs}
use broxy.World.Moves.{run_inputs-Moves}
use broxy.World.Peers.{same_services}
use broxy.World.Readings.{IsRead, taken-IsRead}

module _ (c : Crates) where
  -- Some service of the list passes the header by all of its filters.
  abbrev pub SomePasses : SocketAddr → c.RequestParts → List (Service c) → Type 0
  SomePasses from header services =
      (k : ℕ) × (service : Service c) × (get_elem? services k ≡ some service)
      × All (Passes c from header) service.filters

  Forwards-SomePasses :
      (net : Network c) (services : List (Service c)) (a : Arrival c) (request : Request c)
      → Forwards c net services a request
      → SomePasses a.from a.header services
  Forwards-SomePasses net [] a request f = absurd f
  Forwards-SomePasses net (service ∷ services) a request (inl (matched, _, _)) =
      (0, service, refl, filter_request_by_header-Passes c a.race a.from a.header service matched)
  Forwards-SomePasses net (service ∷ services) a request (inr (_, f)) =
      let (k, found, at, passed) = Forwards-SomePasses net services (next c a) request f in
      (suc k, found, at, passed)

  -- The service has a black list on which the address is.
  abbrev pub Bars : IpAddr → Service c → Type 0
  Bars ip service =
      (ips : List IpAddr) × (j : ℕ) × (get_elem? service.filters j ≡ some (black_list ips))
      × Memᴰ ip ips

  Bars-not_passed :
      (from : SocketAddr) (header : c.RequestParts) (services : List (Service c))
      → All (Bars from.ip) services
      → ¬ SomePasses from header services
  Bars-not_passed from header services all_bar (k, service, at, passed) =
      let (ips, j, listed, member) = All-get (Bars from.ip) services k service at all_bar in
      (filter-lists_iff c ips from header).1.0
        (All-get (Passes c from header) service.filters j (black_list ips) listed passed) member

module _ (c : Crates) (tokio : Tokio c) (net : Network c) (server : Server c tokio) where
  -- What is sent is for a request that one of the inputs read from a connection, which one of the first calls
  -- accepted, with the address of the peer of that connection.
  abbrev pub IsFromPeer : List (Input c) → ℕ → Request c → Type 0
  IsFromPeer is calls request =
      (a : Arrival c) × IsRead c tokio server is calls a
      × Forwards c net server.services.services a request

  module _ (addr : SocketAddr) (services : ServiceBundle c) (acceptor : Option tokio.TlsAcceptor)
      (made : new c tokio addr services acceptor ≡ ok server) (balancers : List LoadBalancer)
      (is : List (Input c)) where
    abbrev start : State c
    start = record { balancers = balancers; history = [] }

    abbrev pub at_work : World c
    at_work = run_inputs c tokio net server is (at_start c start)

    -- A server that `new` made, at work on any inputs, sends requests upstream only for requests that
    -- an input read from a connection, each with the address of the peer that the listener gave with
    -- that connection: the first service whose header filters do not refuse the request passes it, its
    -- size hint is at most 64 KiB, and what is sent is its header and body as the middleware of that
    -- service made them. Where the service looks at bodies, that body is one that the network gave
    -- when it was asked for the body of the request, and it passed the body filters.
    pub run_inputs-forwards : AllSent c (IsFromPeer is at_work.calls) at_work.system.state.history
    unfolding run_moves
    run_inputs-forwards =
        let (ms, run, _, took) =
          run_inputs-Moves c tokio net services acceptor server start addr made is
            (at_start c start)
            (record { moves = []; is_run = refl; from_peers = tt; are_served = tt }) in
        let all = server.services.services in
        let read : All (IsRead c tokio server is at_work.calls) (arrivals c ms) =
          subst (All (IsRead c tokio server is at_work.calls)) (sym took) (
            taken-IsRead c tokio net services acceptor server addr made is (at_start c start) tt) in
        AllSent-mono c (IsForwarded c net all ms) (IsFromPeer is at_work.calls)
          at_work.system.state.history
          (λ request f. (
            f.1,
            All-get (IsRead c tokio server is at_work.calls) (arrivals c ms) f.0 f.1 f.2 read,
            f.3,
          ))
          (subst (λ sys. AllSent c (IsForwarded c net all ms) sys.state.history) (sym run)
            (run_moves-forwards c net all balancers ms))

    -- If each service of a server that `new` made has the address `ip` on a black list, then, whatever
    -- the inputs, every request that is sent upstream is sent for one that an input read from a
    -- connection whose peer has another address.
    pub run_inputs-barred :
        (ip : IpAddr)
        → All (Bars c ip) services.services
        → AllSent c
            (λ request. (f : IsFromPeer is at_work.calls request) × (f.0.from.ip ≢ ip))
            at_work.system.state.history
    run_inputs-barred ip all_bar =
        AllSent-mono c (IsFromPeer is at_work.calls) _ at_work.system.state.history
          (λ request f. (
            f,
            λ same.
                Bars-not_passed c f.0.from f.0.header server.services.services
                  (subst (λ i. All (Bars c i) server.services.services) (sym same)
                    (subst (λ b. All (Bars c ip) b.services)
                      (same_services c tokio server net addr services acceptor made) all_bar))
                  (Forwards-SomePasses c net server.services.services f.0 request f.2),
          ))
          run_inputs-forwards
