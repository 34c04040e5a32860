-- ===== src/Deployment/Start.antt =====
-- src/main.rs: what the proxy that `main` starts does with requests.
use broxy.Prelude.{◌≤◌, ◌≡◌, refl, List, [], ◌∷◌, none, some, arith, length, get_elem?}
use broxy.Outcome.{ok, returns}
use broxy.LoadBalancer.{LoadBalancer, new as new_balancer}
use broxy.LoadBalancer.Safety.{IsValid}
use broxy.LoadBalancer.Rounds.{advance_by}
use broxy.LoadBalancer.Queue.{queue}
use broxy.Crates.{Crates}
use broxy.Network.{Network, State}
use broxy.Service.Processing.Effects.{sends}
use broxy.Filter.{method}
use broxy.BodyFilter.{internal_full_body}
use broxy.Service.{new}
use broxy.Bundle.{new as new_bundle}
use broxy.Bundle.Balancing.{selections}
use broxy.Bundle.Safety.{IsWellFormed}
use broxy.Bundle.Runs.{Arrival, targets, run, run-round_robin}
use broxy.Server.{Tokio, Server, non_tls_acceptor, new as new_server}
use broxy.Deployment.{Libraries, local, servers, rpc_filter, middleware, service, start}

module _ (c : Crates) (lib : Libraries c) where
  abbrev pub balancer : LoadBalancer
  balancer = record { servers = servers; current_index = 0 }

  pub balancer-IsValid : IsValid balancer
  balancer-IsValid = record { has_server = omega arith; is_word = omega arith }

  -- The memory once the proxy has started.
  abbrev pub started : State c
  started = record { balancers = balancer ∷ []; history = [] }

  pub started-IsWellFormed : IsWellFormed c (service c lib ∷ []) started.balancers
  unfolding service new
  started-IsWellFormed = (
    (
      (
        method lib.post ∷ [],
        internal_full_body (rpc_filter c lib) ∷ [],
        some (middleware c lib),
        0,
        none,
        refl,
      ),
      (balancer, refl, balancer-IsValid),
    ),
    tt,
  )

  abbrev pub server_at : (tokio : Tokio c) → tokio.TcpListener → Server c tokio
  server_at tokio listener = record {
    connection = listener;
    services = new_bundle c (service c lib ∷ []);
    acceptor = none;
    accept_function = non_tls_acceptor;
  }

  pub start-returns :
      (tokio : Tokio c) {listener : tokio.TcpListener}
      → tokio.bind (local 8546).address ≡ ok listener
      → start c lib tokio ≡ returns (balancer, server_at tokio listener)
  unfolding start new_balancer new_server
  start-returns tokio bound = rw (start, bound) refl

  -- If the address can be bound, `main` makes a balancer over its five servers and a server without
  -- TLS; and whatever requests arrive there one after the other, and whatever the network
  -- answers, no more are sent upstream than arrived, and the balancer has moved on by the
  -- number of those that were for it.
  start-run :
      (tokio : Tokio c) (net : Network c) (arrivals : List (Arrival c))
      {listener : tokio.TcpListener}
      → tokio.bind (local 8546).address ≡ ok listener
      → (server : Server c tokio) × (start c lib tokio ≡ returns (balancer, server))
        × (queue balancer ≡ servers)
        × (server.acceptor ≡ none)
        × (get_elem? (run c net server.services.services arrivals started).balancers 0
            ≡ some
                (advance_by (selections 0 (targets c server.services.services arrivals)) balancer))
        × (sends c (run c net server.services.services arrivals started).history ≤ length arrivals)
  unfolding new_bundle
  start-run tokio net arrivals {listener} bound =
      let (same, few) =
        run-round_robin c net (service c lib ∷ []) arrivals started 0 balancer started-IsWellFormed
          refl balancer-IsValid in
      (server_at tokio listener, start-returns tokio bound, refl, refl, same, omega (arith, few))
