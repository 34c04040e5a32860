-- ===== src/Deployment/Evenness.antt =====
-- src/main.rs: how the running proxy spreads its connections over the five servers.
use broxy.Prelude.{
  ℕ, zero, suc, ◌+◌, ◌/◌, ◌≤◌, ◌<◌, ◌≡◌, ◌==◌, if◌then◌else◌, List, [], ◌∷◌, arith, length,
  get_elem?,
}
use broxy.Outcome.{ok, returns}
use broxy.LoadBalancer.{SocketAddr, usize_mod}
use broxy.LoadBalancer.Dues.{weight_of}
use broxy.Crates.{Crates}
use broxy.Network.{Network}
use broxy.Bundle.{new as new_bundle}
use broxy.Server.{Tokio, Server}
use broxy.Executor.{Move, arrivals}
use broxy.Executor.Dialing.{dialed}
use broxy.Executor.Evenness.{run_moves-even}
use broxy.Executor.Safety.{after}
use broxy.Deployment.{Libraries, local, servers, service, start}
use broxy.Deployment.Start.{
  balancer, balancer-IsValid, started, started-IsWellFormed, server_at, start-returns,
}

-- The weight that counts connections to a port.
abbrev pub at_port : ℕ → SocketAddr → ℕ
at_port p a = if a.port == p then 1 else 0

at_port-servers :
    (i j : ℕ)
    → i < 5
    → j < 5
    → weight_of (at_port (9944 + i)) (get_elem? servers j) ≡ (if j == i then 1 else 0)
at_port-servers i zero hi hj = ground arith
at_port-servers i (suc zero) hi hj = ground arith
at_port-servers i (suc (suc zero)) hi hj = ground arith
at_port-servers i (suc (suc (suc zero))) hi hj = ground arith
at_port-servers i (suc (suc (suc (suc zero)))) hi hj = ground arith
at_port-servers i (suc (suc (suc (suc (suc j))))) hi hj = absurd (omega arith)

module _ (c : Crates) (lib : Libraries c) where
  -- Of at most 2^64 requests, no more than a fifth, and one, leads to a connection to a server.
  pub run_moves-even_five :
      (net : Network c) (ms : List (Move c)) (i : ℕ)
      → i < 5
      → length (arrivals c ms) ≤ usize_mod
      → dialed
          (at_port (9944 + i))
          (after c net (service c lib ∷ []) (started c lib) ms).state.history
        ≤ length (arrivals c ms) / 5 + 1
  run_moves-even_five net ms i is_server few = omega (
    arith,
    run_moves-even c net (service c lib ∷ []) (at_port (9944 + i)) i (balancer c lib) [] ms
        (started-IsWellFormed c lib) (balancer-IsValid c lib) (omega (arith, few)) is_server
        (λ j hj. at_port-servers i j is_server hj),
  )

  -- If the address can be bound, `main` makes a balancer and a server; and however at most 2^64 requests
  -- arrive there and are interleaved, and whatever the network answers, no more than a fifth of
  -- them, and one, leads to a connection to any one of the five servers.
  start-even :
      (tokio : Tokio c) (net : Network c) (ms : List (Move c)) (i : ℕ)
      {listener : tokio.TcpListener}
      → tokio.bind (local 8546).address ≡ ok listener
      → i < 5
      → length (arrivals c ms) ≤ usize_mod
      → (server : Server c tokio) × (start c lib tokio ≡ returns (balancer c lib, server))
        × (dialed
              (at_port (9944 + i))
              (after c net server.services.services (started c lib) ms).state.history
            ≤ length (arrivals c ms) / 5 + 1)
  unfolding new_bundle
  start-even tokio net ms i {listener} bound is_server few = (
    server_at c lib tokio listener,
    start-returns c lib tokio bound,
    run_moves-even_five net ms i is_server few,
  )
