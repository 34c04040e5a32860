-- ===== src/Deployment/Traffic.antt =====
-- src/main.rs: the running proxy under any traffic.
use broxy.Prelude.{◌≤◌, ◌≡◌, refl, List, [], ◌∷◌, All, arith, length}
use broxy.Outcome.{ok, returns}
use broxy.Crates.{Crates}
use broxy.Network.{Network}
use broxy.Service.Processing.Effects.{connects, sends}
use broxy.Bundle.{new as new_bundle}
use broxy.Server.{Tokio, Server}
use broxy.Executor.{Move, arrivals}
use broxy.Executor.Invariant.{IsBalanced}
use broxy.Executor.Safety.{IsDefined, after, after-IsRunning, run_moves-IsSafe}
use broxy.Deployment.{Libraries, local, service, start}
use broxy.Deployment.Start.{
  balancer, balancer-IsValid, started, started-IsWellFormed, server_at, start-returns,
}

module _ (c : Crates) (lib : Libraries c) where
  -- If the address can be bound, `main` makes a balancer over its five servers and a server; and
  -- however requests arrive there and are interleaved, and whatever the network answers, none ends
  -- in undefined behaviour, there are at most as many connections and requests to upstreams as
  -- requests that arrived, and the balancer has moved on by the number of those that were for it
  -- less those that are still to select.
  start-run_moves :
      (tokio : Tokio c) (net : Network c) (ms : List (Move c)) {listener : tokio.TcpListener}
      → tokio.bind (local 8546).address ≡ ok listener
      → (server : Server c tokio) × (start c lib tokio ≡ returns (balancer c lib, server))
        × (let final = after c net server.services.services (started c lib) ms in
            All (IsDefined c) final.futures
            × IsBalanced c server.services.services final (arrivals c ms) 0 (balancer c lib)
            × (connects c final.state.history ≤ length (arrivals c ms))
            × (sends c final.state.history ≤ length (arrivals c ms)))
  unfolding new_bundle
  start-run_moves tokio net ms {listener} bound =
      let services = service c lib ∷ [] in
      let well_formed = started-IsWellFormed c lib in
      let running = after-IsRunning c net services (started c lib) ms well_formed in
      let (defined, few_connects, few_sends) =
        run_moves-IsSafe c net services (started c lib) ms well_formed in
      (
        server_at c lib tokio listener,
        start-returns c lib tokio bound,
        (
          defined,
          running.is_balanced 0 (balancer c lib) (balancer-IsValid c lib) refl,
          omega (arith, few_connects),
          omega (arith, few_sends),
        ),
      )
