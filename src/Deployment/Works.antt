-- ===== src/Deployment/Works.antt =====
-- src/main.rs with broxy-core/src/server.rs: the whole proxy at work.
use mathlib.Core.Path.{subst}
use broxy.Prelude.{
  ℕ, ◌+◌, ◌/◌, ◌≤◌, ◌<◌, ◌≡◌, refl, sym, ap, ◌∙◌, List, [], ◌∷◌, All, none, arith, length,
}
use broxy.Outcome.{ok, returns}
use broxy.LoadBalancer.{usize_mod}
use broxy.Crates.{Crates}
use broxy.Network.{Network}
use broxy.Service.Processing.Effects.{connects, sends}
use broxy.Bundle.{new as new_bundle}
use broxy.Server.{Tokio, Server, new as new_server}
use broxy.Executor.{Move, System, idle}
use broxy.Executor.Counts.{run_moves-length}
use broxy.Executor.Dialing.{dialed}
use broxy.Executor.Provenance.{AllSent}
use broxy.Executor.Safety.{IsDefined, after, run_moves-IsSafe}
use broxy.World.{World, Input, at_start, run_inputs}
use broxy.World.Refinement.{run_inputs-run_moves}
use broxy.Deployment.{Libraries, local, service, start}
use broxy.Deployment.Start.{balancer, started, started-IsWellFormed, server_at, start-returns}
use broxy.Deployment.Guard.{IsHarmless, run_moves-IsHarmless}
use broxy.Deployment.Evenness.{at_port, run_moves-even_five}

module _ (c : Crates) (lib : Libraries c) (tokio : Tokio c) (net : Network c) where
  -- The server of `main` at work.
  abbrev pub works : Server c tokio → List (Input c) → World c
  works server is = run_inputs c tokio net server is (at_start c (started c lib))

  module _ {listener : tokio.TcpListener}
      (bound : tokio.bind (local 8546).address ≡ ok listener) where
    made :
        new_server c tokio (local 8546).address (new_bundle c (service c lib ∷ [])) none
        ≡ ok (server_at c lib tokio listener)
    unfolding new_server
    made = rw (new_server, bound) refl

    -- A run of requests stands behind the work on any inputs.
    works-run_moves :
        (is : List (Input c))
        → (ms : List (Move c)) × ((works (server_at c lib tokio listener) is).system
            ≡ after c net (service c lib ∷ []) (started c lib) ms)
    unfolding new_bundle
    works-run_moves is =
        let (ms, run, peers) =
          run_inputs-run_moves c tokio net (new_bundle c (service c lib ∷ [])) none
            (server_at c lib tokio listener) (started c lib) (local 8546).address made is in
        (ms, run)

    -- What holds of every run of requests holds of the proxy at work.
    works-every :
        (P : System c → Type 0) (is : List (Input c))
        → ((ms : List (Move c)) → P (after c net (service c lib ∷ []) (started c lib) ms))
        → (server : Server c tokio) × (start c lib tokio ≡ returns (balancer c lib, server))
          × P (works server is).system
    works-every P is h =
        let (ms, run) = works-run_moves is in
        (server_at c lib tokio listener, start-returns c lib tokio bound, subst P (sym run) (h ms))

    -- If the address can be bound, `main` makes a balancer and a server; and whatever happens there,
    -- in whatever order (connections that are accepted, handshakes, requests that arrive, steps of
    -- requests, connections that end), and whatever the network answers, each request that is sent
    -- to an upstream is a POST whose whole body is JSON that names a method, and neither
    -- eth_sendTransaction nor eth_sendRawTransaction.
    pub works-IsHarmless :
        (is : List (Input c))
        → (server : Server c tokio) × (start c lib tokio ≡ returns (balancer c lib, server))
          × AllSent c (IsHarmless c lib) (works server is).system.state.history
    works-IsHarmless is =
        works-every (λ sys. AllSent c (IsHarmless c lib) sys.state.history) is
          (run_moves-IsHarmless c lib net)

    -- If the address can be bound, `main` makes a balancer and a server; and whatever happens there,
    -- in whatever order, and whatever the network answers, no request ends in undefined behaviour,
    -- and there are at most as many connections and requests to upstreams as requests that hyper
    -- read.
    pub works-IsSafe :
        (is : List (Input c))
        → (server : Server c tokio) × (start c lib tokio ≡ returns (balancer c lib, server))
          × (let final = (works server is).system in
              All (IsDefined c) final.futures
              × (connects c final.state.history ≤ length final.futures)
              × (sends c final.state.history ≤ length final.futures))
    works-IsSafe is =
        works-every
          (λ sys.
            All (IsDefined c) sys.futures
            × (connects c sys.state.history ≤ length sys.futures)
            × (sends c sys.state.history ≤ length sys.futures))
          is
          (λ ms.
            let (defined, few_connects, few_sends) =
              run_moves-IsSafe c net (service c lib ∷ []) (started c lib) ms
                (started-IsWellFormed c lib) in
            let as_many = run_moves-length c net (service c lib ∷ []) ms (idle c (started c lib)) in
            (defined, omega (arith, few_connects, as_many), omega (arith, few_sends, as_many)))

    -- If the address can be bound, `main` makes a balancer and a server; and whatever happens there,
    -- in whatever order, and whatever the network answers, of the requests that hyper read, at most
    -- 2^64, no more than a fifth, and one, leads to a connection to any one of the five servers.
    pub works-even :
        (is : List (Input c)) (i : ℕ)
        → i < 5
        → length (works (server_at c lib tokio listener) is).system.futures ≤ usize_mod
        → (start c lib tokio ≡ returns (balancer c lib, server_at c lib tokio listener))
          × (dialed
                (at_port (9944 + i))
                (works (server_at c lib tokio listener) is).system.state.history
              ≤ length (works (server_at c lib tokio listener) is).system.futures / 5 + 1)
    works-even is i is_server few =
        let (ms, run) = works-run_moves is in
        let as_many =
          ap (λ sys. length sys.futures) run
          ∙ run_moves-length c net (service c lib ∷ []) ms (idle c (started c lib)) in
        (
          start-returns c lib tokio bound,
          subst (λ sys. dialed (at_port (9944 + i)) sys.state.history ≤ length sys.futures / 5 + 1)
              (sym run)
              (let even =
                  run_moves-even_five c lib net ms i is_server (omega (arith, few, as_many)) in
                let same =
                  run_moves-length c net (service c lib ∷ []) ms (idle c (started c lib)) in
                omega (arith, even, same)),
        )
