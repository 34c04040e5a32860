-- ===== src/World/Answers.antt =====
-- broxy-core/src/server.rs with broxy-core/src/service.rs: how the requests that a server takes end.
use mathlib.Core.Path.{subst}
use broxy.Prelude.{ℕ, ◌≤◌, ◌≡◌, ◌≢◌, refl, sym, ap, ◌∙◌, List, [], Option, some, arith, get_elem?}
use broxy.Outcome.{Outcome, undefined}
use broxy.Outcome.{ok}
use broxy.LoadBalancer.{SocketAddr}
use broxy.Crates.{Crates}
use broxy.Network.{Network, State, Response}
use broxy.Bundle.{ServiceBundle}
use broxy.Bundle.Safety.{IsWellFormed}
use broxy.Server.{Tokio, Server, new}
use broxy.Future.{Future, ready}
use broxy.Executor.{run_moves}
use broxy.Executor.Liveness.{run_moves-answers}
use broxy.World.{Input, at_start, run_inputs}
use broxy.World.Moves.{steps_of, run_inputs-Moves}
use broxy.World.Peers.{same_services}
use broxy.World.Refinement.{run_inputs-IsAtWork}

module _ (c : Crates) (tokio : Tokio c) (net : Network c) (services : ServiceBundle c)
    (acceptor : Option tokio.TlsAcceptor) (server : Server c tokio) (s : State c)
    (addr : SocketAddr) (made : new c tokio addr services acceptor ≡ ok server) where
  -- A server that `new` made brings every request that it takes to an end, if its services were made
  -- by `new` and point to well-formed balancers: if a request was read after some inputs, then after
  -- any further inputs that let it make seven steps, whatever else they have, it has ended with a
  -- response, an error or a panic, and not with undefined behaviour.
  pub run_inputs-ends :
      (is is' : List (Input c)) (j : ℕ) (f : Future c (Response c))
      → IsWellFormed c services.services s.balancers
      → get_elem? (run_inputs c tokio net server is (at_start c s)).system.futures j ≡ some f
      → 7 ≤ steps_of c j is'
      → (o : Outcome (Response c)) × (get_elem?
            (run_inputs c tokio net server is'
              (run_inputs c tokio net server is (at_start c s))).system.futures
            j
          ≡ some (ready o))
        × (o ≢ undefined)
  unfolding run_moves
  run_inputs-ends is is' j f well_formed e enough =
      let w = run_inputs c tokio net server is (at_start c s) in
      let v =
        run_inputs-IsAtWork c tokio net services acceptor server s addr made is (at_start c s)
          (record { moves = []; is_run = refl; from_peers = tt; are_served = tt }) in
      let (ms, run, same, _) =
        run_inputs-Moves c tokio net services acceptor server s addr made is' w v in
      let (o, answered, defined) =
        run_moves-answers c net server.services.services s v.moves ms j f
          (subst (λ b. IsWellFormed c b.services s.balancers)
            (same_services c tokio server net addr services acceptor made) well_formed)
          (ap (λ sys. get_elem? sys.futures j) (sym v.is_run) ∙ e)
          (omega (arith, enough, same j)) in
      (
        o,
        ap (λ sys. get_elem? sys.futures j)
              (run ∙ ap (run_moves c net server.services.services ms) v.is_run)
            ∙ answered,
        defined,
      )
