-- ===== src/World/Moves.antt =====
-- broxy-core/src/server.rs with broxy-core/src/service.rs: what inputs mean for the requests in flight.
use mathlib.Core.List.{append-nil}
use broxy.Prelude.{
  ℕ, suc, ◌+◌, ◌≡◌, ◌==◌, if◌then◌else◌, refl, sym, ap, ◌∙◌, List, [], ◌∷◌, ◌++◌, Option, none,
  some, arith, All-get, get_elem?,
}
use broxy.Outcome.{ok}
use broxy.LoadBalancer.{SocketAddr}
use broxy.Crates.{Crates}
use broxy.Network.{Network, State}
use broxy.Bundle.{ServiceBundle}
use broxy.Bundle.Runs.{Arrival}
use broxy.Server.{Tokio, Server, new}
use broxy.Future.Calls.{call_future}
use broxy.Executor.{arrivals, System, Move, arrives, idle, step, run_moves}
use broxy.Executor
use broxy.Executor.Liveness.{polls_of}
use broxy.World.{
  Connection, handshaking, serving, closed, Input, accepts, shakes, requests, polls, closes, World,
  update, request_on, react, run_inputs,
}
use broxy.World.Peers.{IsServed}
use broxy.World.Refinement.{arrivals-append, IsAtWork, react-IsAtWork}

module _ (c : Crates) where
  -- How often the inputs let the request with the number `j` make a step.
  abbrev pub steps_of : ℕ → List (Input c) → ℕ
  steps_of j [] = 0
  steps_of j (polls i ∷ is) = if i == j then suc (steps_of j is) else steps_of j is
  steps_of j (accepts ∷ is) = steps_of j is
  steps_of j (shakes _ _ ∷ is) = steps_of j is
  steps_of j (requests _ _ _ _ ∷ is) = steps_of j is
  steps_of j (closes _ ∷ is) = steps_of j is

  steps_of-cons :
      (j : ℕ) (i : Input c) (is : List (Input c))
      → steps_of j (i ∷ is) ≡ steps_of j (i ∷ []) + steps_of j is
  steps_of-cons j (polls i) is = ground arith
  steps_of-cons j accepts is = omega arith
  steps_of-cons j (shakes _ _) is = omega arith
  steps_of-cons j (requests _ _ _ _) is = omega arith
  steps_of-cons j (closes _) is = omega arith

  -- The request that hyper hands to the bundle of a connection.
  abbrev pub asked : Option (Connection c) → c.Race → c.RequestParts → c.Incoming → List (Arrival c)
  asked (some (serving bundle)) race header body =
      record { from = bundle.from; race = race; header = header; body = body } ∷ []
  asked _ race header body = []

  abbrev pub came : Input c → World c → List (Arrival c)
  came (requests k race header body) w = asked (get_elem? w.connections k) race header body
  came _ w = []

  polls_of-append :
      (j : ℕ) (ms ns : List (Move c)) → polls_of c j (ms ++ ns) ≡ polls_of c j ms + polls_of c j ns
  polls_of-append j [] ns = omega arith
  polls_of-append j (arrives a ∷ ms) ns = polls_of-append j ms ns
  polls_of-append j (Executor.polls i ∷ ms) ns = ground (arith, polls_of-append j ms ns)

  update-system :
      (f : Connection c → Connection c) (o : Option (Connection c)) (k : ℕ) (w : World c)
      → (update c f o k w).system ≡ w.system
  update-system f none k w = refl
  update-system f (some conn) k w = refl

module _ (c : Crates) (tokio : Tokio c) (net : Network c) (server : Server c tokio) where
  -- The requests that the server takes, in order.
  abbrev pub taken : List (Input c) → World c → List (Arrival c)
  taken [] w = []
  taken (i ∷ is) w = came c i w ++ taken is (react c tokio net server i w)

module _ (c : Crates) (tokio : Tokio c) (net : Network c) (services : ServiceBundle c)
    (acceptor : Option tokio.TlsAcceptor) (server : Server c tokio) (s : State c)
    (addr : SocketAddr) (made : new c tokio addr services acceptor ≡ ok server) where
  -- The requests move from one world to the next, with as many polls of each as the inputs have.
  abbrev pub Moves : List (Input c) → World c → World c → Type 0
  Moves is w w' =
      (ms : List (Move c)) × (w'.system ≡ run_moves c net server.services.services ms w.system)
      × ((j : ℕ) → polls_of c j ms ≡ steps_of c j is)
      × (arrivals c ms ≡ taken c tokio net server is w)

  request-Moves :
      (k : ℕ) (race : c.Race) (header : c.RequestParts) (body : c.Incoming) (w : World c)
      (o : Option (Connection c))
      → get_elem? w.connections k ≡ o
      → IsAtWork c tokio net services acceptor server s w
      → Moves (requests k race header body ∷ []) w (request_on c o race header body w)
  unfolding run_moves step
  request-Moves k race header body w none e v =
      ([], refl, (λ j. refl), ap (λ o. asked c o race header body ++ []) (sym e))
  request-Moves k race header body w (some closed) e v =
      ([], refl, (λ j. refl), ap (λ o. asked c o race header body ++ []) (sym e))
  request-Moves k race header body w (some (handshaking bundle)) e v =
      ([], refl, (λ j. refl), ap (λ o. asked c o race header body ++ []) (sym e))
  request-Moves k race header body w (some (serving bundle)) e v =
      let (same, peer) =
        All-get (IsServed c tokio server w.calls) w.connections k (serving bundle) e v.are_served in
      (
        arrives (record { from = bundle.from; race = race; header = header; body = body }) ∷ [],
        ap
            (λ ss. record w.system {
              futures =
                  w.system.futures
                  ++ call_future c (record { services = ss; from = bundle.from }) race header body
                    ∷ [];
            })
            same,
        λ j. refl,
        ap (λ o. asked c o race header body ++ []) (sym e),
      )

  react-Moves :
      (i : Input c) (w : World c)
      → IsAtWork c tokio net services acceptor server s w
      → Moves (i ∷ []) w (react c tokio net server i w)
  unfolding react run_moves step
  react-Moves accepts w v = ([], refl, (λ j. refl), refl)
  react-Moves (shakes k r) w v =
      ([], update-system c _ (get_elem? w.connections k) k w, (λ j. refl), refl)
  react-Moves (requests k race header body) w v = request-Moves k race header body w _ refl v
  react-Moves (polls i) w v = (Executor.polls i ∷ [], refl, (λ j. refl), refl)
  react-Moves (closes k) w v =
      ([], update-system c _ (get_elem? w.connections k) k w, (λ j. refl), refl)

  run_moves-append :
      (ms ns : List (Move c)) (sys : System c)
      → run_moves c net server.services.services (ms ++ ns) sys
        ≡ run_moves c net server.services.services ns
            (run_moves c net server.services.services ms sys)
  unfolding run_moves
  run_moves-append [] ns sys = refl
  run_moves-append (m ∷ ms) ns sys = run_moves-append ms ns _

  pub run_inputs-Moves :
      (is : List (Input c)) (w : World c)
      → IsAtWork c tokio net services acceptor server s w
      → Moves is w (run_inputs c tokio net server is w)
  unfolding run_inputs run_moves
  run_inputs-Moves [] w v = ([], refl, (λ j. refl), refl)
  run_inputs-Moves (i ∷ is) w v =
      let (ms, run, same, took) = react-Moves i w v in
      let (ns, run', same', took') =
        run_inputs-Moves is (react c tokio net server i w)
          (react-IsAtWork c tokio net services acceptor server s addr made i w v) in
      (
        ms ++ ns,
        run'
            ∙ ap (run_moves c net server.services.services ns) run
            ∙ sym (run_moves-append ms ns w.system),
        λ j. omega (arith, polls_of-append c j ms ns, same j, same' j, steps_of-cons c j i is),
        arrivals-append c ms ns
            ∙ ap (λ xs. xs ++ arrivals c ns) (took ∙ append-nil (came c i w))
            ∙ ap (λ ys. came c i w ++ ys) took',
      )
