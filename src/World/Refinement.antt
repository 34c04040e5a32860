-- ===== src/World/Refinement.antt =====
-- broxy-core/src/server.rs with broxy-core/src/service.rs: the requests of a server are requests
-- over its shared services, each from the peer of an accepted connection.
use mathlib.Core.Path.{subst}
use mathlib.Core.List.{append-nil}
use broxy.Prelude.{
  ℕ, suc, ◌≡◌, refl, sym, ap, ◌∙◌, List, [], ◌∷◌, ◌++◌, Option, none, some, arith, All, All-set,
  All-get, All-append_one, All-append, All-map, get_elem?,
}
use broxy.Outcome.{ok}
use broxy.LoadBalancer.{SocketAddr}
use broxy.Crates.{Crates}
use broxy.Network.{Network, State}
use broxy.Bundle.{ServiceBundle}
use broxy.Bundle.Runs.{Arrival}
use broxy.Server.{Tokio, Server, new}
use broxy.Server.Accepting.{spawned}
use broxy.Executor.{System, Move, arrives, arrivals, idle, step, run_moves}
use broxy.Executor
use broxy.Future.Calls.{call_future}
use broxy.World.Peers.{
  IsPeer, IsServed, IsPeer-mono, IsServed-mono, shaken-IsServed, opened-IsServed,
  accept_round-joined,
}
use broxy.World.{
  Connection, handshaking, serving, closed, Input, accepts, shakes, requests, polls, closes, World,
  at_start, shaken, update, request_on, joined, accept_round, react, run_inputs,
}

module _ (c : Crates) where
  pub arrivals-append :
      (ms ns : List (Move c)) → arrivals c (ms ++ ns) ≡ arrivals c ms ++ arrivals c ns
  arrivals-append [] ns = refl
  arrivals-append (arrives a ∷ ms) ns = ap (λ bs. a ∷ bs) (arrivals-append ms ns)
  arrivals-append (Executor.polls i ∷ ms) ns = arrivals-append ms ns

module _ (c : Crates) (tokio : Tokio c) (net : Network c) (services : ServiceBundle c)
    (acceptor : Option tokio.TlsAcceptor) (server : Server c tokio) (s : State c) where
  -- The system is that of a run of requests, all from peers.
  pub record IsAtWork (w : World c) : Type 0 where
    pub moves : List (Move c)
    pub is_run : w.system ≡ run_moves c net server.services.services moves (idle c s)
    pub from_peers : All (λ a. IsPeer c tokio server w.calls a.from) (arrivals c moves)
    pub are_served : All (IsServed c tokio server w.calls) w.connections

  update-IsAtWork :
      (f : Connection c → Connection c) (k : ℕ) (w : World c)
      → ((conn : Connection c)
          → IsServed c tokio server w.calls conn
          → IsServed c tokio server w.calls (f conn))
      → (o : Option (Connection c)) → get_elem? w.connections k ≡ o
      → IsAtWork w
      → IsAtWork (update c f o k w)
  update-IsAtWork f k w keep none e v = v
  update-IsAtWork f k w keep (some conn) e v = record {
    moves = v.moves;
    is_run = v.is_run;
    from_peers = v.from_peers;
    are_served =
        All-set (IsServed c tokio server w.calls) w.connections k (f conn)
          (keep conn
            (All-get (IsServed c tokio server w.calls) w.connections k conn e v.are_served))
          v.are_served;
  }

  -- One more move of the system.
  run_moves-append_one :
      (ms : List (Move c)) (m : Move c) (sys : System c)
      → run_moves c net server.services.services (ms ++ m ∷ []) sys
        ≡ step c net server.services.services m (run_moves c net server.services.services ms sys)
  unfolding run_moves
  run_moves-append_one [] m sys = refl
  run_moves-append_one (m' ∷ ms) m sys = run_moves-append_one ms m _

  moved :
      (w : World c) (v : IsAtWork w) (m : Move c)
      → step c net server.services.services m w.system
        ≡ run_moves c net server.services.services (v.moves ++ m ∷ []) (idle c s)
  moved w v m =
      ap (step c net server.services.services m) v.is_run
      ∙ sym (run_moves-append_one v.moves m (idle c s))

  request-IsAtWork :
      (k : ℕ) (race : c.Race) (header : c.RequestParts) (body : c.Incoming) (w : World c)
      (o : Option (Connection c))
      → get_elem? w.connections k ≡ o
      → IsAtWork w
      → IsAtWork (request_on c o race header body w)
  unfolding step
  request-IsAtWork k race header body w none e v = v
  request-IsAtWork k race header body w (some closed) e v = v
  request-IsAtWork k race header body w (some (handshaking bundle)) e v = v
  request-IsAtWork k race header body w (some (serving bundle)) e v =
      let (same, peer) =
        All-get (IsServed c tokio server w.calls) w.connections k (serving bundle) e v.are_served in
      let a : Arrival c = record {
        from = bundle.from;
        race = race;
        header = header;
        body = body;
      } in
      record {
        moves = v.moves ++ arrives a ∷ [];
        is_run =
            ap
              (λ ss. record w.system {
                futures =
                    w.system.futures
                    ++ call_future c (record { services = ss; from = bundle.from }) race header body
                      ∷ [];
              })
              same
            ∙ moved w v (arrives a);
        from_peers =
            subst (All (λ a. IsPeer c tokio server w.calls a.from))
              (sym (arrivals-append c v.moves (arrives a ∷ [])))
              (All-append_one (λ a. IsPeer c tokio server w.calls a.from) (arrivals c v.moves) a
                v.from_peers peer);
        are_served = v.are_served;
      }

  poll-IsAtWork :
      (i : ℕ) (w : World c) → IsAtWork w → IsAtWork (react c tokio net server (polls i) w)
  unfolding react step
  poll-IsAtWork i w v = record {
    moves = v.moves ++ Executor.polls i ∷ [];
    is_run = moved w v (Executor.polls i);
    from_peers =
        subst (All (λ a. IsPeer c tokio server w.calls a.from))
          (sym
            (arrivals-append c v.moves (Executor.polls i ∷ []) ∙ append-nil (arrivals c v.moves)))
          v.from_peers;
    are_served = v.are_served;
  }

  module _ (addr : SocketAddr) (made : new c tokio addr services acceptor ≡ ok server) where
    joined-IsAtWork :
        (w : World c)
        → IsAtWork w
        → IsAtWork (
            joined c tokio net server
              (record {
                calls = suc w.calls;
                tasks = spawned c tokio services acceptor (tokio.accept server.connection w.calls);
              })
              w)
    joined-IsAtWork w v = record {
      moves = v.moves;
      is_run = v.is_run;
      from_peers =
          All-map (λ a. IsPeer c tokio server w.calls a.from)
            (λ a. IsPeer c tokio server (suc w.calls) a.from) (arrivals c v.moves)
            (λ a. IsPeer-mono c tokio server w.calls (suc w.calls) a.from (omega arith))
            v.from_peers;
      are_served =
          All-append (IsServed c tokio server (suc w.calls)) w.connections _
            (All-map (IsServed c tokio server w.calls) (IsServed c tokio server (suc w.calls))
              w.connections
              (λ conn. IsServed-mono c tokio server w.calls (suc w.calls) conn (omega arith))
              v.are_served)
            (opened-IsServed c tokio server net addr services acceptor made w.calls
              (tokio.accept server.connection w.calls) refl);
    }

    accept-IsAtWork : (w : World c) → IsAtWork w → IsAtWork (accept_round c tokio net server w)
    accept-IsAtWork w v =
        subst IsAtWork (sym (accept_round-joined c tokio server net addr services acceptor made w))
          (joined-IsAtWork w v)

    pub react-IsAtWork :
        (i : Input c) (w : World c) → IsAtWork w → IsAtWork (react c tokio net server i w)
    unfolding react
    react-IsAtWork accepts w v = accept-IsAtWork w v
    react-IsAtWork (shakes k r) w v =
        update-IsAtWork (shaken c r) k w (λ conn. shaken-IsServed c tokio server w.calls r conn) _
          refl v
    react-IsAtWork (requests k race header body) w v =
        request-IsAtWork k race header body w _ refl v
    react-IsAtWork (polls i) w v = poll-IsAtWork i w v
    react-IsAtWork (closes k) w v = update-IsAtWork (λ _. closed) k w (λ conn _. tt) _ refl v

    pub run_inputs-IsAtWork :
        (is : List (Input c)) (w : World c)
        → IsAtWork w
        → IsAtWork (run_inputs c tokio net server is w)
    unfolding run_inputs
    run_inputs-IsAtWork [] w v = v
    run_inputs-IsAtWork (i ∷ is) w v = run_inputs-IsAtWork is _ (react-IsAtWork i w v)

    -- A server that `new` made, at work on any inputs, is a run of requests over its services, and each
    -- of these requests comes from the peer of a connection that the server accepted.
    pub run_inputs-run_moves :
        (is : List (Input c))
        → let w = run_inputs c tokio net server is (at_start c s) in
          (ms : List (Move c)) × (w.system ≡ run_moves c net server.services.services ms (idle c s))
          × All (λ a. IsPeer c tokio server w.calls a.from) (arrivals c ms)
    unfolding run_moves
    run_inputs-run_moves is =
        let v =
          run_inputs-IsAtWork is (at_start c s)
            (record { moves = []; is_run = refl; from_peers = tt; are_served = tt }) in
        (v.moves, v.is_run, v.from_peers)
