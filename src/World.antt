-- ===== src/World.antt =====
-- broxy-core/src/server.rs with broxy-core/src/service.rs: a whole server at work.
--
-- A world is the server with the connections that it accepted and the requests on them. Its inputs
-- come in any order: the accept loop goes round, a handshake ends, hyper reads a request from a
-- connection, a request makes a step, a connection ends. The requests of a connection that ended
-- make no step unless the inputs say so: hyper drops them at any moment. Inputs may do more than hyper
-- does, which takes the next request of an HTTP/1 connection once the one before is answered.
pub mod Peers
pub mod Refinement
pub mod Origins
pub mod Handshakes
pub mod Moves
pub mod Owners
pub mod Readings
pub mod Answers
use broxy.Prelude.{ℕ, List, [], ◌∷◌, ◌++◌, map, Option, none, some, get_elem?, set}
use broxy.Outcome.{Result, ok, err}
use broxy.Crates.{Crates}
use broxy.Network.{Network, State}
use broxy.Bundle.{ServiceBundle}
use broxy.Future.Calls.{call_future}
use broxy.Server.{Tokio, Server, Accepted, Task, non_tls, tls, accept, log_error}
use broxy.Executor.{System, poll_found, idle}

module _ (c : Crates) where
  open c use {RequestParts, Incoming, Race}

  -- The bundle of a connection waits until the handshake ended.
  pub data Connection : Type 0 where
    handshaking serving : ServiceBundle c → Connection
    closed : Connection

  pub data Input : Type 0 where
    accepts : Input
    shakes : ℕ → Result (Unit {0}) → Input
    requests : ℕ → Race → RequestParts → Incoming → Input
    polls closes : ℕ → Input

  -- The calls of `accept` on the listener, the connections in the order of their acceptance, and
  -- the memory and requests that they share.
  pub record World : Type 0 where
    pub calls : ℕ
    pub connections : List Connection
    pub system : System c

  abbrev pub at_start : State c → World
  at_start s = record { calls = 0; connections = []; system = idle c s }

  -- A handshake that failed ends the task.
  abbrev pub shaken : Result (Unit {0}) → Connection → Connection
  shaken (ok _) (handshaking bundle) = serving bundle
  shaken (err e) (handshaking bundle) = closed
  shaken r conn = conn

  abbrev pub update : (Connection → Connection) → Option Connection → ℕ → World → World
  update f none k w = w
  update f (some conn) k w = record w { connections = set w.connections k (f conn) }

  -- hyper calls the bundle of the connection.
  abbrev pub request_on : Option Connection → Race → RequestParts → Incoming → World → World
  request_on (some (serving bundle)) race header body w = record w {
    system = record w.system {
      futures = w.system.futures ++ call_future c bundle race header body ∷ [];
    };
  }
  request_on conn race header body w = w

module _ (c : Crates) (tokio : Tokio c) (net : Network c) (server : Server c tokio) where
  abbrev pub opened : Task c tokio → Connection c
  opened (non_tls bundle conn) = serving bundle
  opened (tls acceptor bundle conn) = handshaking bundle

  -- What a round of `run_server` spawns are new connections.
  abbrev pub joined : Accepted c tokio → World c → World c
  joined accepted w = record w {
    calls = accepted.calls;
    connections = w.connections ++ map opened accepted.tasks;
  }

  abbrev pub accept_round : World c → World c
  accept_round w =
      let start : Accepted c tokio = record { calls = w.calls; tasks = [] } in
      joined (log_error c tokio (accept c tokio server start)).1 w

  unfoldable pub react : Input c → World c → World c
  react accepts w = accept_round w
  react (shakes k r) w = update c (shaken c r) (get_elem? w.connections k) k w
  react (requests k race header body) w =
      request_on c (get_elem? w.connections k) race header body w
  react (polls i) w = record w {
    system = poll_found c net server.services.services (get_elem? w.system.futures i) i w.system;
  }
  react (closes k) w = update c (λ _. closed) (get_elem? w.connections k) k w

  unfoldable pub run_inputs : List (Input c) → World c → World c
  run_inputs [] w = w
  run_inputs (i ∷ is) w = run_inputs is (react i w)
