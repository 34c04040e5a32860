-- ===== src/Server/Accepting.antt =====
-- broxy-core/src/server.rs: which tasks the accept loop spawns.
use mathlib.Core.Path.{subst}
use mathlib.Core.List.{append_assoc}
use broxy.Prelude.{
  ℕ, zero, suc, ◌+◌, ◌≡◌, refl, sym, ap, List, [], ◌∷◌, ◌++◌, Option, none, some, arith,
}
use broxy.Outcome.{Result, ok, err, Outcome, returns, fails}
use broxy.LoadBalancer.{SocketAddr}
use broxy.Crates.{Crates}
use broxy.Bundle.{ServiceBundle}
use broxy.Server.{
  Tokio, Server, new, Task, non_tls, tls, Accepted, accept, accept_with, run_server, log_error,
  select_acceptor,
}

module _ (c : Crates) (tokio : Tokio c) (services : ServiceBundle c)
    (acceptor : Option tokio.TlsAcceptor) where
  -- The task for a connection: it answers with the server's services, to this peer.
  abbrev pub task_for : Option tokio.TlsAcceptor → c.TcpStream → SocketAddr → Task c tokio
  task_for none conn address = non_tls (record services { from = address }) conn
  task_for (some a) conn address = tls a (record services { from = address }) conn

  abbrev pub spawned : Result (c.TcpStream × SocketAddr) → List (Task c tokio)
  spawned (ok (conn, address)) = task_for acceptor conn address ∷ []
  spawned (err e) = []

  abbrev pub accept_outcome : Result (c.TcpStream × SocketAddr) → Outcome (Unit {0})
  accept_outcome (ok connection) = returns tt
  accept_outcome (err e) = fails e

  -- The tasks of the next `k` connections, the newest first.
  abbrev pub all_spawned : tokio.TcpListener → ℕ → ℕ → List (Task c tokio)
  all_spawned listener calls zero = []
  all_spawned listener calls (suc k) =
      all_spawned listener (suc calls) k ++ spawned (tokio.accept listener calls)

  abbrev built : tokio.TcpListener → Server c tokio
  built listener = record {
    connection = listener;
    services = services;
    acceptor = acceptor;
    accept_function = select_acceptor c tokio acceptor;
  }

  new-built :
      (addr : SocketAddr) (server : Server c tokio)
      → new c tokio addr services acceptor ≡ ok server
      → server ≡ built server.connection
  unfolding new
  new-built addr server made = ground arith

  abbrev pub accepted : Server c tokio → Accepted c tokio → Outcome (Unit {0}) × Accepted c tokio
  accepted server s = (
    accept_outcome (tokio.accept server.connection s.calls),
    record {
      calls = suc s.calls;
      tasks = spawned (tokio.accept server.connection s.calls) ++ s.tasks;
    },
  )

  accept_with-task_for :
      (listener : tokio.TcpListener) (conn : c.TcpStream) (address : SocketAddr)
      (s : Accepted c tokio)
      → accept_with c tokio
          (select_acceptor c tokio acceptor)
          (built listener)
          (record services { from = address })
          conn
          s
        ≡ (returns tt, record s { tasks = task_for acceptor conn address ∷ s.tasks })
  unfolding accept_with
  accept_with-task_for listener conn address s = ground arith

  built-accept :
      (listener : tokio.TcpListener) (s : Accepted c tokio)
      → accept c tokio (built listener) s ≡ accepted (built listener) s
  unfolding accept
  built-accept listener s = go (tokio.accept listener s.calls) refl
    where
      go :
          (r : Result (c.TcpStream × SocketAddr))
          → tokio.accept listener s.calls ≡ r
          → accept c tokio (built listener) s ≡ accepted (built listener) s
      go (err e) h = rw h
      go (ok (conn, address)) h = rw h (accept_with-task_for listener conn address _)

  pub log-accepted :
      (server : Server c tokio) (s : Accepted c tokio)
      → log_error c tokio (accepted server s) ≡ (returns tt, (accepted server s).1)
  log-accepted server s = ground arith

  module _ (addr : SocketAddr) (server : Server c tokio)
      (made : new c tokio addr services acceptor ≡ ok server) where
    -- A call of `accept` on a server that `new` made returns if there is a connection, and spawns one
    -- task for it, which is behind TLS if and only if the server has an acceptor; it has no
    -- undefined behaviour, and on an error it spawns nothing.
    pub accept-spawns : (s : Accepted c tokio) → accept c tokio server s ≡ accepted server s
    accept-spawns s =
        subst (λ v. accept c tokio v s ≡ accepted v s) (sym (new-built addr server made))
          (built-accept server.connection s)

    -- The accept loop never ends by itself: after any number of rounds, whatever the listener gives,
    -- it has spawned one task per accepted connection, in order, each with the address of its
    -- peer and the services of the server.
    pub run_server-spawns :
        (k : ℕ) (s : Accepted c tokio)
        → run_server c tokio k server s ≡ (
          returns tt,
          record {
            calls = s.calls + k;
            tasks = all_spawned server.connection s.calls k ++ s.tasks;
          },
        )
    unfolding run_server
    run_server-spawns zero s = ap (λ n. (returns tt, record s { calls = n })) (omega arith)
    run_server-spawns (suc k) s =
        rw
          (
            accept-spawns s,
            log-accepted server s,
            run_server-spawns k (accepted server s).1,
            append_assoc (all_spawned server.connection (suc s.calls) k)
                (spawned (tokio.accept server.connection s.calls)) s.tasks,
          )
          (ap
            (λ n. (
              returns tt,
              record {
                calls = n;
                tasks =
                    all_spawned server.connection (suc s.calls) k
                    ++ (spawned (tokio.accept server.connection s.calls) ++ s.tasks);
              },
            ))
            (omega arith))
