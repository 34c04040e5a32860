-- ===== src/Server/Tasks.antt =====
-- broxy-core/src/server.rs: what the tasks of the accept loop do.
use mathlib.Core.Path.{subst}
use broxy.Prelude.{ℕ, zero, suc, ◌≡◌, refl, sym, [], some, All, All-append}
use broxy.Outcome.{Result, ok, err, ◌>>=◌}
use broxy.LoadBalancer.{SocketAddr}
use broxy.Crates.{Crates}
use broxy.Bundle.{ServiceBundle}
use broxy.Server.{Tokio, Http, Server, new, Task, Accepted, run_server, log_error, run_task}
use broxy.Server.Accepting.{spawned, all_spawned, run_server-spawns}

module _ (c : Crates) (tokio : Tokio c) (services : ServiceBundle c) (a : tokio.TlsAcceptor)
    (listener : tokio.TcpListener) {S : Type 0} (http : Http c tokio S) where
  -- The task answers one accepted connection, after a TLS handshake and with the server's services.
  pub record IsBehindTls (t : Task c tokio) : Type 0 where
    pub number : ℕ
    pub conn : c.TcpStream
    pub address : SocketAddr
    pub is_accepted : tokio.accept listener number ≡ ok (conn, address)
    pub after_handshake :
        (s : S)
        → run_task c tokio http t s
          ≡ log_error c tokio (
              (http.tls_accept a conn >>= λ stream.
              http.serve_tls_connection stream (record services { from = address }))
                s)

  spawned-IsBehindTls :
      (number : ℕ) (r : Result (c.TcpStream × SocketAddr))
      → tokio.accept listener number ≡ r
      → All IsBehindTls (spawned c tokio services (some a) r)
  unfolding run_task
  spawned-IsBehindTls number (err e) h = tt
  spawned-IsBehindTls number (ok (conn, address)) h = (
    record {
      number = number;
      conn = conn;
      address = address;
      is_accepted = h;
      after_handshake = λ s. refl;
    },
    tt,
  )

  all_spawned-IsBehindTls :
      (calls k : ℕ) → All IsBehindTls (all_spawned c tokio services (some a) listener calls k)
  all_spawned-IsBehindTls calls zero = tt
  all_spawned-IsBehindTls calls (suc k) =
      All-append _ _ _ (all_spawned-IsBehindTls (suc calls) k)
        (spawned-IsBehindTls calls (tokio.accept listener calls) refl)

-- A server that `new` made with a TLS acceptor serves nothing in clear: after any number of rounds of the loop, each
-- of its tasks answers an accepted connection, and does so only after a handshake with the
-- acceptor, with the services of the server and the address of that peer.
pub run_server-IsBehindTls :
    (c : Crates) (tokio : Tokio c) (services : ServiceBundle c) (a : tokio.TlsAcceptor) {S : Type 0}
    (http : Http c tokio S) (addr : SocketAddr) (server : Server c tokio) (k : ℕ)
    → new c tokio addr services (some a) ≡ ok server
    → All
        (IsBehindTls c tokio services a server.connection http)
        (run_server c tokio k server (record { calls = 0; tasks = [] })).1.tasks
run_server-IsBehindTls c tokio services a http addr server k made =
    let start : Accepted c tokio = record { calls = 0; tasks = [] } in
    subst (λ r. All (IsBehindTls c tokio services a server.connection http) r.1.tasks)
      (sym (run_server-spawns c tokio services (some a) addr server made k start))
      (All-append _ _ [] (all_spawned-IsBehindTls c tokio services a server.connection http 0 k) tt)
