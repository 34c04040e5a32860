-- ===== src/Server.antt =====
-- broxy-core/src/server.rs: `Server`, and the accept loop of src/main.rs.
--
-- Listeners, TLS and the HTTP protocol are tokio's, tokio-rustls's and hyper's, given as parameters. A
-- spawned task is kept with what it was given; `run_task` is what it does when it runs.
pub mod Accepting
pub mod Tasks
use broxy.Prelude.{
  ℕ, zero, suc, ◌+◌, List, [], ◌∷◌, Bool, is_some, if◌then◌else◌, Option, none, some,
}
use broxy.Outcome.{
  Result, ok, err, of_result, Outcome, returns, fails, panics, undefined, or_undefined, M, ◌>>=◌,
  ◌>>◌, pure, lift,
}
use broxy.LoadBalancer.{SocketAddr}
use broxy.Crates.{Crates}
use broxy.Bundle.{ServiceBundle}

module _ (c : Crates) where
  open c use {TcpStream}

  -- tokio's listeners: what `bind` gives, and what the call of `accept` with a number gives.
  pub record Tokio : Type 1 where
    pub TcpListener : Type 0
    pub TlsAcceptor : Type 0
    pub bind : SocketAddr → Result TcpListener
    pub accept : TcpListener → ℕ → Result (TcpStream × SocketAddr)

  -- What a spawned task does on a connection, over a state of its own.
  pub record Http (tokio : Tokio) (S : Type 0) : Type 1 where
    pub TlsStream : Type 0
    pub tls_accept : tokio.TlsAcceptor → TcpStream → M S TlsStream
    pub serve_connection : TcpStream → ServiceBundle c → M S (Unit {0})
    pub serve_tls_connection : TlsStream → ServiceBundle c → M S (Unit {0})

-- The two values of `_accept`, by the names of the functions.
pub data AcceptFunction : Type 0 where
  tls_acceptor non_tls_acceptor : AcceptFunction

module _ (c : Crates) (tokio : Tokio c) where
  open c use {TcpStream}
  open tokio use {TcpListener, TlsAcceptor}

  pub record Server : Type 0 where
    pub connection : TcpListener
    pub services : ServiceBundle c
    pub acceptor : Option TlsAcceptor
    pub accept_function : AcceptFunction

  abbrev pub select_acceptor : Option TlsAcceptor → AcceptFunction
  select_acceptor acceptor = if is_some acceptor then tls_acceptor else non_tls_acceptor

  abbrev with_listener : Result TcpListener → ServiceBundle c → Option TlsAcceptor → Result Server
  with_listener (err e) services acceptor = err e
  with_listener (ok listener) services acceptor = ok (record {
    connection = listener;
    services = services;
    acceptor = acceptor;
    accept_function = select_acceptor acceptor;
  })

  unfoldable pub new : SocketAddr → ServiceBundle c → Option TlsAcceptor → Result Server
  new addr services acceptor = with_listener (tokio.bind addr) services acceptor

  pub data Task : Type 0 where
    non_tls : ServiceBundle c → TcpStream → Task
    tls : TlsAcceptor → ServiceBundle c → TcpStream → Task

  -- How often `accept` was called on the listener, and the tasks, the newest first.
  pub record Accepted : Type 0 where
    pub calls : ℕ
    pub tasks : List Task

  abbrev pub spawn : Task → M Accepted (Unit {0})
  spawn task s = (returns tt, record s { tasks = task ∷ s.tasks })

  abbrev pub accept_connection : TcpListener → M Accepted (TcpStream × SocketAddr)
  accept_connection listener s =
      (of_result (tokio.accept listener s.calls), record s { calls = suc s.calls })

  -- The call of `_accept`; the TLS acceptor is unwrapped without a check.
  unfoldable pub accept_with :
      AcceptFunction → Server → ServiceBundle c → TcpStream → M Accepted (Unit {0})
  accept_with non_tls_acceptor server bundle conn = spawn (non_tls bundle conn)
  accept_with tls_acceptor server bundle conn = do
    acceptor ← lift (or_undefined server.acceptor)
    spawn (tls acceptor bundle conn)

  unfoldable pub accept : Server → M Accepted (Unit {0})
  accept server = do
    (conn, address) ← accept_connection server.connection
    accept_with server.accept_function server (record server.services { from = address }) conn

  -- An error of a round is logged.
  abbrev pub log_error : {S : Type 0} → Outcome (Unit {0}) × S → Outcome (Unit {0}) × S
  log_error (fails e, s) = (returns tt, s)
  log_error (o, s) = (o, s)

  -- The first rounds of the endless loop of `run_server`.
  unfoldable pub run_server : ℕ → Server → M Accepted (Unit {0})
  run_server zero server = pure tt
  run_server (suc k) server = (λ s. log_error (accept server s)) >> run_server k server

  module _ {S : Type 0} (http : Http c tokio S) where
    -- A failed handshake, or a failure while serving, is logged, and ends the task.
    unfoldable pub run_task : Task → M S (Unit {0})
    run_task (non_tls bundle conn) s = log_error (http.serve_connection conn bundle s)
    run_task (tls acceptor bundle conn) s =
        log_error
          ((do stream ← http.tls_accept acceptor conn; http.serve_tls_connection stream bundle) s)
