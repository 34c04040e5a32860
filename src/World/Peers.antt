-- ===== src/World/Peers.antt =====
-- broxy-core/src/server.rs: the connections of a server, each with the address of its peer.
use mathlib.Core.List.{append-nil}
use broxy.Prelude.{◌∙◌, [], ℕ, suc, ◌≤◌, ◌<◌, ◌≡◌, ap, Option, none, some, arith, All, map}
use broxy.Outcome.{Result, ok, err}
use broxy.LoadBalancer.{SocketAddr}
use broxy.Crates.{Crates}
use broxy.Network.{Network}
use broxy.Bundle.{ServiceBundle}
use broxy.Server.{Tokio, Server, Accepted, new, log_error}
use broxy.Server.Accepting.{accept-spawns, spawned, log-accepted}
use broxy.World.{
  Connection, handshaking, serving, closed, shaken, opened, World, joined, accept_round,
}

module _ (c : Crates) (tokio : Tokio c) (server : Server c tokio) where
  -- The address is that of the peer of a connection that one of the first calls accepted.
  abbrev pub IsPeer : ℕ → SocketAddr → Type 0
  IsPeer calls from =
      (n : ℕ) × (conn : c.TcpStream) × (n < calls)
      × (tokio.accept server.connection n ≡ ok (conn, from))

  abbrev pub IsOurs : ℕ → ServiceBundle c → Type 0
  IsOurs calls bundle = (bundle.services ≡ server.services.services) × IsPeer calls bundle.from

  abbrev pub IsServed : ℕ → Connection c → Type 0
  IsServed calls (handshaking bundle) = IsOurs calls bundle
  IsServed calls (serving bundle) = IsOurs calls bundle
  IsServed calls closed = Unit

  pub IsPeer-mono : (m n : ℕ) (from : SocketAddr) → m ≤ n → IsPeer m from → IsPeer n from
  IsPeer-mono m n from h (k, conn, le, e) = (k, conn, omega arith, e)

  pub IsServed-mono : (m n : ℕ) (conn : Connection c) → m ≤ n → IsServed m conn → IsServed n conn
  IsServed-mono m n (handshaking bundle) h (e, p) = (e, IsPeer-mono m n bundle.from h p)
  IsServed-mono m n (serving bundle) h (e, p) = (e, IsPeer-mono m n bundle.from h p)
  IsServed-mono m n closed h v = tt

  pub shaken-IsServed :
      (n : ℕ) (r : Result (Unit {0})) (conn : Connection c)
      → IsServed n conn
      → IsServed n (shaken c r conn)
  shaken-IsServed n (ok _) (handshaking bundle) v = v
  shaken-IsServed n (err e) (handshaking bundle) v = tt
  shaken-IsServed n (ok _) (serving bundle) v = v
  shaken-IsServed n (err e) (serving bundle) v = v
  shaken-IsServed n (ok _) closed v = v
  shaken-IsServed n (err e) closed v = v

  module _ (net : Network c) (addr : SocketAddr) (services : ServiceBundle c)
      (acceptor : Option tokio.TlsAcceptor)
      (made : new c tokio addr services acceptor ≡ ok server) where
    pub same_services : services ≡ server.services
    unfolding new
    same_services = ground arith

    -- A connection is opened for each task of a round of the accept loop.
    pub opened-IsServed :
        (calls : ℕ) (r : Result (c.TcpStream × SocketAddr))
        → tokio.accept server.connection calls ≡ r
        → All
            (IsServed (suc calls))
            (map (opened c tokio net server) (spawned c tokio services acceptor r))
    opened-IsServed calls (err e) h = tt
    opened-IsServed calls (ok (conn, address)) h =
        go acceptor (ap (λ b. b.services) same_services, (calls, conn, omega arith, h))
      where
        go :
            (a : Option tokio.TlsAcceptor)
            → IsOurs (suc calls) (record services { from = address })
            → All
                (IsServed (suc calls))
                (map (opened c tokio net server) (spawned c tokio services a (ok (conn, address))))
        go none ours = (ours, tt)
        go (some b) ours = (ours, tt)

    -- A round of the accept loop opens a connection for each task.
    pub accept_round-joined :
        (w : World c)
        → accept_round c tokio net server w
          ≡ joined c tokio net server
              (record {
                calls = suc w.calls;
                tasks = spawned c tokio services acceptor (tokio.accept server.connection w.calls);
              })
              w
    accept_round-joined w =
        let start : Accepted c tokio = record { calls = w.calls; tasks = [] } in
        let gives = tokio.accept server.connection w.calls in
        ap (λ joining. joined c tokio net server joining w)
          (ap (λ r. (log_error c tokio r).1)
              (accept-spawns c tokio services acceptor addr server made start)
            ∙ ap (λ r. r.1) (log-accepted c tokio services acceptor server start)
            ∙ ap (λ ts. record start { calls = suc w.calls; tasks = ts })
                (append-nil (spawned c tokio services acceptor gives)))
