-- ===== src/World/Readings.antt =====
-- broxy-core/src/server.rs with broxy-core/src/service.rs: the requests that a server takes, by the
-- connections that they are read from and the peers of these.
use mathlib.Core.Path.{subst}
use broxy.Prelude.{
  ℕ, zero, suc, ◌+◌, ◌≡◌, refl, sym, List, [], ◌∷◌, ◌++◌, Option, none, some, arith, All,
  All-append, All-map, get_elem?, map,
}
use broxy.Outcome.{Result, ok, err}
use broxy.LoadBalancer.{SocketAddr}
use broxy.Crates.{Crates}
use broxy.Network.{Network}
use broxy.Bundle.{ServiceBundle}
use broxy.Bundle.Runs.{Arrival}
use broxy.Server.{Tokio, Server, new}
use broxy.Server.Accepting.{spawned}
use broxy.World.{
  Connection, handshaking, serving, closed, Input, accepts, shakes, requests, polls, closes, World,
  shaken, opened, update, request_on, react, run_inputs,
}
use broxy.World.Owners.{IsOf, AllOf, AllOf-append, AllOf-set, AllOf-get, shaken-IsOf}
use broxy.World.Peers.{accept_round-joined}
use broxy.World.Moves.{asked, came, taken}

-- The address of the peer, if the call of `accept` gave a connection.
abbrev peer_of {ℓ} : {A : Type ℓ} → Result (A × SocketAddr) → List SocketAddr
peer_of (ok (_, address)) = address ∷ []
peer_of (err e) = []

get_elem?-append {ℓ} :
    {A : Type ℓ} (xs ys : List A) (k : ℕ) (a : A)
    → get_elem? xs k ≡ some a
    → get_elem? (xs ++ ys) k ≡ some a
get_elem?-append [] ys k a e = cc e
get_elem?-append (x ∷ xs) ys zero a e = e
get_elem?-append (x ∷ xs) ys (suc k) a e = get_elem?-append xs ys k a e

module _ (c : Crates) (tokio : Tokio c) (server : Server c tokio) where
  -- The peers of the connections that the first calls of `accept` gave, in order.
  abbrev pub peers : ℕ → List SocketAddr
  peers zero = []
  peers (suc n) = peers n ++ peer_of (tokio.accept server.connection n)

  -- The request was read from a connection by one of the inputs, and comes from its peer.
  abbrev pub IsRead : List (Input c) → ℕ → Arrival c → Type 0
  IsRead is calls a =
      (i k : ℕ) × (get_elem? is i ≡ some (requests k a.race a.header a.body))
      × (get_elem? (peers calls) k ≡ some a.from)

  peers_mono :
      (d n m k : ℕ) (from : SocketAddr)
      → m ≡ d + n
      → get_elem? (peers n) k ≡ some from
      → get_elem? (peers m) k ≡ some from
  peers_mono zero n m k from same e =
      let equal : n ≡ m = omega (arith, same) in
      subst (λ i. get_elem? (peers i) k ≡ some from) equal e
  peers_mono (suc d) n zero k from same e = absurd (omega (arith, same))
  peers_mono (suc d) n (suc m) k from same e =
      get_elem?-append (peers m) _ k from (peers_mono d n m k from (omega (arith, same)) e)

module _ (c : Crates) (tokio : Tokio c) (net : Network c) (services : ServiceBundle c)
    (acceptor : Option tokio.TlsAcceptor) (server : Server c tokio) (addr : SocketAddr)
    (made : new c tokio addr services acceptor ≡ ok server) where
  abbrev HasPeers : World c → Type 0
  HasPeers w = AllOf (peers c tokio server w.calls) w.connections

  update-HasPeers :
      (f : Connection c → Connection c) (k : ℕ) (w : World c) (o : Option (Connection c))
      → ((a : SocketAddr) (x : Connection c) → IsOf a x → IsOf a (f x))
      → get_elem? w.connections k ≡ o
      → HasPeers w
      → HasPeers (update c f o k w)
  update-HasPeers f k w none keep e v = v
  update-HasPeers f k w (some conn) keep e v = AllOf-set _ w.connections k f conn keep e v

  update-calls :
      (f : Connection c → Connection c) (k : ℕ) (w : World c) (o : Option (Connection c))
      → (d : ℕ) × ((update c f o k w).calls ≡ d + w.calls)
  update-calls f k w none = (0, omega arith)
  update-calls f k w (some conn) = (0, omega arith)

  request-HasPeers :
      (o : Option (Connection c)) (race : c.Race) (header : c.RequestParts) (body : c.Incoming)
      (w : World c)
      → HasPeers w
      → HasPeers (request_on c o race header body w)
        × ((request_on c o race header body w).calls ≡ w.calls)
  request-HasPeers none race header body w v = (v, refl)
  request-HasPeers (some (handshaking bundle)) race header body w v = (v, refl)
  request-HasPeers (some (serving bundle)) race header body w v = (v, refl)
  request-HasPeers (some closed) race header body w v = (v, refl)

  opened-IsOf :
      (a : Option tokio.TlsAcceptor) (r : Result (c.TcpStream × SocketAddr))
      → AllOf (peer_of r) (map (opened c tokio net server) (spawned c tokio services a r))
  opened-IsOf none (ok (conn, address)) = (refl, tt)
  opened-IsOf (some b) (ok (conn, address)) = (refl, tt)
  opened-IsOf none (err e) = tt
  opened-IsOf (some b) (err e) = tt

  -- The world after an input, and the calls of `accept` that it has more.
  abbrev Follows : World c → World c → Type 0
  Follows w w' = HasPeers w' × ((d : ℕ) × (w'.calls ≡ d + w.calls))

  react-Follows :
      (i : Input c) (w : World c) → HasPeers w → Follows w (react c tokio net server i w)
  unfolding react
  react-Follows accepts w v =
      subst (Follows w) (sym (accept_round-joined c tokio server net addr services acceptor made w))
        (
          AllOf-append (peers c tokio server w.calls) _ w.connections _ v
              (opened-IsOf acceptor (tokio.accept server.connection w.calls)),
          (1, omega arith),
        )
  react-Follows (shakes k r) w v =
      (update-HasPeers (shaken c r) k w _ (shaken-IsOf r) refl v, update-calls (shaken c r) k w _)
  react-Follows (requests k race header body) w v =
      let (w', same) = request-HasPeers (get_elem? w.connections k) race header body w v in
      (w', (0, omega (arith, same)))
  react-Follows (polls i) w v = (v, (0, omega arith))
  react-Follows (closes k) w v =
      (update-HasPeers (λ _. closed) k w _ (λ a x u. tt) refl v, update-calls (λ _. closed) k w _)

  abbrev finally : List (Input c) → World c → ℕ
  finally is w = (run_inputs c tokio net server is w).calls

  run_inputs-calls :
      (is : List (Input c)) (w : World c) → HasPeers w → (d : ℕ) × (finally is w ≡ d + w.calls)
  unfolding run_inputs
  run_inputs-calls [] w v = (0, omega arith)
  run_inputs-calls (i ∷ is) w v =
      let (v', (d, e)) = react-Follows i w v in
      let (d', e') = run_inputs-calls is (react c tokio net server i w) v' in
      (d' + d, omega (arith, e, e'))

  later :
      (is : List (Input c)) (w : World c) (k : ℕ) (from : SocketAddr)
      → HasPeers w
      → get_elem? (peers c tokio server w.calls) k ≡ some from
      → get_elem? (peers c tokio server (finally is w)) k ≡ some from
  later is w k from v e =
      let (d, more) = run_inputs-calls is w v in peers_mono c tokio server d w.calls _ k from more e

  asked-IsRead :
      (is : List (Input c)) (calls : ℕ) (w : World c) (k : ℕ) (race : c.Race)
      (header : c.RequestParts) (body : c.Incoming) (o : Option (Connection c))
      → ((from : SocketAddr)
          → get_elem? (peers c tokio server w.calls) k ≡ some from
          → get_elem? (peers c tokio server calls) k ≡ some from)
      → get_elem? w.connections k ≡ o
      → HasPeers w
      → All
          (IsRead c tokio server (requests k race header body ∷ is) calls)
          (asked c o race header body)
  asked-IsRead is calls w k race header body none keep e v = tt
  asked-IsRead is calls w k race header body (some (handshaking bundle)) keep e v = tt
  asked-IsRead is calls w k race header body (some closed) keep e v = tt
  asked-IsRead is calls w k race header body (some (serving bundle)) keep e v =
      ((0, k, refl, keep bundle.from (AllOf-get _ w.connections k bundle e v)), tt)

  came-IsRead :
      (i : Input c) (is : List (Input c)) (w : World c)
      → HasPeers w
      → All (IsRead c tokio server (i ∷ is) (finally (i ∷ is) w)) (came c i w)
  came-IsRead accepts is w v = tt
  came-IsRead (shakes k r) is w v = tt
  came-IsRead (requests k race header body) is w v =
      asked-IsRead is (finally (requests k race header body ∷ is) w) w k race header body _
        (λ from. later (requests k race header body ∷ is) w k from v) refl v
  came-IsRead (polls j) is w v = tt
  came-IsRead (closes k) is w v = tt

  -- Each request that the server takes is one that an input reads from a connection, with the address
  -- of the peer of that connection.
  pub taken-IsRead :
      (is : List (Input c)) (w : World c)
      → HasPeers w
      → All
          (IsRead c tokio server is (run_inputs c tokio net server is w).calls)
          (taken c tokio net server is w)
  unfolding run_inputs
  taken-IsRead [] w v = tt
  taken-IsRead (i ∷ is) w v =
      let (v', _) = react-Follows i w v in
      All-append (IsRead c tokio server (i ∷ is) (finally (i ∷ is) w)) (came c i w) _
        (came-IsRead i is w v)
        (All-map (IsRead c tokio server is (finally is (react c tokio net server i w)))
          (IsRead c tokio server (i ∷ is) (finally is (react c tokio net server i w)))
          (taken c tokio net server is (react c tokio net server i w))
          (λ a read. (suc read.0, read.1, read.2, read.3)) (taken-IsRead is _ v'))
