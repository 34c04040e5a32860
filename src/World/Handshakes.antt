-- ===== src/World/Handshakes.antt =====
-- broxy-core/src/server.rs: a server with TLS and its handshakes.
use mathlib.Core.Path.{subst}
use broxy.Prelude.{
  ℕ, zero, suc, ◌≡◌, refl, sym, ap, List, [], ◌∷◌, ◌++◌, Option, none, some, All, map, get_elem?,
  set,
}
use broxy.Outcome.{Result, ok, err}
use broxy.LoadBalancer.{SocketAddr}
use broxy.Crates.{Crates}
use broxy.Network.{Network, State}
use broxy.Bundle.{ServiceBundle}
use broxy.Server.{Tokio, Server, new}
use broxy.Server.Accepting.{spawned}
use broxy.World.Peers.{accept_round-joined}
use broxy.World.{
  Connection, handshaking, serving, closed, Input, accepts, shakes, requests, polls, closes, World,
  at_start, shaken, update, request_on, opened, react, run_inputs,
}

module _ (c : Crates) where
  -- No input ends the handshake of connection `k` well.
  abbrev Ends : ℕ → Input c → Type 0
  Ends k (shakes j (ok _)) = j ≡ k
  Ends k _ = ⊥

  abbrev pub Unshaken : ℕ → List (Input c) → Type 0
  Unshaken k is = All (λ i. ¬ Ends k i) is

  abbrev IsMute : Option (Connection c) → Type 0
  IsMute (some (serving bundle)) = ⊥
  IsMute _ = Unit

  request-IsMute :
      (o : Option (Connection c)) (race : c.Race) (header : c.RequestParts) (body : c.Incoming)
      (w : World c)
      → IsMute o
      → request_on c o race header body w ≡ w
  request-IsMute none race header body w m = refl
  request-IsMute (some (handshaking bundle)) race header body w m = refl
  request-IsMute (some (serving bundle)) race header body w m = absurd m
  request-IsMute (some closed) race header body w m = refl

  IsMute-append :
      (xs ys : List (Connection c)) (k : ℕ)
      → IsMute (get_elem? xs k)
      → All (λ conn. IsMute (some conn)) ys
      → IsMute (get_elem? (xs ++ ys) k)
  IsMute-append [] [] k m h = tt
  IsMute-append [] (y ∷ ys) zero m (h, _) = h
  IsMute-append [] (y ∷ ys) (suc k) m (_, h) = IsMute-append [] ys k tt h
  IsMute-append (x ∷ xs) ys zero m h = m
  IsMute-append (x ∷ xs) ys (suc k) m h = IsMute-append xs ys k m h

  IsMute-set :
      (f : Connection c → Connection c) (xs : List (Connection c)) (j k : ℕ) (conn : Connection c)
      → get_elem? xs j ≡ some conn
      → (j ≡ k → IsMute (some conn) → IsMute (some (f conn)))
      → IsMute (get_elem? xs k)
      → IsMute (get_elem? (set xs j (f conn)) k)
  IsMute-set f [] j k conn e keep m = tt
  IsMute-set f (x ∷ xs) zero zero conn e keep m = keep refl (subst IsMute e m)
  IsMute-set f (x ∷ xs) zero (suc k) conn e keep m = m
  IsMute-set f (x ∷ xs) (suc j) zero conn e keep m = m
  IsMute-set f (x ∷ xs) (suc j) (suc k) conn e keep m =
      IsMute-set f xs j k conn e (λ same. keep (ap suc same)) m

  update-IsMute :
      (f : Connection c → Connection c) (j k : ℕ) (w : World c) (o : Option (Connection c))
      → get_elem? w.connections j ≡ o
      → ((conn : Connection c) → j ≡ k → IsMute (some conn) → IsMute (some (f conn)))
      → IsMute (get_elem? w.connections k)
      → IsMute (get_elem? (update c f o j w).connections k)
  update-IsMute f j k w none e keep m = m
  update-IsMute f j k w (some conn) e keep m = IsMute-set f w.connections j k conn e (keep conn) m

  request_on-connections :
      (o : Option (Connection c)) (race : c.Race) (header : c.RequestParts) (body : c.Incoming)
      (w : World c)
      → (request_on c o race header body w).connections ≡ w.connections
  request_on-connections none race header body w = refl
  request_on-connections (some (handshaking bundle)) race header body w = refl
  request_on-connections (some (serving bundle)) race header body w = refl
  request_on-connections (some closed) race header body w = refl

  shaken-IsMute :
      (r : Result (Unit {0})) (j k : ℕ)
      → ¬ Ends k (shakes j r)
      → (conn : Connection c) → j ≡ k
      → IsMute (some conn)
      → IsMute (some (shaken c r conn))
  shaken-IsMute (ok _) j k n conn same m = absurd (n same)
  shaken-IsMute (err e) j k n (handshaking bundle) same m = tt
  shaken-IsMute (err e) j k n (serving bundle) same m = m
  shaken-IsMute (err e) j k n closed same m = tt

module _ (c : Crates) (tokio : Tokio c) (net : Network c) (services : ServiceBundle c)
    (a : tokio.TlsAcceptor) (server : Server c tokio) (addr : SocketAddr)
    (made : new c tokio addr services (some a) ≡ ok server) where
  opened-IsMute :
      (r : Result (c.TcpStream × SocketAddr))
      → All
          (λ conn. IsMute c (some conn))
          (map (opened c tokio net server) (spawned c tokio services (some a) r))
  opened-IsMute (ok (conn, address)) = (tt, tt)
  opened-IsMute (err e) = tt

  react-IsMute :
      (i : Input c) (k : ℕ) (w : World c)
      → ¬ Ends c k i
      → IsMute c (get_elem? w.connections k)
      → IsMute c (get_elem? (react c tokio net server i w).connections k)
  unfolding react
  react-IsMute accepts k w n m =
      subst (λ w'. IsMute c (get_elem? w'.connections k))
        (sym (accept_round-joined c tokio server net addr services (some a) made w))
        (IsMute-append c w.connections _ k m
          (opened-IsMute (tokio.accept server.connection w.calls)))
  react-IsMute (shakes j r) k w n m =
      update-IsMute c (shaken c r) j k w _ refl (shaken-IsMute c r j k n) m
  react-IsMute (requests j race header body) k w n m =
      subst (λ conns. IsMute c (get_elem? conns k))
        (sym (request_on-connections c (get_elem? w.connections j) race header body w)) m
  react-IsMute (polls j) k w n m = m
  react-IsMute (closes j) k w n m = update-IsMute c (λ _. closed) j k w _ refl (λ _ _ _. tt) m

  run_inputs-IsMute :
      (is : List (Input c)) (k : ℕ) (w : World c)
      → Unshaken c k is
      → IsMute c (get_elem? w.connections k)
      → IsMute c (get_elem? (run_inputs c tokio net server is w).connections k)
  unfolding run_inputs
  run_inputs-IsMute [] k w n m = m
  run_inputs-IsMute (i ∷ is) k w (n, ns) m = run_inputs-IsMute is k _ ns (react-IsMute i k w n m)

  -- A server that `new` made with a TLS acceptor takes no request from a connection before its
  -- handshake ended well: such an input changes nothing.
  pub react-not_shaken :
      (is : List (Input c)) (s : State c) (k : ℕ) (race : c.Race) (header : c.RequestParts)
      (body : c.Incoming)
      → Unshaken c k is
      → let w = run_inputs c tokio net server is (at_start c s) in
        react c tokio net server (requests k race header body) w ≡ w
  unfolding react
  react-not_shaken is s k race header body n =
      request-IsMute c _ race header body _ (run_inputs-IsMute is k (at_start c s) n tt)
