-- ===== src/World/Owners.antt =====
-- broxy-core/src/server.rs: connections, each with the address of its own peer.
use mathlib.Core.Path.{subst}
use broxy.Prelude.{ℕ, zero, suc, ◌≡◌, sym, ap, List, [], ◌∷◌, ◌++◌, some, get_elem?, set}
use broxy.Outcome.{Result, ok, err}
use broxy.LoadBalancer.{SocketAddr}
use broxy.Crates.{Crates}
use broxy.Bundle.{ServiceBundle}
use broxy.World.{Connection, handshaking, serving, closed, shaken}

-- The connection, if it is open, has this address as that of its peer.
abbrev pub IsOf : {c : Crates} → SocketAddr → Connection c → Type 0
IsOf from (handshaking bundle) = bundle.from ≡ from
IsOf from (serving bundle) = bundle.from ≡ from
IsOf from closed = Unit

module _ {c : Crates} where
  -- Each connection has the address of its own peer.
  abbrev pub AllOf : List SocketAddr → List (Connection c) → Type 0
  AllOf [] [] = Unit
  AllOf (a ∷ froms) (conn ∷ conns) = IsOf a conn × AllOf froms conns
  AllOf _ _ = ⊥

  pub AllOf-append :
      (froms bs : List SocketAddr) (xs ys : List (Connection c))
      → AllOf froms xs
      → AllOf bs ys
      → AllOf (froms ++ bs) (xs ++ ys)
  AllOf-append [] bs [] ys v w = w
  AllOf-append [] bs (x ∷ xs) ys v w = absurd v
  AllOf-append (a ∷ froms) bs [] ys v w = absurd v
  AllOf-append (a ∷ froms) bs (x ∷ xs) ys (u, v) w = (u, AllOf-append froms bs xs ys v w)

  pub AllOf-set :
      (froms : List SocketAddr) (conns : List (Connection c)) (k : ℕ)
      (f : Connection c → Connection c) (conn : Connection c)
      → ((a : SocketAddr) (x : Connection c) → IsOf a x → IsOf a (f x))
      → get_elem? conns k ≡ some conn
      → AllOf froms conns
      → AllOf froms (set conns k (f conn))
  AllOf-set froms [] k f conn keep e v = cc e
  AllOf-set [] (x ∷ xs) k f conn keep e v = absurd v
  AllOf-set (a ∷ froms) (x ∷ xs) zero f conn keep e (u, v) =
      let same : x ≡ conn = cc e in (keep a conn (subst (IsOf a) same u), v)
  AllOf-set (a ∷ froms) (x ∷ xs) (suc k) f conn keep e (u, v) =
      (u, AllOf-set froms xs k f conn keep e v)

  pub AllOf-get :
      (froms : List SocketAddr) (conns : List (Connection c)) (k : ℕ) (bundle : ServiceBundle c)
      → get_elem? conns k ≡ some (serving bundle)
      → AllOf froms conns
      → get_elem? froms k ≡ some bundle.from
  AllOf-get froms [] k bundle e v = cc e
  AllOf-get [] (x ∷ xs) k bundle e v = absurd v
  AllOf-get (a ∷ froms) (x ∷ xs) zero bundle e (u, v) =
      let same : x ≡ serving bundle = cc e in ap some (sym (subst (IsOf a) same u))
  AllOf-get (a ∷ froms) (x ∷ xs) (suc k) bundle e (u, v) = AllOf-get froms xs k bundle e v

  pub shaken-IsOf :
      (r : Result (Unit {0})) (a : SocketAddr) (conn : Connection c)
      → IsOf a conn
      → IsOf a (shaken c r conn)
  shaken-IsOf (ok _) a (handshaking bundle) v = v
  shaken-IsOf (err e) a (handshaking bundle) v = tt
  shaken-IsOf (ok _) a (serving bundle) v = v
  shaken-IsOf (err e) a (serving bundle) v = v
  shaken-IsOf (ok _) a closed v = v
  shaken-IsOf (err e) a closed v = v
