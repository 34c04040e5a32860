-- ===== src/Executor/Dialing.antt =====
-- broxy-core/src/service.rs: which addresses the requests in flight may still connect to.
use mathlib.Core.Path.{subst}
use broxy.Prelude.{
  ℕ, ◌+◌, ◌-◌, ◌*◌, ◌≤◌, ◌≡◌, refl, ltb, if◌then◌else◌, Bool, true, false, List, [], ◌∷◌, Option,
  none, some, arith, get_elem?, All,
}
use broxy.Outcome.{Outcome, fails, panics, undefined, returns}
use broxy.LoadBalancer.{SocketAddr, Upstream, LoadBalancer}
use broxy.LoadBalancer.Safety.{get_upstream-returns, IsValid}
use broxy.LoadBalancer.Dues.{next_weight, HasDues, HasDues-mono, HasDues-set}
use broxy.Crates.{Crates}
use broxy.Network.{
  Network, State, Response, Event, connecting, handshaking, spawning, sending, collecting,
}
use broxy.Service.{Service}
use broxy.Service.Filtering.{filter_request_by_header}
use broxy.Bundle.{max_size}
use broxy.Bundle.Balancing.{bump, set_found}
use broxy.Bundle.Runs.{Arrival}
use broxy.Future.{
  Future, ready, selecting, await_connect, await_handshake, and_spawn, await_send, await_collect,
  poll,
}
use broxy.Future.Calls.{call_future, each_service_future, on_match_future, serve_future}
use broxy.Future.Dials.{Dials, process_future-Dials}
use broxy.Executor.{start_request}
use broxy.Executor.Polls.{next_select, IsGood}

-- How many selections the next poll makes.
abbrev pub calls : Option ℕ → ℕ
calls none = 0
calls (some i) = 1

module _ (w : SocketAddr → ℕ) where
  -- The weight that the next poll of a request takes from the balancers.
  abbrev pub found_weight : Option LoadBalancer → ℕ
  found_weight none = 0
  found_weight (some lb) = next_weight w lb

  abbrev pub gain : Option ℕ → List LoadBalancer → ℕ
  gain none bs = 0
  gain (some i) bs = found_weight (get_elem? bs i)

  HasDues-found :
      (o : Option LoadBalancer) (bs bs' : List LoadBalancer) (i n t : ℕ)
      → get_elem? bs' i ≡ o
      → All IsValid bs
      → HasDues w bs bs' n t
      → HasDues w bs (set_found o i bs') (n + 1) (t + found_weight o)
  HasDues-found none bs bs' i n t e vs d =
      subst (HasDues w bs bs' (n + 1)) (omega arith)
        (HasDues-mono w bs bs' n (n + 1) t (omega arith) d)
  HasDues-found (some lb) bs bs' i n t e vs d = HasDues-set w bs bs' i lb n t vs e d

  pub HasDues-bump :
      (j : Option ℕ) (bs bs' : List LoadBalancer) (n t : ℕ)
      → All IsValid bs
      → HasDues w bs bs' n t
      → HasDues w bs (bump j bs') (n + calls j) (t + gain j bs')
  HasDues-bump none bs bs' n t vs d =
      subst (HasDues w bs bs' (n + 0)) (omega arith)
        (HasDues-mono w bs bs' n (n + 0) t (omega arith) d)
  HasDues-bump (some i) bs bs' n t vs d = HasDues-found (get_elem? bs' i) bs bs' i n t refl vs d

module _ {c : Crates} (w : SocketAddr → ℕ) where
  -- The weight of the addresses that a history connects to.
  abbrev pub dialed : List (Event c) → ℕ
  dialed [] = 0
  dialed (connecting a ∷ es) = w a + dialed es
  dialed (handshaking _ ∷ es) = dialed es
  dialed (spawning _ ∷ es) = dialed es
  dialed (sending _ _ ∷ es) = dialed es
  dialed (collecting _ ∷ es) = dialed es

  -- A request that is still to select connects only to the server that it is given, and once at most;
  -- any other has at most the weight `m` to connect to.
  abbrev pub Owes : {A : Type 0} → ℕ → Future c A → Type 0
  Owes m (selecting i k) = (u : Upstream) → Dials w (w u.address) (k (returns u))
  Owes m f = Dials w m f

  Dials-Owes : {A : Type 0} (m : ℕ) (f : Future c A) → Dials w m f → Owes m f
  Dials-Owes m (selecting i k) d = absurd d
  Dials-Owes m (ready o) d = d
  Dials-Owes m (await_connect a k) d = d
  Dials-Owes m (await_handshake io k) d = d
  Dials-Owes m (and_spawn conn k) d = d
  Dials-Owes m (await_send sender request k) d = d
  Dials-Owes m (await_collect body k) d = d

module _ (c : Crates) (net : Network c) (w : SocketAddr → ℕ) where
  -- What a poll of a request with `m` to come leaves.
  abbrev pub IsPaid : {A : Type 0} → ℕ → Future c A → State c → Future c A × State c → Type 0
  IsPaid m f s p =
      (m' : ℕ) × Owes w m' p.0
      × (dialed w p.1.history + m' ≤ dialed w s.history + m + gain w (next_select f) s.balancers)

  pub poll-IsPaid :
      {A : Type 0} (t n k m : ℕ) (f : Future c A) (s : State c)
      → IsGood s.balancers t n k f
      → Owes w m f
      → IsPaid m f s (poll c net f s)
  unfolding poll
  poll-IsPaid t n k m (ready o) s g d = (m, tt, omega arith)
  poll-IsPaid t n k m (selecting i next) s (p, (lb, at, v), _) d =
      let (u, found, now) = get_upstream-returns lb v in
      rw (at, now, found)
        (w u.address, Dials-Owes w (w u.address) (next (returns u)) (d u), omega arith)
  poll-IsPaid t n k m (await_connect a next) s g (p, d) = (
    m - w a,
    Dials-Owes w (m - w a) (next (net.connect s.history a)) (d (net.connect s.history a)),
    omega arith,
  )
  poll-IsPaid t n k m (await_handshake io next) s g d = (
    m,
    Dials-Owes w m (next (net.handshake s.history io)) (d (net.handshake s.history io)),
    omega arith,
  )
  poll-IsPaid t n k m (and_spawn conn next) s g d = (m, Dials-Owes w m next d, omega arith)
  poll-IsPaid t n k m (await_send sender request next) s g d = (
    m,
    Dials-Owes w m (next (net.send_request s.history sender request))
        (d (net.send_request s.history sender request)),
    omega arith,
  )
  poll-IsPaid t n k m (await_collect body next) s g d = (
    m,
    Dials-Owes w m (next (net.collect s.history body)) (d (net.collect s.history body)),
    omega arith,
  )

module _ (c : Crates) (w : SocketAddr → ℕ) where
  if-Owes :
      (b : Bool) (f g : Future c (Response c))
      → Owes w 0 f
      → Owes w 0 g
      → Owes w 0 (if b then f else g)
  if-Owes true f g d e = d
  if-Owes false f g d e = e

  on_match-Owes :
      (r : Outcome Bool) (f g : Future c (Response c))
      → Owes w 0 f
      → Owes w 0 g
      → Owes w 0 (on_match_future c r f g)
  on_match-Owes (returns true) f g d e = d
  on_match-Owes (returns false) f g d e = e
  on_match-Owes (fails _) f g d e = tt
  on_match-Owes panics f g d e = tt
  on_match-Owes undefined f g d e = tt

  each_service-Owes :
      (services : List (Service c)) (race : c.Race) (from : SocketAddr) (header : c.RequestParts)
      (body : c.Incoming)
      → Owes w 0 (each_service_future c services race from header body)
  unfolding each_service_future serve_future
  each_service-Owes [] race from header body = tt
  each_service-Owes (service ∷ services) race from header body =
      on_match-Owes (filter_request_by_header c service race from header) _ _
        (if-Owes (ltb (1024 * 64) (max_size (c.size_hint_upper body))) _ _ tt
          (λ u. process_future-Dials c w service u from header body))
        (each_service-Owes services (c.next_race race) from header body)

  pub start_request-Owes :
      (services : List (Service c)) (a : Arrival c) → Owes w 0 (start_request c services a)
  unfolding call_future
  start_request-Owes services a = each_service-Owes services a.race a.from a.header a.body
