-- ===== src/Future.antt =====
-- broxy-core/src/service.rs: a request in flight, as what `ServiceBundle::call` does and the future that
-- it returns.
--
-- A request is suspended where it uses something shared: the network, with an answer to come, the
-- executor, or the counter of a load balancer. Between two such points it runs alone. The selection
-- of an upstream is made by `call` itself, before it returns a future: it is a step of its own here,
-- since connections are served on several threads, and others may come between the filters and it.
pub mod Calls
pub mod Agreement
pub mod Stages
pub mod Handlers
pub mod Budget
pub mod Bounds
pub mod Dials
pub mod Sends
pub mod Forwards
pub mod Yields
use broxy.Prelude.{ℕ, ◌*◌, ltb, if◌then◌else◌, Bool, List, [], ◌∷◌, none, some, get_elem?, Option}
use broxy.Outcome.{
  Error, Result, ok, err, of_result, Outcome, returns, fails, panics, undefined, or_undefined, M,
}
use broxy.LoadBalancer.{SocketAddr, Upstream}
use broxy.LoadBalancer
use broxy.Crates.{Crates, Bytes}
use broxy.Network.{
  Network, State, Request, connecting, handshaking, spawning, sending, collecting, record_event,
}
use broxy.Service.{call_balancer}

module _ (c : Crates) where
  open c use {TcpStream, Sender, Connection, ResponseParts, Incoming}

  pub data Future (A : Type 0) : Type 0 where
    ready : Outcome A → Future A
    selecting : ℕ → (Outcome Upstream → Future A) → Future A
    await_connect : SocketAddr → (Result TcpStream → Future A) → Future A
    await_handshake : TcpStream → (Result (Sender × Connection) → Future A) → Future A
    and_spawn : Connection → Future A → Future A
    await_send : Sender → Request c → (Result (ResponseParts × Incoming) → Future A) → Future A
    await_collect : Incoming → (Result Bytes → Future A) → Future A

module _ {c : Crates} where
  abbrev pub ready_then : {A B : Type 0} → Outcome A → (A → Future c B) → Future c B
  ready_then (returns a) f = f a
  ready_then (fails e) f = ready (fails e)
  ready_then panics f = ready panics
  ready_then undefined f = ready undefined

  infixl 5 ◌>>=◌ ◌>>◌
  abbrev pub ◌>>=◌ : {A B : Type 0} → Future c A → (A → Future c B) → Future c B
  ◌>>=◌ (ready o) f = ready_then o f
  ◌>>=◌ (selecting i k) f = selecting i (λ r. k r >>= f)
  ◌>>=◌ (await_connect a k) f = await_connect a (λ r. k r >>= f)
  ◌>>=◌ (await_handshake io k) f = await_handshake io (λ r. k r >>= f)
  ◌>>=◌ (and_spawn conn k) f = and_spawn conn (k >>= f)
  ◌>>=◌ (await_send sender request k) f = await_send sender request (λ r. k r >>= f)
  ◌>>=◌ (await_collect body k) f = await_collect body (λ r. k r >>= f)

  abbrev pub ◌>>◌ : {B : Type 0} → Future c (Unit {0}) → Future c B → Future c B
  m >> k = m >>= λ _. k

  abbrev pub pure : {A : Type 0} → A → Future c A
  pure a = ready (returns a)

module _ (c : Crates) (net : Network c) where
  -- `(*address).get_upstream()`
  abbrev pub select : ℕ → M (State c) Upstream
  select address s =
      call_balancer c (get_elem? s.balancers address) address LoadBalancer.get_upstream s

  -- A future runs up to the next point where it uses something shared.
  unfoldable pub poll : {A : Type 0} → Future c A → State c → Future c A × State c
  poll (ready o) s = (ready o, s)
  poll (selecting i k) s = let (o, t) = select i s in (k o, t)
  poll (await_connect a k) s = (k (net.connect s.history a), record_event c (connecting a) s)
  poll (await_handshake io k) s =
      (k (net.handshake s.history io), record_event c (handshaking io) s)
  poll (and_spawn conn k) s = (k, record_event c (spawning conn) s)
  poll (await_send sender request k) s =
      (k (net.send_request s.history sender request), record_event c (sending sender request) s)
  poll (await_collect body k) s =
      (k (net.collect s.history body), record_event c (collecting body) s)

  -- What awaiting a future gives if nothing else runs.
  unfoldable pub block_on : {A : Type 0} → Future c A → M (State c) A
  block_on (ready o) s = (o, s)
  block_on (selecting i k) s = let (o, t) = select i s in block_on (k o) t
  block_on (await_connect a k) s =
      block_on (k (net.connect s.history a)) (record_event c (connecting a) s)
  block_on (await_handshake io k) s =
      block_on (k (net.handshake s.history io)) (record_event c (handshaking io) s)
  block_on (and_spawn conn k) s = block_on k (record_event c (spawning conn) s)
  block_on (await_send sender request k) s =
      block_on (k (net.send_request s.history sender request))
        (record_event c (sending sender request) s)
  block_on (await_collect body k) s =
      block_on (k (net.collect s.history body)) (record_event c (collecting body) s)
