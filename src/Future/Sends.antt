-- ===== src/Future/Sends.antt =====
-- broxy-core/src/service.rs: which requests a future may send to an upstream.
use broxy.Prelude.{List, ◌≡◌, refl, if◌then◌else◌, Bool, true, false, none}
use broxy.Outcome.{Result, of_result, Outcome, returns, fails, panics, undefined}
use broxy.LoadBalancer.{SocketAddr, Upstream}
use broxy.Crates.{Crates}
use broxy.Middleware.{Middleware, process_outgoing}
use broxy.Network.{Network, Event, Request, Response, incoming}
use broxy.Future.{
  Future, ready, selecting, await_connect, await_handshake, and_spawn, await_send, await_collect,
  ◌>>=◌, ready_then,
}
use broxy.Future.Calls.{
  or_internal_error, send_request, open_client_future, without_body_future,
  with_middleware_internal_future,
}

module _ {c : Crates} (net : Network c) (P : Request c → Type 0) where
  -- Whatever answers it gets, where bodies are read by the network at some moment, the future sends only requests of which `P` holds.
  abbrev pub Sends : {A : Type 0} → Future c A → Type 0
  Sends (ready o) = Unit
  Sends (selecting i k) = (o : Outcome Upstream) → Sends (k o)
  Sends (await_connect a k) = (r : Result c.TcpStream) → Sends (k r)
  Sends (await_handshake io k) = (r : Result (c.Sender × c.Connection)) → Sends (k r)
  Sends (and_spawn conn k) = Sends k
  Sends (await_send sender request k) =
      P request × ((r : Result (c.ResponseParts × c.Incoming)) → Sends (k r))
  Sends (await_collect body k) = (h : List (Event c)) → Sends (k (net.collect h body))

  pub ready_then-Sends :
      {A B : Type 0} (o : Outcome A) (f : A → Future c B)
      → ((a : A) → o ≡ returns a → Sends (f a))
      → Sends (ready_then o f)
  ready_then-Sends (returns a) f d = d a refl
  ready_then-Sends (fails e) f d = tt
  ready_then-Sends panics f d = tt
  ready_then-Sends undefined f d = tt

  pub bind-Sends :
      {A B : Type 0} (x : Future c A) (f : A → Future c B)
      → Sends x
      → ((a : A) → Sends (f a))
      → Sends (x >>= f)
  bind-Sends (ready o) f d e = ready_then-Sends o f (λ a _. e a)
  bind-Sends (selecting i k) f d e = λ o. bind-Sends (k o) f (d o) e
  bind-Sends (await_connect a k) f d e = λ r. bind-Sends (k r) f (d r) e
  bind-Sends (await_handshake io k) f d e = λ r. bind-Sends (k r) f (d r) e
  bind-Sends (and_spawn conn k) f d e = bind-Sends k f d e
  bind-Sends (await_send sender request k) f (p, d) e = (p, λ r. bind-Sends (k r) f (d r) e)
  bind-Sends (await_collect body k) f d e = λ h. bind-Sends (k (net.collect h body)) f (d h) e

  pub or_internal_error-Sends :
      (o : Outcome (Unit {0})) (x : Future c (Response c))
      → (o ≡ returns tt → Sends x)
      → Sends (or_internal_error o x)
  or_internal_error-Sends (returns _) x d = d refl
  or_internal_error-Sends (fails e) x d = tt
  or_internal_error-Sends panics x d = tt
  or_internal_error-Sends undefined x d = tt

  pub if-Sends :
      {A : Type 0} (b : Bool) (x y : Future c A)
      → (b ≡ true → Sends x)
      → Sends y
      → Sends (if b then x else y)
  if-Sends true x y d e = d refl
  if-Sends false x y d e = e

module _ (c : Crates) (net : Network c) (P : Request c → Type 0) where
  open c use {RequestParts, ResponseParts, Incoming, Sender}

  pub open_client-Sends : (upstream : Upstream) → Sends net P (open_client_future c upstream)
  unfolding open_client_future
  open_client-Sends upstream = λ r.
      ready_then-Sends net P (of_result r) _
        (λ stream _ shaken. ready_then-Sends net P (of_result shaken) _ (λ client _. tt))

  pub send_request-Sends :
      {B : Type 0} (sender : Sender) (request : Request c)
      (f : ResponseParts × Incoming → Future c B)
      → P request
      → ((a : ResponseParts × Incoming) → Sends net P (f a))
      → Sends net P (send_request sender request >>= f)
  send_request-Sends sender request f p d =
      bind-Sends net P (send_request sender request) f (p, λ r. tt) d

  -- The requests of `process_without_body_internal` and its variant with middleware.
  pub without_body-Sends :
      (upstream : Upstream) (header : RequestParts) (body : Incoming)
      → P (record { parts = header; body = incoming body })
      → Sends net P (without_body_future c upstream header body)
  unfolding without_body_future
  without_body-Sends upstream header body p =
      bind-Sends net P (open_client_future c upstream) _ (open_client-Sends upstream) (λ sender.
        send_request-Sends sender (record { parts = header; body = incoming body }) _ p (λ a. tt))

  pub with_middleware_internal-Sends :
      (middleware : Middleware c) (upstream : Upstream) (from : SocketAddr) (header : RequestParts)
      (body : Incoming)
      → P (record { parts = header; body = incoming body })
      → Sends net P (with_middleware_internal_future c middleware upstream from header body)
  unfolding with_middleware_internal_future
  with_middleware_internal-Sends middleware upstream from header body p =
      bind-Sends net P (open_client_future c upstream) _ (open_client-Sends upstream) (λ sender.
        send_request-Sends sender (record { parts = header; body = incoming body }) _ p
          (λ a.
            let (o, _) = process_outgoing c middleware from upstream.address (a.0, none) in
            or_internal_error-Sends net P o _ (λ _. tt)))
