-- ===== src/Future/Stages.antt =====
-- broxy-core/src/service.rs: the futures of the stages of processing against its functions.
use broxy.Prelude.{refl, none, some, arith}
use broxy.Outcome.{Outcome, or_undefined, M, and_then}
use broxy.LoadBalancer.{SocketAddr, Upstream}
use broxy.Crates.{Crates, Bytes}
use broxy.Middleware.{Middleware, process_incoming, process_outgoing}
use broxy.Network.{Network, State, Request, Response, send_request, collect}
use broxy.Service.{Service}
use broxy.Service.Processing.{
  text, open_client, process_without_body_internal, process_without_body_with_middleware_internal,
  process_without_body_with_middleware, answer_with_body, send_with_body, forward_with_body,
  or_internal_error,
}
use broxy.Future.{Future, ready, ◌>>=◌, ready_then, block_on}
use broxy.Future.Calls.{
  open_client_future, without_body_future, with_middleware_internal_future, with_middleware_future,
  answer_with_body_future, send_with_body_future, forward_with_body_future, with_body_future,
  process_function_future, process_future, serve_future, on_match_future, each_service_future,
  call_future,
}
use broxy.Future.Calls
use broxy.Future.Agreement.{Agrees, bind-Agrees}

module _ (c : Crates) (net : Network c) where
  open c use {RequestParts, ResponseParts, Incoming, Sender}

  open_client-Agrees :
      (upstream : Upstream)
      → Agrees net (open_client_future c upstream) (open_client c net upstream)
  unfolding open_client_future open_client block_on
  open_client-Agrees upstream s = ground arith

  pub ready-Agrees : {A : Type 0} (o : Outcome A) → Agrees net (ready o) (λ s. (o, s))
  unfolding block_on
  ready-Agrees o s = refl

  pub ready_then-Agrees :
      {A B : Type 0} (o : Outcome A) (f : A → Future c B) (g : A → M (State c) B)
      → ((a : A) → Agrees net (f a) (g a))
      → Agrees net (ready_then o f) (λ s. and_then (o, s) g)
  ready_then-Agrees o f g h = bind-Agrees net (ready o) (λ s. (o, s)) f g (ready-Agrees o) h

  or_internal_error-Agrees :
      (o : Outcome (Unit {0})) (t : Future c (Response c)) (m : M (State c) (Response c))
      → Agrees net t m
      → Agrees net (Calls.or_internal_error o t) (or_internal_error c o m)
  unfolding block_on
  or_internal_error-Agrees o t m h s = ground (arith, h s)

  send_request-Agrees :
      {B : Type 0} (sender : Sender) (request : Request c)
      (f : ResponseParts × Incoming → Future c B) (g : ResponseParts × Incoming → M (State c) B)
      → ((a : ResponseParts × Incoming) → Agrees net (f a) (g a))
      → Agrees net
          (Calls.send_request sender request >>= f)
          (λ s. and_then (send_request c net sender request s) g)
  unfolding block_on
  send_request-Agrees sender request f g =
      bind-Agrees net (Calls.send_request sender request) (send_request c net sender request) f g
        (λ s. refl)

  pub collect-Agrees :
      {B : Type 0} (body : Incoming) (f : Bytes → Future c B) (g : Bytes → M (State c) B)
      → ((a : Bytes) → Agrees net (f a) (g a))
      → Agrees net (Calls.collect body >>= f) (λ s. and_then (collect c net body s) g)
  unfolding block_on
  collect-Agrees body f g =
      bind-Agrees net (Calls.collect body) (collect c net body) f g (λ s. refl)

  pub without_body-Agrees :
      (upstream : Upstream) (header : RequestParts) (body : Incoming)
      → Agrees net
          (without_body_future c upstream header body)
          (process_without_body_internal c net upstream header body)
  unfolding without_body_future process_without_body_internal
  without_body-Agrees upstream header body =
      bind-Agrees net _ _ _ _ (open_client-Agrees upstream)
        (λ sender. send_request-Agrees sender _ _ _ (λ a. ready-Agrees _))

  with_middleware_internal-Agrees :
      (middleware : Middleware c) (upstream : Upstream) (from : SocketAddr) (header : RequestParts)
      (body : Incoming)
      → Agrees net
          (with_middleware_internal_future c middleware upstream from header body)
          (process_without_body_with_middleware_internal c net middleware upstream from header body)
  unfolding with_middleware_internal_future process_without_body_with_middleware_internal
  with_middleware_internal-Agrees middleware upstream from header body =
      bind-Agrees net _ _ _ _ (open_client-Agrees upstream) (λ sender.
        send_request-Agrees sender _ _ _ (λ a.
          or_internal_error-Agrees
            (process_outgoing c middleware from upstream.address (a.0, none)).0 _ _
            (ready-Agrees _)))

  pub with_middleware-Agrees :
      (service : Service c) (upstream : Upstream) (from : SocketAddr) (header : RequestParts)
      (body : Incoming)
      → Agrees net
          (with_middleware_future c service upstream from header body)
          (process_without_body_with_middleware c net service upstream from header body)
  unfolding with_middleware_future process_without_body_with_middleware
  with_middleware-Agrees service upstream from header body =
      let ran = λ (middleware : Middleware c). process_incoming c middleware from (header, none) in
      ready_then-Agrees (or_undefined service.middleware) _ _ (λ middleware.
        or_internal_error-Agrees (ran middleware).0 _ _
          (with_middleware_internal-Agrees middleware upstream from (ran middleware).1.0 body))

  answer_with_body-Agrees :
      (middleware : Middleware c) (upstream : Upstream) (from : SocketAddr) (header : ResponseParts)
      (body : Incoming)
      → Agrees net
          (answer_with_body_future c middleware upstream from header body)
          (answer_with_body c net middleware upstream from header body)
  unfolding answer_with_body_future answer_with_body block_on
  answer_with_body-Agrees middleware upstream from header body s = ground arith

  send_with_body-Agrees :
      (middleware : Middleware c) (upstream : Upstream) (from : SocketAddr) (sender : Sender)
      (header : RequestParts) (entire_body : Bytes)
      → Agrees net
          (send_with_body_future c middleware upstream from sender header entire_body)
          (send_with_body c net middleware upstream from sender header entire_body)
  unfolding send_with_body_future send_with_body
  send_with_body-Agrees middleware upstream from sender header entire_body =
      send_request-Agrees sender _ _ _
        (λ a. answer_with_body-Agrees middleware upstream from a.0 a.1)

  pub forward_with_body-Agrees :
      (middleware : Middleware c) (upstream : Upstream) (from : SocketAddr) (header : RequestParts)
      (entire_body : Bytes)
      → Agrees net
          (forward_with_body_future c middleware upstream from header entire_body)
          (forward_with_body c net middleware upstream from header entire_body)
  unfolding forward_with_body_future forward_with_body
  forward_with_body-Agrees middleware upstream from header entire_body =
      let ran = process_incoming c middleware from (header, some entire_body) in
      bind-Agrees net _ _ _ _ (open_client-Agrees upstream) (λ sender.
        or_internal_error-Agrees ran.0 _ _
          (send_with_body-Agrees middleware upstream from sender ran.1.0 (text c ran.1.1)))
