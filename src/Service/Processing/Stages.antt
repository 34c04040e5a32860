-- ===== src/Service/Processing/Stages.antt =====
-- broxy-core/src/service.rs: what the stages of processing may do, whatever the network answers.
use broxy.Prelude.{◌≡◌, ◌≢◌, Option, none, some, arith}
use broxy.Outcome.{undefined}
use broxy.LoadBalancer.{SocketAddr, Upstream}
use broxy.Crates.{Crates, Bytes}
use broxy.Middleware.{Middleware, process_incoming, process_outgoing}
use broxy.Middleware.Runs.{each_incoming-defined}
use broxy.Middleware.Responses.{each_outgoing-defined}
use broxy.Network.{Network, State, Request, full, send_request}
use broxy.Service.{Service}
use broxy.Service.Processing.{
  open_client, process_without_body_internal, process_without_body_with_middleware_internal,
  process_without_body_with_middleware, answer_with_body, send_with_body, forward_with_body,
  or_internal_error, text,
}
use broxy.Service.Processing.Effects.{IsTame, IsTame-bind, IsTame-recover}

module _ (c : Crates) where
  open c use {RequestParts, ResponseParts}

  pub process_incoming-defined :
      (middleware : Middleware c) (from : SocketAddr) (s : RequestParts × Option Bytes)
      → (process_incoming c middleware from s).0 ≢ undefined
  unfolding process_incoming
  process_incoming-defined middleware from s =
      each_incoming-defined c from middleware.process_incoming s

  pub process_outgoing-defined :
      (middleware : Middleware c) (from upstream_addr : SocketAddr)
      (s : ResponseParts × Option Bytes)
      → (process_outgoing c middleware from upstream_addr s).0 ≢ undefined
  unfolding process_outgoing
  process_outgoing-defined middleware from upstream_addr s =
      each_outgoing-defined c from upstream_addr middleware.process_out s

module _ (c : Crates) (net : Network c) where
  open c use {RequestParts, ResponseParts, Incoming}

  open_client-IsTame :
      (upstream : Upstream) (s : State c) → IsTame c 1 0 s (open_client c net upstream s)
  unfolding open_client
  open_client-IsTame upstream s = ground arith

  pub internal-IsTame :
      (upstream : Upstream) (header : RequestParts) (body : Incoming) (s : State c)
      → IsTame c 1 1 s (process_without_body_internal c net upstream header body s)
  unfolding process_without_body_internal
  internal-IsTame upstream header body s = ground (arith, open_client-IsTame upstream s)

  with_middleware_internal-IsTame :
      (middleware : Middleware c) (upstream : Upstream) (from : SocketAddr) (header : RequestParts)
      (body : Incoming) (s : State c)
      → IsTame c 1 1 s (
          process_without_body_with_middleware_internal c net middleware upstream from header body
            s)
  unfolding process_without_body_with_middleware_internal
  with_middleware_internal-IsTame middleware upstream from header body s =
      grind (arith, open_client-IsTame upstream s, process_outgoing-defined c)

  -- The header-only way, once its middleware is there.
  pub with_middleware-IsTame :
      (service : Service c) (middleware : Middleware c) (upstream : Upstream) (from : SocketAddr)
      (header : RequestParts) (body : Incoming) (s : State c)
      → service.middleware ≡ some middleware
      → IsTame c 1 1 s
          (process_without_body_with_middleware c net service upstream from header body s)
  unfolding process_without_body_with_middleware
  with_middleware-IsTame service middleware upstream from header body s e =
      rw (e, process_without_body_with_middleware)
        (IsTame-recover c 1 1 s _ _ (process_incoming-defined c middleware from (header, none))
          (with_middleware_internal-IsTame middleware upstream from _ body s))

  answer_with_body-IsTame :
      (middleware : Middleware c) (upstream : Upstream) (from : SocketAddr) (header : ResponseParts)
      (body : Incoming) (s : State c)
      → IsTame c 0 0 s (answer_with_body c net middleware upstream from header body s)
  unfolding answer_with_body
  answer_with_body-IsTame middleware upstream from header body s =
      grind (arith, process_outgoing-defined c)

  send_request-IsTame :
      (sender : c.Sender) (request : Request c) (s : State c)
      → IsTame c 0 1 s (send_request c net sender request s)
  send_request-IsTame sender request s = ground arith

  send_with_body-IsTame :
      (middleware : Middleware c) (upstream : Upstream) (from : SocketAddr) (sender : c.Sender)
      (header : RequestParts) (entire_body : Bytes) (s : State c)
      → IsTame c 0 1 s (send_with_body c net middleware upstream from sender header entire_body s)
  unfolding send_with_body
  send_with_body-IsTame middleware upstream from sender header entire_body s =
      IsTame-bind c 0 1 0 0 s
        (send_request c net sender (record { parts = header; body = full entire_body }) s)
        (λ answer. answer_with_body c net middleware upstream from answer.0 answer.1)
        (send_request-IsTame sender _ s)
        (λ answer t. answer_with_body-IsTame middleware upstream from answer.0 answer.1 t)

  pub forward_with_body-IsTame :
      (middleware : Middleware c) (upstream : Upstream) (from : SocketAddr) (header : RequestParts)
      (entire_body : Bytes) (s : State c)
      → IsTame c 1 1 s (forward_with_body c net middleware upstream from header entire_body s)
  unfolding forward_with_body
  forward_with_body-IsTame middleware upstream from header entire_body s =
      let ran = process_incoming c middleware from (header, some entire_body) in
      let send = λ (sender : c.Sender).
        send_with_body c net middleware upstream from sender ran.1.0 (text c ran.1.1) in
      IsTame-bind c 1 0 0 1 s (open_client c net upstream s)
        (λ sender. or_internal_error c ran.0 (send sender)) (open_client-IsTame upstream s)
        (λ sender t.
          IsTame-recover c 0 1 t ran.0 (send sender)
            (process_incoming-defined c middleware from (header, some entire_body))
            (send_with_body-IsTame middleware upstream from sender _ _ t))
