-- ===== src/Service/Processing/Exchange.antt =====
-- broxy-core/src/service.rs: the exchange with an upstream, stage by stage.
use broxy.Prelude.{
  ℕ, ◌≡◌, refl, Bool, true, false, List, [], ◌∷◌, Option, none, some, if◌then◌else◌,
}
use broxy.Outcome.{ok, returns}
use broxy.LoadBalancer.{SocketAddr, Upstream}
use broxy.Crates.{Crates, Bytes}
use broxy.Filter.{Filter}
use broxy.BodyFilter.{BodyFilter}
use broxy.Middleware.{Middleware, process_incoming, process_outgoing}
use broxy.Network.{
  Network, State, Request, Response, incoming, connecting, handshaking, spawning, sending,
  record_event,
}
use broxy.Service.{Service, new, with_body, without_body_with_middleware}
use broxy.Service.Processing.{
  open_client, process_without_body_internal, process_without_body_without_middleware,
  process_without_body_with_middleware_internal, process_without_body_with_middleware, process,
  process_function, or_internal_error,
}

module _ (c : Crates) (net : Network c) where
  open c use {RequestParts, ResponseParts, Incoming}

  -- The upstream at `address` accepts a connection and shakes hands.
  pub record IsReachable (s : State c) (address : SocketAddr) (stream : c.TcpStream)
      (sender : c.Sender) (conn : c.Connection) : Type 0 where
    pub connected : net.connect s.history address ≡ ok stream
    pub shaken : net.handshake (connecting address ∷ s.history) stream ≡ ok (sender, conn)

  -- The state once the connection stands.
  abbrev pub opened : SocketAddr → c.TcpStream → c.Connection → State c → State c
  opened address stream conn s = record s {
    history = spawning conn ∷ handshaking stream ∷ connecting address ∷ s.history;
  }

  pub open_client_lem :
      (upstream : Upstream) (s : State c) {stream : c.TcpStream} {sender : c.Sender}
      {conn : c.Connection}
      → IsReachable s upstream.address stream sender conn
      → open_client c net upstream s ≡ (returns sender, opened upstream.address stream conn s)
  unfolding open_client
  open_client_lem upstream s r = rw (r.connected, r.shaken)

  selected :
      (needs_body : Bool) (service : Service c) (upstream : Upstream) (from : SocketAddr)
      (header : RequestParts) (body : Incoming) (s : State c)
      → needs_body ≡ false
      → process_function c net
          (if needs_body then with_body else without_body_with_middleware)
          service
          upstream
          from
          header
          body
          s
        ≡ process_without_body_with_middleware c net service upstream from header body s
  selected true service upstream from header body s h = cc
  selected false service upstream from header body s h = refl

  -- How a service with middleware and no body filters processes a request, if the middleware does
  -- not ask for the body.
  pub process-header_only_lem :
      (fs : List (Filter c)) (lb : ℕ) (nf : Option (SocketAddr → Bytes → Response c))
      (middleware : Middleware c) (upstream : Upstream) (from : SocketAddr) (header : RequestParts)
      (body : Incoming) (s : State c)
      → middleware.incoming_needs_body ≡ false
      → let ran = process_incoming c middleware from (header, none) in
        process c net (new c fs [] (some middleware) lb nf) upstream from header body s
        ≡ or_internal_error c ran.0
            (process_without_body_with_middleware_internal c net middleware upstream from ran.1.0
              body)
            s
  unfolding process new process_without_body_with_middleware
  process-header_only_lem fs lb nf middleware upstream from header body s h =
      selected _ _ upstream from header body s h

  module _ (fs : List (Filter c)) (lb : ℕ) (nf : Option (SocketAddr → Bytes → Response c))
      (upstream : Upstream) (from : SocketAddr) (header : RequestParts) (body : Incoming)
      (s : State c) {stream : c.TcpStream} {sender : c.Sender} {conn : c.Connection}
      (reachable : IsReachable s upstream.address stream sender conn) where
    -- Without middleware the request goes to the upstream as it came and the answer comes back as
    -- it is, whatever the body filters of the service say.
    pub process-unfiltered :
        (bfs : List (BodyFilter c)) (parts : ResponseParts) (answer : Incoming)
        → let t = opened upstream.address stream conn s in
          let request : Request c = record { parts = header; body = incoming body } in
          net.send_request t.history sender request ≡ ok (parts, answer)
          → process c net (new c fs bfs none lb nf) upstream from header body s ≡ (
            returns (record { parts = parts; body = incoming answer }),
            record_event c (sending sender request) t,
          )
    unfolding process new process_without_body_without_middleware process_without_body_internal
    process-unfiltered bfs parts answer sent = rw (open_client_lem upstream s reachable, sent)

    -- With middleware that leaves bodies alone and no body filters, the upstream gets the header as
    -- the incoming chain left it with the body as it came, and the client gets the header of the
    -- answer as the outgoing chain left it with the body of the answer as it came.
    pub process-header_only :
        (middleware : Middleware c) (header' : RequestParts) (parts parts' : ResponseParts)
        (answer : Incoming)
        → let t = opened upstream.address stream conn s in
          let request : Request c = record { parts = header'; body = incoming body } in
          middleware.incoming_needs_body ≡ false
          → process_incoming c middleware from (header, none) ≡ (returns tt, (header', none))
          → net.send_request t.history sender request ≡ ok (parts, answer)
          → process_outgoing c middleware from upstream.address (parts, none)
            ≡ (returns tt, (parts', none))
          → process c net (new c fs [] (some middleware) lb nf) upstream from header body s ≡ (
            returns (record { parts = parts'; body = incoming answer }),
            record_event c (sending sender request) t,
          )
    unfolding process_without_body_with_middleware_internal
    process-header_only middleware header' parts parts' answer flag ran sent ran' = rw (
      process-header_only_lem fs lb nf middleware upstream from header body s flag,
      ran,
      open_client_lem upstream s reachable,
      sent,
      ran',
    )
