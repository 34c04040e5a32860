-- ===== src/Service/Processing/Failures.antt =====
-- broxy-core/src/service.rs: configurations that fail every request, and failures before sending.
use broxy.Prelude.{
  ℕ, ◌≡◌, refl, Bool, true, false, List, [], ◌∷◌, ◌++◌, Option, none, some, if◌then◌else◌,
}
use broxy.Outcome.{Called, Error, ok, returns, fails, panics}
use broxy.LoadBalancer.{SocketAddr, Upstream}
use broxy.Crates.{Crates, Bytes}
use broxy.Filter.{Filter}
use broxy.Middleware.{
  Middleware, new as new_middleware, each_outgoing, process_incoming, process_outgoing,
}
use broxy.Middleware.Incoming.{MiddlewareIncomingFunction}
use broxy.Middleware.Outgoing.{MiddlewareOutgoingFunction, internal_with_body}
use broxy.Middleware.Chains.{IncomingTakesBody, new-needs_body_iff}
use broxy.Middleware.Responses.{each_outgoing-no_body}
use broxy.Network.{
  Network, State, Request, Response, incoming, sending, record_event, status_response,
}
use broxy.Service.{Service, new, with_body, without_body_with_middleware}
use broxy.Service.Processing.{
  process_without_body_with_middleware_internal, process, process_function,
}
use broxy.Service.Processing.Safety.{process_with_body-panics}
use broxy.Service.Processing.Exchange.{
  IsReachable, opened, open_client_lem, process-header_only_lem,
}

module _ (c : Crates) (net : Network c) (fs : List (Filter c)) (lb : ℕ)
    (nf : Option (SocketAddr → Bytes → Response c)) (upstream : Upstream) (from : SocketAddr)
    (header : c.RequestParts) (body : c.Incoming) (s : State c) where
  open c use {RequestParts, ResponseParts, Incoming}

  selected_body :
      (needs_body : Bool) (service : Service c)
      → needs_body ≡ true
      → service.body_filters ≡ []
      → process_function c net
          (if needs_body then with_body else without_body_with_middleware)
          service
          upstream
          from
          header
          body
          s
        ≡ (panics, s)
  selected_body true service h e =
      process_with_body-panics c net service upstream from header body s e
  selected_body false service h e = cc

  -- A service without body filters whose incoming middleware takes the body panics on every
  -- request, before anything reaches the network.
  pub process-body_middleware_panics :
      (inc : List (MiddlewareIncomingFunction c)) (out : List (MiddlewareOutgoingFunction c))
      → IncomingTakesBody c inc
      → process c net
          (new c fs [] (some (new_middleware c inc out)) lb nf)
          upstream
          from
          header
          body
          s
        ≡ (panics, s)
  unfolding process new
  process-body_middleware_panics inc out takes =
      selected_body _ _ ((new-needs_body_iff c inc out).0.1 takes) refl

  -- With middleware that leaves bodies alone and no body filters, a failure of the incoming chain
  -- is answered with 500, and the upstream is not contacted.
  process-incoming_fails_early :
      (middleware : Middleware c) (e : Error) (ran : RequestParts × Option Bytes)
      → middleware.incoming_needs_body ≡ false
      → process_incoming c middleware from (header, none) ≡ (fails e, ran)
      → process c net (new c fs [] (some middleware) lb nf) upstream from header body s
        ≡ (returns (status_response c 500), s)
  process-incoming_fails_early middleware e ran flag failed =
      rw
        (process-header_only_lem c net fs lb nf middleware upstream from header body s flag, failed)

  -- If no incoming function takes the body and there are no body filters, then an outgoing function
  -- that takes the body never gets one: the request is sent to the upstream and answered, and yet
  -- the client gets 500.
  pub process-outgoing_body_fails :
      (inc : List (MiddlewareIncomingFunction c)) (pre post : List (MiddlewareOutgoingFunction c))
      (g : SocketAddr
        → SocketAddr
        → ResponseParts
        → Bytes
        → Called (Unit {0}) × ResponseParts × Bytes)
      (header' : RequestParts) (parts parts' : ResponseParts) (answer : Incoming)
      {stream : c.TcpStream} {sender : c.Sender} {conn : c.Connection}
      → let middleware = new_middleware c inc (pre ++ internal_with_body g ∷ post) in
        let t = opened c net upstream.address stream conn s in
        let request : Request c = record { parts = header'; body = incoming body } in
        middleware.incoming_needs_body ≡ false
        → IsReachable c net s upstream.address stream sender conn
        → process_incoming c middleware from (header, none) ≡ (returns tt, (header', none))
        → net.send_request t.history sender request ≡ ok (parts, answer)
        → each_outgoing c pre from upstream.address (parts, none) ≡ (returns tt, (parts', none))
        → process c net (new c fs [] (some middleware) lb nf) upstream from header body s
          ≡ (returns (status_response c 500), record_event c (sending sender request) t)
  unfolding process_without_body_with_middleware_internal process_outgoing new_middleware
  process-outgoing_body_fails inc pre post g header' parts parts' answer flag reachable ran sent
        ran' =
      let middleware = new_middleware c inc (pre ++ internal_with_body g ∷ post) in
      rw (
        process-header_only_lem c net fs lb nf middleware upstream from header body s flag,
        ran,
        open_client_lem c net upstream s reachable,
        sent,
        each_outgoing-no_body c from upstream.address pre post g parts parts' ran',
      )
