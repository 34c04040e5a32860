-- ===== src/Future/Calls.antt =====
-- broxy-core/src/service.rs: the async functions that serve a request, as futures.
--
-- The parts without an `await` are those of Service and Bundle. The unchecked pointers and the filters
-- run between two suspensions; the only point before the first `await` that uses something shared is
-- the selection of an upstream.
use broxy.Prelude.{◌*◌, ltb, if◌then◌else◌, Bool, true, false, List, [], ◌∷◌, none, some}
use broxy.Outcome.{of_result, Outcome, returns, fails, panics, undefined, or_undefined}
use broxy.LoadBalancer.{SocketAddr, Upstream}
use broxy.Crates.{Crates, Bytes}
use broxy.Middleware.{Middleware, process_incoming, process_outgoing}
use broxy.Network.{Request, Response, full, incoming, status_response}
use broxy.Service.{
  Service, ProcessFunction, with_body, without_body_with_middleware,
  without_body_without_middleware,
}
use broxy.Service.Filtering.{filter_request_by_body, filter_request_by_header}
use broxy.Service.Processing.{get_body_filters_raw, from_raw_parts, refuse_body, text}
use broxy.Bundle.{max_size, ServiceBundle}
use broxy.Future.{
  Future, ready, selecting, await_connect, await_handshake, and_spawn, await_send, await_collect,
  ◌>>=◌, ◌>>◌, pure,
}

module _ {c : Crates} where
  open c use {TcpStream, Sender, Connection, ResponseParts, Incoming}

  abbrev pub connect : SocketAddr → Future c TcpStream
  connect address = await_connect address (λ r. ready (of_result r))

  abbrev pub handshake : TcpStream → Future c (Sender × Connection)
  handshake io = await_handshake io (λ r. ready (of_result r))

  abbrev pub spawn : Connection → Future c (Unit {0})
  spawn conn = and_spawn conn (pure tt)

  abbrev pub send_request : Sender → Request c → Future c (ResponseParts × Incoming)
  send_request sender request = await_send sender request (λ r. ready (of_result r))

  abbrev pub collect : Incoming → Future c Bytes
  collect body = await_collect body (λ r. ready (of_result r))

  -- An error of the middleware is answered with 500.
  abbrev pub or_internal_error : Outcome (Unit {0}) → Future c (Response c) → Future c (Response c)
  or_internal_error (returns _) rest = rest
  or_internal_error (fails e) rest = pure (status_response c 500)
  or_internal_error panics rest = ready panics
  or_internal_error undefined rest = ready undefined

module _ (c : Crates) where
  open c use {RequestParts, ResponseParts, Incoming, Sender, Race, next_race}

  unfoldable pub open_client_future : Upstream → Future c Sender
  open_client_future upstream = do
    stream ← connect upstream.address
    (sender, conn) ← handshake stream
    spawn conn
    pure sender

  unfoldable pub without_body_future : Upstream → RequestParts → Incoming → Future c (Response c)
  without_body_future upstream header body = do
    sender ← open_client_future upstream
    (header', body') ← send_request sender (record { parts = header; body = incoming body })
    pure (record { parts = header'; body = incoming body' })

  unfoldable pub with_middleware_internal_future :
      Middleware c → Upstream → SocketAddr → RequestParts → Incoming → Future c (Response c)
  with_middleware_internal_future middleware upstream from header body = do
    sender ← open_client_future upstream
    (header', body') ← send_request sender (record { parts = header; body = incoming body })
    let (outcome, (header'', _)) =
        process_outgoing c middleware from upstream.address (header', none)
    or_internal_error outcome (pure (record { parts = header''; body = incoming body' }))

  unfoldable pub with_middleware_future :
      Service c → Upstream → SocketAddr → RequestParts → Incoming → Future c (Response c)
  with_middleware_future service upstream from header body = do
    middleware ← ready (or_undefined service.middleware)
    let (outcome, (header', _)) = process_incoming c middleware from (header, none)
    or_internal_error outcome
        (with_middleware_internal_future middleware upstream from header' body)

  unfoldable pub answer_with_body_future :
      Middleware c → Upstream → SocketAddr → ResponseParts → Incoming → Future c (Response c)
  answer_with_body_future middleware upstream from header body = do
    entire_body ← collect body
    let (outcome, (header', body')) =
        process_outgoing c middleware from upstream.address (header, some entire_body)
    or_internal_error outcome (pure (record { parts = header'; body = full (text c body') }))

  unfoldable pub send_with_body_future :
      Middleware c → Upstream → SocketAddr → Sender → RequestParts → Bytes → Future c (Response c)
  send_with_body_future middleware upstream from sender header entire_body = do
    (header', body) ← send_request sender (record { parts = header; body = full entire_body })
    answer_with_body_future middleware upstream from header' body

  unfoldable pub forward_with_body_future :
      Middleware c → Upstream → SocketAddr → RequestParts → Bytes → Future c (Response c)
  forward_with_body_future middleware upstream from header entire_body = do
    sender ← open_client_future upstream
    let (outcome, (header', body')) = process_incoming c middleware from (header, some entire_body)
    or_internal_error outcome
        (send_with_body_future middleware upstream from sender header' (text c body'))

  unfoldable pub with_body_future :
      Service c → Upstream → SocketAddr → RequestParts → Incoming → Future c (Response c)
  with_body_future service upstream from header body = do
    raw ← ready (get_body_filters_raw c service.body_filters)
    middleware ← ready (or_undefined service.middleware)
    body_filters ← ready (from_raw_parts c raw)
    entire_body ← collect body
    passed ← ready (filter_request_by_body c body_filters from entire_body)
    if passed
        then forward_with_body_future middleware upstream from header entire_body
        else pure (refuse_body c service from entire_body)

  abbrev pub process_function_future :
      ProcessFunction
      → Service c
      → Upstream
      → SocketAddr
      → RequestParts
      → Incoming
      → Future c (Response c)
  process_function_future with_body = with_body_future
  process_function_future without_body_with_middleware = with_middleware_future
  process_function_future without_body_without_middleware =
      λ _ upstream _ header body. without_body_future upstream header body

  unfoldable pub process_future :
      Service c → Upstream → SocketAddr → RequestParts → Incoming → Future c (Response c)
  process_future service upstream from header body =
      process_function_future service.process service upstream from header body

  unfoldable pub serve_future :
      Service c → SocketAddr → RequestParts → Incoming → Future c (Response c)
  serve_future service from header body =
      if ltb (1024 * 64) (max_size (c.size_hint_upper body))
      then pure (status_response c 413)
      else do
        upstream ← selecting service.load_balancer ready
        process_future service upstream from header body

  -- A round of the loop over services.
  abbrev pub on_match_future :
      Outcome Bool → Future c (Response c) → Future c (Response c) → Future c (Response c)
  on_match_future (returns true) here rest = here
  on_match_future (returns false) here rest = rest
  on_match_future (fails e) here rest = pure (status_response c 500)
  on_match_future panics here rest = ready panics
  on_match_future undefined here rest = ready undefined

  unfoldable pub each_service_future :
      List (Service c) → Race → SocketAddr → RequestParts → Incoming → Future c (Response c)
  each_service_future [] race from header body = pure (status_response c 404)
  each_service_future (service ∷ services) race from header body =
      on_match_future (filter_request_by_header c service race from header)
        (serve_future service from header body)
        (each_service_future services (next_race race) from header body)

  unfoldable pub call_future :
      ServiceBundle c → Race → RequestParts → Incoming → Future c (Response c)
  unfolding each_service_future
  call_future bundle race header body =
      each_service_future bundle.services race bundle.from header body
