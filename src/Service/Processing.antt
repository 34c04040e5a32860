-- ===== src/Service/Processing.antt =====
-- broxy-core/src/service.rs: the three ways to process a request.
--
-- The code of a client connection, which the source repeats in each of them, is `open_client`.
-- `get_body_filters_raw` and `from_raw_parts` go through a pointer to the first of the filters: it
-- is modelled by the filters from there on, with their number.
pub mod Effects
pub mod Stages
pub mod Safety
pub mod Exchange
pub mod WholeBody
pub mod Failures
use broxy.Prelude.{ℕ, leb, if◌then◌else◌, List, [], ◌∷◌, Option, none, some, length, take}
use broxy.Outcome.{
  Outcome, returns, fails, panics, undefined, or_undefined, M, ◌>>=◌, ◌>>◌, pure, lift,
}
use broxy.LoadBalancer.{SocketAddr, Upstream}
use broxy.Crates.{Crates, Bytes}
use broxy.BodyFilter.{BodyFilter}
use broxy.Middleware.{Middleware, process_incoming, process_outgoing}
use broxy.Network.{
  full, incoming, Response, status_response, Network, State, connect, handshake, spawn,
  send_request, collect,
}
use broxy.Service.{
  Service, ProcessFunction, with_body, without_body_with_middleware,
  without_body_without_middleware,
}
use broxy.Service.Filtering.{filter_request_by_body}

module _ (c : Crates) where
  pub record BodyFilters : Type 0 where
    pub filters : List (BodyFilter c)
    pub len : ℕ

  unfoldable pub get_body_filters_raw : List (BodyFilter c) → Outcome BodyFilters
  get_body_filters_raw [] = panics
  get_body_filters_raw (f ∷ fs) = returns (record { filters = f ∷ fs; len = length (f ∷ fs) })

  -- `std::slice::from_raw_parts`
  unfoldable pub from_raw_parts : BodyFilters → Outcome (List (BodyFilter c))
  from_raw_parts raw =
      if leb raw.len (length raw.filters) then returns (take raw.len raw.filters) else undefined

  -- `if let Err(e) = …` with the answer 500: an error is answered, a panic goes on.
  abbrev pub or_internal_error :
      Outcome (Unit {0}) → M (State c) (Response c) → M (State c) (Response c)
  or_internal_error (returns _) rest = rest
  or_internal_error (fails e) rest = pure (status_response c 500)
  or_internal_error panics rest = lift panics
  or_internal_error undefined rest = lift undefined

  -- The text behind `entire_body`.
  abbrev pub text : Option Bytes → Bytes
  text none = []
  text (some body) = body

  -- The answer to a request whose body is refused.
  unfoldable pub refuse_body : Service c → SocketAddr → Bytes → Response c
  refuse_body service from body = elim service.not_found_body_response [
    | some not_found_body_response ↦ not_found_body_response from body
    | none ↦ status_response c 403
  ]

module _ (c : Crates) (net : Network c) where
  open c use {RequestParts, ResponseParts, Incoming, Sender}

  unfoldable pub open_client : Upstream → M (State c) Sender
  open_client upstream = do
    stream ← connect c net upstream.address
    (sender, conn) ← handshake c net stream
    spawn c net conn
    pure sender

  unfoldable pub process_without_body_internal :
      Upstream → RequestParts → Incoming → M (State c) (Response c)
  process_without_body_internal upstream header body = do
    sender ← open_client upstream
    (header', body') ← send_request c net sender (record { parts = header; body = incoming body })
    pure (record { parts = header'; body = incoming body' })

  unfoldable pub process_without_body_without_middleware :
      Service c → Upstream → SocketAddr → RequestParts → Incoming → M (State c) (Response c)
  process_without_body_without_middleware _ upstream _ header body =
      process_without_body_internal upstream header body

  unfoldable pub process_without_body_with_middleware_internal :
      Middleware c → Upstream → SocketAddr → RequestParts → Incoming → M (State c) (Response c)
  process_without_body_with_middleware_internal middleware upstream from header body = do
    sender ← open_client upstream
    (header', body') ← send_request c net sender (record { parts = header; body = incoming body })
    let (outcome, (header'', _)) =
        process_outgoing c middleware from upstream.address (header', none)
    or_internal_error c outcome (pure (record { parts = header''; body = incoming body' }))

  unfoldable pub process_without_body_with_middleware :
      Service c → Upstream → SocketAddr → RequestParts → Incoming → M (State c) (Response c)
  process_without_body_with_middleware service upstream from header body = do
    middleware ← lift (or_undefined service.middleware)
    let (outcome, (header', _)) = process_incoming c middleware from (header, none)
    or_internal_error c outcome
        (process_without_body_with_middleware_internal middleware upstream from header' body)

  -- The rest of `process_with_body` once the request is sent.
  unfoldable pub answer_with_body :
      Middleware c → Upstream → SocketAddr → ResponseParts → Incoming → M (State c) (Response c)
  answer_with_body middleware upstream from header body = do
    entire_body ← collect c net body
    let (outcome, (header', body')) =
        process_outgoing c middleware from upstream.address (header, some entire_body)
    or_internal_error c outcome (pure (record { parts = header'; body = full (text c body') }))

  -- The part before that: the request is sent with its whole body.
  unfoldable pub send_with_body :
      Middleware c
      → Upstream
      → SocketAddr
      → Sender
      → RequestParts
      → Bytes
      → M (State c) (Response c)
  send_with_body middleware upstream from sender header entire_body = do
    (header', body) ← send_request c net sender (record { parts = header; body = full entire_body })
    answer_with_body middleware upstream from header' body

  -- The middle of `process_with_body`, for a body that passed the filters.
  unfoldable pub forward_with_body :
      Middleware c → Upstream → SocketAddr → RequestParts → Bytes → M (State c) (Response c)
  forward_with_body middleware upstream from header entire_body = do
    sender ← open_client upstream
    let (outcome, (header', body')) = process_incoming c middleware from (header, some entire_body)
    or_internal_error c outcome
        (send_with_body middleware upstream from sender header' (text c body'))

  unfoldable pub process_with_body :
      Service c → Upstream → SocketAddr → RequestParts → Incoming → M (State c) (Response c)
  process_with_body service upstream from header body = do
    raw ← lift (get_body_filters_raw c service.body_filters)
    middleware ← lift (or_undefined service.middleware)
    body_filters ← lift (from_raw_parts c raw)
    entire_body ← collect c net body
    passed ← lift (filter_request_by_body c body_filters from entire_body)
    if passed
        then forward_with_body middleware upstream from header entire_body
        else pure (refuse_body c service from entire_body)

  abbrev pub process_function :
      ProcessFunction
      → Service c
      → Upstream
      → SocketAddr
      → RequestParts
      → Incoming
      → M (State c) (Response c)
  process_function with_body = process_with_body
  process_function without_body_with_middleware = process_without_body_with_middleware
  process_function without_body_without_middleware = process_without_body_without_middleware

  unfoldable pub process :
      Service c → Upstream → SocketAddr → RequestParts → Incoming → M (State c) (Response c)
  process service upstream from header body =
      process_function service.process service upstream from header body
