-- ===== src/Future/Bounds.antt =====
-- broxy-core/src/service.rs: how many steps the futures of a request take, and what they may do.
use broxy.Prelude.{
  ℕ, ◌+◌, ◌≡◌, refl, if◌then◌else◌, Bool, true, false, List, [], ◌∷◌, Option, none, some, arith,
}
use broxy.Outcome.{of_result, or_undefined}
use broxy.LoadBalancer.{SocketAddr, Upstream}
use broxy.Crates.{Crates, Bytes}
use broxy.Filter.{Filter}
use broxy.BodyFilter.{BodyFilter}
use broxy.Middleware.{Middleware}
use broxy.Network.{Request, Response, full, incoming}
use broxy.Service.{
  Service, new, ProcessFunction, with_body, without_body_with_middleware,
  without_body_without_middleware,
}
use broxy.Service.Filtering.{filter_request_by_body}
use broxy.Service.Filtering.Bodies.{filter_request_by_body-defined}
use broxy.Service.Processing.{get_body_filters_raw}
use broxy.Service.Processing.Stages.{process_incoming-defined, process_outgoing-defined}
use broxy.Service.Processing.Safety.{raw_parts-cons}
use broxy.Future.{Future, ◌>>=◌}
use broxy.Future.Calls.{
  send_request, collect, open_client_future, without_body_future, with_middleware_internal_future,
  with_middleware_future, answer_with_body_future, send_with_body_future, forward_with_body_future,
  with_body_future, process_function_future, process_future,
}
use broxy.Future.Budget.{
  Within, Within-mono, ready_then-Within, bind-Within, of_result-defined, or_internal_error-Within,
}

module _ (c : Crates) where
  open c use {RequestParts, ResponseParts, Incoming, Sender}

  open_client-Within : (upstream : Upstream) → Within 3 1 0 (open_client_future c upstream)
  unfolding open_client_future
  open_client-Within upstream = (
    omega arith,
    omega arith,
    λ r. ready_then-Within 2 0 0 (of_result r) _ (of_result-defined r) (λ stream. (
      omega arith,
      λ shaken.
          ready_then-Within 1 0 0 (of_result shaken) _ (of_result-defined shaken)
            (λ client. (omega arith, cc)),
    )),
  )

  send_request-Within :
      {B : Type 0} (t m n : ℕ) (sender : Sender) (request : Request c)
      (f : ResponseParts × Incoming → Future c B)
      → ((a : ResponseParts × Incoming) → Within t m n (f a))
      → Within (1 + t) (0 + m) (1 + n) (send_request sender request >>= f)
  send_request-Within t m n sender request f w =
      bind-Within (send_request sender request) f 1 0 1 t m n
        (omega arith, omega arith, of_result-defined) w

  collect-Within :
      {B : Type 0} (t m n : ℕ) (body : Incoming) (f : Bytes → Future c B)
      → ((a : Bytes) → Within t m n (f a))
      → Within (1 + t) (0 + m) (0 + n) (collect body >>= f)
  collect-Within t m n body f w =
      bind-Within (collect body) f 1 0 0 t m n (omega arith, of_result-defined) w

  without_body-Within :
      (upstream : Upstream) (header : RequestParts) (body : Incoming)
      → Within 4 1 1 (without_body_future c upstream header body)
  unfolding without_body_future
  without_body-Within upstream header body =
      bind-Within (open_client_future c upstream) _ 3 1 0 1 0 1 (open_client-Within upstream)
        (λ sender.
          send_request-Within 0 0 0 sender (record { parts = header; body = incoming body }) _
            (λ a. cc))

  with_middleware_internal-Within :
      (middleware : Middleware c) (upstream : Upstream) (from : SocketAddr) (header : RequestParts)
      (body : Incoming)
      → Within 4 1 1 (with_middleware_internal_future c middleware upstream from header body)
  unfolding with_middleware_internal_future
  with_middleware_internal-Within middleware upstream from header body =
      bind-Within (open_client_future c upstream) _ 3 1 0 1 0 1 (open_client-Within upstream)
        (λ sender.
          send_request-Within 0 0 0 sender (record { parts = header; body = incoming body }) _
            (λ a.
              or_internal_error-Within 0 0 0 _ _
                (process_outgoing-defined c middleware from upstream.address (a.0, none)) cc))

  with_middleware-Within :
      (service : Service c) (middleware : Middleware c) (upstream : Upstream) (from : SocketAddr)
      (header : RequestParts) (body : Incoming)
      → service.middleware ≡ some middleware
      → Within 4 1 1 (with_middleware_future c service upstream from header body)
  unfolding with_middleware_future
  with_middleware-Within service middleware upstream from header body e =
      ready_then-Within 4 1 1 (or_undefined service.middleware) _ (ground arith) (λ mw.
        or_internal_error-Within 4 1 1 _ _ (process_incoming-defined c mw from (header, none))
          (with_middleware_internal-Within mw upstream from _ body))

  answer_with_body-Within :
      (middleware : Middleware c) (upstream : Upstream) (from : SocketAddr) (header : ResponseParts)
      (body : Incoming)
      → Within 1 0 0 (answer_with_body_future c middleware upstream from header body)
  unfolding answer_with_body_future
  answer_with_body-Within middleware upstream from header body =
      collect-Within 0 0 0 body _ (λ entire_body.
        or_internal_error-Within 0 0 0 _ _
          (process_outgoing-defined c middleware from upstream.address (header, some entire_body))
          cc)

  send_with_body-Within :
      (middleware : Middleware c) (upstream : Upstream) (from : SocketAddr) (sender : Sender)
      (header : RequestParts) (entire_body : Bytes)
      → Within 2 0 1 (send_with_body_future c middleware upstream from sender header entire_body)
  unfolding send_with_body_future
  send_with_body-Within middleware upstream from sender header entire_body =
      send_request-Within 1 0 0 sender (record { parts = header; body = full entire_body }) _
        (λ a. answer_with_body-Within middleware upstream from a.0 a.1)

  forward_with_body-Within :
      (middleware : Middleware c) (upstream : Upstream) (from : SocketAddr) (header : RequestParts)
      (entire_body : Bytes)
      → Within 5 1 1 (forward_with_body_future c middleware upstream from header entire_body)
  unfolding forward_with_body_future
  forward_with_body-Within middleware upstream from header entire_body =
      bind-Within (open_client_future c upstream) _ 3 1 0 2 0 1 (open_client-Within upstream)
        (λ sender.
          or_internal_error-Within 2 0 1 _ _
            (process_incoming-defined c middleware from (header, some entire_body))
            (send_with_body-Within middleware upstream from sender _ _))

  if-Within :
      {A : Type 0} (t m n : ℕ) (b : Bool) (x y : Future c A)
      → Within t m n x
      → Within t m n y
      → Within t m n (if b then x else y)
  if-Within t m n true x y v w = v
  if-Within t m n false x y v w = w

  with_body-Within :
      (service : Service c) (middleware : Middleware c) (f : BodyFilter c)
      (fs : List (BodyFilter c)) (upstream : Upstream) (from : SocketAddr) (header : RequestParts)
      (body : Incoming)
      → service.middleware ≡ some middleware
      → service.body_filters ≡ f ∷ fs
      → Within 6 1 1 (with_body_future c service upstream from header body)
  unfolding with_body_future get_body_filters_raw
  with_body-Within service middleware f fs upstream from header body e e' =
      rw (e', e, raw_parts-cons c f fs)
        (collect-Within 5 1 1 body _ (λ entire_body.
          ready_then-Within 5 1 1 (filter_request_by_body c (f ∷ fs) from entire_body) _
            (filter_request_by_body-defined c from entire_body (f ∷ fs))
            (λ passed.
              if-Within 5 1 1 passed _ _
                (forward_with_body-Within middleware upstream from header entire_body) cc)))

  -- Without body filters, it panics at once.
  with_body-panics :
      (service : Service c) (upstream : Upstream) (from : SocketAddr) (header : RequestParts)
      (body : Incoming)
      → service.body_filters ≡ []
      → Within 6 1 1 (with_body_future c service upstream from header body)
  unfolding with_body_future get_body_filters_raw
  with_body-panics service upstream from header body e = rw e cc

  no_body_filters-Within :
      (kind : ProcessFunction) (service : Service c) (middleware : Middleware c)
      (upstream : Upstream) (from : SocketAddr) (header : RequestParts) (body : Incoming)
      → service.middleware ≡ some middleware
      → service.body_filters ≡ []
      → Within 6 1 1 (process_function_future c kind service upstream from header body)
  no_body_filters-Within with_body service middleware upstream from header body e e' =
      with_body-panics service upstream from header body e'
  no_body_filters-Within without_body_with_middleware service middleware upstream from header body e
        e' =
      Within-mono _ 4 1 1 6 1 1 (omega arith) (omega arith) (omega arith)
        (with_middleware-Within service middleware upstream from header body e)
  no_body_filters-Within without_body_without_middleware service middleware upstream from header
        body e e' =
      Within-mono _ 4 1 1 6 1 1 (omega arith) (omega arith) (omega arith)
        (without_body-Within upstream header body)

  -- Whatever its arguments and the answers of the network, a service that `new` made is done with a
  -- request after at most six steps, without undefined behaviour, and connects and sends once
  -- at most.
  pub new-process_future-Within :
      (fs : List (Filter c)) (bfs : List (BodyFilter c)) (mw : Option (Middleware c)) (lb : ℕ)
      (nf : Option (SocketAddr → Bytes → Response c)) (upstream : Upstream) (from : SocketAddr)
      (header : RequestParts) (body : Incoming)
      → Within 6 1 1 (process_future c (new c fs bfs mw lb nf) upstream from header body)
  unfolding process_future new
  new-process_future-Within fs bfs none lb nf upstream from header body =
      Within-mono _ 4 1 1 6 1 1 (omega arith) (omega arith) (omega arith)
        (without_body-Within upstream header body)
  new-process_future-Within fs (f ∷ bfs) (some middleware) lb nf upstream from header body =
      with_body-Within _ middleware f bfs upstream from header body refl refl
  new-process_future-Within fs [] (some middleware) lb nf upstream from header body =
      no_body_filters-Within _ _ middleware upstream from header body refl refl
