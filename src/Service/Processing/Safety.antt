-- ===== src/Service/Processing/Safety.antt =====
-- broxy-core/src/service.rs: what a service that `new` made may do, whatever the network answers.
use broxy.Prelude.{
  ℕ, ◌≡◌, ◌≢◌, refl, Bool, List, [], ◌∷◌, Option, none, some, arith, length, take-length,
  if◌then◌else◌,
}
use broxy.Outcome.{Outcome, returns, panics, undefined, M, and_then}
use broxy.LoadBalancer.{SocketAddr, Upstream}
use broxy.Crates.{Crates, Bytes}
use broxy.Filter.{Filter}
use broxy.BodyFilter.{BodyFilter}
use broxy.Middleware.{Middleware}
use broxy.Network.{Network, State, Response, collect}
use broxy.Service.{
  Service, new, ProcessFunction, with_body, without_body_with_middleware,
  without_body_without_middleware,
}
use broxy.Service.Filtering.{filter_request_by_body}
use broxy.Service.Filtering.Bodies.{filter_request_by_body-defined}
use broxy.Service.Processing.{
  get_body_filters_raw, from_raw_parts, refuse_body, process_without_body_without_middleware,
  forward_with_body, process_with_body, process, process_function,
}
use broxy.Service.Processing.Effects.{IsTame, IsTame-bind}
use broxy.Service.Processing.Stages.{
  internal-IsTame, with_middleware-IsTame, forward_with_body-IsTame,
}

module _ (c : Crates) where
  -- The pointer and the length that are read back stand for the filters of the service.
  pub raw_parts-cons :
      (f : BodyFilter c) (fs : List (BodyFilter c))
      → from_raw_parts c (record { filters = f ∷ fs; len = length (f ∷ fs) }) ≡ returns (f ∷ fs)
  unfolding from_raw_parts
  raw_parts-cons f fs = ground (arith, take-length fs)

module _ (c : Crates) (net : Network c) where
  open c use {RequestParts, ResponseParts, Incoming}

  collect-IsTame : (body : Incoming) (s : State c) → IsTame c 0 0 s (collect c net body s)
  collect-IsTame body s = ground arith

  -- What `process_with_body` does with the verdict of the body filters.
  abbrev pub on_verdict :
      Service c
      → Middleware c
      → Upstream
      → SocketAddr
      → RequestParts
      → Bytes
      → Outcome Bool
      → M (State c) (Response c)
  on_verdict service middleware upstream from header entire_body verdict s =
      and_then (verdict, s)
        (λ passed.
          if passed
          then forward_with_body c net middleware upstream from header entire_body
          else (λ t. (returns (refuse_body c service from entire_body), t)))

  -- With middleware and body filters, the pointers are followed without a fault.
  pub process_with_body_lem :
      (service : Service c) (middleware : Middleware c) (f : BodyFilter c)
      (fs : List (BodyFilter c)) (upstream : Upstream) (from : SocketAddr) (header : RequestParts)
      (body : Incoming) (s : State c)
      → service.middleware ≡ some middleware
      → service.body_filters ≡ f ∷ fs
      → process_with_body c net service upstream from header body s
        ≡ and_then (collect c net body s) (λ entire_body.
          on_verdict service middleware upstream from header entire_body
            (filter_request_by_body c (f ∷ fs) from entire_body))
  unfolding process_with_body get_body_filters_raw
  process_with_body_lem service middleware f fs upstream from header body s e e' =
      rw (e, e', process_with_body, raw_parts-cons c)

  on_verdict-IsTame :
      (service : Service c) (middleware : Middleware c) (upstream : Upstream) (from : SocketAddr)
      (header : RequestParts) (entire_body : Bytes) (verdict : Outcome Bool) (s : State c)
      → verdict ≢ undefined
      → IsTame c 1 1 s (on_verdict service middleware upstream from header entire_body verdict s)
  on_verdict-IsTame service middleware upstream from header entire_body verdict s d =
      ground (arith, forward_with_body-IsTame c net middleware upstream from header entire_body s)

  with_body-IsTame :
      (service : Service c) (middleware : Middleware c) (f : BodyFilter c)
      (fs : List (BodyFilter c)) (upstream : Upstream) (from : SocketAddr) (header : RequestParts)
      (body : Incoming) (s : State c)
      → service.middleware ≡ some middleware
      → service.body_filters ≡ f ∷ fs
      → IsTame c 1 1 s (process_with_body c net service upstream from header body s)
  with_body-IsTame service middleware f fs upstream from header body s e e' =
      rw (process_with_body_lem service middleware f fs upstream from header body s e e') (
        IsTame-bind c 0 0 1 1 s (collect c net body s)
          (λ b.
            on_verdict service middleware upstream from header b
              (filter_request_by_body c (f ∷ fs) from b))
          (collect-IsTame body s)
          (λ b t.
            on_verdict-IsTame service middleware upstream from header b _ t
              (filter_request_by_body-defined c from b (f ∷ fs))))

  -- Without body filters, `process_with_body` panics at once.
  pub process_with_body-panics :
      (service : Service c) (upstream : Upstream) (from : SocketAddr) (header : RequestParts)
      (body : Incoming) (s : State c)
      → service.body_filters ≡ []
      → process_with_body c net service upstream from header body s ≡ (panics, s)
  unfolding process_with_body get_body_filters_raw
  process_with_body-panics service upstream from header body s e = rw (e, process_with_body)

  no_body_filters-IsTame :
      (kind : ProcessFunction) (service : Service c) (middleware : Middleware c)
      (upstream : Upstream) (from : SocketAddr) (header : RequestParts) (body : Incoming)
      (s : State c)
      → service.middleware ≡ some middleware
      → service.body_filters ≡ []
      → IsTame c 1 1 s (process_function c net kind service upstream from header body s)
  unfolding process_without_body_without_middleware
  no_body_filters-IsTame with_body service middleware upstream from header body s e e' =
      rw (process_with_body-panics service upstream from header body s e') (ground arith)
  no_body_filters-IsTame without_body_with_middleware service middleware upstream from header body s
        e e' =
      with_middleware-IsTame c net service middleware upstream from header body s e
  no_body_filters-IsTame without_body_without_middleware service middleware upstream from header
        body s e e' =
      internal-IsTame c net upstream header body s

  -- Whatever its arguments and the answers of the network, a service that `new` made processes a
  -- request without undefined behaviour, leaves every balancer as it is, connects at most once and
  -- sends at most one request.
  pub new-process-IsTame :
      (fs : List (Filter c)) (bfs : List (BodyFilter c)) (mw : Option (Middleware c)) (lb : ℕ)
      (nf : Option (SocketAddr → Bytes → Response c)) (upstream : Upstream) (from : SocketAddr)
      (header : RequestParts) (body : Incoming) (s : State c)
      → IsTame c 1 1 s (process c net (new c fs bfs mw lb nf) upstream from header body s)
  unfolding process new process_without_body_without_middleware
  new-process-IsTame fs bfs none lb nf upstream from header body s =
      internal-IsTame c net upstream header body s
  new-process-IsTame fs (f ∷ bfs) (some middleware) lb nf upstream from header body s =
      with_body-IsTame _ middleware f bfs upstream from header body s refl refl
  new-process-IsTame fs [] (some middleware) lb nf upstream from header body s =
      no_body_filters-IsTame _ _ middleware upstream from header body s refl refl
