-- ===== src/Future/Handlers.antt =====
-- broxy-core/src/service.rs: the futures of a request against the functions of Service and Bundle.
use broxy.Prelude.{◌*◌, ◌≡◌, refl, Bool, true, false, List, [], ◌∷◌, ltb, if◌then◌else◌}
use broxy.Outcome.{Outcome, returns, fails, panics, undefined, or_undefined, M}
use broxy.LoadBalancer.{SocketAddr, Upstream}
use broxy.Crates.{Crates}
use broxy.Network.{Network, State, Response}
use broxy.Service.{
  Service, ProcessFunction, with_body, without_body_with_middleware,
  without_body_without_middleware, get_upstream,
}
use broxy.Service.Filtering.{filter_request_by_header, filter_request_by_body}
use broxy.Service.Processing.{
  process_without_body_without_middleware, process_with_body, process_function, process,
  get_body_filters_raw, from_raw_parts,
}
use broxy.Bundle.{max_size, ServiceBundle, on_match, serve, each_service, call}
use broxy.Future.{Future, ready, selecting, block_on}
use broxy.Future.Calls.{
  with_body_future, process_function_future, process_future, serve_future, on_match_future,
  each_service_future, call_future,
}
use broxy.Future.Agreement.{Agrees, bind-Agrees}
use broxy.Future.Stages.{
  ready-Agrees, ready_then-Agrees, collect-Agrees, without_body-Agrees, with_middleware-Agrees,
  forward_with_body-Agrees,
}

module _ (c : Crates) (net : Network c) where
  open c use {RequestParts, ResponseParts, Incoming, Sender}

  if-Agrees :
      (b : Bool) (t u : Future c (Response c)) (m n : M (State c) (Response c))
      → Agrees net t m
      → Agrees net u n
      → Agrees net (if b then t else u) (if b then m else n)
  if-Agrees true t u m n h k = h
  if-Agrees false t u m n h k = k

  with_body-Agrees :
      (service : Service c) (upstream : Upstream) (from : SocketAddr) (header : RequestParts)
      (body : Incoming)
      → Agrees net
          (with_body_future c service upstream from header body)
          (process_with_body c net service upstream from header body)
  unfolding with_body_future process_with_body
  with_body-Agrees service upstream from header body =
      ready_then-Agrees c net (get_body_filters_raw c service.body_filters) _ _ (λ raw.
        ready_then-Agrees c net (or_undefined service.middleware) _ _ (λ middleware.
          ready_then-Agrees c net (from_raw_parts c raw) _ _ (λ body_filters.
            collect-Agrees c net body _ _ (λ entire_body.
              ready_then-Agrees c net (filter_request_by_body c body_filters from entire_body) _ _
                (λ passed.
                  if-Agrees passed _ _ _ _
                    (forward_with_body-Agrees c net middleware upstream from header entire_body)
                    (ready-Agrees c net _))))))

  process_function-Agrees :
      (kind : ProcessFunction) (service : Service c) (upstream : Upstream) (from : SocketAddr)
      (header : RequestParts) (body : Incoming)
      → Agrees net
          (process_function_future c kind service upstream from header body)
          (process_function c net kind service upstream from header body)
  unfolding process_without_body_without_middleware
  process_function-Agrees with_body service upstream from header body =
      with_body-Agrees service upstream from header body
  process_function-Agrees without_body_with_middleware service upstream from header body =
      with_middleware-Agrees c net service upstream from header body
  process_function-Agrees without_body_without_middleware service upstream from header body =
      without_body-Agrees c net upstream header body

  process-Agrees :
      (service : Service c) (upstream : Upstream) (from : SocketAddr) (header : RequestParts)
      (body : Incoming)
      → Agrees net
          (process_future c service upstream from header body)
          (process c net service upstream from header body)
  unfolding process_future process
  process-Agrees service upstream from header body =
      process_function-Agrees service.process service upstream from header body

  select-Agrees :
      (service : Service c)
      → Agrees net (selecting service.load_balancer ready) (get_upstream c service)
  unfolding get_upstream block_on
  select-Agrees service s = refl

  serve-Agrees :
      (service : Service c) (from : SocketAddr) (header : RequestParts) (body : Incoming)
      → Agrees net (serve_future c service from header body) (serve c net service from header body)
  unfolding serve_future serve
  serve-Agrees service from header body =
      if-Agrees (ltb (1024 * 64) (max_size (c.size_hint_upper body))) _ _ _ _ (ready-Agrees c net _)
        (bind-Agrees net (selecting service.load_balancer ready) (get_upstream c service) _ _
          (select-Agrees service) (λ upstream. process-Agrees service upstream from header body))

  on_match-Agrees :
      (r : Outcome Bool) (t u : Future c (Response c)) (m n : M (State c) (Response c))
      → Agrees net t m
      → Agrees net u n
      → Agrees net (on_match_future c r t u) (on_match c r m n)
  on_match-Agrees (returns true) t u m n h k = h
  on_match-Agrees (returns false) t u m n h k = k
  on_match-Agrees (fails e) t u m n h k = ready-Agrees c net _
  on_match-Agrees panics t u m n h k = ready-Agrees c net _
  on_match-Agrees undefined t u m n h k = ready-Agrees c net _

  each_service-Agrees :
      (services : List (Service c)) (race : c.Race) (from : SocketAddr) (header : RequestParts)
      (body : Incoming)
      → Agrees net
          (each_service_future c services race from header body)
          (each_service c net services race from header body)
  unfolding each_service_future each_service
  each_service-Agrees [] race from header body = ready-Agrees c net _
  each_service-Agrees (service ∷ services) race from header body =
      on_match-Agrees (filter_request_by_header c service race from header) _ _ _ _
        (serve-Agrees service from header body)
        (each_service-Agrees services (c.next_race race) from header body)

  -- Awaiting the future of a call with nothing else running does exactly what the call, as one
  -- function of the shared state, does: the same answer, the same events, the same selections.
  block_on-call :
      (bundle : ServiceBundle c) (race : c.Race) (header : RequestParts) (body : Incoming)
      (s : State c)
      → block_on c net (call_future c bundle race header body) s
        ≡ call c net bundle race header body s
  unfolding call_future call
  block_on-call bundle race header body =
      each_service-Agrees bundle.services race bundle.from header body
