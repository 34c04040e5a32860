-- ===== src/Future/Forwards.antt =====
-- broxy-core/src/service.rs: what a service sends for a request.
use broxy.Prelude.{◌≡◌, refl, sym, ap, ◌∙◌, true, List, [], ◌∷◌, Option, none, some}
use broxy.Outcome.{Result, ok, err, of_result, or_undefined, returns}
use broxy.LoadBalancer.{SocketAddr, Upstream}
use broxy.Crates.{Crates, Bytes}
use broxy.BodyFilter.{BodyFilter}
use broxy.Middleware.{Middleware, process_incoming, process_outgoing}
use broxy.Network.{Network, Event, Request, full, incoming}
use broxy.Service.{
  Service, ProcessFunction, with_body, without_body_with_middleware,
  without_body_without_middleware,
}
use broxy.Service.Filtering.{filter_request_by_body}
use broxy.Service.Processing.{BodyFilters, get_body_filters_raw, from_raw_parts, text}
use broxy.Service.Processing.Safety.{raw_parts-cons}
use broxy.Future.Calls.{
  collect, open_client_future, with_middleware_future, answer_with_body_future,
  send_with_body_future, forward_with_body_future, with_body_future, process_function_future,
  process_future,
}
use broxy.Future.Sends.{
  Sends, ready_then-Sends, bind-Sends, or_internal_error-Sends, if-Sends, open_client-Sends,
  send_request-Sends, without_body-Sends, with_middleware_internal-Sends,
}

of_result-ok : {A : Type 0} (r : Result A) (a : A) → of_result r ≡ returns a → r ≡ ok a
of_result-ok (ok b) a e = cc
of_result-ok (err x) a e = cc

module _ (c : Crates) (net : Network c) where
  open c use {RequestParts, ResponseParts, Incoming, Sender}

  -- The middleware lets a request through, with this header and body.
  abbrev pub Passes :
      Middleware c → SocketAddr → RequestParts → Option Bytes → RequestParts → Option Bytes → Type 0
  Passes middleware from header body header' body' =
      process_incoming c middleware from (header, body) ≡ (returns tt, (header', body'))

  -- What may be sent to an upstream for a request, by the way in which it is processed.
  abbrev pub ForwardsBy :
      ProcessFunction → Service c → SocketAddr → RequestParts → Incoming → Request c → Type 0
  ForwardsBy without_body_without_middleware service from header body request =
      request ≡ record { parts = header; body = incoming body }
  ForwardsBy without_body_with_middleware service from header body request =
      (middleware : Middleware c) × (header' : RequestParts) × (body' : Option Bytes)
      × (service.middleware ≡ some middleware)
      × Passes middleware from header none header' body'
      × (request ≡ record { parts = header'; body = incoming body })
  ForwardsBy with_body service from header body request =
      (middleware : Middleware c) × (h : List (Event c)) × (entire_body : Bytes)
      × (header' : RequestParts) × (body' : Option Bytes) × (net.collect h body ≡ ok entire_body)
      × (service.middleware ≡ some middleware)
      × (filter_request_by_body c service.body_filters from entire_body ≡ returns true)
      × Passes middleware from header (some entire_body) header' body'
      × (request ≡ record { parts = header'; body = full (text c body') })

  -- The filters that are read back are those of the service.
  raw_parts-same :
      (fs fs' : List (BodyFilter c)) (raw : BodyFilters c)
      → get_body_filters_raw c fs ≡ returns raw
      → from_raw_parts c raw ≡ returns fs'
      → fs' ≡ fs
  unfolding get_body_filters_raw
  raw_parts-same [] fs' raw e e' = cc
  raw_parts-same (f ∷ fs) fs' raw e e' = cc (raw_parts-cons c f fs, e, e')

  or_undefined-some : {A : Type 0} (o : Option A) (a : A) → or_undefined o ≡ returns a → o ≡ some a
  or_undefined-some none a e = cc
  or_undefined-some (some b) a e = cc

module _ (c : Crates) (net : Network c) (P : Request c → Type 0) where
  open c use {RequestParts, ResponseParts, Incoming, Sender}

  with_middleware-Sends :
      (service : Service c) (upstream : Upstream) (from : SocketAddr) (header : RequestParts)
      (body : Incoming)
      → ((request : Request c)
          → ForwardsBy c net without_body_with_middleware service from header body request
          → P request)
      → Sends net P (with_middleware_future c service upstream from header body)
  unfolding with_middleware_future
  with_middleware-Sends service upstream from header body p =
      ready_then-Sends net P (or_undefined service.middleware) _ (λ mw e.
        let passed = process_incoming c mw from (header, none) in
        or_internal_error-Sends net P passed.0 _ (λ ok.
          with_middleware_internal-Sends c net P mw upstream from passed.1.0 body (
            p _ (
              mw,
              passed.1.0,
              passed.1.1,
              or_undefined-some c net service.middleware mw e,
              ap (λ o. (o, passed.1)) ok,
              refl,
            ))))

  send_with_body-Sends :
      (middleware : Middleware c) (upstream : Upstream) (from : SocketAddr) (sender : Sender)
      (header : RequestParts) (entire_body : Bytes)
      → P (record { parts = header; body = full entire_body })
      → Sends net P (send_with_body_future c middleware upstream from sender header entire_body)
  unfolding send_with_body_future answer_with_body_future
  send_with_body-Sends middleware upstream from sender header entire_body p =
      send_request-Sends c net P sender (record { parts = header; body = full entire_body }) _ p
        (λ a.
          bind-Sends net P (collect a.1) _ (λ r. tt)
            (λ answer.
              let (o, _) = process_outgoing c middleware from upstream.address (a.0, some answer) in
              or_internal_error-Sends net P o _ (λ _. tt)))

  with_body-Sends :
      (service : Service c) (upstream : Upstream) (from : SocketAddr) (header : RequestParts)
      (body : Incoming)
      → ((request : Request c)
          → ForwardsBy c net with_body service from header body request
          → P request)
      → Sends net P (with_body_future c service upstream from header body)
  unfolding with_body_future forward_with_body_future
  with_body-Sends service upstream from header body p =
      ready_then-Sends net P (get_body_filters_raw c service.body_filters) _ (λ raw e1.
        ready_then-Sends net P (or_undefined service.middleware) _ (λ mw e2.
          ready_then-Sends net P (from_raw_parts c raw) _ (λ fs e3. λ h.
            ready_then-Sends net P (of_result (net.collect h body)) _ (λ entire_body read.
              ready_then-Sends net P (filter_request_by_body c fs from entire_body) _ (λ passed e4.
                if-Sends net P passed _ _
                  (λ e5.
                    bind-Sends net P (open_client_future c upstream) _
                      (open_client-Sends c net P upstream)
                      (λ sender.
                        let mapped = process_incoming c mw from (header, some entire_body) in
                        or_internal_error-Sends net P mapped.0 _ (λ ok.
                          send_with_body-Sends mw upstream from sender mapped.1.0
                            (text c mapped.1.1)
                            (p _ (
                              mw,
                              h,
                              entire_body,
                              mapped.1.0,
                              mapped.1.1,
                              of_result-ok (net.collect h body) entire_body read,
                              or_undefined-some c net service.middleware mw e2,
                              ap (λ gs. filter_request_by_body c gs from entire_body)
                                    (sym (raw_parts-same c net service.body_filters fs raw e1 e3))
                                  ∙ e4
                                  ∙ ap returns e5,
                              ap (λ o. (o, mapped.1)) ok,
                              refl,
                            )))))
                  tt)))))

  process_function-Sends :
      (kind : ProcessFunction) (service : Service c) (upstream : Upstream) (from : SocketAddr)
      (header : RequestParts) (body : Incoming)
      → ((request : Request c) → ForwardsBy c net kind service from header body request → P request)
      → Sends net P (process_function_future c kind service upstream from header body)
  process_function-Sends with_body service upstream from header body p =
      with_body-Sends service upstream from header body p
  process_function-Sends without_body_with_middleware service upstream from header body p =
      with_middleware-Sends service upstream from header body p
  process_function-Sends without_body_without_middleware service upstream from header body p =
      without_body-Sends c net P upstream header body (p _ refl)

  -- A service sends nothing but what its filters and its middleware let through.
  pub process_future-Sends :
      (service : Service c) (upstream : Upstream) (from : SocketAddr) (header : RequestParts)
      (body : Incoming)
      → ((request : Request c)
          → ForwardsBy c net service.process service from header body request
          → P request)
      → Sends net P (process_future c service upstream from header body)
  unfolding process_future
  process_future-Sends service = process_function-Sends service.process service
