-- ===== src/Future/Yields.antt =====
-- broxy-core/src/service.rs: which answers a future may end with.
use mathlib.Core.Path.{subst}
use broxy.Prelude.{
  ◌≡◌, ◌≢◌, ◌⊎◌, inl, inr, refl, sym, ap, if◌then◌else◌, Bool, true, false, List, [], ◌∷◌, Option,
  none, some, length,
}
use broxy.Outcome.{
  or_undefined, Error, Result, ok, err, of_result, Outcome, returns, fails, panics, undefined,
}
use broxy.LoadBalancer.{SocketAddr, Upstream}
use broxy.Crates.{Crates, Bytes}
use broxy.BodyFilter.{BodyFilter}
use broxy.Middleware.{Middleware}
use broxy.Network.{Network, Event, Response, status_response}
use broxy.Service.{
  Service, ProcessFunction, with_body, without_body_with_middleware,
  without_body_without_middleware,
}
use broxy.Service.Filtering.{filter_request_by_body}
use broxy.Service.Processing.{refuse_body, BodyFilters, get_body_filters_raw, from_raw_parts}
use broxy.Service.Processing.Safety.{raw_parts-cons}
use broxy.Future.{
  Future, ready, selecting, await_connect, await_handshake, and_spawn, await_send, await_collect,
  ◌>>=◌, ready_then, pure,
}
use broxy.Future.Calls.{
  with_middleware_future, forward_with_body_future, with_body_future, without_body_future,
  process_function_future, process_future,
}

module _ {c : Crates} (net : Network c) {A : Type 0} (Q : Outcome A → Type 0) where
  -- Whatever answers it gets, where a server is selected and bodies are read by the network at some moment, the future ends only
  -- in a way of which `Q` holds.
  abbrev pub Yields : Future c A → Type 0
  Yields (ready o) = Q o
  Yields (selecting i k) = (u : Upstream) → Yields (k (returns u))
  Yields (await_connect a k) = (r : Result c.TcpStream) → Yields (k r)
  Yields (await_handshake io k) = (r : Result (c.Sender × c.Connection)) → Yields (k r)
  Yields (and_spawn conn k) = Yields k
  Yields (await_send sender request k) = (r : Result (c.ResponseParts × c.Incoming)) → Yields (k r)
  Yields (await_collect body k) = (h : List (Event c)) → Yields (k (net.collect h body))

  pub any-Yields : (f : Future c A) → ((o : Outcome A) → Q o) → Yields f
  any-Yields (ready o) q = q o
  any-Yields (selecting i k) q = λ u. any-Yields (k (returns u)) q
  any-Yields (await_connect a k) q = λ r. any-Yields (k r) q
  any-Yields (await_handshake io k) q = λ r. any-Yields (k r) q
  any-Yields (and_spawn conn k) q = any-Yields k q
  any-Yields (await_send sender request k) q = λ r. any-Yields (k r) q
  any-Yields (await_collect body k) q = λ h. any-Yields (k (net.collect h body)) q

  pub returns-Yields :
      {B : Type 0} (o : Outcome B) (b : B) (f : B → Future c A)
      → o ≡ returns b
      → Yields (f b)
      → Yields (ready_then o f)
  returns-Yields o b f e y = subst (λ p. Yields (ready_then p f)) (sym e) y

module _ {c : Crates} (net : Network c) {A : Type 0} (P Q : Outcome A → Type 0)
    (weaker : (o : Outcome A) → P o → Q o) where
  pub Yields-mono : (f : Future c A) → Yields net P f → Yields net Q f
  Yields-mono (ready o) y = weaker o y
  Yields-mono (selecting i k) y = λ u. Yields-mono (k (returns u)) (y u)
  Yields-mono (await_connect a k) y = λ r. Yields-mono (k r) (y r)
  Yields-mono (await_handshake io k) y = λ r. Yields-mono (k r) (y r)
  Yields-mono (and_spawn conn k) y = Yields-mono k y
  Yields-mono (await_send sender request k) y = λ r. Yields-mono (k r) (y r)
  Yields-mono (await_collect body k) y = λ h. Yields-mono (k (net.collect h body)) (y h)

module _ (c : Crates) (net : Network c) (from : SocketAddr) (header : c.RequestParts)
    (body : c.Incoming) where
  -- The answer to a body that the filters do not pass.
  abbrev pub refused : Service c → Bytes → Outcome Bool → Outcome (Response c)
  refused service text (returns _) = returns (elim service.not_found_body_response [
    | some respond ↦ respond from text
    | none ↦ status_response c 403
  ])
  refused service text (fails e) = fails e
  refused service text panics = panics
  refused service text undefined = undefined

  -- The network gave this text when it read the body.
  abbrev pub IsRead : Bytes → Type 0
  IsRead text = (h : List (Event c)) × (net.collect h body ≡ ok text)

  -- What comes of a request by the function of a service that processes it. A service without body
  -- filters or middleware does not read bodies as it should.
  abbrev pub IsProcessed : ProcessFunction → Service c → Outcome (Response c) → Type 0
  IsProcessed with_body service o =
      (service.body_filters ≡ [])
      ⊎ (service.middleware ≡ none)
      ⊎ ((h : List (Event c)) × (e : Error) × (net.collect h body ≡ err e) × (o ≡ fails e))
      ⊎ ((text : Bytes) × IsRead text
          × (filter_request_by_body c service.body_filters from text ≡ returns true))
      ⊎ ((text : Bytes) × (verdict : Outcome Bool) × IsRead text
          × (filter_request_by_body c service.body_filters from text ≡ verdict)
          × (verdict ≢ returns true)
          × (o ≡ refused service text verdict))
  IsProcessed without_body_with_middleware service o = Unit
  IsProcessed without_body_without_middleware service o = Unit

  verdict-Yields :
      (service : Service c) (text : Bytes) (verdict : Outcome Bool) (x : Future c (Response c))
      → IsRead text
      → filter_request_by_body c service.body_filters from text ≡ verdict
      → Yields net (IsProcessed with_body service) (
          ready_then verdict
            (λ passed. if passed then x else pure (refuse_body c service from text)))
  unfolding refuse_body
  verdict-Yields service text (returns true) x read e =
      any-Yields net (IsProcessed with_body service) x (λ o. inr (inr (inr (inl (text, read, e)))))
  verdict-Yields service text (returns false) x read e =
      inr (inr (inr (inr (text, returns false, read, e, (λ h. cc h), refl))))
  verdict-Yields service text (fails f) x read e =
      inr (inr (inr (inr (text, fails f, read, e, (λ h. cc h), refl))))
  verdict-Yields service text panics x read e =
      inr (inr (inr (inr (text, panics, read, e, (λ h. cc h), refl))))
  verdict-Yields service text undefined x read e =
      inr (inr (inr (inr (text, undefined, read, e, (λ h. cc h), refl))))

  with_body-Yields :
      (service : Service c) (upstream : Upstream)
      → Yields net
          (IsProcessed with_body service)
          (with_body_future c service upstream from header body)
  unfolding with_body_future get_body_filters_raw
  with_body-Yields service upstream = go service.body_filters service.middleware refl refl
    where
      read :
          (middleware : Middleware c) (fs : List (BodyFilter c))
          → service.body_filters ≡ fs
          → (h : List (Event c)) (r : Result Bytes) → net.collect h body ≡ r
          → Yields net (IsProcessed with_body service) (
              ready (of_result r) >>= λ entire_body.
              ready (filter_request_by_body c fs from entire_body) >>= λ passed.
              if passed
              then forward_with_body_future c middleware upstream from header entire_body
              else pure (refuse_body c service from entire_body))
      read middleware fs same h (err e) at = inr (inr (inl (h, e, at, refl)))
      read middleware fs same h (ok text) at =
          verdict-Yields service text (filter_request_by_body c fs from text) _ (h, at)
            (ap (λ gs. filter_request_by_body c gs from text) same)

      go :
          (fs : List (BodyFilter c)) (o : Option (Middleware c))
          → service.body_filters ≡ fs
          → service.middleware ≡ o
          → Yields net
              (IsProcessed with_body service)
              (with_body_future c service upstream from header body)
      go [] o e e' =
          any-Yields net (IsProcessed with_body service)
            (with_body_future c service upstream from header body) (λ o. inl e)
      go (f ∷ fs) none e e' =
          any-Yields net (IsProcessed with_body service)
            (with_body_future c service upstream from header body) (λ o. inr (inl e'))
      go (f ∷ fs) (some middleware) e e' =
          let raw : BodyFilters c = record { filters = f ∷ fs; len = length (f ∷ fs) } in
          returns-Yields net (IsProcessed with_body service)
            (get_body_filters_raw c service.body_filters) raw _ (ap (get_body_filters_raw c) e)
            (returns-Yields net (IsProcessed with_body service) (or_undefined service.middleware)
              middleware _ (ap or_undefined e')
              (returns-Yields net (IsProcessed with_body service) (from_raw_parts c raw) (f ∷ fs) _
                (raw_parts-cons c f fs) (λ h. read middleware (f ∷ fs) e h _ refl)))

  pub process_future-Yields :
      (service : Service c) (upstream : Upstream)
      → Yields net
          (IsProcessed service.process service)
          (process_future c service upstream from header body)
  unfolding process_future
  process_future-Yields service upstream = go service.process
    where
      go :
          (kind : ProcessFunction)
          → Yields net
              (IsProcessed kind service)
              (process_function_future c kind service upstream from header body)
      go with_body = with_body-Yields service upstream
      go without_body_with_middleware =
          any-Yields net (IsProcessed without_body_with_middleware service)
            (with_middleware_future c service upstream from header body) (λ o. tt)
      go without_body_without_middleware =
          any-Yields net (IsProcessed without_body_without_middleware service)
            (without_body_future c upstream header body) (λ o. tt)
