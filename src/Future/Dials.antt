-- ===== src/Future/Dials.antt =====
-- broxy-core/src/service.rs: which addresses a future may still connect to.
use broxy.Prelude.{ℕ, ◌+◌, ◌-◌, ◌≤◌, if◌then◌else◌, Bool, true, false, arith}
use broxy.Outcome.{Result, of_result, or_undefined, Outcome, returns, fails, panics, undefined}
use broxy.LoadBalancer.{SocketAddr, Upstream}
use broxy.Crates.{Crates, Bytes}
use broxy.Middleware.{Middleware}
use broxy.Network.{Request, Response, full, incoming}
use broxy.Service.Filtering.{filter_request_by_body}
use broxy.Service.Processing.{get_body_filters_raw, from_raw_parts}
use broxy.Service.{
  Service, ProcessFunction, with_body, without_body_with_middleware,
  without_body_without_middleware,
}
use broxy.Future.{
  Future, ready, selecting, await_connect, await_handshake, and_spawn, await_send, await_collect,
  ◌>>=◌, ready_then,
}
use broxy.Future.Calls.{
  or_internal_error, send_request, collect, open_client_future, without_body_future,
  with_middleware_internal_future, with_middleware_future, answer_with_body_future,
  send_with_body_future, forward_with_body_future, with_body_future, process_function_future,
  process_future,
}

module _ {c : Crates} (w : SocketAddr → ℕ) where
  -- The future makes no selection, and whatever answers it gets, the addresses that it connects to
  -- have together at most the weight `m`.
  abbrev pub Dials : {A : Type 0} → ℕ → Future c A → Type 0
  Dials m (ready o) = Unit
  Dials m (selecting i k) = ⊥
  Dials m (await_connect a k) = (w a ≤ m) × ((r : Result c.TcpStream) → Dials (m - w a) (k r))
  Dials m (await_handshake io k) = (r : Result (c.Sender × c.Connection)) → Dials m (k r)
  Dials m (and_spawn conn k) = Dials m k
  Dials m (await_send sender request k) =
      (r : Result (c.ResponseParts × c.Incoming)) → Dials m (k r)
  Dials m (await_collect body k) = (r : Result Bytes) → Dials m (k r)

  Dials-mono : {A : Type 0} (x : Future c A) (m m' : ℕ) → m ≤ m' → Dials m x → Dials m' x
  Dials-mono (ready o) m m' h d = tt
  Dials-mono (selecting i k) m m' h d = d
  Dials-mono (await_connect a k) m m' h (p, d) =
      (omega arith, λ r. Dials-mono (k r) (m - w a) (m' - w a) (omega arith) (d r))
  Dials-mono (await_handshake io k) m m' h d = λ r. Dials-mono (k r) m m' h (d r)
  Dials-mono (and_spawn conn k) m m' h d = Dials-mono k m m' h d
  Dials-mono (await_send sender request k) m m' h d = λ r. Dials-mono (k r) m m' h (d r)
  Dials-mono (await_collect body k) m m' h d = λ r. Dials-mono (k r) m m' h (d r)

  ready_then-Dials :
      {A B : Type 0} (m : ℕ) (o : Outcome A) (f : A → Future c B)
      → ((a : A) → Dials m (f a))
      → Dials m (ready_then o f)
  ready_then-Dials m (returns a) f d = d a
  ready_then-Dials m (fails e) f d = tt
  ready_then-Dials m panics f d = tt
  ready_then-Dials m undefined f d = tt

  bind-Dials :
      {A B : Type 0} (x : Future c A) (f : A → Future c B) (m n : ℕ)
      → Dials m x
      → ((a : A) → Dials n (f a))
      → Dials (m + n) (x >>= f)
  bind-Dials (ready o) f m n d e =
      ready_then-Dials (m + n) o f (λ a. Dials-mono (f a) n (m + n) (omega arith) (e a))
  bind-Dials (selecting i k) f m n d e = d
  bind-Dials (await_connect a k) f m n (p, d) e = (
    omega arith,
    λ r.
        Dials-mono (k r >>= f) (m - w a + n) (m + n - w a) (omega arith)
          (bind-Dials (k r) f (m - w a) n (d r) e),
  )
  bind-Dials (await_handshake io k) f m n d e = λ r. bind-Dials (k r) f m n (d r) e
  bind-Dials (and_spawn conn k) f m n d e = bind-Dials k f m n d e
  bind-Dials (await_send sender request k) f m n d e = λ r. bind-Dials (k r) f m n (d r) e
  bind-Dials (await_collect body k) f m n d e = λ r. bind-Dials (k r) f m n (d r) e

  -- Where only one of the two connects.
  first-Dials :
      {A B : Type 0} (m : ℕ) (x : Future c A) (f : A → Future c B)
      → Dials m x
      → ((a : A) → Dials 0 (f a))
      → Dials m (x >>= f)
  first-Dials m x f d e = Dials-mono (x >>= f) (m + 0) m (omega arith) (bind-Dials x f m 0 d e)

  then-Dials :
      {A B : Type 0} (m : ℕ) (x : Future c A) (f : A → Future c B)
      → Dials 0 x
      → ((a : A) → Dials m (f a))
      → Dials m (x >>= f)
  then-Dials m x f d e = Dials-mono (x >>= f) (0 + m) m (omega arith) (bind-Dials x f 0 m d e)

  or_internal_error-Dials :
      (m : ℕ) (o : Outcome (Unit {0})) (x : Future c (Response c))
      → Dials m x
      → Dials m (or_internal_error o x)
  or_internal_error-Dials m (returns _) x d = d
  or_internal_error-Dials m (fails e) x d = tt
  or_internal_error-Dials m panics x d = tt
  or_internal_error-Dials m undefined x d = tt

  if-Dials :
      {A : Type 0} (m : ℕ) (b : Bool) (x y : Future c A)
      → Dials m x
      → Dials m y
      → Dials m (if b then x else y)
  if-Dials m true x y d e = d
  if-Dials m false x y d e = e

module _ (c : Crates) (w : SocketAddr → ℕ) where
  open c use {RequestParts, ResponseParts, Incoming, Sender}

  open_client-Dials :
      (upstream : Upstream) → Dials w (w upstream.address) (open_client_future c upstream)
  unfolding open_client_future
  open_client-Dials upstream = (
    omega arith,
    λ r.
        ready_then-Dials w _ (of_result r) _
          (λ stream shaken. ready_then-Dials w _ (of_result shaken) _ (λ client. tt)),
  )

  send_request-Dials :
      {B : Type 0} (sender : Sender) (request : Request c)
      (f : ResponseParts × Incoming → Future c B)
      → ((a : ResponseParts × Incoming) → Dials w 0 (f a))
      → Dials w 0 (send_request sender request >>= f)
  send_request-Dials sender request f d = then-Dials w 0 (send_request sender request) f (λ r. tt) d

  collect-Dials :
      {B : Type 0} (m : ℕ) (body : Incoming) (f : Bytes → Future c B)
      → ((a : Bytes) → Dials w m (f a))
      → Dials w m (collect body >>= f)
  collect-Dials m body f d = then-Dials w m (collect body) f (λ r. tt) d

  without_body-Dials :
      (upstream : Upstream) (header : RequestParts) (body : Incoming)
      → Dials w (w upstream.address) (without_body_future c upstream header body)
  unfolding without_body_future
  without_body-Dials upstream header body =
      first-Dials w _ (open_client_future c upstream) _ (open_client-Dials upstream) (λ sender.
        send_request-Dials sender (record { parts = header; body = incoming body }) _ (λ a. tt))

  with_middleware_internal-Dials :
      (middleware : Middleware c) (upstream : Upstream) (from : SocketAddr) (header : RequestParts)
      (body : Incoming)
      → Dials w
          (w upstream.address)
          (with_middleware_internal_future c middleware upstream from header body)
  unfolding with_middleware_internal_future
  with_middleware_internal-Dials middleware upstream from header body =
      first-Dials w _ (open_client_future c upstream) _ (open_client-Dials upstream) (λ sender.
        send_request-Dials sender (record { parts = header; body = incoming body }) _
          (λ a. search (or_internal_error-Dials w 0)))

  with_middleware-Dials :
      (service : Service c) (upstream : Upstream) (from : SocketAddr) (header : RequestParts)
      (body : Incoming)
      → Dials w (w upstream.address) (with_middleware_future c service upstream from header body)
  unfolding with_middleware_future
  with_middleware-Dials service upstream from header body =
      ready_then-Dials w _ (or_undefined service.middleware) _ (λ mw.
        search (or_internal_error-Dials w (w upstream.address), with_middleware_internal-Dials))

  send_with_body-Dials :
      (middleware : Middleware c) (upstream : Upstream) (from : SocketAddr) (sender : Sender)
      (header : RequestParts) (entire_body : Bytes)
      → Dials w 0 (send_with_body_future c middleware upstream from sender header entire_body)
  unfolding send_with_body_future answer_with_body_future
  send_with_body-Dials middleware upstream from sender header entire_body =
      send_request-Dials sender (record { parts = header; body = full entire_body }) _
        (λ a. collect-Dials 0 a.1 _ (λ answer. search (or_internal_error-Dials w 0)))

  forward_with_body-Dials :
      (middleware : Middleware c) (upstream : Upstream) (from : SocketAddr) (header : RequestParts)
      (entire_body : Bytes)
      → Dials w
          (w upstream.address)
          (forward_with_body_future c middleware upstream from header entire_body)
  unfolding forward_with_body_future
  forward_with_body-Dials middleware upstream from header entire_body =
      first-Dials w _ (open_client_future c upstream) _ (open_client-Dials upstream)
        (λ sender. search (or_internal_error-Dials w 0, send_with_body-Dials))

  with_body-Dials :
      (service : Service c) (upstream : Upstream) (from : SocketAddr) (header : RequestParts)
      (body : Incoming)
      → Dials w (w upstream.address) (with_body_future c service upstream from header body)
  unfolding with_body_future
  with_body-Dials service upstream from header body =
      let m = w upstream.address in
      ready_then-Dials w m (get_body_filters_raw c service.body_filters) _ (λ raw.
        ready_then-Dials w m (or_undefined service.middleware) _ (λ middleware.
          ready_then-Dials w m (from_raw_parts c raw) _ (λ body_filters.
            collect-Dials m body _ (λ entire_body.
              ready_then-Dials w m (filter_request_by_body c body_filters from entire_body) _
                (λ passed.
                  if-Dials w m passed _ _
                    (forward_with_body-Dials middleware upstream from header entire_body) tt)))))

  process_function-Dials :
      (kind : ProcessFunction) (service : Service c) (upstream : Upstream) (from : SocketAddr)
      (header : RequestParts) (body : Incoming)
      → Dials w
          (w upstream.address)
          (process_function_future c kind service upstream from header body)
  process_function-Dials with_body service upstream from header body =
      with_body-Dials service upstream from header body
  process_function-Dials without_body_with_middleware service upstream from header body =
      with_middleware-Dials service upstream from header body
  process_function-Dials without_body_without_middleware service upstream from header body =
      without_body-Dials upstream header body

  -- A request that has its upstream connects to no other address, and to that at most once.
  pub process_future-Dials :
      (service : Service c) (upstream : Upstream) (from : SocketAddr) (header : RequestParts)
      (body : Incoming)
      → Dials w (w upstream.address) (process_future c service upstream from header body)
  unfolding process_future
  process_future-Dials service = process_function-Dials service.process service
