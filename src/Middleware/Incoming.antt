-- ===== src/Middleware/Incoming.antt =====
-- broxy-core/src/middleware.rs: one middleware function on a request.
--
-- A function changes the header, and the body where there is one, and these changes stay when it
-- fails or panics. The state is the header and the body that was passed, if one was.
use broxy.Prelude.{Bool, true, false, Option, none, some}
use broxy.Outcome.{Called, fails, panics, of_called, M, no_body_provided}
use broxy.LoadBalancer.{SocketAddr}
use broxy.Crates.{Crates, Bytes}

module _ (c : Crates) where
  open c use {RequestParts}

  pub data MiddlewareIncomingFunction : Type 0 where
    external : MiddlewareIncomingFunction
    internal_with_body :
        (SocketAddr → RequestParts → Bytes → Called (Unit {0}) × RequestParts × Bytes)
        → MiddlewareIncomingFunction
    internal :
        (SocketAddr → RequestParts → Called (Unit {0}) × RequestParts) → MiddlewareIncomingFunction

  unfoldable pub process :
      MiddlewareIncomingFunction → SocketAddr → M (RequestParts × Option Bytes) (Unit {0})
  process external from s = (panics, s)
  process (internal_with_body func) from (parts, some body) =
      let (result, parts', body') = func from parts body in (of_called result, (parts', some body'))
  process (internal_with_body func) from (parts, none) = (fails no_body_provided, (parts, none))
  process (internal func) from (parts, body) =
      let (result, parts') = func from parts in (of_called result, (parts', body))

  unfoldable pub needs_body : MiddlewareIncomingFunction → Bool
  needs_body (internal_with_body _) = true
  needs_body _ = false
