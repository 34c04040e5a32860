-- ===== src/Middleware/Outgoing.antt =====
-- broxy-core/src/middleware.rs: one middleware function on a response.
--
-- As for requests, with the address of the upstream that answered.
use broxy.Prelude.{Bool, true, false, Option, none, some}
use broxy.Outcome.{Called, fails, panics, of_called, M, no_body_provided}
use broxy.LoadBalancer.{SocketAddr}
use broxy.Crates.{Crates, Bytes}

module _ (c : Crates) where
  open c use {ResponseParts}

  pub data MiddlewareOutgoingFunction : Type 0 where
    external : MiddlewareOutgoingFunction
    internal_with_body :
        (SocketAddr
          → SocketAddr
          → ResponseParts
          → Bytes
          → Called (Unit {0}) × ResponseParts × Bytes)
        → MiddlewareOutgoingFunction
    internal :
        (SocketAddr → SocketAddr → ResponseParts → Called (Unit {0}) × ResponseParts)
        → MiddlewareOutgoingFunction

  unfoldable pub process :
      MiddlewareOutgoingFunction
      → SocketAddr
      → SocketAddr
      → M (ResponseParts × Option Bytes) (Unit {0})
  process external from upstream_addr s = (panics, s)
  process (internal_with_body func) from upstream_addr (parts, some body) =
      let (result, parts', body') = func from upstream_addr parts body in
      (of_called result, (parts', some body'))
  process (internal_with_body func) from upstream_addr (parts, none) =
      (fails no_body_provided, (parts, none))
  process (internal func) from upstream_addr (parts, body) =
      let (result, parts') = func from upstream_addr parts in (of_called result, (parts', body))

  unfoldable pub needs_body : MiddlewareOutgoingFunction → Bool
  needs_body (internal_with_body _) = true
  needs_body _ = false
