-- ===== src/Middleware/Responses.antt =====
-- broxy-core/src/middleware.rs: how the chain for responses runs.
use broxy.Prelude.{◌≡◌, ◌≢◌, refl, List, [], ◌∷◌, ◌++◌, Option, none, some, is_some, arith}
use broxy.Outcome.{Called, returns, fails, undefined, no_body_provided}
use broxy.LoadBalancer.{SocketAddr}
use broxy.Crates.{Crates, Bytes}
use broxy.Middleware.Outgoing
use broxy.Middleware.Outgoing.{MiddlewareOutgoingFunction}
use broxy.Middleware.{each_outgoing}

module _ (c : Crates) (from upstream_addr : SocketAddr) where
  process-keeps_body :
      (proc : MiddlewareOutgoingFunction c) (s : c.ResponseParts × Option Bytes)
      → is_some (Outgoing.process c proc from upstream_addr s).1.1 ≡ is_some s.1
  unfolding Outgoing.process
  process-keeps_body Outgoing.external s = refl
  process-keeps_body (Outgoing.internal_with_body f) (header, none) = refl
  process-keeps_body (Outgoing.internal_with_body f) (header, some b) = refl
  process-keeps_body (Outgoing.internal g) s = refl

  process-defined :
      (proc : MiddlewareOutgoingFunction c) (s : c.ResponseParts × Option Bytes)
      → (Outgoing.process c proc from upstream_addr s).0 ≢ undefined
  unfolding Outgoing.process
  process-defined Outgoing.external s = cc
  process-defined (Outgoing.internal_with_body f) (header, none) = cc
  process-defined (Outgoing.internal_with_body f) (header, some b) = ground arith
  process-defined (Outgoing.internal g) s = ground arith

  pub each_outgoing-defined :
      (procs : List (MiddlewareOutgoingFunction c)) (s : c.ResponseParts × Option Bytes)
      → (each_outgoing c procs from upstream_addr s).0 ≢ undefined
  unfolding each_outgoing
  each_outgoing-defined [] s = cc
  each_outgoing-defined (proc ∷ procs) s = ground (
    arith,
    process-defined proc s,
    each_outgoing-defined procs (Outgoing.process c proc from upstream_addr s).1,
  )

  each_outgoing-keeps_body :
      (procs : List (MiddlewareOutgoingFunction c)) (s : c.ResponseParts × Option Bytes)
      → is_some (each_outgoing c procs from upstream_addr s).1.1 ≡ is_some s.1
  unfolding each_outgoing
  each_outgoing-keeps_body [] s = refl
  each_outgoing-keeps_body (proc ∷ procs) s = ground (
    arith,
    process-keeps_body proc s,
    each_outgoing-keeps_body procs (Outgoing.process c proc from upstream_addr s).1,
  )

  -- Run on a header alone, a chain that comes to a function which takes the body fails there.
  pub each_outgoing-no_body :
      (pre post : List (MiddlewareOutgoingFunction c))
      (f : SocketAddr
        → SocketAddr
        → c.ResponseParts
        → Bytes
        → Called (Unit {0}) × c.ResponseParts × Bytes)
      (header header' : c.ResponseParts)
      → each_outgoing c pre from upstream_addr (header, none) ≡ (returns tt, (header', none))
      → each_outgoing c
          (pre ++ Outgoing.internal_with_body f ∷ post)
          from
          upstream_addr
          (header, none)
        ≡ (fails no_body_provided, (header', none))
  unfolding each_outgoing Outgoing.process
  each_outgoing-no_body [] post f header header' e = ground arith
  each_outgoing-no_body (Outgoing.external ∷ pre) post f header header' e = cc
  each_outgoing-no_body (Outgoing.internal_with_body g ∷ pre) post f header header' e = cc
  each_outgoing-no_body (Outgoing.internal g ∷ pre) post f header header' e =
      ground (arith, each_outgoing-no_body pre post f (g from upstream_addr header).1 header')
