-- ===== src/Middleware/Runs.antt =====
-- broxy-core/src/middleware.rs: how the chains run.
use broxy.Prelude.{
  true, false, not, ◌≡◌, ◌≢◌, refl, List, [], ◌∷◌, Option, none, some, is_some, all, arith,
}
use broxy.Outcome.{Outcome, undefined}
use broxy.LoadBalancer.{SocketAddr}
use broxy.Crates.{Crates, Bytes}
use broxy.Middleware.Incoming
use broxy.Middleware.Incoming.{MiddlewareIncomingFunction}
use broxy.Middleware.Outgoing.{MiddlewareOutgoingFunction}
use broxy.Middleware.{new, each_incoming, process_incoming}

module _ (c : Crates) (from : SocketAddr) where
  -- The result of a run, with the body `body` in place of the one it has.
  abbrev pub with_body :
      Bytes
      → Outcome (Unit {0}) × (c.RequestParts × Option Bytes)
      → Outcome (Unit {0}) × (c.RequestParts × Option Bytes)
  with_body body (o, (header, _)) = (o, (header, some body))

  each_incoming-header_only :
      (procs : List (MiddlewareIncomingFunction c)) (header : c.RequestParts) (body : Bytes)
      → all (λ proc. not (Incoming.needs_body c proc)) procs ≡ true
      → each_incoming c procs from (header, some body)
        ≡ with_body body (each_incoming c procs from (header, none))
  unfolding each_incoming Incoming.process Incoming.needs_body
  each_incoming-header_only [] header body h = refl
  each_incoming-header_only (Incoming.external ∷ procs) header body h = refl
  each_incoming-header_only (Incoming.internal_with_body f ∷ procs) header body h = cc
  each_incoming-header_only (Incoming.internal g ∷ procs) header body h =
      ground (arith, each_incoming-header_only procs (g from header).1 body h)

  -- A chain whose flag is not set treats a request with a body as it treats the header alone, and
  -- leaves the body as it is.
  process_incoming-header_only :
      (inc : List (MiddlewareIncomingFunction c)) (out : List (MiddlewareOutgoingFunction c))
      (header : c.RequestParts) (body : Bytes)
      → (new c inc out).incoming_needs_body ≡ false
      → process_incoming c (new c inc out) from (header, some body)
        ≡ with_body body (process_incoming c (new c inc out) from (header, none))
  unfolding process_incoming new
  process_incoming-header_only inc out header body h =
      each_incoming-header_only inc header body (ground arith)

  process-keeps_body :
      (proc : MiddlewareIncomingFunction c) (s : c.RequestParts × Option Bytes)
      → is_some (Incoming.process c proc from s).1.1 ≡ is_some s.1
  unfolding Incoming.process
  process-keeps_body Incoming.external s = refl
  process-keeps_body (Incoming.internal_with_body f) (header, none) = refl
  process-keeps_body (Incoming.internal_with_body f) (header, some b) = refl
  process-keeps_body (Incoming.internal g) s = refl

  -- A run neither drops a body nor makes one up.
  each_incoming-keeps_body :
      (procs : List (MiddlewareIncomingFunction c)) (s : c.RequestParts × Option Bytes)
      → is_some (each_incoming c procs from s).1.1 ≡ is_some s.1
  unfolding each_incoming
  each_incoming-keeps_body [] s = refl
  each_incoming-keeps_body (proc ∷ procs) s = ground (
    arith,
    process-keeps_body proc s,
    each_incoming-keeps_body procs (Incoming.process c proc from s).1,
  )

  process-defined :
      (proc : MiddlewareIncomingFunction c) (s : c.RequestParts × Option Bytes)
      → (Incoming.process c proc from s).0 ≢ undefined
  unfolding Incoming.process
  process-defined Incoming.external s = cc
  process-defined (Incoming.internal_with_body f) (header, none) = cc
  process-defined (Incoming.internal_with_body f) (header, some b) = ground arith
  process-defined (Incoming.internal g) s = ground arith

  pub each_incoming-defined :
      (procs : List (MiddlewareIncomingFunction c)) (s : c.RequestParts × Option Bytes)
      → (each_incoming c procs from s).0 ≢ undefined
  unfolding each_incoming
  each_incoming-defined [] s = cc
  each_incoming-defined (proc ∷ procs) s = ground (
    arith,
    process-defined proc s,
    each_incoming-defined procs (Incoming.process c proc from s).1,
  )
