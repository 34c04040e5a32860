-- ===== src/Middleware.antt =====
-- broxy-core/src/middleware.rs: the chains of middleware functions.
pub mod Incoming
pub mod Outgoing
pub mod Chains
pub mod Runs
pub mod Responses
use broxy.Prelude.{Bool, not, List, [], ◌∷◌, Option, all}
use broxy.Outcome.{M, ◌>>=◌, ◌>>◌, pure}
use broxy.LoadBalancer.{SocketAddr}
use broxy.Crates.{Crates, Bytes}
use Incoming
use Incoming.{MiddlewareIncomingFunction}
use Outgoing
use Outgoing.{MiddlewareOutgoingFunction}

module _ (c : Crates) where
  open c use {RequestParts, ResponseParts}

  pub record Middleware : Type 0 where
    pub process_incoming : List (MiddlewareIncomingFunction c)
    pub incoming_needs_body : Bool
    pub process_out : List (MiddlewareOutgoingFunction c)
    pub out_needs_body : Bool

  unfoldable pub new :
      List (MiddlewareIncomingFunction c) → List (MiddlewareOutgoingFunction c) → Middleware
  new incoming outgoing = record {
    process_incoming = incoming;
    incoming_needs_body = not (all (λ proc. not (Incoming.needs_body c proc)) incoming);
    process_out = outgoing;
    out_needs_body = not (all (λ proc. not (Outgoing.needs_body c proc)) outgoing);
  }

  -- The loop of `process_incoming`.
  unfoldable pub each_incoming :
      List (MiddlewareIncomingFunction c) → SocketAddr → M (RequestParts × Option Bytes) (Unit {0})
  each_incoming [] from = pure tt
  each_incoming (proc ∷ procs) from = do Incoming.process c proc from; each_incoming procs from

  unfoldable pub process_incoming :
      Middleware → SocketAddr → M (RequestParts × Option Bytes) (Unit {0})
  unfolding each_incoming
  process_incoming middleware from = each_incoming middleware.process_incoming from

  -- The loop of `process_outgoing`.
  unfoldable pub each_outgoing :
      List (MiddlewareOutgoingFunction c)
      → SocketAddr
      → SocketAddr
      → M (ResponseParts × Option Bytes) (Unit {0})
  each_outgoing [] from upstream_addr = pure tt
  each_outgoing (proc ∷ procs) from upstream_addr = do
    Outgoing.process c proc from upstream_addr
    each_outgoing procs from upstream_addr

  unfoldable pub process_outgoing :
      Middleware → SocketAddr → SocketAddr → M (ResponseParts × Option Bytes) (Unit {0})
  unfolding each_outgoing
  process_outgoing middleware from upstream_addr =
      each_outgoing middleware.process_out from upstream_addr
