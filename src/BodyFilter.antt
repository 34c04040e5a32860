-- ===== src/BodyFilter.antt =====
-- broxy-core/src/filter.rs: the filters on a request's body.
--
-- A future is modelled by what awaiting it gives.
use broxy.Prelude.{Bool, true, false, Option}
use broxy.Outcome.{
  Called, Result, err, Outcome, fails, panics, of_called, expected_filter, expected_filter_async,
}
use broxy.LoadBalancer.{SocketAddr}
use broxy.Crates.{Crates, Bytes}

module _ (c : Crates) where
  open c use {Incoming}

  pub data BodyFilter : Type 0 where
    internal_incoming : (Incoming → Result (Option Bytes)) → BodyFilter
    internal_full_body : (SocketAddr → Bytes → Called Bool) → BodyFilter
    external : BodyFilter

  unfoldable pub filter : BodyFilter → SocketAddr → Bytes → Outcome Bool
  filter (internal_full_body func) from body = of_called (func from body)
  filter external from body = panics
  filter (internal_incoming _) from body = fails expected_filter_async

  unfoldable pub filter_async : BodyFilter → Incoming → Result (Option Bytes)
  filter_async (internal_incoming filter_incoming) incoming = filter_incoming incoming
  filter_async _ incoming = err expected_filter

  unfoldable pub use_async : BodyFilter → Bool
  use_async (internal_incoming _) = true
  use_async _ = false
