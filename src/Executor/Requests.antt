-- ===== src/Executor/Requests.antt =====
-- broxy-core/src/service.rs: a request when it arrives.
use mathlib.Core.Path.{subst}
use broxy.Prelude.{
  ℕ, ◌*◌, ◌≡◌, ◌≢◌, refl, sym, ltb, if◌then◌else◌, Bool, true, false, List, [], ◌∷◌, Option, none,
  some, arith,
}
use broxy.Outcome.{Outcome, returns, fails, panics, undefined}
use broxy.LoadBalancer.{SocketAddr, Upstream, LoadBalancer}
use broxy.Crates.{Crates}
use broxy.Network.{Response}
use broxy.Service.{Service}
use broxy.Service.Filtering.{filter_request_by_header}
use broxy.Service.Filtering.Headers.{filter_request_by_header-defined}
use broxy.Bundle.{max_size}
use broxy.Bundle.Safety.{IsLive, IsBuilt, IsWellFormed, target, if_match}
use broxy.Bundle.Runs.{Arrival}
use broxy.Future.{Future}
use broxy.Future.Calls.{
  serve_future, on_match_future, each_service_future, process_future, call_future,
}
use broxy.Future.Budget.{Within}
use broxy.Future.Bounds.{new-process_future-Within}
use broxy.Executor.{start_request}
use broxy.Executor.Polls.{next_select, IsGood}

module _ (c : Crates) where
  process_future-Within :
      (service : Service c) (u : Upstream) (from : SocketAddr) (header : c.RequestParts)
      (body : c.Incoming)
      → IsBuilt c service
      → Within 6 1 1 (process_future c service u from header body)
  process_future-Within service u from header body (fs, bfs, mw, lb, nf, e) =
      subst (λ service'. Within 6 1 1 (process_future c service' u from header body)) (sym e)
        (new-process_future-Within c fs bfs mw lb nf u from header body)

  -- A request that is still to make the selection `t`, or none.
  abbrev IsNew : List LoadBalancer → Option ℕ → Future c (Response c) → Type 0
  IsNew bs t f = IsGood bs 7 1 1 f × (next_select f ≡ t)

  if-IsNew :
      (bs : List LoadBalancer) (b : Bool) (t u : Option ℕ) (f g : Future c (Response c))
      → IsNew bs t f
      → IsNew bs u g
      → IsNew bs (if b then t else u) (if b then f else g)
  if-IsNew bs true t u f g v w = v
  if-IsNew bs false t u f g v w = w

  serve_future-IsNew :
      (service : Service c) (bs : List LoadBalancer) (from : SocketAddr) (header : c.RequestParts)
      (body : c.Incoming)
      → IsBuilt c service
      → IsLive bs service.load_balancer
      → IsNew bs
          (if ltb (1024 * 64) (max_size (c.size_hint_upper body))
            then none
            else some service.load_balancer)
          (serve_future c service from header body)
  unfolding serve_future
  serve_future-IsNew service bs from header body b l =
      if-IsNew bs (ltb (1024 * 64) (max_size (c.size_hint_upper body))) _ _ _ _ (cc, refl)
        ((omega arith, l, λ u. process_future-Within service u from header body b), refl)

  on_match_future-IsNew :
      (bs : List LoadBalancer) (r : Outcome Bool) (t u : Option ℕ) (f g : Future c (Response c))
      → r ≢ undefined
      → IsNew bs t f
      → IsNew bs u g
      → IsNew bs (if_match c r t u) (on_match_future c r f g)
  on_match_future-IsNew bs (returns true) t u f g d v w = v
  on_match_future-IsNew bs (returns false) t u f g d v w = w
  on_match_future-IsNew bs (fails e) t u f g d v w = (cc, refl)
  on_match_future-IsNew bs panics t u f g d v w = (cc, refl)
  on_match_future-IsNew bs undefined t u f g d v w = absurd (d refl)

  each_service_future-IsNew :
      (services : List (Service c)) (bs : List LoadBalancer) (race : c.Race) (from : SocketAddr)
      (header : c.RequestParts) (body : c.Incoming)
      → IsWellFormed c services bs
      → IsNew bs
          (target c services race from header body)
          (each_service_future c services race from header body)
  unfolding each_service_future
  each_service_future-IsNew [] bs race from header body w = (cc, refl)
  each_service_future-IsNew (service ∷ services) bs race from header body ((b, l), w) =
      on_match_future-IsNew bs (filter_request_by_header c service race from header) _ _ _ _
        (filter_request_by_header-defined c race from header service)
        (serve_future-IsNew service bs from header body b l)
        (each_service_future-IsNew services bs (c.next_race race) from header body w)

  -- A request that arrives at well-formed services is ready after seven polls at most, of which the
  -- first makes the selection, if any; it connects and sends at most once.
  pub start_request-IsNew :
      (services : List (Service c)) (bs : List LoadBalancer) (a : Arrival c)
      → IsWellFormed c services bs
      → IsGood bs 7 1 1 (start_request c services a)
        × (next_select (start_request c services a)
            ≡ target c services a.race a.from a.header a.body)
  unfolding call_future
  start_request-IsNew services bs a w =
      each_service_future-IsNew services bs a.race a.from a.header a.body w
