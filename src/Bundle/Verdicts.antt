-- ===== src/Bundle/Verdicts.antt =====
-- broxy-core/src/service.rs: every way in which `ServiceBundle::call` can go.
use mathlib.Core.Path.{subst}
use broxy.Prelude.{
  sym, ◌*◌, ◌<◌, ◌≤◌, ◌≡◌, ◌⊎◌, inl, inr, refl, ap, ltb, Bool, true, false, List, [], ◌∷◌, ◌++◌,
  some, All, arith, get_elem?, set, Bool-cases,
}
use broxy.Outcome.{Outcome, fails, returns, panics, undefined}
use broxy.LoadBalancer.{SocketAddr, Upstream, LoadBalancer}
use broxy.LoadBalancer.Safety.{advance, next_index, get_upstream-returns}
use broxy.Crates.{Crates}
use broxy.Network.{status_response, Network, State, Response}
use broxy.Service.{Service, get_upstream}
use broxy.Service.Filtering.{filter_request_by_header}
use broxy.Service.Filtering.Headers.{filter_request_by_header-defined}
use broxy.Service.Processing.{process}
use broxy.Bundle.{on_match, max_size, ServiceBundle, serve, each_service, call}
use broxy.Bundle.Routing.{AllSkip, race_after}
use broxy.Bundle.Safety.{IsLive}

module _ (c : Crates) (net : Network c) (from : SocketAddr) (header : c.RequestParts)
    (body : c.Incoming) (s : State c) where
  -- The next server of the service's balancer, which moves on by one, gets the request.
  abbrev pub IsServedBy : Service c → Outcome (Response c) × State c → Type 0
  IsServedBy service result =
      (lb : LoadBalancer) × (u : Upstream) × (get_elem? s.balancers service.load_balancer ≡ some lb)
      × (get_elem? lb.servers (next_index lb) ≡ some u)
      × (result
          ≡ process c net service u from header body
              (record s { balancers = set s.balancers service.load_balancer (advance lb) }))

  -- What comes of a service whose header filters gave this.
  abbrev pub Gives : Service c → Outcome Bool → Outcome (Response c) × State c → Type 0
  Gives service (returns true) result =
      ((1024 * 64 < max_size (c.size_hint_upper body))
        × (result ≡ (returns (status_response c 413), s)))
      ⊎ ((max_size (c.size_hint_upper body) ≤ 1024 * 64) × IsServedBy service result)
  Gives service (returns false) result = ⊥
  Gives service (fails e) result = result ≡ (returns (status_response c 500), s)
  Gives service panics result = result ≡ (panics, s)
  Gives service undefined result = ⊥

  -- All services skip the request, or the first that does not decides.
  abbrev pub IsVerdict : List (Service c) → c.Race → Outcome (Response c) × State c → Type 0
  IsVerdict services race result =
      (AllSkip c from header services race × (result ≡ (returns (status_response c 404), s)))
      ⊎ ((pre : List (Service c)) × (service : Service c) × (post : List (Service c)) × (services
            ≡ pre ++ service ∷ post)
          × AllSkip c from header pre race
          × Gives service (filter_request_by_header c service (race_after c pre race) from header)
              result)

  serve-Gives :
      (service : Service c)
      → IsLive s.balancers service.load_balancer
      → Gives service (returns true) (serve c net service from header body s)
  unfolding serve get_upstream
  serve-Gives service (lb, at, v) =
      let (u, found, now) = get_upstream-returns lb v in
      elim (Bool-cases (ltb (1024 * 64) (max_size (c.size_hint_upper body)))) [
        | inl large ↦ inl (ground arith, rw large)
        | inr small ↦ inr (ground arith, (lb, u, at, found, rw (small, at, now)))
      ]

  IsVerdict-cons :
      (service : Service c) (services : List (Service c)) (race : c.Race)
      (result : Outcome (Response c) × State c)
      → filter_request_by_header c service race from header ≡ returns false
      → IsVerdict services (c.next_race race) result
      → IsVerdict (service ∷ services) race result
  IsVerdict-cons service services race result skip (inl (skips, e)) = inl ((skip, skips), e)
  IsVerdict-cons service services race result skip (inr (pre, first, post, listed, skips, given)) =
      inr (service ∷ pre, first, post, ap (λ ss. service ∷ ss) listed, (skip, skips), given)

  on_match-IsVerdict :
      (service : Service c) (services : List (Service c)) (race : c.Race) (o : Outcome Bool)
      → filter_request_by_header c service race from header ≡ o
      → IsLive s.balancers service.load_balancer
      → IsVerdict services
          (c.next_race race)
          (each_service c net services (c.next_race race) from header body s)
      → IsVerdict (service ∷ services) race (
          on_match c o
            (serve c net service from header body)
            (each_service c net services (c.next_race race) from header body)
            s)
  on_match-IsVerdict service services race o e live rest = go o e
    where
      first :
          (r : Outcome Bool) (result : Outcome (Response c) × State c)
          → filter_request_by_header c service race from header ≡ r
          → Gives service r result
          → IsVerdict (service ∷ services) race result
      first r result e given =
          inr ([], service, services, refl, tt, subst (λ o. Gives service o result) (sym e) given)

      go :
          (o : Outcome Bool)
          → filter_request_by_header c service race from header ≡ o
          → IsVerdict (service ∷ services) race (
              on_match c o
                (serve c net service from header body)
                (each_service c net services (c.next_race race) from header body)
                s)
      go (returns true) e = first (returns true) _ e (serve-Gives service live)
      go (returns false) e = IsVerdict-cons service services race _ e rest
      go (fails x) e = first (fails x) _ e refl
      go panics e = first panics _ e refl
      go undefined e = absurd (filter_request_by_header-defined c race from header service e)

  each_service-IsVerdict :
      (services : List (Service c)) (race : c.Race)
      → All (λ service. IsLive s.balancers service.load_balancer) services
      → IsVerdict services race (each_service c net services race from header body s)
  unfolding each_service
  each_service-IsVerdict [] race w = inl (tt, refl)
  each_service-IsVerdict (service ∷ services) race (live, w) =
      on_match-IsVerdict service services race _ refl live
        (each_service-IsVerdict services (c.next_race race) w)

module _ (c : Crates) (net : Network c) where
  -- If the balancer of each service is a well-formed one, a call goes one of these ways. If the
  -- filters of all services refuse the request, the answer is 404. Otherwise the first service
  -- that does not refuse it decides, whatever stands behind it: if a filter fails the answer is
  -- 500; if a filter panics so does the call; if the filters pass and the body may be longer than
  -- 64 KiB or of unknown length the answer is 413; and else the next server of the service's
  -- balancer is taken, this balancer moves on by one, and the service processes the request with
  -- that server. But in the last case nothing changes.
  pub call-IsVerdict :
      (bundle : ServiceBundle c) (race : c.Race) (header : c.RequestParts) (body : c.Incoming)
      (s : State c)
      → All (λ service. IsLive s.balancers service.load_balancer) bundle.services
      → IsVerdict c net bundle.from header body s bundle.services race
          (call c net bundle race header body s)
  unfolding call
  call-IsVerdict bundle race header body s w =
      each_service-IsVerdict c net bundle.from header body s bundle.services race w
