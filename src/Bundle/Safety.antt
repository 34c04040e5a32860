-- ===== src/Bundle/Safety.antt =====
-- broxy-core/src/service.rs: what `ServiceBundle::call` may do to the shared state.
use mathlib.Core.Path.{subst}
use broxy.Prelude.{
  ℕ, ◌+◌, ◌*◌, ◌≤◌, ◌≡◌, ◌≢◌, refl, sym, ◌∙◌, ltb, if◌then◌else◌, Bool, true, false, List, [], ◌∷◌,
  Option, none, some, All, arith, get_elem?, set, Bool-cases, inl, inr,
}
use broxy.Outcome.{Outcome, returns, fails, panics, undefined, M}
use broxy.LoadBalancer.{SocketAddr, Upstream, LoadBalancer}
use broxy.LoadBalancer.Safety.{IsValid, advance, advance-IsValid, get_upstream-returns}
use broxy.Crates.{Crates, Bytes}
use broxy.Filter.{Filter}
use broxy.BodyFilter.{BodyFilter}
use broxy.Middleware.{Middleware}
use broxy.Network.{Response, Network, State}
use broxy.Service.{Service, new, get_upstream}
use broxy.Service.Filtering.{filter_request_by_header}
use broxy.Service.Filtering.Headers.{filter_request_by_header-defined}
use broxy.Service.Processing.{process}
use broxy.Service.Processing.Effects.{IsTame, connects, sends}
use broxy.Service.Processing.Safety.{new-process-IsTame}
use broxy.Bundle.{max_size, on_match, ServiceBundle, serve, each_service, call}
use broxy.Bundle.Balancing.{bump, get_elem?-bump}

-- The address holds a well-formed balancer.
abbrev pub IsLive : List LoadBalancer → ℕ → Type 0
IsLive bs i = (lb : LoadBalancer) × (get_elem? bs i ≡ some lb) × IsValid lb

bump-IsValid : (b : Bool) {lb : LoadBalancer} → IsValid lb → IsValid (if b then advance lb else lb)
bump-IsValid true v = advance-IsValid v
bump-IsValid false v = v

pub bump-IsLive :
    (t : Option ℕ) (bs : List LoadBalancer) (i : ℕ) → IsLive bs i → IsLive (bump t bs) i
bump-IsLive none bs i l = l
bump-IsLive (some j) bs i (lb, e, v) = (_, get_elem?-bump j i bs e, bump-IsValid _ v)

module _ (c : Crates) where
  abbrev pub IsBuilt : Service c → Type 0
  IsBuilt service =
      (fs : List (Filter c)) × (bfs : List (BodyFilter c)) × (mw : Option (Middleware c)) × (lb : ℕ)
      × (nf : Option (SocketAddr → Bytes → Response c)) × (service ≡ new c fs bfs mw lb nf)

  -- Every service was made by `new` and points to a well-formed balancer.
  abbrev pub IsWellFormed : List (Service c) → List LoadBalancer → Type 0
  IsWellFormed services bs =
      All (λ service. IsBuilt service × IsLive bs service.load_balancer) services

  pub IsWellFormed-bump :
      (services : List (Service c)) (t : Option ℕ) (bs : List LoadBalancer)
      → IsWellFormed services bs
      → IsWellFormed services (bump t bs)
  IsWellFormed-bump [] t bs w = tt
  IsWellFormed-bump (service ∷ services) t bs ((b, l), w) =
      ((b, bump-IsLive t bs _ l), IsWellFormed-bump services t bs w)

  -- The balancer that a request makes a selection from: that of the first service that matches, if
  -- no filter fails before it and the body is small enough.
  abbrev pub if_match : Outcome Bool → Option ℕ → Option ℕ → Option ℕ
  if_match (returns true) here rest = here
  if_match (returns false) here rest = rest
  if_match _ here rest = none

  abbrev pub target :
      List (Service c) → c.Race → SocketAddr → c.RequestParts → c.Incoming → Option ℕ
  target [] race from header body = none
  target (service ∷ services) race from header body =
      if_match (filter_request_by_header c service race from header)
        (if ltb (1024 * 64) (max_size (c.size_hint_upper body))
          then none
          else some service.load_balancer)
        (target services (c.next_race race) from header body)

  -- What a call may do: no undefined behaviour, one selection from the balancer `t` if there is
  -- one and no other change of a balancer, at most one connection and one request sent.
  pub record IsSafe (t : Option ℕ) (s : State c) (p : Outcome (Response c) × State c) : Type 0 where
    pub defined : p.0 ≢ undefined
    pub selected : p.1.balancers ≡ bump t s.balancers
    pub one_connect : connects c p.1.history ≤ connects c s.history + 1
    pub one_send : sends c p.1.history ≤ sends c s.history + 1

  on_match-IsSafe :
      (r : Outcome Bool) (t u : Option ℕ) (s : State c) (here rest : M (State c) (Response c))
      → r ≢ undefined
      → IsSafe t s (here s)
      → IsSafe u s (rest s)
      → IsSafe (if_match r t u) s (on_match c r here rest s)
  on_match-IsSafe (returns true) t u s here rest d v w = v
  on_match-IsSafe (returns false) t u s here rest d v w = w
  on_match-IsSafe (fails e) t u s here rest d v w = ground arith
  on_match-IsSafe panics t u s here rest d v w = ground arith
  on_match-IsSafe undefined t u s here rest d v w = absurd (d refl)

module _ (c : Crates) (net : Network c) where
  process-IsTame :
      (service : Service c) (u : Upstream) (from : SocketAddr) (header : c.RequestParts)
      (body : c.Incoming) (s : State c)
      → IsBuilt c service
      → IsTame c 1 1 s (process c net service u from header body s)
  process-IsTame service u from header body s (fs, bfs, mw, lb, nf, e) =
      subst (λ service'. IsTame c 1 1 s (process c net service' u from header body s)) (sym e)
        (new-process-IsTame c net fs bfs mw lb nf u from header body s)

  chosen-IsSafe :
      (i : ℕ) (lb : LoadBalancer) (s : State c) (p : Outcome (Response c) × State c)
      → get_elem? s.balancers i ≡ some lb
      → IsTame c 1 1 (record s { balancers = set s.balancers i (advance lb) }) p
      → IsSafe c (some i) s p
  chosen-IsSafe i lb s p at v = record {
    defined = v.defined;
    selected = v.same_balancers ∙ rw at refl;
    one_connect = v.few_connects;
    one_send = v.few_sends;
  }

  serve-IsSafe :
      (service : Service c) (from : SocketAddr) (header : c.RequestParts) (body : c.Incoming)
      (s : State c)
      → IsBuilt c service
      → IsLive s.balancers service.load_balancer
      → IsSafe c
          (if ltb (1024 * 64) (max_size (c.size_hint_upper body))
            then none
            else some service.load_balancer)
          s
          (serve c net service from header body s)
  unfolding serve get_upstream
  serve-IsSafe service from header body s b (lb, at, v) =
      elim (Bool-cases (ltb (1024 * 64) (max_size (c.size_hint_upper body)))) [
        | inl large ↦ rw large (ground arith)
        | inr fits ↦
            let (u, _, now) = get_upstream-returns lb v in
            rw (fits, at, now)
              (chosen-IsSafe service.load_balancer lb s _ at
                (process-IsTame service u from header body _ b))
      ]

  each_service-IsSafe :
      (services : List (Service c)) (race : c.Race) (from : SocketAddr) (header : c.RequestParts)
      (body : c.Incoming) (s : State c)
      → IsWellFormed c services s.balancers
      → IsSafe c
          (target c services race from header body)
          s
          (each_service c net services race from header body s)
  unfolding each_service
  each_service-IsSafe [] race from header body s w = ground arith
  each_service-IsSafe (service ∷ services) race from header body s ((b, l), w) =
      on_match-IsSafe c _ _ _ s _ _ (filter_request_by_header-defined c race from header service)
        (serve-IsSafe service from header body s b l)
        (each_service-IsSafe services (c.next_race race) from header body s w)

  -- A call on a well-formed bundle has no undefined behaviour whatever the network answers. It makes
  -- one selection from the balancer that the request is for, and changes no other balancer; it
  -- connects at most once and sends at most one request.
  pub call-IsSafe :
      (bundle : ServiceBundle c) (race : c.Race) (header : c.RequestParts) (body : c.Incoming)
      (s : State c)
      → IsWellFormed c bundle.services s.balancers
      → IsSafe c
          (target c bundle.services race bundle.from header body)
          s
          (call c net bundle race header body s)
  unfolding call
  call-IsSafe bundle race header body s w =
      each_service-IsSafe bundle.services race bundle.from header body s w
