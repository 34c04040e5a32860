-- ===== src/Executor/Safety.antt =====
-- broxy-core/src/service.rs: requests in flight at the same time.
use broxy.Prelude.{
  ℕ, ◌+◌, ◌≤◌, ◌≡◌, ◌≢◌, refl, sym, ap, ◌∙◌, List, [], ◌∷◌, map, some, arith, All, get_elem?,
  length,
}
use broxy.Outcome.{Outcome, undefined}
use broxy.LoadBalancer.{LoadBalancer}
use broxy.LoadBalancer.Safety.{IsValid}
use broxy.LoadBalancer.Rounds.{advance_by}
use broxy.Crates.{Crates}
use broxy.Network.{Network, State, Response}
use broxy.Service.{Service}
use broxy.Service.Processing.Effects.{connects, sends}
use broxy.Bundle.Balancing.{selections}
use broxy.Bundle.Safety.{IsWellFormed}
use broxy.Bundle.Runs.{targets, run, run-round_robin}
use broxy.Future.{Future, ready}
use broxy.Executor.{System, Move, idle, arrivals, run_moves}
use broxy.Executor.Polls.{next_select, IsGood}
use broxy.Executor.Budgets.{Fit}
use broxy.Executor.Invariant.{IsRunning, idle-IsRunning, run_moves-IsRunning}

module _ (c : Crates) where
  -- The request is answered.
  abbrev pub IsReady : Future c (Response c) → Type 0
  IsReady f = (o : Outcome (Response c)) × (f ≡ ready o)

  ready-no_select :
      (fs : List (Future c (Response c))) (i : ℕ)
      → All IsReady fs
      → selections i (map next_select fs) ≡ 0
  ready-no_select [] i h = refl
  ready-no_select (f ∷ fs) i ((o, e), h) =
      ap (λ g. selections i (next_select g ∷ map next_select fs)) e ∙ ready-no_select fs i h

  -- The request did not end in undefined behaviour.
  abbrev pub IsDefined : Future c (Response c) → Type 0
  IsDefined (ready o) = o ≢ undefined
  IsDefined _ = Unit

  IsGood-IsDefined :
      (bs : List LoadBalancer) (t m n : ℕ) (f : Future c (Response c))
      → IsGood bs t m n f
      → IsDefined f
  IsGood-IsDefined bs t m n (ready o) g = g
  IsGood-IsDefined bs t m n _ g = tt

  Fit-IsDefined :
      (fs : List (Future c (Response c))) (bs : List LoadBalancer) (m n : ℕ)
      → Fit c fs bs m n
      → All IsDefined fs
  Fit-IsDefined [] bs m n w = tt
  Fit-IsDefined (f ∷ fs) bs m n (m', n', m'', n'', g, w, p, q) =
      (IsGood-IsDefined bs 7 m' n' f g, Fit-IsDefined fs bs m'' n'' w)

module _ (c : Crates) (net : Network c) (services : List (Service c)) (s : State c)
    (ms : List (Move c)) where
  -- The system after the moves, from a state with nothing in flight.
  abbrev pub after : System c
  after = run_moves c net services ms (idle c s)

module _ (c : Crates) (net : Network c) (services : List (Service c)) (s : State c)
    (ms : List (Move c)) (well_formed : IsWellFormed c services s.balancers) where
  abbrev final : System c
  final = after c net services s ms

  pub after-IsRunning : IsRunning c services s (arrivals c ms) final
  after-IsRunning =
      run_moves-IsRunning c services net s ms [] (idle c s)
        (idle-IsRunning c services s well_formed)

  -- If the services were made by `new` and point to well-formed balancers: however the futures of
  -- requests are interleaved, with requests that arrive at any moment, and
  -- whatever the network answers: no request ends in undefined behaviour, and there are at most as
  -- many connections and requests to upstreams as requests that arrived.
  pub run_moves-IsSafe :
      All (IsDefined c) final.futures
      × (connects c final.state.history ≤ connects c s.history + length (arrivals c ms))
      × (sends c final.state.history ≤ sends c s.history + length (arrivals c ms))
  run_moves-IsSafe =
      let v = after-IsRunning in
      (
        Fit-IsDefined c final.futures _ _ _ v.fit,
        omega (arith, v.few_connects),
        omega (arith, v.few_sends),
      )

  -- Once all requests are answered, a balancer has moved on by the number of those that were for it.
  pub settled :
      (i : ℕ) (lb : LoadBalancer)
      → get_elem? s.balancers i ≡ some lb
      → IsValid lb
      → All (IsReady c) final.futures
      → get_elem? final.state.balancers i
        ≡ some (advance_by (selections i (targets c services (arrivals c ms))) lb)
  settled i lb e valid done =
      let (k, at, total) = after-IsRunning.is_balanced i lb valid e in
      let same : k ≡ selections i (targets c services (arrivals c ms)) =
        omega (arith, total, ready-no_select c final.futures i done) in
      at ∙ ap (λ n. some (advance_by n lb)) same

  -- If the services were made by `new` and point to well-formed balancers: once all requests are
  -- answered, every well-formed balancer stands where it would stand had they been answered one
  -- after the other in the order of their arrival, with the same races in the parallel searches
  -- over the filters for each request.
  pub run_moves-as_sequential :
      (i : ℕ) (lb : LoadBalancer)
      → get_elem? s.balancers i ≡ some lb
      → IsValid lb
      → All (IsReady c) final.futures
      → get_elem? final.state.balancers i
        ≡ get_elem? (run c net services (arrivals c ms) s).balancers i
  run_moves-as_sequential i lb e valid done =
      let (alone, _) = run-round_robin c net services (arrivals c ms) s i lb well_formed e valid in
      settled i lb e valid done ∙ sym alone
