-- ===== src/Executor/Dialed.antt =====
-- broxy-core/src/service.rs: which upstreams all requests together connect to.
use broxy.Prelude.{
  ℕ, zero, suc, ◌+◌, ◌≤◌, ◌≡◌, refl, sym, ap, length, List, [], ◌∷◌, ◌++◌, Option, none, some,
  arith, get_elem?, set, All,
}
use mathlib.Core.Path.{subst}
use broxy.LoadBalancer.{SocketAddr}
use broxy.LoadBalancer.Safety.{IsValid}
use broxy.LoadBalancer.Dues.{HasDues, HasDues-zero}
use broxy.Crates.{Crates}
use broxy.Network.{Network, State, Response}
use broxy.Service.{Service}
use broxy.Bundle.Safety.{IsWellFormed}
use broxy.Bundle.Runs.{Arrival}
use broxy.Future.{Future, poll}
use broxy.Executor.{System, Move, arrives, polls, idle, arrivals, poll_found, step, run_moves}
use broxy.Executor.Polls.{next_select}
use broxy.Executor.Budgets.{Fit-IsGood, poll-IsLess}
use broxy.Executor.Dialing.{
  dialed, Owes, calls, gain, HasDues-bump, IsPaid, poll-IsPaid, start_request-Owes,
}
use broxy.Executor.Invariant.{IsRunning, idle-IsRunning, arrives-IsRunning, polls-IsRunning}
use broxy.Executor.Safety.{after}

calls_le : (o : Option ℕ) → calls o ≤ 1
calls_le none = omega arith
calls_le (some i) = omega arith

module _ (c : Crates) (w : SocketAddr → ℕ) where
  -- Together the requests have at most `n` selections to make, and at most the weight `m` to connect to.
  abbrev Owe : List (Future c (Response c)) → ℕ → ℕ → Type 0
  Owe [] n m = Unit
  Owe (f ∷ fs) n m =
      (n' : ℕ) × (m' : ℕ) × (m'' : ℕ) × Owes w m' f
      × Owe fs n' m''
      × (calls (next_select f) + n' ≤ n)
      × (m' + m'' ≤ m)

  append-Owe :
      (fs : List (Future c (Response c))) (n m : ℕ) (f : Future c (Response c))
      → Owe fs n m
      → Owes w 0 f
      → Owe (fs ++ f ∷ []) (n + 1) m
  append-Owe [] n m f d e = (0, 0, 0, e, tt, omega (arith, calls_le (next_select f)), omega arith)
  append-Owe (g ∷ fs) n m f (n', m', m'', d, ds, few, h) e =
      (n' + 1, m', m'', d, append-Owe fs n' m'' f ds e, omega (arith, few), h)

module _ (c : Crates) (net : Network c) (w : SocketAddr → ℕ) where
  -- What is to come after a poll of `f` among the futures.
  abbrev IsPaidOff :
      Future c (Response c)
      → List (Future c (Response c))
      → ℕ
      → ℕ
      → State c
      → Future c (Response c) × State c
      → Type 0
  IsPaidOff f fs n m s p =
      (n' : ℕ) × (m' : ℕ) × Owe c w fs n' m'
      × (n' + calls (next_select f) ≤ n)
      × (dialed w p.1.history + m' ≤ dialed w s.history + m + gain w (next_select f) s.balancers)

  poll-Owe :
      (fs : List (Future c (Response c))) (i n m : ℕ) (f : Future c (Response c)) (s : State c)
      → get_elem? fs i ≡ some f
      → next_select (poll c net f s).0 ≡ none
      → ((m' : ℕ) → Owes w m' f → IsPaid c net w m' f s (poll c net f s))
      → Owe c w fs n m
      → IsPaidOff f (set fs i (poll c net f s).0) n m s (poll c net f s)
  poll-Owe [] i n m f s e no_select pay d = cc
  poll-Owe (g ∷ fs) zero n m f s e no_select pay (n', m', m'', d, ds, few, h) =
      let same : g ≡ f = cc e in
      let (left, owes, less) = pay m' (subst (Owes w m') same d) in
      (
        n',
        left + m'',
        (n', left, m'', owes, ds, omega (arith, ap calls no_select), omega arith),
        omega (arith, few, ap (λ g. calls (next_select g)) same),
        omega (arith, less),
      )
  poll-Owe (g ∷ fs) (suc i) n m f s e no_select pay (n', m', m'', d, ds, few, h) =
      let (n0, left, owe, fewer, less) = poll-Owe fs i n' m'' f s e no_select pay ds in
      (
        calls (next_select g) + n0,
        m' + left,
        (n0, m', left, d, owe, omega arith, omega arith),
        omega (arith, few, fewer),
        omega (arith, less),
      )

module _ (c : Crates) (net : Network c) (services : List (Service c)) (w : SocketAddr → ℕ)
    (s : State c) (valid : All IsValid s.balancers) where
  -- After `b` requests arrived: the balancers have made selections of some weight, and what was
  -- connected to or is still to be has no more.
  abbrev IsDialing : ℕ → System c → Type 0
  IsDialing b sys =
      (p : ℕ) × (m : ℕ) × (n : ℕ) × (t : ℕ) × Owe c w sys.futures p m
      × HasDues w s.balancers sys.state.balancers n t
      × (n + p ≤ b)
      × (dialed w sys.state.history + m ≤ dialed w s.history + t)

  arrives-IsDialing :
      (b : ℕ) (sys : System c) (a : Arrival c)
      → IsDialing b sys
      → IsDialing (b + 1) (step c net services (arrives a) sys)
  unfolding step
  arrives-IsDialing b sys a (p, m, n, t, owe, d, few, h) = (
    p + 1,
    m,
    n,
    t,
    append-Owe c w sys.futures p m _ owe (start_request-Owes c w services a),
    d,
    omega (arith, few),
    h,
  )

  polls-IsDialing :
      (b : ℕ) (came : List (Arrival c)) (sys : System c) (j : ℕ)
      → IsRunning c services s came sys
      → IsDialing b sys
      → IsDialing b (step c net services (polls j) sys)
  unfolding step
  polls-IsDialing b came sys j v (p, m, n, t, owe, d, few, h) = go (get_elem? sys.futures j) refl
    where
      go :
          (o : Option (Future c (Response c)))
          → get_elem? sys.futures j ≡ o
          → IsDialing b (poll_found c net services o j sys)
      go none e = (p, m, n, t, owe, d, few, h)
      go (some f) e =
          let bs = sys.state.balancers in
          let t' = t + gain w (next_select f) bs in
          let n' = n + calls (next_select f) in
          let (k, l, good) = Fit-IsGood c sys.futures _ _ _ j f v.fit e in
          let less = poll-IsLess c net sys.futures j sys.state _ _ f e v.fit in
          let (p', m', owe', fewer, paid) =
            poll-Owe c net w sys.futures j p m f sys.state e less.no_select
              (λ m'. poll-IsPaid c net w 7 k l m' f sys.state good) owe in
          (
            p',
            m',
            n',
            t',
            owe',
            subst (λ bs'. HasDues w s.balancers bs' n' t') (sym less.selected)
                (HasDues-bump w (next_select f) s.balancers bs n t valid d),
            omega (arith, few, fewer),
            omega (arith, paid, h),
          )

  run_moves-IsDialing :
      (ms : List (Move c)) (b : ℕ) (came : List (Arrival c)) (sys : System c)
      → IsRunning c services s came sys
      → IsDialing b sys
      → IsDialing (b + length (arrivals c ms)) (run_moves c net services ms sys)
  unfolding run_moves
  run_moves-IsDialing [] b came sys v d = subst (λ n. IsDialing n sys) (omega arith) d
  run_moves-IsDialing (arrives a ∷ ms) b came sys v d =
      subst (λ n. IsDialing n (run_moves c net services (arrives a ∷ ms) sys)) (omega arith)
        (run_moves-IsDialing ms (b + 1) _ _ (arrives-IsRunning c services net s came sys a v)
          (arrives-IsDialing b sys a d))
  run_moves-IsDialing (polls j ∷ ms) b came sys v d =
      run_moves-IsDialing ms b _ _ (polls-IsRunning c services net s came sys j v)
        (polls-IsDialing b came sys j v d)

  -- Whatever weight is given to addresses, and however requests are interleaved: each balancer goes
  -- on from where it stood, with no more selections together than requests that arrived, and the
  -- weight of the addresses that were connected to is at most that of the servers selected.
  pub run_moves-dues :
      (ms : List (Move c))
      → IsWellFormed c services s.balancers
      → let final = after c net services s ms in
        (n : ℕ) × (t : ℕ) × HasDues w s.balancers final.state.balancers n t
        × (n ≤ length (arrivals c ms))
        × (dialed w final.state.history ≤ dialed w s.history + t)
  run_moves-dues ms well_formed =
      let (p, m, n, t, owe, d, few, h) =
        run_moves-IsDialing ms 0 [] (idle c s) (idle-IsRunning c services s well_formed)
          (0, 0, 0, 0, tt, HasDues-zero w s.balancers valid, omega arith, omega arith) in
      (n, t, d, omega (arith, few), omega (arith, h))
