-- ===== src/Executor/Budgets.antt =====
-- broxy-core/src/service.rs: what the requests in flight may still do together.
use mathlib.Core.Path.{subst}
use broxy.Prelude.{
  ℕ, zero, suc, ◌+◌, ◌≤◌, ◌≡◌, sym, List, [], ◌∷◌, ◌++◌, Option, none, some, arith, get_elem?, set,
}
use broxy.LoadBalancer.{LoadBalancer}
use broxy.Crates.{Crates}
use broxy.Network.{Network, State, Response}
use broxy.Service.Processing.Effects.{connects, sends}
use broxy.Bundle.Balancing.{bump}
use broxy.Future.{Future, poll}
use broxy.Executor.Polls.{next_select, IsGood, IsGood-mono, poll-IsPolled}

module _ (c : Crates) where
  -- Every future keeps to its budget, and together they connect at most `m` times and send at most `n`
  -- requests from now on.
  abbrev pub Fit : List (Future c (Response c)) → List LoadBalancer → ℕ → ℕ → Type 0
  Fit [] bs m n = Unit
  Fit (f ∷ fs) bs m n =
      (m' : ℕ) × (n' : ℕ) × (m'' : ℕ) × (n'' : ℕ) × IsGood bs 7 m' n' f
      × Fit fs bs m'' n''
      × (m' + m'' ≤ m)
      × (n' + n'' ≤ n)

  bump-Fit :
      (fs : List (Future c (Response c))) (bs : List LoadBalancer) (t : Option ℕ) (m n : ℕ)
      → Fit fs bs m n
      → Fit fs (bump t bs) m n
  bump-Fit [] bs t m n w = tt
  bump-Fit (f ∷ fs) bs t m n (m', n', m'', n'', g, w, p, q) = (
    m',
    n',
    m'',
    n'',
    IsGood-mono f bs t 7 m' n' 7 (omega arith) g,
    bump-Fit fs bs t m'' n'' w,
    p,
    q,
  )

  pub append-Fit :
      (fs : List (Future c (Response c))) (bs : List LoadBalancer) (m n : ℕ)
      (f : Future c (Response c))
      → Fit fs bs m n
      → IsGood bs 7 1 1 f
      → Fit (fs ++ f ∷ []) bs (m + 1) (n + 1)
  append-Fit [] bs m n f w g = (1, 1, 0, 0, g, tt, omega arith, omega arith)
  append-Fit (h ∷ fs) bs m n f (m', n', m'', n'', k, w, p, q) g =
      (m', n', m'' + 1, n'' + 1, k, append-Fit fs bs m'' n'' f w g, omega arith, omega arith)

  pub Fit-IsGood :
      (fs : List (Future c (Response c))) (bs : List LoadBalancer) (m n j : ℕ)
      (f : Future c (Response c))
      → Fit fs bs m n
      → get_elem? fs j ≡ some f
      → (m' : ℕ) × (n' : ℕ) × IsGood bs 7 m' n' f
  Fit-IsGood [] bs m n j f w e = cc
  Fit-IsGood (g ∷ fs) bs m n zero f (m', n', m'', n'', k, w, p, q) e =
      let same : g ≡ f = cc e in (m', n', subst (IsGood bs 7 m' n') same k)
  Fit-IsGood (g ∷ fs) bs m n (suc j) f (m', n', m'', n'', k, w, p, q) e =
      Fit-IsGood fs bs m'' n'' j f w e

module _ (c : Crates) (net : Network c) where
  -- What is to come after a poll of `f` among the futures, with what has come, is not more than before.
  pub record IsLess (f : Future c (Response c)) (fs : List (Future c (Response c))) (m n : ℕ)
      (s : State c) (p : Future c (Response c) × State c) : Type 0 where
    pub more_connects : ℕ
    pub more_sends : ℕ
    pub fit : Fit c fs p.1.balancers more_connects more_sends
    pub no_select : next_select p.0 ≡ none
    pub selected : p.1.balancers ≡ bump (next_select f) s.balancers
    pub few_connects : connects c p.1.history + more_connects ≤ connects c s.history + m
    pub few_sends : sends c p.1.history + more_sends ≤ sends c s.history + n

  first-IsLess :
      (f : Future c (Response c)) (fs : List (Future c (Response c))) (s : State c) (m n : ℕ)
      → Fit c (f ∷ fs) s.balancers m n
      → IsLess f ((poll c net f s).0 ∷ fs) m n s (poll c net f s)
  first-IsLess f fs s m n (m', n', m'', n'', g, w, p, q) =
      let polled = poll-IsPolled c net 7 m' n' f s g in
      let (f', s') = poll c net f s in
      let after =
        subst (λ bs. Fit c fs bs m'' n'') (sym polled.selected)
          (bump-Fit c fs s.balancers (next_select f) m'' n'' w) in
      record {
        more_connects = polled.more_connects + m'';
        more_sends = polled.more_sends + n'';
        fit = (
          polled.more_connects,
          polled.more_sends,
          m'',
          n'',
          IsGood-mono f' s'.balancers none 6 _ _ 7 (omega arith) polled.is_good,
          after,
          omega arith,
          omega arith,
        );
        no_select = polled.no_select;
        selected = polled.selected;
        few_connects = omega (arith, polled.few_connects);
        few_sends = omega (arith, polled.few_sends);
      }

  pub poll-IsLess :
      (fs : List (Future c (Response c))) (i : ℕ) (s : State c) (m n : ℕ)
      (f : Future c (Response c))
      → get_elem? fs i ≡ some f
      → Fit c fs s.balancers m n
      → IsLess f (set fs i (poll c net f s).0) m n s (poll c net f s)
  poll-IsLess [] i s m n f e w = cc
  poll-IsLess (g ∷ fs) zero s m n f e w =
      let same : g ≡ f = cc e in
      subst (λ h. IsLess h ((poll c net h s).0 ∷ fs) m n s (poll c net h s)) same
        (first-IsLess g fs s m n w)
  poll-IsLess (g ∷ fs) (suc i) s m n f e (m', n', m'', n'', k, w, p, q) =
      let less = poll-IsLess fs i s m'' n'' f e w in
      let still =
        subst (λ bs. IsGood bs 7 m' n' g) (sym less.selected)
          (IsGood-mono g s.balancers (next_select f) 7 m' n' 7 (omega arith) k) in
      record {
        more_connects = m' + less.more_connects;
        more_sends = n' + less.more_sends;
        fit = (
          m',
          n',
          less.more_connects,
          less.more_sends,
          still,
          less.fit,
          omega arith,
          omega arith,
        );
        no_select = less.no_select;
        selected = less.selected;
        few_connects = omega (arith, less.few_connects);
        few_sends = omega (arith, less.few_sends);
      }
