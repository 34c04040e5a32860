-- ===== src/Executor/Liveness.antt =====
-- broxy-core/src/service.rs: every request that is polled often enough is answered.
use mathlib.Core.Path.{subst}
use native.Mathlib.Decide.{ℕ_discrete}
use broxy.Prelude.{
  ℕ, zero, suc, ◌-◌, ◌≤◌, ◌≡◌, ◌≢◌, ◌==◌, if◌then◌else◌, true, false, refl, sym, ap, ◌∙◌, List, [],
  ◌∷◌, ◌++◌, Option, none, some, arith, get_elem?, set, get_elem?-set_self, get_elem?-set_ne,
}
use broxy.Outcome.{Outcome, undefined}
use broxy.LoadBalancer.{LoadBalancer}
use broxy.Crates.{Crates}
use broxy.Network.{Network, State, Response}
use broxy.Service.{Service}
use broxy.Bundle.Safety.{IsWellFormed}
use broxy.Bundle.Runs.{Arrival}
use broxy.Future.{
  Future, ready, selecting, await_connect, await_handshake, and_spawn, await_send, await_collect,
  poll,
}
use broxy.Executor.{System, Move, arrives, polls, poll_found, step, run_moves}
use broxy.Executor.Polls.{IsGood, IsGood-mono, next_select, poll-IsPolled}
use broxy.Executor.Budgets.{Fit, Fit-IsGood, poll-IsLess}
use broxy.Executor.Invariant.{IsRunning, arrives-IsRunning, polls-IsRunning}
use broxy.Executor.Safety.{after, after-IsRunning}

module _ (c : Crates) where
  -- How often the moves poll the future with the number `j`.
  abbrev pub polls_of : ℕ → List (Move c) → ℕ
  polls_of j [] = 0
  polls_of j (arrives a ∷ ms) = polls_of j ms
  polls_of j (polls i ∷ ms) = if i == j then suc (polls_of j ms) else polls_of j ms

  -- The future with the number `j` is ready after at most `t` more polls.
  abbrev IsAt : ℕ → ℕ → System c → Type 0
  IsAt t j sys =
      (f : Future c (Response c)) × (m : ℕ) × (n : ℕ) × (get_elem? sys.futures j ≡ some f)
      × IsGood sys.state.balancers t m n f

  IsAt-mono : (t t' j : ℕ) (sys : System c) → t ≤ t' → IsAt t j sys → IsAt t' j sys
  IsAt-mono t t' j sys h (f, m, n, e, g) =
      (f, m, n, e, IsGood-mono f sys.state.balancers none t m n t' h g)

  get_elem?-append :
      {A : Type 0} (xs ys : List A) (j : ℕ) (x : A)
      → get_elem? xs j ≡ some x
      → get_elem? (xs ++ ys) j ≡ some x
  get_elem?-append [] ys j x e = cc
  get_elem?-append (y ∷ xs) ys zero x e = e
  get_elem?-append (y ∷ xs) ys (suc j) x e = get_elem?-append xs ys j x e

  IsGood-zero :
      (bs : List LoadBalancer) (m n : ℕ) (f : Future c (Response c))
      → IsGood bs 0 m n f
      → (o : Outcome (Response c)) × (f ≡ ready o) × (o ≢ undefined)
  IsGood-zero bs m n (ready o) g = (o, refl, g)
  IsGood-zero bs m n (selecting i k) g = absurd (omega arith)
  IsGood-zero bs m n (await_connect a k) g = absurd (omega arith)
  IsGood-zero bs m n (await_handshake io k) g = absurd (omega arith)
  IsGood-zero bs m n (and_spawn conn k) g = absurd (omega arith)
  IsGood-zero bs m n (await_send sender request k) g = absurd (omega arith)
  IsGood-zero bs m n (await_collect body k) g = absurd (omega arith)

module _ (c : Crates) (net : Network c) (services : List (Service c)) where
  arrives-IsAt :
      (t j : ℕ) (sys : System c) (a : Arrival c)
      → IsAt c t j sys
      → IsAt c t j (step c net services (arrives a) sys)
  unfolding step
  arrives-IsAt t j sys a (f, m, n, e, g) = (f, m, n, get_elem?-append c sys.futures _ j f e, g)

  -- A poll of the future with the number `i`, which is `h`.
  found-IsAt :
      (t j i : ℕ) (sys : System c) (h : Future c (Response c)) (m n : ℕ)
      → get_elem? sys.futures i ≡ some h
      → Fit c sys.futures sys.state.balancers m n
      → IsAt c t j sys
      → IsAt c (if i == j then t - 1 else t) j (poll_found c net services (some h) i sys)
  found-IsAt t j i sys h m n e w (f, m', n', e', g) = elim (ℕ_discrete i j) [
    | yes same ↦
        let test : (i == j) ≡ true = ground arith in
        let found : f ≡ h = cc (e, e', same) in
        let polled =
          poll-IsPolled c net t m' n' h sys.state
            (subst (IsGood sys.state.balancers t m' n') found g) in
        rw test (
          (
            (poll c net h sys.state).0,
            polled.more_connects,
            polled.more_sends,
            ap (get_elem? (set sys.futures i (poll c net h sys.state).0)) (sym same)
                ∙ get_elem?-set_self sys.futures i _ e,
            polled.is_good,
          ))
    | no other ↦
        let test : (i == j) ≡ false = ground arith in
        let less = poll-IsLess c net sys.futures i sys.state m n h e w in
        let kept = IsGood-mono f sys.state.balancers (next_select h) t m' n' t (omega arith) g in
        rw test (
          (
            f,
            m',
            n',
            get_elem?-set_ne sys.futures i j _ other ∙ e',
            subst (λ bs. IsGood bs t m' n' f) (sym less.selected) kept,
          ))
  ]

  polls-IsAt :
      (t j i : ℕ) (sys : System c) (m n : ℕ)
      → Fit c sys.futures sys.state.balancers m n
      → IsAt c t j sys
      → IsAt c (if i == j then t - 1 else t) j (step c net services (polls i) sys)
  unfolding step
  polls-IsAt t j i sys m n w at = go (get_elem? sys.futures i) refl
    where
      go :
          (o : Option (Future c (Response c)))
          → get_elem? sys.futures i ≡ o
          → IsAt c (if i == j then t - 1 else t) j (poll_found c net services o i sys)
      go none e = elim (ℕ_discrete i j) [
        | yes same ↦ absurd (cc (e, at.3, same))
        | no other ↦ let test : (i == j) ≡ false = ground arith in rw test at
      ]
      go (some h) e = found-IsAt t j i sys h m n e w at

  run_moves-IsAt :
      (s : State c) (ms : List (Move c)) (came : List (Arrival c)) (sys : System c) (t j : ℕ)
      → IsRunning c services s came sys
      → IsAt c t j sys
      → IsAt c (t - polls_of c j ms) j (run_moves c net services ms sys)
  unfolding run_moves
  run_moves-IsAt s [] came sys t j v at = IsAt-mono c t (t - 0) j sys (omega arith) at
  run_moves-IsAt s (arrives a ∷ ms) came sys t j v at =
      run_moves-IsAt s ms _ _ t j (arrives-IsRunning c services net s came sys a v)
        (arrives-IsAt t j sys a at)
  run_moves-IsAt s (polls i ∷ ms) came sys t j v at =
      IsAt-mono c ((if i == j then t - 1 else t) - polls_of c j ms) _ j
        (run_moves c net services (polls i ∷ ms) sys) (ground arith)
        (run_moves-IsAt s ms _ _ _ j (polls-IsRunning c services net s came sys i v)
          (polls-IsAt t j i sys _ _ v.fit at))

  -- Every request is answered: if a future is in flight after some moves, then after any further
  -- moves that poll it seven times, in whatever company, it is ready, and not by undefined
  -- behaviour.
  pub run_moves-answers :
      (s : State c) (ms ms' : List (Move c)) (j : ℕ) (f : Future c (Response c))
      → IsWellFormed c services s.balancers
      → get_elem? (after c net services s ms).futures j ≡ some f
      → 7 ≤ polls_of c j ms'
      → (o : Outcome (Response c)) × (get_elem?
            (run_moves c net services ms' (after c net services s ms)).futures
            j
          ≡ some (ready o))
        × (o ≢ undefined)
  run_moves-answers s ms ms' j f well_formed e enough =
      let v = after-IsRunning c net services s ms well_formed in
      let (m, n, g) = Fit-IsGood c (after c net services s ms).futures _ _ _ j f v.fit e in
      let (f', m', n', e', g') = run_moves-IsAt s ms' _ _ 7 j v (f, m, n, e, g) in
      let final = run_moves c net services ms' (after c net services s ms) in
      let spent : 7 - polls_of c j ms' ≡ 0 = omega arith in
      let (o, is, defined) =
        IsGood-zero c final.state.balancers m' n' f'
          (subst (λ t. IsGood final.state.balancers t m' n' f') spent g') in
      (o, e' ∙ ap some is, defined)
