-- ===== src/Executor/Invariant.antt =====
-- broxy-core/src/service.rs: what holds at every moment of a run.
use mathlib.Core.Path.{subst}
use mathlib.Core.List.{append_assoc, append-nil}
use broxy.Prelude.{
  ℕ, ◌+◌, ◌≤◌, ◌≡◌, refl, sym, ap, ◌∙◌, List, [], ◌∷◌, ◌++◌, map, Option, none, some, arith,
  get_elem?, length, length-append,
}
use broxy.LoadBalancer.{LoadBalancer}
use broxy.LoadBalancer.Safety.{IsValid}
use broxy.LoadBalancer.Rounds.{advance_by, advance_by-zero}
use broxy.Crates.{Crates}
use broxy.Network.{Network, State, Response}
use broxy.Service.{Service}
use broxy.Service.Processing.Effects.{connects, sends}
use broxy.Bundle.Balancing.{selections}
use broxy.Bundle.Safety.{IsWellFormed, IsWellFormed-bump, target}
use broxy.Bundle.Runs.{Arrival, targets}
use broxy.Future.{Future}
use broxy.Executor.{
  System, Move, arrives, polls, idle, arrivals, start_request, poll_found, step, run_moves,
}
use broxy.Executor.Polls.{next_select}
use broxy.Executor.Budgets.{Fit, append-Fit, poll-IsLess}
use broxy.Executor.Requests.{start_request-IsNew}
use broxy.Executor.Selections.{selections-map-append, selections-set-none, get_elem?-bump_add}

module _ (c : Crates) (services : List (Service c)) where
  -- The balancer at `i`, which was `lb`, has made all the selections that `came` are for but those that
  -- are still to come.
  abbrev pub IsBalanced : System c → List (Arrival c) → ℕ → LoadBalancer → Type 0
  IsBalanced sys came i lb =
      (k : ℕ) × (get_elem? sys.state.balancers i ≡ some (advance_by k lb))
      × (k + selections i (map next_select sys.futures) ≡ selections i (targets c services came))

  -- What holds of a system that started in the state `s`, after the requests `came` arrived.
  pub record IsRunning (s : State c) (came : List (Arrival c)) (sys : System c) : Type 0 where
    pub is_well_formed : IsWellFormed c services sys.state.balancers
    pub connects_left : ℕ
    pub sends_left : ℕ
    pub fit : Fit c sys.futures sys.state.balancers connects_left sends_left
    pub few_connects :
        connects c sys.state.history + connects_left ≤ connects c s.history + length came
    pub few_sends : sends c sys.state.history + sends_left ≤ sends c s.history + length came
    pub is_balanced :
        (i : ℕ) (lb : LoadBalancer)
        → IsValid lb
        → get_elem? s.balancers i ≡ some lb
        → IsBalanced sys came i lb

  pub idle-IsRunning :
      (s : State c) → IsWellFormed c services s.balancers → IsRunning s [] (idle c s)
  idle-IsRunning s w = record {
    is_well_formed = w;
    connects_left = 0;
    sends_left = 0;
    fit = tt;
    few_connects = omega arith;
    few_sends = omega arith;
    is_balanced = λ i lb v e. (0, e ∙ ap some (advance_by-zero lb v), omega arith);
  }

  pub arrives-IsRunning :
      (net : Network c) (s : State c) (came : List (Arrival c)) (sys : System c) (a : Arrival c)
      → IsRunning s came sys
      → IsRunning s (came ++ a ∷ []) (step c net services (arrives a) sys)
  unfolding step
  arrives-IsRunning net s came sys a v =
      let (good, new_target) =
        start_request-IsNew c services sys.state.balancers a v.is_well_formed in
      record {
        is_well_formed = v.is_well_formed;
        connects_left = v.connects_left + 1;
        sends_left = v.sends_left + 1;
        fit = append-Fit c sys.futures sys.state.balancers _ _ _ v.fit good;
        few_connects = omega (arith, v.few_connects, length-append came (a ∷ []));
        few_sends = omega (arith, v.few_sends, length-append came (a ∷ []));
        is_balanced = λ i lb valid e.
            let (k, at, total) = v.is_balanced i lb valid e in
            (
              k,
              at,
              omega (
                arith,
                total,
                selections-map-append next_select i sys.futures (start_request c services a ∷ []),
                selections-map-append (λ b. target c services b.race b.from b.header b.body) i came
                    (a ∷ []),
                ap (λ t. selections i (t ∷ [])) new_target,
              ),
            );
      }

  pub polls-IsRunning :
      (net : Network c) (s : State c) (came : List (Arrival c)) (sys : System c) (j : ℕ)
      → IsRunning s came sys
      → IsRunning s came (step c net services (polls j) sys)
  unfolding step
  polls-IsRunning net s came sys j v = go (get_elem? sys.futures j) refl
    where
      go :
          (o : Option (Future c (Response c)))
          → get_elem? sys.futures j ≡ o
          → IsRunning s came (poll_found c net services o j sys)
      go none e = v
      go (some f) e =
          let less = poll-IsLess c net sys.futures j sys.state _ _ f e v.fit in
          record {
            is_well_formed =
                subst (IsWellFormed c services) (sym less.selected)
                  (IsWellFormed-bump c services (next_select f) _ v.is_well_formed);
            connects_left = less.more_connects;
            sends_left = less.more_sends;
            fit = less.fit;
            few_connects = omega (arith, less.few_connects, v.few_connects);
            few_sends = omega (arith, less.few_sends, v.few_sends);
            is_balanced = λ i lb valid e'.
                let (k, at, total) = v.is_balanced i lb valid e' in
                (
                  k + selections i (next_select f ∷ []),
                  ap (λ bs. get_elem? bs i) less.selected
                      ∙ get_elem?-bump_add (next_select f) i k _ lb valid at,
                  omega (
                    arith,
                    selections-set-none next_select i sys.futures j f _ e less.no_select,
                    total,
                  ),
                );
          }

  pub run_moves-IsRunning :
      (net : Network c) (s : State c) (ms : List (Move c)) (came : List (Arrival c))
      (sys : System c)
      → IsRunning s came sys
      → IsRunning s (came ++ arrivals c ms) (run_moves c net services ms sys)
  unfolding run_moves
  run_moves-IsRunning net s [] came sys v =
      subst (λ bs. IsRunning s bs sys) (sym (append-nil came)) v
  run_moves-IsRunning net s (arrives a ∷ ms) came sys v =
      subst (λ bs. IsRunning s bs (run_moves c net services (arrives a ∷ ms) sys))
        (append_assoc came (a ∷ []) (arrivals c ms))
        (run_moves-IsRunning net s ms (came ++ a ∷ []) _ (arrives-IsRunning net s came sys a v))
  run_moves-IsRunning net s (polls j ∷ ms) came sys v =
      run_moves-IsRunning net s ms came _ (polls-IsRunning net s came sys j v)
