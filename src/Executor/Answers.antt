-- ===== src/Executor/Answers.antt =====
-- broxy-core/src/service.rs: the answers of requests that are in flight at the same time.
use mathlib.Core.Path.{subst}
use mathlib.Core.List.{append-nil, append_assoc}
use broxy.Prelude.{
  ℕ, zero, suc, ◌≡◌, refl, sym, List, [], ◌∷◌, ◌++◌, Option, none, some, get_elem?, set,
}
use broxy.Outcome.{Outcome}
use broxy.Crates.{Crates}
use broxy.Network.{Network, State, Response}
use broxy.Service.{Service}
use broxy.Bundle.Runs.{Arrival}
use broxy.Bundle.Safety.{IsWellFormed}
use broxy.Future.{Future, ready}
use broxy.Future.Yields.{Yields}
use broxy.Executor.{System, Move, arrives, polls, arrivals, idle, poll_found, step, run_moves}
use broxy.Executor.Budgets.{Fit-IsGood}
use broxy.Executor.Invariant.{IsRunning, idle-IsRunning, arrives-IsRunning, polls-IsRunning}
use broxy.Executor.Safety.{after}
use broxy.Executor.Allowed.{IsAnswer, start_request-Yields, poll-Yields}

module _ (c : Crates) (net : Network c) (services : List (Service c)) where
  -- Each future yields an answer for the request that it stands for.
  abbrev AllAnswer : List (Future c (Response c)) → List (Arrival c) → Type 0
  AllAnswer [] [] = Unit
  AllAnswer (f ∷ fs) (a ∷ came) = Yields net (IsAnswer c net services a) f × AllAnswer fs came
  AllAnswer _ _ = ⊥

  AllAnswer-append_one :
      (fs : List (Future c (Response c))) (came : List (Arrival c)) (f : Future c (Response c))
      (a : Arrival c)
      → AllAnswer fs came
      → Yields net (IsAnswer c net services a) f
      → AllAnswer (fs ++ f ∷ []) (came ++ a ∷ [])
  AllAnswer-append_one [] [] f a v y = (y, tt)
  AllAnswer-append_one [] (b ∷ came) f a v y = absurd v
  AllAnswer-append_one (g ∷ fs) [] f a v y = absurd v
  AllAnswer-append_one (g ∷ fs) (b ∷ came) f a (w, v) y = (w, AllAnswer-append_one fs came f a v y)

  AllAnswer-set :
      (fs : List (Future c (Response c))) (came : List (Arrival c)) (j : ℕ)
      (f f' : Future c (Response c))
      → get_elem? fs j ≡ some f
      → ((Q : Outcome (Response c) → Type 0) → Yields net Q f → Yields net Q f')
      → AllAnswer fs came
      → AllAnswer (set fs j f') came
  AllAnswer-set [] came j f f' e keep v = v
  AllAnswer-set (g ∷ fs) [] j f f' e keep v = absurd v
  AllAnswer-set (g ∷ fs) (a ∷ came) zero f f' e keep (y, v) =
      let same : g ≡ f = cc e in
      (keep (IsAnswer c net services a) (subst (Yields net (IsAnswer c net services a)) same y), v)
  AllAnswer-set (g ∷ fs) (a ∷ came) (suc j) f f' e keep (y, v) =
      (y, AllAnswer-set fs came j f f' e keep v)

  AllAnswer-get :
      (fs : List (Future c (Response c))) (came : List (Arrival c)) (j : ℕ)
      (f : Future c (Response c)) (a : Arrival c)
      → get_elem? fs j ≡ some f
      → get_elem? came j ≡ some a
      → AllAnswer fs came
      → Yields net (IsAnswer c net services a) f
  AllAnswer-get [] came j f a e e' v = cc e
  AllAnswer-get (g ∷ fs) [] j f a e e' v = cc e'
  AllAnswer-get (g ∷ fs) (b ∷ came) zero f a e e' (y, v) =
      let same : g ≡ f = cc e in
      let same' : b ≡ a = cc e' in
      subst (λ b. Yields net (IsAnswer c net services b) f) same'
        (subst (Yields net (IsAnswer c net services b)) same y)
  AllAnswer-get (g ∷ fs) (b ∷ came) (suc j) f a e e' (y, v) = AllAnswer-get fs came j f a e e' v

  poll_found-AllAnswer :
      (s : State c) (came : List (Arrival c)) (sys : System c) (j : ℕ)
      (o : Option (Future c (Response c)))
      → get_elem? sys.futures j ≡ o
      → IsRunning c services s came sys
      → AllAnswer sys.futures came
      → AllAnswer (poll_found c net services o j sys).futures came
  poll_found-AllAnswer s came sys j none e v w = w
  poll_found-AllAnswer s came sys j (some f) e v w =
      let (m, n, g) = Fit-IsGood c sys.futures sys.state.balancers _ _ j f v.fit e in
      AllAnswer-set sys.futures came j f _ e (λ Q y. poll-Yields c net Q f sys.state 7 m n g y) w

  run_moves-AllAnswer :
      (s : State c) (ms : List (Move c)) (came : List (Arrival c)) (sys : System c)
      → IsRunning c services s came sys
      → AllAnswer sys.futures came
      → AllAnswer (run_moves c net services ms sys).futures (came ++ arrivals c ms)
  unfolding run_moves step
  run_moves-AllAnswer s [] came sys v w = subst (AllAnswer sys.futures) (sym (append-nil came)) w
  run_moves-AllAnswer s (arrives a ∷ ms) came sys v w =
      subst (AllAnswer (run_moves c net services (arrives a ∷ ms) sys).futures)
        (append_assoc came (a ∷ []) (arrivals c ms))
        (run_moves-AllAnswer s ms (came ++ a ∷ []) _
          (arrives-IsRunning c services net s came sys a v)
          (AllAnswer-append_one sys.futures came _ a w (start_request-Yields c net services a)))
  run_moves-AllAnswer s (polls j ∷ ms) came sys v w =
      run_moves-AllAnswer s ms came _ (polls-IsRunning c services net s came sys j v)
        (poll_found-AllAnswer s came sys j (get_elem? sys.futures j) refl v w)

  -- If the services were made by `new` and point to well-formed balancers, then, however requests arrive
  -- and are interleaved, and whatever the network answers, a request that is answered got an
  -- answer that the services allow for it. If all services refuse it by header that is 404. Otherwise
  -- the first that does not decides: 500 or a panic as its header filters fail or panic, 413 for a
  -- body that may be longer than 64 KiB or is of unknown length; and where the service has body
  -- filters and middleware and processes with the body, unless the body cannot be read (which is an
  -- error) or a text that the network read as that body passes the body filters, what those make
  -- of such a text: the configured answer or 403, or the error or panic of a body filter.
  pub run_moves-IsAnswer :
      (s : State c) (ms : List (Move c)) (j : ℕ) (a : Arrival c) (o : Outcome (Response c))
      → IsWellFormed c services s.balancers
      → get_elem? (arrivals c ms) j ≡ some a
      → get_elem? (after c net services s ms).futures j ≡ some (ready o)
      → IsAnswer c net services a o
  run_moves-IsAnswer s ms j a o well_formed came answered =
      AllAnswer-get (after c net services s ms).futures (arrivals c ms) j (ready o) a answered came
        (run_moves-AllAnswer s ms [] (idle c s) (idle-IsRunning c services s well_formed) tt)
