-- ===== src/Executor/Counts.antt =====
-- broxy-core/src/service.rs: the number of requests in flight or answered.
use broxy.Prelude.{
  ℕ, zero, suc, ◌+◌, ◌≡◌, refl, List, [], ◌∷◌, Option, none, some, arith, length, length-append,
  set, get_elem?,
}
use broxy.Crates.{Crates}
use broxy.Network.{Network, Response}
use broxy.Service.{Service}
use broxy.Future.{Future}
use broxy.Executor.{System, Move, arrives, polls, arrivals, poll_found, step, run_moves}

length-set {ℓ} : {A : Type ℓ} (xs : List A) (i : ℕ) (a : A) → length (set xs i a) ≡ length xs
length-set [] i a = refl
length-set (x ∷ xs) zero a = refl
length-set (x ∷ xs) (suc i) a = omega (arith, length-set xs i a)

module _ (c : Crates) (net : Network c) (services : List (Service c)) where
  poll_found-length :
      (o : Option (Future c (Response c))) (i : ℕ) (sys : System c)
      → length (poll_found c net services o i sys).futures ≡ length sys.futures
  poll_found-length none i sys = refl
  poll_found-length (some f) i sys = length-set sys.futures i _

  -- There is one future for each request that arrived.
  pub run_moves-length :
      (ms : List (Move c)) (sys : System c)
      → length (run_moves c net services ms sys).futures
        ≡ length sys.futures + length (arrivals c ms)
  unfolding run_moves step
  run_moves-length [] sys = omega arith
  run_moves-length (arrives a ∷ ms) sys =
      omega (arith, run_moves-length ms _, length-append sys.futures _)
  run_moves-length (polls i ∷ ms) sys = omega (
    arith,
    run_moves-length ms (poll_found c net services (get_elem? sys.futures i) i sys),
    poll_found-length (get_elem? sys.futures i) i sys,
  )
