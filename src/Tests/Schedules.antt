-- ===== src/Tests/Schedules.antt =====
-- Runs of the load balancer with several threads.
use broxy.Prelude.{ℕ, ◌≡◌, refl, List, [], ◌∷◌, map, length}
use broxy.Outcome.{returns}
use broxy.LoadBalancer.{fetch_add}
use broxy.LoadBalancer.Counting.{count}
use broxy.LoadBalancer.Rounds.{advance_by}
use broxy.LoadBalancer.Threads.{select, step, run, start}
use broxy.LoadBalancer.Threads.Invariant.{numbers}
use broxy.LoadBalancer.Threads.Even.{run-numbers}
use broxy.Tests.Toy.{server, three, three-IsValid}

scheduling : Unit {0}
unfolding run step select fetch_add
scheduling = tt

-- The second thread overtakes the first, and a third does not exist.
abbrev overtaking : List ℕ
overtaking = 0 ∷ 1 ∷ 1 ∷ 2 ∷ 0 ∷ 1 ∷ 1 ∷ []

overtaken :
    (run overtaking (start three 2)).results
    ≡ returns (server 3) ∷ returns (server 1) ∷ returns (server 2) ∷ []
unfolding scheduling
overtaken = refl

run-numbers_example :
    (count 1 (run overtaking (start three 2)).counters
      ≡ count 1 (numbers 0 (length (run overtaking (start three 2)).counters)))
    × ((run overtaking (start three 2)).balancer
        ≡ advance_by (length (run overtaking (start three 2)).counters) three)
    × ((run overtaking (start three 2)).results
        ≡ map (λ c. (select c three).0) (run overtaking (start three 2)).counters)
unfolding scheduling
run-numbers_example = run-numbers three 2 overtaking three-IsValid refl 1
