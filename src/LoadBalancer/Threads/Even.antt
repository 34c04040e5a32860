-- ===== src/LoadBalancer/Threads/Even.antt =====
-- broxy-core/src/load_balancer.rs: the selections of several threads are still even.
use broxy.Prelude.{
  ℕ, zero, suc, ◌%◌, ◌≡◌, refl, sym, ap, ◌∙◌, List, [], ◌∷◌, map, arith, length, Option, some, none,
}
use broxy.Outcome.{Outcome, returns, undefined}
use broxy.LoadBalancer.{Upstream, LoadBalancer}
use broxy.LoadBalancer.Counting.{count}
use broxy.LoadBalancer.Safety.{IsValid}
use broxy.LoadBalancer.Rounds.{advance_by}
use broxy.LoadBalancer.Threads.{Threads, select, run, start}
use broxy.LoadBalancer.Threads.Invariant.{
  held_counters, numbers, count_by, IsRun, run-IsRun, start-IsRun,
}

count_by-const : (xs : List ℕ) → count_by (λ x. 0) 0 xs ≡ length xs
count_by-const [] = refl
count_by-const (x ∷ xs) = omega (arith, count_by-const xs)

length-numbers : (c m : ℕ) → length (numbers c m) ≡ m
length-numbers c zero = refl
length-numbers c (suc m) = omega (arith, length-numbers c m)

count_by-id : (i : ℕ) (xs : List ℕ) → count_by (λ x. x) i xs ≡ count i xs
count_by-id i [] = refl
count_by-id i (x ∷ xs) = ground (arith, count_by-id i xs)

-- Without a call under way, as many calls are over as took a number.
all_over :
    {lb : LoadBalancer} {m : ℕ} {s : Threads}
    → IsRun lb m s
    → held_counters s.held ≡ []
    → ((f : ℕ → ℕ) (i : ℕ) → count_by f i s.counters ≡ count_by f i (numbers lb.current_index m))
      × (m ≡ length s.counters)
all_over {lb} {m} {s} v none_held = (
  same,
  omega (
    arith,
    same (λ x. 0) 0,
    count_by-const s.counters,
    count_by-const (numbers lb.current_index m),
    length-numbers lb.current_index m,
  ),
)
  where
    same : (f : ℕ → ℕ) (i : ℕ) → count_by f i s.counters ≡ count_by f i (numbers lb.current_index m)
    same f i = omega (arith, v.same_counts f i, ap (count_by f i) none_held)

-- What a call gives for the server at its index.
abbrev pub given_server : Option Upstream → Outcome Upstream
given_server (some u) = returns u
given_server none = undefined

module _ (lb : LoadBalancer) (k : ℕ) (ts : List ℕ) (valid : IsValid lb)
    (none_held : held_counters (run ts (start lb k)).held ≡ []) where
  abbrev pub final : Threads
  final = run ts (start lb k)

  -- However the steps of threads are interleaved, once no call is under way the calls took the
  -- consecutive numbers from the counter on, each as often as calls one after the other would;
  -- the counter has moved on by the number of calls, and each call gave what its number selects.
  pub run-numbers :
      (x : ℕ)
      → (count x final.counters ≡ count x (numbers lb.current_index (length final.counters)))
        × (final.balancer ≡ advance_by (length final.counters) lb)
        × (final.results ≡ map (λ c. (select c lb).0) final.counters)
  run-numbers x =
      let (m, v) = run-IsRun ts 0 (start lb k) (start-IsRun lb k valid) in
      let (same, total) = all_over v none_held in
      (
        sym (count_by-id x final.counters)
            ∙ same (λ y. y) x
            ∙ count_by-id x (numbers lb.current_index m)
            ∙ ap (λ l. count x (numbers lb.current_index l)) total,
        v.same_balancer ∙ ap (λ l. advance_by l lb) total,
        v.same_results,
      )

  -- The index of each finished call.
  abbrev pub indices : List ℕ
  indices = map (λ c. c % length lb.servers) final.counters
