-- ===== src/LoadBalancer/Threads/Invariant.antt =====
-- broxy-core/src/load_balancer.rs: what holds while several threads select.
use native.Mathlib.Nat.{mod-add-mod}
use broxy.Prelude.{
  ℕ, zero, suc, ◌+◌, ◌%◌, ◌≡◌, refl, ap, ◌∙◌, List, [], ◌∷◌, map, Option, none, some, arith,
  get_elem?, set,
}
use broxy.Outcome.{◌>>=◌}
use broxy.LoadBalancer.{LoadBalancer, usize_mod, fetch_add, get_upstream}
use broxy.LoadBalancer.Counting.{count}
use broxy.LoadBalancer.Safety.{IsValid, advance}
use broxy.LoadBalancer.Rounds.{advance_by, advance_by-zero}
use broxy.LoadBalancer.Threads.{Threads, select, go_on_thread, step, run, idle, start}

-- A call is its two steps.
get_upstream-steps : (lb : LoadBalancer) → get_upstream lb ≡ (fetch_add >>= select) lb
unfolding get_upstream fetch_add select
get_upstream-steps lb = refl

-- The numbers that threads hold.
abbrev pub held_counters : List (Option ℕ) → List ℕ
held_counters [] = []
held_counters (none ∷ hs) = held_counters hs
held_counters (some c ∷ hs) = c ∷ held_counters hs

-- The numbers that `m` calls of `fetch_add` give from `c` on, the newest first.
abbrev pub numbers : ℕ → ℕ → List ℕ
numbers c zero = []
numbers c (suc m) = (c + m) % usize_mod ∷ numbers c m

module _ (f : ℕ → ℕ) (i : ℕ) where
  -- How often `f` gives `i`.
  abbrev pub count_by : List ℕ → ℕ
  count_by xs = count i (map f xs)

  held-set-some :
      (hs : List (Option ℕ)) (t c : ℕ)
      → get_elem? hs t ≡ some none
      → count_by (held_counters (set hs t (some c))) ≡ count_by (c ∷ held_counters hs)
  held-set-some [] t c e = cc
  held-set-some (h ∷ hs) zero c e = ground arith
  held-set-some (none ∷ hs) (suc t) c e = held-set-some hs t c e
  held-set-some (some d ∷ hs) (suc t) c e = ground (arith, held-set-some hs t c e)

  held-set-none :
      (hs : List (Option ℕ)) (t c : ℕ)
      → get_elem? hs t ≡ some (some c)
      → count_by (c ∷ held_counters (set hs t none)) ≡ count_by (held_counters hs)
  held-set-none [] t c e = cc
  held-set-none (h ∷ hs) zero c e = ground arith
  held-set-none (none ∷ hs) (suc t) c e = held-set-none hs t c e
  held-set-none (some d ∷ hs) (suc t) c e = ground (arith, held-set-none hs t c e)

-- What holds after any steps, `m` of which were `fetch_add`: the numbers of the calls that are over and
-- those still held are together the `m` numbers from the start on, each as often.
pub record IsRun (lb : LoadBalancer) (m : ℕ) (s : Threads) : Type 0 where
  pub same_balancer : s.balancer ≡ advance_by m lb
  pub same_counts :
      (f : ℕ → ℕ) (i : ℕ)
      → count_by f i s.counters + count_by f i (held_counters s.held)
        ≡ count_by f i (numbers lb.current_index m)
  pub same_results : s.results ≡ map (λ c. (select c lb).0) s.counters

select-advance_by : (c m : ℕ) (lb : LoadBalancer) → (select c (advance_by m lb)).0 ≡ (select c lb).0
unfolding select
select-advance_by c m lb = ground arith

advance-advance_by : (m : ℕ) (lb : LoadBalancer) → advance (advance_by m lb) ≡ advance_by (suc m) lb
advance-advance_by m lb =
    ap (λ c. record lb { current_index = c })
      (mod-add-mod (lb.current_index + m) usize_mod 1 ∙ ap (λ c. c % usize_mod) (omega arith))

hold-IsRun :
    {lb : LoadBalancer} {m : ℕ} {s : Threads} (t : ℕ)
    → IsRun lb m s
    → get_elem? s.held t ≡ some none
    → IsRun lb (suc m) (go_on_thread (some none) t s)
unfolding fetch_add
hold-IsRun {lb} {m} {s} t v e = record {
  same_balancer = ap advance v.same_balancer ∙ advance-advance_by m lb;
  same_counts = λ f i. ground (
    arith,
    held-set-some f i s.held t s.balancer.current_index e,
    v.same_counts f i,
    ap (λ (b : LoadBalancer). f b.current_index) v.same_balancer,
  );
  same_results = v.same_results;
}

finish-IsRun :
    {lb : LoadBalancer} {m : ℕ} {s : Threads} (t c : ℕ)
    → IsRun lb m s
    → get_elem? s.held t ≡ some (some c)
    → IsRun lb m (go_on_thread (some (some c)) t s)
finish-IsRun {lb} {m} {s} t c v e = record {
  same_balancer = v.same_balancer;
  same_counts = λ f i. ground (arith, held-set-none f i s.held t c e, v.same_counts f i);
  same_results = cc (
    v.same_results,
    ap (λ (b : LoadBalancer). (select c b).0) v.same_balancer,
    select-advance_by c m lb,
  );
}

step-IsRun :
    {lb : LoadBalancer} {m : ℕ} {s : Threads} (t : ℕ)
    → IsRun lb m s
    → (n : ℕ) × IsRun lb n (step t s)
unfolding step
step-IsRun {lb} {m} {s} t v = go (get_elem? s.held t) refl
  where
    go :
        (h : Option (Option ℕ)) → get_elem? s.held t ≡ h → (n : ℕ) × IsRun lb n (go_on_thread h t s)
    go none e = (m, v)
    go (some none) e = (suc m, hold-IsRun t v e)
    go (some (some c)) e = (m, finish-IsRun t c v e)

pub run-IsRun :
    {lb : LoadBalancer} (ts : List ℕ) (m : ℕ) (s : Threads)
    → IsRun lb m s
    → (n : ℕ) × IsRun lb n (run ts s)
unfolding run
run-IsRun [] m s v = (m, v)
run-IsRun (t ∷ ts) m s v = let (n, w) = step-IsRun t v in run-IsRun ts n (step t s) w

held_counters-idle : (k : ℕ) → held_counters (idle k) ≡ []
held_counters-idle zero = refl
held_counters-idle (suc k) = held_counters-idle k

pub start-IsRun : (lb : LoadBalancer) (k : ℕ) → IsValid lb → IsRun lb 0 (start lb k)
start-IsRun lb k v = record {
  same_balancer = advance_by-zero lb v;
  same_counts = λ f i. omega (arith, ap (count_by f i) (held_counters-idle k));
  same_results = refl;
}
