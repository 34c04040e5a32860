-- ===== src/LoadBalancer/Threads.antt =====
-- broxy-core/src/load_balancer.rs: `get_upstream` called by several threads at once.
--
-- `fetch_add` is one atomic step of a thread, and the rest of the call another. A schedule is the list
-- of the threads that take the steps, in any order.
pub mod Invariant
pub mod Even
use broxy.Prelude.{ℕ, zero, suc, ◌%◌, List, [], ◌∷◌, Option, none, some, length, get_elem?, set}
use broxy.Outcome.{Outcome, returns, fails, panics, undefined, M, ◌>>=◌, lift}
use broxy.LoadBalancer.{Upstream, LoadBalancer, fetch_add, rem, get_unchecked}

-- A thread that is inside a call holds the number that it got; `counters` has the numbers of the calls
-- that are over, and `results` what they gave, the newest first.
pub record Threads : Type 0 where
  pub balancer : LoadBalancer
  pub held : List (Option ℕ)
  pub counters : List ℕ
  pub results : List (Outcome Upstream)

-- The call after its `fetch_add`.
unfoldable pub select : ℕ → M LoadBalancer Upstream
select current lb =
    (do index ← lift (rem current (length lb.servers)); lift (get_unchecked lb.servers index)) lb

abbrev pub hold : ℕ → Outcome ℕ × LoadBalancer → Threads → Threads
hold t (returns current, lb) s = record s { balancer = lb; held = set s.held t (some current) }
hold t (o, lb) s = record s { balancer = lb }

-- The next step of a thread, from what it holds; there may be no such thread.
abbrev pub go_on_thread : Option (Option ℕ) → ℕ → Threads → Threads
go_on_thread none t s = s
go_on_thread (some none) t s = hold t (fetch_add s.balancer) s
go_on_thread (some (some current)) t s = record s {
  held = set s.held t none;
  counters = current ∷ s.counters;
  results = (select current s.balancer).0 ∷ s.results;
}

unfoldable pub step : ℕ → Threads → Threads
step t s = go_on_thread (get_elem? s.held t) t s

unfoldable pub run : List ℕ → Threads → Threads
run [] s = s
run (t ∷ ts) s = run ts (step t s)

abbrev pub idle : ℕ → List (Option ℕ)
idle zero = []
idle (suc k) = none ∷ idle k

-- `k` threads outside of calls.
abbrev pub start : LoadBalancer → ℕ → Threads
start lb k = record { balancer = lb; held = idle k; counters = []; results = [] }
