-- ===== src/LoadBalancer/Safety.antt =====
-- broxy-core/src/load_balancer.rs: one selection of a well-formed balancer.
use native.Mathlib.Nat.{mod-lt}
use broxy.Prelude.{
  ℕ, ◌+◌, ◌%◌, ◌<◌, ◌≡◌, List, [], ◌∷◌, some, arith, length, get_elem?, get_elem?-some,
}
use broxy.Outcome.{returns}
use broxy.LoadBalancer.{Upstream, LoadBalancer, usize_mod, new, get_upstream}

-- There is a server to choose, and the counter is a machine word.
pub record IsValid (lb : LoadBalancer) : Type 0 where
  pub has_server : 0 < length lb.servers
  pub is_word : lb.current_index < usize_mod

-- The balancer after a selection.
abbrev pub advance : LoadBalancer → LoadBalancer
advance lb = record lb { current_index = (lb.current_index + 1) % usize_mod }

abbrev pub next_index : LoadBalancer → ℕ
next_index lb = lb.current_index % length lb.servers

pub advance-IsValid : {lb : LoadBalancer} → IsValid lb → IsValid (advance lb)
advance-IsValid v = record { has_server = v.has_server; is_word = mod-lt _ (omega arith) }

-- A balancer that `new` returns is well-formed and starts at its first server.
new-IsValid :
    (us : List Upstream) {lb : LoadBalancer}
    → new us ≡ returns lb
    → IsValid lb × (lb.servers ≡ us) × (lb.current_index ≡ 0)
unfolding new
new-IsValid [] e = cc
new-IsValid (u ∷ us) e = ground arith

-- The index of a selection is within the servers, so that the unchecked access is defined and
-- returns the server at that index; only the counter changes.
pub get_upstream-returns :
    (lb : LoadBalancer)
    → IsValid lb
    → (u : Upstream) × (get_elem? lb.servers (next_index lb) ≡ some u)
      × (get_upstream lb ≡ (returns u, advance lb))
unfolding get_upstream
get_upstream-returns lb v =
    let in_range = mod-lt lb.current_index v.has_server in
    let (u, found) = get_elem?-some lb.servers (next_index lb) in_range in (u, found, ground arith)
