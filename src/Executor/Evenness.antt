-- ===== src/Executor/Evenness.antt =====
-- broxy-core/src/service.rs and broxy-core/src/load_balancer.rs: how the connections of all requests
-- are spread over the servers.
use broxy.Prelude.{
  ℕ, ◌+◌, ◌/◌, ◌≤◌, ◌<◌, ◌≡◌, ◌==◌, if◌then◌else◌, List, [], ◌∷◌, arith, length, get_elem?,
}
use broxy.LoadBalancer.{SocketAddr, LoadBalancer, usize_mod}
use broxy.LoadBalancer.Safety.{IsValid}
use broxy.LoadBalancer.Dues.{weight_of, HasDues, dues_even}
use broxy.Crates.{Crates}
use broxy.Network.{Network, State, Event}
use broxy.Service.{Service}
use broxy.Bundle.Safety.{IsWellFormed}
use broxy.Executor.{Move, arrivals}
use broxy.Executor.Dialing.{dialed}
use broxy.Executor.Dialed.{run_moves-dues}
use broxy.Executor.Safety.{after}

module _ (w : SocketAddr → ℕ) (i m : ℕ) (lb : LoadBalancer) (v : IsValid lb)
    (no_wrap : lb.current_index + m ≤ usize_mod) (is_server : i < length lb.servers)
    (tells : (j : ℕ)
      → j < length lb.servers
      → weight_of w (get_elem? lb.servers j) ≡ (if j == i then 1 else 0)) where
  HasDues-even :
      (bs : List LoadBalancer) (n t : ℕ)
      → HasDues w (lb ∷ []) bs n t
      → n ≤ m
      → t ≤ m / length lb.servers + 1
  HasDues-even [] n t d h = absurd d
  HasDues-even (lb' ∷ []) n t (k, n', t', at, none_left, few, total) h = omega (
    arith,
    total,
    none_left,
    few,
    h,
    dues_even w i k m lb v no_wrap is_server tells (omega arith),
  )
  HasDues-even (lb' ∷ b ∷ bs) n t (k, n', t', at, d, few, total) h = absurd d

module _ (c : Crates) where
  -- The memory with one balancer.
  abbrev pub only : LoadBalancer → List (Event c) → State c
  only lb history = record { balancers = lb ∷ []; history = history }

module _ (c : Crates) (net : Network c) where
  -- While the counter does not wrap, however requests arrive and are interleaved, and whatever the
  -- network answers: with one balancer in memory, the connections to a server that a weight of one
  -- tells from the others, of weight zero, are at most the requests that arrived, divided by the
  -- number of servers, and one.
  pub run_moves-even :
      (services : List (Service c)) (w : SocketAddr → ℕ) (i : ℕ) (lb : LoadBalancer)
      (history : List (Event c)) (ms : List (Move c))
      → IsWellFormed c services (lb ∷ [])
      → IsValid lb
      → lb.current_index + length (arrivals c ms) ≤ usize_mod
      → i < length lb.servers
      → ((j : ℕ)
          → j < length lb.servers
          → weight_of w (get_elem? lb.servers j) ≡ (if j == i then 1 else 0))
      → dialed w (after c net services (only c lb history) ms).state.history
        ≤ dialed w history + (length (arrivals c ms) / length lb.servers + 1)
  run_moves-even services w i lb history ms well_formed v no_wrap is_server tells =
      let (n, t, d, few, less) =
        run_moves-dues c net services w (only c lb history) (v, tt) ms well_formed in
      omega (arith, less, HasDues-even w i _ lb v no_wrap is_server tells _ n t d few)
