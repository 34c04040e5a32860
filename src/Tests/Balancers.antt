-- ===== src/Tests/Balancers.antt =====
-- Runs of the load balancer.
use broxy.Prelude.{◌%◌, ◌+◌, ◌≡◌, ◌<◌, refl, List, [], ◌∷◌, some, get_elem?, length, arith, ◌-◌}
use broxy.Outcome.{returns, panics}
use broxy.LoadBalancer.{Upstream, LoadBalancer, usize_mod, new, get_upstream}
use broxy.LoadBalancer.Safety.{IsValid, next_index}
use broxy.LoadBalancer.Rounds.{picks, advance_by, picks-round_robin, picks-wrap}
use broxy.LoadBalancer.Queue.{queue_picks, queue, picks-queue}
use broxy.Tests.Toy.{server, three, three-IsValid}

-- The balancer of three servers, about to wrap.
abbrev last : LoadBalancer
last = record three { current_index = usize_mod - 1 }

last-IsValid : IsValid last
last-IsValid = record { has_server = omega arith; is_word = omega arith }

four_picks :
    picks 4 three
    ≡ (returns (server 1 ∷ server 2 ∷ server 3 ∷ server 1 ∷ []), record three { current_index = 4 })
unfolding picks get_upstream
four_picks = refl

-- 2 ^ 64 leaves the remainder 1, so that the first server is chosen twice in a row.
wrap_picks :
    picks 3 last
    ≡ (returns (server 1 ∷ server 1 ∷ server 2 ∷ []), record three { current_index = 2 })
unfolding picks get_upstream
wrap_picks = refl

no_servers : new [] ≡ panics
unfolding new
no_servers = refl

picks-round_robin_example :
    (us : List Upstream) × (picks 3 last ≡ (returns us, advance_by 3 last))
    × (get_elem? us 2
        ≡ get_elem? last.servers ((last.current_index + 2) % usize_mod % length last.servers))
picks-round_robin_example = picks-round_robin last 3 2 last-IsValid (omega arith)

picks-wrap_example :
    (u : Upstream) × (w : Upstream) × (picks 2 last
      ≡ (returns (u ∷ w ∷ []), record last { current_index = 1 }))
    × (get_elem? last.servers (next_index last) ≡ some u)
    × (next_index last + 1 < length last.servers)
    × (get_elem? last.servers 0 ≡ some w)
picks-wrap_example = picks-wrap last last-IsValid (omega arith) (omega arith)

picks-queue_example :
    (picks 4 three ≡ (returns (queue_picks 4 (queue three)).0, advance_by 4 three))
    × (queue (advance_by 4 three) ≡ (queue_picks 4 (queue three)).1)
picks-queue_example = picks-queue 4 three three-IsValid (omega arith)

queue_after : (queue_picks 4 (queue three)).1 ≡ server 2 ∷ server 3 ∷ server 1 ∷ []
queue_after = refl
