-- ===== src/Tests/Executors.antt =====
-- Runs with several requests in flight.
use mathlib.Core.List.{Permᴰ}
use broxy.Prelude.{
  ℕ, ◌==◌, if◌then◌else◌, ◌+◌, ◌≤◌, ◌≡◌, refl, List, [], ◌∷◌, none, All, length, get_elem?,
}
use broxy.Outcome.{returns, err, foreign}
use broxy.LoadBalancer.{v4, v6, IpAddr, SocketAddr, get_upstream, fetch_add}
use broxy.Executor.Dialing.{dialed}
use broxy.Filter.{method, filter}
use broxy.Network.{Network, incoming}
use broxy.Service.{Service, new}
use broxy.Service.Filtering.{
  filter_request_by_header, sequential, filter_sequential_header, filter_parallel_header,
}
use broxy.Service.Processing.Effects.{connects, sends}
use broxy.Bundle.Safety.{IsWellFormed}
use broxy.Bundle.Runs.{Arrival, run}
use broxy.Future.{ready, poll}
use broxy.Future.Calls.{
  call_future, each_service_future, serve_future, process_future, open_client_future,
  without_body_future,
}
use broxy.Future.Budget.{Within}
use broxy.Future.Bounds.{new-process_future-Within}
use broxy.Executor.{Move, arrives, polls, arrivals, step, run_moves}
use broxy.Executor.Safety.{IsDefined, after, run_moves-IsSafe, run_moves-as_sequential}
use broxy.Executor.Confluence.{run_moves-confluent}
use broxy.Tests.Toy.{
  toy, echo, server, three, three-IsValid, start, peer, get_root, hello, pong, fine,
}

executing : Unit {0}
unfolding poll call_future each_service_future serve_future process_future open_client_future
    without_body_future new step run_moves get_upstream fetch_add filter_request_by_header
    filter_sequential_header filter_parallel_header sequential filter
executing = tt

abbrev services : List (Service toy)
services = new toy (method 0 ∷ []) [] none 0 none ∷ []

abbrev arrival : Arrival toy
arrival = record { from = peer; race = tt; header = get_root; body = hello }

-- The second request overtakes the first one.
abbrev overtaking : List (Move toy)
overtaking =
    arrives arrival
    ∷ arrives arrival
    ∷ polls 1
    ∷ polls 1
    ∷ polls 0
    ∷ polls 1
    ∷ polls 1
    ∷ polls 1
    ∷ polls 0
    ∷ polls 0
    ∷ polls 0
    ∷ polls 0
    ∷ []

services-IsWellFormed : IsWellFormed toy services start.balancers
unfolding new
services-IsWellFormed =
    (((method 0 ∷ [], [], none, 0, none, refl), (three, refl, three-IsValid)), tt)

both_answered :
    (after toy echo services start overtaking).futures
    ≡ ready (returns (record { parts = fine; body = incoming pong }))
      ∷ ready (returns (record { parts = fine; body = incoming pong }))
      ∷ []
unfolding executing
both_answered = refl

new-process_future-Within_example :
    Within 6 1 1
      (process_future toy (new toy (method 0 ∷ []) [] none 0 none) (server 1) peer get_root hello)
new-process_future-Within_example =
    new-process_future-Within toy (method 0 ∷ []) [] none 0 none (server 1) peer get_root hello

run_moves-IsSafe_example :
    All (IsDefined toy) (after toy echo services start overtaking).futures
    × (connects toy (after toy echo services start overtaking).state.history
        ≤ connects toy start.history + length (arrivals toy overtaking))
    × (sends toy (after toy echo services start overtaking).state.history
        ≤ sends toy start.history + length (arrivals toy overtaking))
run_moves-IsSafe_example = run_moves-IsSafe toy echo services start overtaking services-IsWellFormed

run_moves-as_sequential_example :
    get_elem? (after toy echo services start overtaking).state.balancers 0
    ≡ get_elem? (run toy echo services (arrivals toy overtaking) start).balancers 0
unfolding executing
run_moves-as_sequential_example =
    run_moves-as_sequential toy echo services start overtaking services-IsWellFormed 0 three refl
      three-IsValid ((_, refl), ((_, refl), tt))

abbrev is_second : IpAddr → ℕ
is_second (v4 n) = if n == 2 then 1 else 0
is_second (v6 n) = 0

-- The weight that counts connections to the server 2.
abbrev to_second : SocketAddr → ℕ
to_second a = is_second a.ip

-- Of two requests, the second connects to the second server.
one_to_second : dialed to_second (after toy echo services start overtaking).state.history ≡ 1
unfolding executing
one_to_second = refl

abbrev unserved : Arrival toy
unserved = record arrival { header = record get_root { method = 1 } }

abbrev refusing : Network toy
refusing = record echo { connect = λ history address. err (foreign 3) }

-- The two requests in the other order, over a network where no upstream can be reached.
abbrev reordered : List (Move toy)
reordered = arrives unserved ∷ arrives arrival ∷ polls 1 ∷ polls 1 ∷ []

abbrev ordered : List (Move toy)
ordered = arrives arrival ∷ polls 0 ∷ polls 0 ∷ polls 0 ∷ arrives unserved ∷ polls 0 ∷ polls 0 ∷ []

run_moves-confluent_example :
    get_elem? (after toy echo services start ordered).state.balancers 0
    ≡ get_elem? (after toy refusing services start reordered).state.balancers 0
unfolding executing
run_moves-confluent_example =
    run_moves-confluent toy services echo refusing start ordered reordered 0 three
      services-IsWellFormed refl three-IsValid ∣ Permᴰ.swap refl refl ∣₁
      ((_, refl), ((_, refl), tt)) ((_, refl), ((_, refl), tt))
