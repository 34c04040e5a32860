-- ===== src/Tests/Bundles.antt =====
-- Runs of a bundle of services.
use broxy.Prelude.{ℕ, ◌≡◌, ◌≤◌, ◌+◌, refl, List, [], ◌∷◌, none, some, get_elem?, length}
use broxy.Outcome.{returns}
use broxy.LoadBalancer.{get_upstream}
use broxy.LoadBalancer.Rounds.{advance_by}
use broxy.Filter.{method, filter}
use broxy.Network.{status_response, incoming}
use broxy.Service.{Service, new}
use broxy.Service
use broxy.Service.Filtering.{
  filter_request_by_header, sequential, filter_sequential_header, filter_parallel_header,
}
use broxy.Service.Processing.{
  process, process_without_body_without_middleware, process_without_body_internal, open_client,
}
use broxy.Service.Processing.Effects.{sends}
use broxy.Bundle.{ServiceBundle, serve, each_service, call}
use broxy.Bundle.Verdicts.{IsVerdict, call-IsVerdict}
use broxy.Bundle.Balancing.{selections}
use broxy.Bundle.Safety.{IsWellFormed, IsSafe, target, call-IsSafe}
use broxy.Bundle.Runs.{Arrival, targets, run, run-round_robin}
use broxy.Tests.Toy.{
  RequestParts, toy, echo, three, three-IsValid, start, peer, get_root, hello, pong, fine, unsized,
  broken_filter,
}

routing : Unit {0}
unfolding call each_service serve Service.get_upstream get_upstream process
    process_without_body_without_middleware process_without_body_internal open_client new
    filter_request_by_header filter_sequential_header filter_parallel_header sequential filter run
routing = tt

abbrev of_method : ℕ → Service toy
of_method m = new toy (method m ∷ []) [] none 0 none

abbrev broken : Service toy
broken = new toy (broken_filter ∷ []) [] none 0 none

-- POST and GET have a service each, over one balancer.
abbrev bundle : ServiceBundle toy
bundle = record { services = of_method 1 ∷ of_method 0 ∷ []; from = peer }

abbrev fragile : ServiceBundle toy
fragile = record { services = of_method 1 ∷ broken ∷ of_method 0 ∷ []; from = peer }

abbrev put_root : RequestParts
put_root = record get_root { method = 2 }

served :
    (call toy echo bundle tt get_root hello start).0
    ≡ returns (record { parts = fine; body = incoming pong })
unfolding routing
served = refl

bundle-IsWellFormed : IsWellFormed toy bundle.services start.balancers
unfolding new
bundle-IsWellFormed = (
  ((method 1 ∷ [], [], none, 0, none, refl), (three, refl, three-IsValid)),
  (((method 0 ∷ [], [], none, 0, none, refl), (three, refl, three-IsValid)), tt),
)

call-IsVerdict_example :
    IsVerdict toy echo peer get_root hello start bundle.services tt
      (call toy echo bundle tt get_root hello start)
unfolding new
call-IsVerdict_example =
    call-IsVerdict toy echo bundle tt get_root hello start
      ((three, refl, three-IsValid), ((three, refl, three-IsValid), tt))

too_large :
    call toy echo bundle tt get_root unsized start ≡ (returns (status_response toy 413), start)
unfolding routing
too_large = refl

call-IsSafe_example :
    IsSafe toy
      (target toy bundle.services tt peer get_root hello)
      start
      (call toy echo bundle tt get_root hello start)
call-IsSafe_example = call-IsSafe toy echo bundle tt get_root hello start bundle-IsWellFormed

abbrev arrivals : List (Arrival toy)
arrivals =
    record { from = peer; race = tt; header = get_root; body = hello }
    ∷ record { from = peer; race = tt; header = put_root; body = hello }
    ∷ record { from = peer; race = tt; header = record get_root { method = 1 }; body = hello }
    ∷ []

run-round_robin_example :
    (get_elem? (run toy echo bundle.services arrivals start).balancers 0
      ≡ some (advance_by (selections 0 (targets toy bundle.services arrivals)) three))
    × (sends toy (run toy echo bundle.services arrivals start).history
        ≤ sends toy start.history + length arrivals)
run-round_robin_example =
    run-round_robin toy echo bundle.services arrivals start 0 three bundle-IsWellFormed refl
      three-IsValid

-- The request that no service matches makes no selection.
two_selections : selections 0 (targets toy bundle.services arrivals) ≡ 2
unfolding routing
two_selections = refl
