-- ===== src/Tests/Worlds.antt =====
-- Runs of a whole server.
use mathlib.Core.List.{Memᴰ}
use broxy.Prelude.{◌≡◌, ◌≢◌, refl, List, [], ◌∷◌, All, none, some, length, get_elem?, arith}
use broxy.Outcome.{ok, err, returns, foreign, Outcome, undefined}
use broxy.LoadBalancer.{v4, get_upstream, fetch_add}
use broxy.Filter.{method, black_list, filter, get}
use broxy.Network.{Response, status_response, incoming}
use broxy.Service.{Service, new as new_service}
use broxy.Service.Filtering.{
  filter_request_by_body, filter_request_by_header, sequential, filter_sequential_header,
  filter_parallel_header,
}
use broxy.BodyFilter
use broxy.Service.Processing.{get_body_filters_raw, from_raw_parts, refuse_body}
use broxy.Service.Processing.Effects.{sends}
use broxy.Bundle.{ServiceBundle}
use broxy.Future.{ready, poll}
use broxy.Future.Calls.{
  call_future, each_service_future, serve_future, process_future, open_client_future,
  without_body_future, with_body_future,
}
use broxy.Server.{Server, new, accept, accept_with, non_tls_acceptor, tls_acceptor}
use broxy.Executor.{Move, arrivals, idle, run_moves}
use broxy.Bundle.Runs.{Arrival}
use broxy.Executor.Provenance.{AllSent}
use broxy.World.{
  World, Input, accepts, shakes, requests, polls, closes, at_start, react, run_inputs,
}
use broxy.World.Peers.{IsPeer}
use broxy.World.Refinement.{run_inputs-run_moves}
use broxy.World.Origins.{IsFromPeer, run_inputs-forwards, run_inputs-barred}
use broxy.World.Answers.{run_inputs-ends}
use broxy.World.Handshakes.{react-not_shaken}
use broxy.Tests.Servers.{tokio}
use broxy.Tests.Toy.{
  toy, refuse_all, tagging, echo, start, peer, get_root, hello, pong, fine, three, three-IsValid,
}

working : Unit {0}
unfolding run_inputs react accept accept_with poll call_future each_service_future serve_future
    process_future open_client_future without_body_future new_service get_upstream fetch_add
    filter_request_by_header filter_sequential_header filter_parallel_header sequential filter get
    run_moves with_body_future get_body_filters_raw from_raw_parts filter_request_by_body
    BodyFilter.filter refuse_body
working = tt

abbrev guarded : Service toy
guarded = new_service toy (method 0 ∷ black_list (v4 0 ∷ []) ∷ []) [] none 0 none

abbrev bundle : ServiceBundle toy
bundle = record { services = guarded ∷ []; from = peer }

abbrev plain : Server toy tokio
plain = record {
  connection = peer;
  services = bundle;
  acceptor = none;
  accept_function = non_tls_acceptor;
}

abbrev secure : Server toy tokio
secure = record plain { acceptor = some 3; accept_function = tls_acceptor }

-- The first peer is on the black list, the second call of `accept` fails, and the third peer is served.
abbrev busy : List (Input toy)
busy =
    accepts
    ∷ accepts
    ∷ accepts
    ∷ requests 0 tt get_root hello
    ∷ requests 1 tt get_root hello
    ∷ polls 0
    ∷ polls 1
    ∷ polls 1
    ∷ closes 0
    ∷ polls 1
    ∷ polls 1
    ∷ polls 1
    ∷ []

abbrev done : World toy
done = run_inputs toy tokio echo plain busy (at_start toy start)

both_answered :
    (done.system.futures
      ≡ ready (returns (status_response toy 404))
        ∷ ready (returns (record { parts = fine; body = incoming pong }))
        ∷ [])
    × (sends toy done.system.state.history ≡ 1)
unfolding working
both_answered = (refl, refl)

-- With TLS, a handshake comes first, and a failed one ends the connection.
shaken_first :
    (length
        (run_inputs toy tokio echo secure
          (accepts
            ∷ accepts
            ∷ accepts
            ∷ requests 0 tt get_root hello
            ∷ shakes 0 (ok tt)
            ∷ shakes 1 (err (foreign 5))
            ∷ requests 0 tt get_root hello
            ∷ requests 1 tt get_root hello
            ∷ [])
          (at_start toy start)).system.futures
      ≡ 1)
unfolding working
shaken_first = refl

run_inputs-run_moves_example :
    (ms : List (Move toy)) × (done.system ≡ run_moves toy echo bundle.services ms (idle toy start))
    × All (λ a. IsPeer toy tokio plain done.calls a.from) (arrivals toy ms)
unfolding new
run_inputs-run_moves_example =
    run_inputs-run_moves toy tokio echo bundle none plain start peer refl busy

run_inputs-forwards_example :
    AllSent toy (IsFromPeer toy tokio echo plain busy done.calls) done.system.state.history
unfolding new
run_inputs-forwards_example =
    run_inputs-forwards toy tokio echo plain peer bundle none refl (three ∷ []) busy

run_inputs-barred_example :
    AllSent toy
      (λ request.
        (f : IsFromPeer toy tokio echo plain busy done.calls request) × (f.0.from.ip ≢ v4 0))
      done.system.state.history
unfolding new new_service
run_inputs-barred_example =
    run_inputs-barred toy tokio echo plain peer bundle none refl (three ∷ []) busy (v4 0)
      ((v4 0 ∷ [], 1, refl, Memᴰ.head refl), tt)

react-not_shaken_example :
    react toy tokio echo secure (requests 1 tt get_root hello) (
      run_inputs toy tokio echo secure
        (accepts ∷ shakes 0 (ok tt) ∷ accepts ∷ [])
        (at_start toy start))
    ≡ run_inputs toy tokio echo secure
        (accepts ∷ shakes 0 (ok tt) ∷ accepts ∷ [])
        (at_start toy start)
unfolding new
react-not_shaken_example =
    react-not_shaken toy tokio echo bundle 3 secure peer refl
      (accepts ∷ shakes 0 (ok tt) ∷ accepts ∷ []) start 1 tt get_root hello
      (λ e. e, ((λ e. cc e), ((λ e. e), tt)))

-- Seven steps are enough for each request, whatever else goes on.
abbrev more : List (Input toy)
more =
    polls 1
    ∷ polls 1
    ∷ accepts
    ∷ polls 1
    ∷ polls 1
    ∷ polls 0
    ∷ polls 1
    ∷ closes 1
    ∷ polls 1
    ∷ polls 1
    ∷ []

abbrev asked : List (Input toy)
asked =
    accepts ∷ accepts ∷ accepts ∷ requests 0 tt get_root hello ∷ requests 1 tt get_root hello ∷ []

run_inputs-ends_example :
    (o : Outcome (Response toy)) × (get_elem?
        (run_inputs toy tokio echo plain more
          (run_inputs toy tokio echo plain asked (at_start toy start))).system.futures
        1
      ≡ some (ready o))
    × (o ≢ undefined)
unfolding working new
run_inputs-ends_example =
    run_inputs-ends toy tokio echo bundle none plain start peer refl asked more 1 _
      (
        (
          (method 0 ∷ black_list (v4 0 ∷ []) ∷ [], [], none, 0, none, refl),
          (three, refl, three-IsValid),
        ),
        tt,
      )
      refl (omega arith)

abbrev asked_by_second : Arrival toy
asked_by_second = record {
  from = record { ip = v4 2; port = 5000 };
  race = tt;
  header = get_root;
  body = hello;
}

-- A service that looks at bodies, and refuses all.
abbrev picky : Service toy
picky = new_service toy (method 0 ∷ []) (refuse_all ∷ []) (some tagging) 0 none

abbrev refusing : ServiceBundle toy
refusing = record { services = picky ∷ []; from = peer }

abbrev strict : Server toy tokio
strict = record plain { services = refusing }

abbrev refused_at_once : List (Input toy)
refused_at_once =
    accepts ∷ accepts ∷ accepts ∷ requests 1 tt get_root hello ∷ polls 0 ∷ polls 0 ∷ []
