-- ===== src/Tests/Deployments.antt =====
-- Runs of the deployed proxy, with a toy JSON: a body is the code of the method that it calls.
use broxy.Prelude.{
  inl, inr, All, ◌≤◌, ◌+◌, ◌/◌, length, List, ℕ, ◌≡◌, refl, ◌==◌, if◌then◌else◌, [], ◌∷◌, some,
  String, set, arith,
}
use broxy.Outcome.{Result, ok, err, returns, foreign}
use broxy.LoadBalancer.Safety.{IsValid, advance}
use broxy.Crates.{Bytes}
use broxy.Network.{State, status_response, full, collecting, sending, record_event}
use broxy.Service.Processing.Exchange.{opened}
use broxy.Deployment.Laws.{bundle, call-forbidden, call-forwarded}
use broxy.Executor.Dialing.{dialed}
use broxy.Service.Processing.Effects.{connects, sends}
use broxy.Tests.Servers.{tokio}
use broxy.Tests.Toy.{RequestParts, Stream, toy, echo, peer, get_root, hello, pong, fine}
use broxy.LoadBalancer.{LoadBalancer, new, get_upstream, fetch_add}
use broxy.Filter.{filter}
use broxy.BodyFilter
use broxy.Middleware.{process_incoming, new as new_middleware}
use broxy.Service.{new as new_service}
use broxy.Service.Filtering.{
  filter_request_by_header, filter_sequential_header, sequential, filter_request_by_body,
}
use broxy.Service.Processing.{get_body_filters_raw, from_raw_parts}
use broxy.Bundle.{call, new as new_bundle}
use broxy.Future.{poll}
use broxy.Future.Calls.{
  call_future, each_service_future, serve_future, process_future, open_client_future,
  with_body_future, forward_with_body_future, send_with_body_future, answer_with_body_future,
}
use broxy.Server.{Server, accept, accept_with}
use broxy.World.{World, Input, accepts, requests, polls, closes, react, run_inputs}
use broxy.Executor.Provenance.{AllSent}
use broxy.Executor.Safety.{IsDefined}
use broxy.Deployment.{Libraries, local, servers, start, service, middleware, rpc_filter}
use broxy.Deployment.Start.{server_at}
use broxy.Deployment.Evenness.{at_port}
use broxy.Deployment.Guard.{IsHarmless}
use broxy.Deployment.Works.{works, works-IsHarmless, works-IsSafe, works-even}

-- The method name of a code.
abbrev name_of : ℕ → String
name_of code = if code == 104 then "eth_call" else "eth_sendTransaction"

abbrev value_of : Bytes → Result ℕ
value_of [] = err (foreign 7)
value_of (b ∷ bs) = ok b

abbrev pub lib : Libraries toy
lib = record {
  post = 1;
  Value = ℕ;
  from_slice = value_of;
  get = λ v key. some v;
  as_str = λ v. some (name_of v);
  insert_header = λ name value p. record p { tags = 5 ∷ p.tags };
  to_string = λ a. "7.0.0.0:5000";
}

working : Unit {0}
unfolding run_inputs react accept accept_with poll call_future each_service_future serve_future
    process_future open_client_future with_body_future forward_with_body_future
    send_with_body_future answer_with_body_future service new_service get_upstream fetch_add
    filter_request_by_header filter_sequential_header sequential filter new_bundle
    filter_request_by_body BodyFilter.filter rpc_filter get_body_filters_raw from_raw_parts
    middleware process_incoming new_middleware
working = tt

abbrev balancer : LoadBalancer
balancer = record { servers = servers; current_index = 0 }

balancer-IsValid : IsValid balancer
balancer-IsValid = record { has_server = omega arith; is_word = omega arith }

abbrev fresh : State toy
fresh = record { balancers = balancer ∷ []; history = [] }

abbrev post_root : RequestParts
post_root = record get_root { method = 1 }

abbrev transaction : Stream
transaction = record { text = 5 ∷ []; upper = some 1 }

starts : new servers ≡ returns balancer
unfolding new
starts = refl

abbrev traffic : List (Input toy)
traffic =
    accepts
    ∷ accepts
    ∷ accepts
    ∷ requests 0 tt post_root transaction
    ∷ polls 0
    ∷ requests 1 tt post_root hello
    ∷ polls 0
    ∷ polls 1
    ∷ closes 0
    ∷ polls 1
    ∷ polls 1
    ∷ polls 1
    ∷ polls 1
    ∷ polls 1
    ∷ []

works-IsHarmless_example :
    (server : Server toy tokio) × (start toy lib tokio ≡ returns (balancer, server))
    × AllSent toy
        (IsHarmless toy lib)
        (works toy lib tokio echo server traffic).system.state.history
works-IsHarmless_example = works-IsHarmless toy lib tokio echo refl traffic

works-IsSafe_example :
    (server : Server toy tokio) × (start toy lib tokio ≡ returns (balancer, server))
    × (let final = (works toy lib tokio echo server traffic).system in
        All (IsDefined toy) final.futures
        × (connects toy final.state.history ≤ length final.futures)
        × (sends toy final.state.history ≤ length final.futures))
works-IsSafe_example = works-IsSafe toy lib tokio echo refl traffic

abbrev at_work : World toy
at_work = works toy lib tokio echo (server_at toy lib tokio (local 8546).address) traffic

-- The first request sends a transaction, and the second one is sent to the second server.
one_sent :
    (sends toy at_work.system.state.history ≡ 1)
    × (dialed (at_port 9945) at_work.system.state.history ≡ 1)
    × (length at_work.system.futures ≡ 2)
unfolding working
one_sent = (refl, refl, refl)

works-even_example :
    (start toy lib tokio ≡ returns (balancer, server_at toy lib tokio (local 8546).address))
    × (dialed (at_port (9944 + 2)) at_work.system.state.history
        ≤ length at_work.system.futures / 5 + 1)
unfolding working
works-even_example = works-even toy lib tokio echo refl traffic 2 (omega arith) (omega arith)

call-forbidden_example :
    call toy echo
      (bundle toy lib echo tt peer post_root transaction fresh)
      tt
      post_root
      transaction
      fresh
    ≡ (
      returns (status_response toy 403),
      record_event toy
          (collecting transaction)
          (record fresh { balancers = set fresh.balancers 0 (advance balancer) }),
    )
call-forbidden_example =
    call-forbidden toy lib echo tt peer post_root transaction fresh balancer (5 ∷ []) 5 refl
      (omega arith) refl balancer-IsValid refl refl (inr (inl (5, refl, refl)))

-- `eth_call` goes to the first server, and the answer gets two headers.
call-forwarded_example :
    call toy echo (bundle toy lib echo tt peer post_root hello fresh) tt post_root hello fresh ≡ (
      returns (record { parts = record fine { tags = 5 ∷ 5 ∷ [] }; body = full pong.text }),
      record_event toy (collecting pong) (
          record_event toy
            (sending (local 9944).address (record { parts = post_root; body = full hello.text }))
            (opened toy echo (local 9944).address (local 9944).address tt (
              record_event toy
                (collecting hello)
                (record fresh { balancers = set fresh.balancers 0 (advance balancer) })))),
    )
call-forwarded_example =
    call-forwarded toy lib echo tt peer post_root hello fresh balancer hello.text 104 refl
      (omega arith) refl balancer-IsValid refl refl (local 9944) fine pong pong.text refl refl
      (record { connected = refl; shaken = refl }) refl refl
