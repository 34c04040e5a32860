-- ===== src/Tests/Servers.antt =====
-- Runs of the accept loop.
use broxy.Prelude.{ℕ, ◌≡◌, refl, ◌==◌, if◌then◌else◌, List, [], ◌∷◌, ◌++◌, All, none, some}
use broxy.Outcome.{Result, ok, err, returns, fails, foreign}
use broxy.LoadBalancer.{v4, SocketAddr}
use broxy.Bundle.{ServiceBundle}
use broxy.Server.{
  Tokio, Http, Server, new, non_tls, Accepted, accept, accept_with, run_server, run_task,
  tls_acceptor, non_tls_acceptor,
}
use broxy.Server.Accepting.{all_spawned, accepted, accept-spawns, run_server-spawns}
use broxy.Server.Tasks.{IsBehindTls, run_server-IsBehindTls}
use broxy.Tests.Toy.{toy, peer}

-- The call of `accept` with the number 1 fails.
abbrev visitor : ℕ → SocketAddr
visitor n = record { ip = v4 n; port = 5000 }

abbrev accept_result : ℕ → Result (SocketAddr × SocketAddr)
accept_result n = if n == 1 then err (foreign 24) else ok (visitor n, visitor n)

abbrev pub tokio : Tokio toy
tokio = record {
  TcpListener = SocketAddr;
  TlsAcceptor = ℕ;
  bind = λ address. ok address;
  accept = λ listener n. accept_result n;
}

-- The state is a list of the addresses that were served.
abbrev http : Http toy tokio (List SocketAddr)
http = record {
  TlsStream = SocketAddr;
  tls_accept = λ a conn s. (returns conn, s);
  serve_connection = λ conn bundle s. (fails (foreign 1), bundle.from ∷ s);
  serve_tls_connection = λ stream bundle s. (returns tt, bundle.from ∷ s);
}

abbrev bundle : ServiceBundle toy
bundle = record { services = []; from = peer }

abbrev plain : Server toy tokio
plain = record {
  connection = peer;
  services = bundle;
  acceptor = none;
  accept_function = non_tls_acceptor;
}

abbrev secure : Server toy tokio
secure = record {
  connection = peer;
  services = bundle;
  acceptor = some 3;
  accept_function = tls_acceptor;
}

abbrev idle : Accepted toy tokio
idle = record { calls = 0; tasks = [] }

three_rounds :
    (run_server toy tokio 3 plain idle).1.tasks
    ≡ non_tls (record bundle { from = visitor 2 }) (visitor 2)
      ∷ non_tls (record bundle { from = visitor 0 }) (visitor 0)
      ∷ []
unfolding run_server accept accept_with
three_rounds = refl

served : run_task toy tokio http (non_tls bundle peer) [] ≡ (returns tt, peer ∷ [])
unfolding run_task
served = refl

accept-spawns_example :
    accept toy tokio secure idle ≡ accepted toy tokio bundle (some 3) secure idle
unfolding new
accept-spawns_example = accept-spawns toy tokio bundle (some 3) peer secure refl idle

run_server-spawns_example :
    run_server toy tokio 3 plain idle
    ≡ (returns tt, record { calls = 3; tasks = all_spawned toy tokio bundle none peer 0 3 ++ [] })
unfolding new
run_server-spawns_example = run_server-spawns toy tokio bundle none peer plain refl 3 idle

run_server-IsBehindTls_example :
    All (IsBehindTls toy tokio bundle 3 peer http) (run_server toy tokio 3 secure idle).1.tasks
unfolding new
run_server-IsBehindTls_example = run_server-IsBehindTls toy tokio bundle 3 http peer secure 3 refl
