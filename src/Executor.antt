-- ===== src/Executor.antt =====
-- The requests of all connections at once, over the memory that they share.
--
-- broxy-core/src/server.rs serves each connection in a task of its own, and broxy-core/src/service.rs
-- answers each request by a future. Which request makes its next step, and when requests arrive, is
-- up to tokio and to the clients: a run is any list of such moves. A request that is dropped, as
-- when a client goes away, is one that makes no further step. A poll here is one step, up to the
-- next use of something shared, also where the code would go on at once.
pub mod Polls
pub mod Requests
pub mod Budgets
pub mod Selections
pub mod Invariant
pub mod Safety
pub mod Liveness
pub mod Dialing
pub mod Dialed
pub mod Evenness
pub mod Provenance
pub mod Counts
pub mod Confluence
pub mod Allowed
pub mod Answers
use broxy.Prelude.{ℕ, List, [], ◌∷◌, ◌++◌, Option, none, some, get_elem?, set}
use broxy.Crates.{Crates}
use broxy.Network.{Network, State, Response}
use broxy.Service.{Service}
use broxy.Bundle.Runs.{Arrival}
use broxy.Future.{Future, poll}
use broxy.Future.Calls.{call_future}

module _ (c : Crates) where
  -- The shared state, and the futures of all requests in the order of their arrival.
  pub record System : Type 0 where
    pub state : State c
    pub futures : List (Future c (Response c))

  pub data Move : Type 0 where
    arrives : Arrival c → Move
    polls : ℕ → Move

  abbrev pub idle : State c → System
  idle s = record { state = s; futures = [] }

  abbrev pub arrivals : List Move → List (Arrival c)
  arrivals [] = []
  arrivals (arrives a ∷ ms) = a ∷ arrivals ms
  arrivals (polls i ∷ ms) = arrivals ms

  -- hyper calls the bundle of the connection.
  abbrev pub start_request : List (Service c) → Arrival c → Future c (Response c)
  start_request services a =
      call_future c (record { services = services; from = a.from }) a.race a.header a.body

module _ (c : Crates) (net : Network c) (services : List (Service c)) where
  -- A poll of the future with a number; there may be none.
  abbrev pub poll_found : Option (Future c (Response c)) → ℕ → System c → System c
  poll_found none i sys = sys
  poll_found (some f) i sys =
      let (f', s) = poll c net f sys.state in record { state = s; futures = set sys.futures i f' }

  unfoldable pub step : Move c → System c → System c
  step (arrives a) sys = record sys { futures = sys.futures ++ start_request c services a ∷ [] }
  step (polls i) sys = poll_found (get_elem? sys.futures i) i sys

  unfoldable pub run_moves : List (Move c) → System c → System c
  run_moves [] sys = sys
  run_moves (m ∷ ms) sys = run_moves ms (step m sys)
