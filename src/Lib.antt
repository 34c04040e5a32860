-- ===== src/Lib.antt =====
-- broxy, a reverse HTTP proxy: a model of its crate broxy-core and the theorems that make it correct.
--
-- A server accepts connections and gives each a bundle of services. For a request, the bundle takes
-- the first service whose header filters match, refuses bodies that may be longer than 64 KiB, asks
-- the service's load balancer for an upstream, and lets the service process the request: filter the
-- body, run the middleware on the request, forward it, and run the middleware on the answer.
--
-- The files, with the source that each models (paths from the root of the repository):
--   Prelude        names of the libraries, lists, Boolean tests, which the other files share
--   Outcome        anyhow results, panics and undefined behaviour as values, and state passing
--   Crates         the third-party crates http, regex, rayon, hyper and tokio, as a parameter
--   LoadBalancer   broxy-core/src/load_balancer.rs (`new`, `get_upstream`) and upstream.rs;
--                  Threads has the calls of several threads, step by step
--   Filter         broxy-core/src/filter.rs, `Filter` and its `filter`
--   BodyFilter     broxy-core/src/filter.rs, `BodyFilter` (`filter`, `filter_async`, `use_async`)
--   Middleware     broxy-core/src/middleware.rs; Incoming and Outgoing hold the single functions
--   Network        the requests, answers and network calls of broxy-core/src/service.rs
--   Service        broxy-core/src/service.rs, `Service::new` and `get_upstream`; Filtering has the
--                  `filter_...` methods, and Processing the `process...` methods
--   Bundle         broxy-core/src/service.rs, `ServiceBundle` and its `call`
--   Future         the same functions of broxy-core/src/service.rs as futures, which are suspended
--                  at each use of something shared; Calls has one for each async function
--   Executor       any number of requests in flight at once, in any interleaving
--   Server         broxy-core/src/server.rs and `run_server` of src/main.rs: the accept loop
--   World          broxy-core/src/server.rs at work: the accept loop, the connections with their
--                  handshakes, and the requests on them, driven by inputs in any order
--   Uri            broxy-core/src/utils.rs, `combine_uris`
--   Logging        src/logging.rs, the three ways to set up the logging
--   Deployment     src/main.rs: the configuration that the binary runs; Main has `main` itself,
--                  and Works the binary at work
--   Tests          the theorems at concrete inputs, and runs of the definitions
-- The modules below these hold the theorems, and are named for what they are about.
--
-- State. A call of the code is a function of the shared state: the load balancers in memory, to which
-- services point by their addresses, and the history of network events. The answers of the network
-- are any function of that history, so that a theorem holds for every behaviour of the upstreams. In
-- Service and Bundle, a future is what awaiting it gives; in Future it is what it does, step by step.
-- Which filter a parallel search of rayon hits upon is not fixed by its arguments: each request comes
-- with a race, any value, from which each of its searches takes its own course.
--
-- Numbers. The counter of a balancer is a 64-bit word, and its wrap is written out. Loops are
-- recursions on lists, so that no fuel is needed; the endless accept loop is run for
-- any number of rounds.
--
-- Not modelled: log messages but for the INFO messages of `main` and of src/logging.rs, tracing spans, the
-- configuration types of src/config.rs, which is a module of no crate, and what hyper and tokio do
-- inside. Configured functions are any functions of their arguments, without a state of their own,
-- and may panic.
pub mod Prelude
pub mod Outcome
pub mod Crates
pub mod LoadBalancer
pub mod Filter
pub mod BodyFilter
pub mod Middleware
pub mod Network
pub mod Service
pub mod Bundle
pub mod Future
pub mod Executor
pub mod Uri
pub mod Server
pub mod World
pub mod Logging
pub mod Deployment
pub mod Tests
