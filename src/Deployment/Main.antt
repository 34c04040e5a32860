-- ===== src/Deployment/Main.antt =====
-- src/main.rs: `main` up to its accept loop, with what it logs.
use broxy.Prelude.{ℕ, ◌≡◌, refl, List, [], ◌∷◌, length, if◌then◌else◌, Option, none, some, String}
use broxy.Outcome.{
  Error, Result, ok, err, Outcome, returns, fails, panics, undefined, M, ◌>>=◌, ◌>>◌, pure, lift,
}
use broxy.LoadBalancer.{LoadBalancer, new as new_balancer}
use broxy.Crates.{Crates}
use broxy.Bundle.{new as new_bundle}
use broxy.Server.{Tokio, Server, new as new_server}
use broxy.Logging.{Tracing, Message, Process, info, init_logging_from_env}
use broxy.Logging.Once.{init, from_env, init-first, init-later, initialized, subscriber_of}
use broxy.Deployment.{Libraries, local, servers, service, start, unwrap}

module _ (c : Crates) (lib : Libraries c) (tokio : Tokio c) (tr : Tracing) where
  -- `main` exits with a code, or reaches its accept loop with a balancer and a server.
  pub data Ending : Type 0 where
    exits : ℕ → Ending
    serves : LoadBalancer × Server c tokio → Ending

  abbrev pub eprintln : String → List String → M (Process tr) (Unit {0})
  eprintln format arguments p = (returns tt, record p { stderr = (format, arguments) ∷ p.stderr })

  -- `main` once it can log.
  unfoldable pub serve_proxy : M (Process tr) Ending
  serve_proxy = do
    info tr "broxy" "Starting Broxy proxy server" []
    load_balancer ← lift (new_balancer servers)
    info tr "broxy_core::service" "Creating service bundle with {} services"
        (tr.usize_to_string (length (service c lib ∷ [])) ∷ [])
    info tr "broxy" "Starting server on {}" (lib.to_string (local 8546).address ∷ [])
    server ←
        lift (
          unwrap (new_server c tokio (local 8546).address (new_bundle c (service c lib ∷ [])) none))
    info tr "broxy" "Server started successfully, accepting connections" []
    pure (serves (load_balancer, server))

  -- The rest of `main` after the initialization of the logging.
  abbrev pub once_initialized : Outcome (Unit {0}) × Process tr → Outcome Ending × Process tr
  once_initialized (returns _, p) = serve_proxy p
  once_initialized (fails e, p) =
      (eprintln "Failed to initialize logging: {}" (tr.error_to_string e ∷ []) >> pure (exits 1)) p
  once_initialized (panics, p) = (panics, p)
  once_initialized (undefined, p) = (undefined, p)

  unfoldable pub main : M (Process tr) Ending
  main p = once_initialized (init_logging_from_env tr p)

  abbrev pub map_outcome : Outcome (LoadBalancer × Server c tokio) → Outcome Ending
  map_outcome (returns s) = returns (serves s)
  map_outcome (fails e) = fails e
  map_outcome panics = panics
  map_outcome undefined = undefined

  -- What is logged before the address is bound, the newest first.
  abbrev pub greeting : List Message
  greeting =
      record {
        target = "broxy";
        format = "Starting server on {}";
        arguments = lib.to_string (local 8546).address ∷ [];
      }
      ∷ record {
        target = "broxy_core::service";
        format = "Creating service bundle with {} services";
        arguments = tr.usize_to_string 1 ∷ [];
      }
      ∷ record { target = "broxy"; format = "Starting Broxy proxy server"; arguments = [] }
      ∷ record {
        target = "broxy::logging";
        format = "Logging system initialized from environment";
        arguments = [];
      }
      ∷ []

  abbrev pub logged : Result tokio.TcpListener → List Message
  logged (err e) = greeting
  logged (ok listener) =
      record {
        target = "broxy";
        format = "Server started successfully, accepting connections";
        arguments = [];
      }
      ∷ greeting

  -- Of these messages, the subscriber of `main` gets those that its filter lets through.
  abbrev pub received :
      List Message → List (tr.Subscriber × Message) → List (tr.Subscriber × Message)
  received [] old = old
  received (m ∷ ms) old =
      if tr.lets_through (subscriber_of tr from_env) m
      then (subscriber_of tr from_env, m) ∷ received ms old
      else received ms old

  -- With a default subscriber there already, `main` does nothing but say so and exit.
  abbrev pub expected_ending : Option tr.Subscriber → Outcome Ending
  expected_ending none = map_outcome (start c lib tokio)
  expected_ending (some s) = returns (exits 1)

  abbrev pub expected_events :
      Option tr.Subscriber
      → Result tokio.TcpListener
      → List (tr.Subscriber × Message)
      → List (tr.Subscriber × Message)
  expected_events none r old = received (logged r) old
  expected_events (some s) r old = old

  abbrev pub Prints :
      Option tr.Subscriber → List (String × List String) → List (String × List String) → Type 0
  Prints none old new = new ≡ old
  Prints (some s) old new =
      (e : Error) × (new ≡ ("Failed to initialize logging: {}", tr.error_to_string e ∷ []) ∷ old)

  -- What `main` does before its accept loop. In a process without a default subscriber it ends as
  -- `start` does, and logs four INFO messages, and a fifth if the address can be bound, of which the
  -- subscriber that it sets gets those that its filter lets through, in order. In any other process it
  -- logs nothing, says on stderr that it could not initialize the logging, and exits with 1.
  pub main-outcomes :
      (p : Process tr) (d : Option tr.Subscriber) (r : Result tokio.TcpListener)
      → tr.default_of p.global ≡ d
      → tokio.bind (local 8546).address ≡ r
      → ((main p).0 ≡ expected_ending d)
        × ((main p).1.events ≡ expected_events d r p.events)
        × Prints d p.stderr (main p).1.stderr
  unfolding main serve_proxy start new_balancer new_server info init
  main-outcomes p none (ok l) h bound =
      let (_, now) = tr.set_global_default-none (subscriber_of tr from_env) p.global h in
      let begins : init_logging_from_env tr p ≡ (returns tt, initialized tr from_env p) =
        init-first tr from_env p h in
      rw (begins, start, bound, now) (refl, refl, refl)
  main-outcomes p none (err e) h bound =
      let (_, now) = tr.set_global_default-none (subscriber_of tr from_env) p.global h in
      let begins : init_logging_from_env tr p ≡ (returns tt, initialized tr from_env p) =
        init-first tr from_env p h in
      rw (begins, start, bound, now) (refl, refl, refl)
  main-outcomes p (some s) r h bound =
      let (e, fails_now) = init-later tr from_env p s h in
      let begins : init_logging_from_env tr p ≡ (fails e, p) = fails_now in
      rw begins (refl, refl, (e, refl))
