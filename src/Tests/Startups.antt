-- ===== src/Tests/Startups.antt =====
-- Initializations of the logging, and starts of the deployed proxy.
use broxy.Prelude.{ℕ, ◌≡◌, refl, ap, List, [], ◌∷◌, ltb, length, Option, none, some, All}
use broxy.Outcome.{Error, Result, ok, err, Outcome, returns, foreign}
use broxy.Deployment.{local}
use broxy.Deployment.Main.{exits, main, main-outcomes, expected_ending, expected_events, Prints}
use broxy.Logging.{Tracing, Process}
use broxy.Logging.Once.{
  default, at_level, from_env, inits, initialized, subscriber_of, IsFailure, inits-first,
}
use broxy.Tests.Deployments.{lib}
use broxy.Tests.Servers.{tokio}
use broxy.Tests.Toy.{toy}

-- A subscriber is its level, and the filter of `RUST_LOG` has level 4.
abbrev set_once : ℕ → Option ℕ → Result (Unit {0}) × Option ℕ
set_once s none = (ok tt, some s)
set_once s (some s') = (err (foreign 9), some s')

set_once-none :
    (s : ℕ) (g : Option ℕ) → g ≡ none → ((set_once s g).0 ≡ ok tt) × ((set_once s g).1 ≡ some s)
set_once-none s none h = (refl, refl)
set_once-none s (some s') h = cc

set_once-some : (s s' : ℕ) (g : Option ℕ) → g ≡ some s' → (e : Error) × (set_once s g ≡ (err e, g))
set_once-some s s' none h = cc
set_once-some s s' (some t) h = (foreign 9, refl)

abbrev tracing : Tracing
tracing = record {
  Level = ℕ;
  debug = 3;
  level_to_string = λ l. "LEVEL";
  EnvFilter = ℕ;
  from_default_env = 4;
  FmtSpan = Unit {0};
  close = tt;
  Timer = Unit {0};
  rfc_3339 = tt;
  Builder = ℕ;
  Subscriber = ℕ;
  builder = 2;
  with_max_level = λ l b. l;
  with_env_filter = λ f b. f;
  with_target = λ _ b. b;
  with_thread_ids = λ _ b. b;
  with_thread_names = λ _ b. b;
  with_file = λ _ b. b;
  with_line_number = λ _ b. b;
  with_ansi = λ _ b. b;
  with_level = λ _ b. b;
  with_span_events = λ _ b. b;
  with_timer = λ _ b. b;
  pretty = λ b. b;
  finish = λ b. b;
  Global = Option ℕ;
  default_of = λ g. g;
  set_global_default = set_once;
  set_global_default-none = set_once-none;
  set_global_default-some = set_once-some;
  lets_through = λ s m. ltb 2 s;
  error_to_string = λ e. "error";
  usize_to_string = λ n. "1";
}

abbrev fresh : Process tracing
fresh = record { global = none; events = []; stderr = [] }

inits-first_example :
    (os : List (Outcome (Unit {0}))) × (inits tracing (at_level 1 ∷ from_env ∷ default ∷ []) fresh
      ≡ (returns tt ∷ os, initialized tracing (at_level 1) fresh))
    × All (IsFailure tracing) os
    × (tracing.default_of (initialized tracing (at_level 1) fresh).global
        ≡ some (subscriber_of tracing (at_level 1)))
inits-first_example = inits-first tracing (at_level 1) (from_env ∷ default ∷ []) fresh refl

main-outcomes_example :
    ((main toy lib tokio tracing fresh).0 ≡ expected_ending toy lib tokio tracing none)
    × ((main toy lib tokio tracing fresh).1.events
        ≡ expected_events toy lib tokio tracing none (ok (local 8546).address) [])
    × Prints toy lib tokio tracing none [] (main toy lib tokio tracing fresh).1.stderr
main-outcomes_example =
    main-outcomes toy lib tokio tracing fresh none (ok (local 8546).address) refl refl

abbrev logging : Process tracing
logging = record { global = some 3; events = []; stderr = [] }

-- With logging set up before, nothing is started.
main_again : (main toy lib tokio tracing logging).0 ≡ returns (exits 1)
main_again =
    (main-outcomes toy lib tokio tracing logging (some 3) (ok (local 8546).address) refl refl).0

-- RUST_LOG lets all five messages through, and a maximal level of 1 none.
some_through :
    (length (main toy lib tokio tracing fresh).1.events ≡ 5)
    × (length (inits tracing (at_level 1 ∷ from_env ∷ []) fresh).1.events ≡ 0)
some_through = (
  ap length (main-outcomes toy lib tokio tracing fresh none (ok (local 8546).address) refl refl).1,
  ap (λ r. length r.1.events) (inits-first tracing (at_level 1) (from_env ∷ []) fresh refl).1,
)
