-- ===== src/Logging.antt =====
-- src/logging.rs: the three ways to set the process up for logging.
--
-- tracing and tracing-subscriber are a parameter: the builder of a subscriber, and the default
-- subscriber of the process, which their documentation lets be set once. A message is its format
-- string with the texts of its arguments. Spans are left out, with the lines that they write when
-- they close, and messages of the level DEBUG.
pub mod Once
use broxy.Prelude.{
  ℕ, ◌≡◌, if◌then◌else◌, Bool, true, false, List, [], ◌∷◌, Option, none, some, String,
}
use broxy.Outcome.{Error, Result, ok, err, of_result, returns, M, ◌>>=◌, ◌>>◌}

-- A message of the level INFO, with the module that it is from.
pub record Message : Type 0 where
  pub target : String
  pub format : String
  pub arguments : List String

pub record Tracing : Type 1 where
  -- `tracing::Level`, and how it prints.
  pub Level : Type 0
  pub debug : Level
  pub level_to_string : Level → String
  -- `EnvFilter::from_default_env`, which reads `RUST_LOG`.
  pub EnvFilter : Type 0
  pub from_default_env : EnvFilter
  pub FmtSpan : Type 0
  pub close : FmtSpan
  pub Timer : Type 0
  pub rfc_3339 : Timer
  -- `SubscriberBuilder`
  pub Builder : Type 0
  pub Subscriber : Type 0
  pub builder : Builder
  pub with_max_level : Level → Builder → Builder
  pub with_env_filter : EnvFilter → Builder → Builder
  pub with_target : Bool → Builder → Builder
  pub with_thread_ids : Bool → Builder → Builder
  pub with_thread_names : Bool → Builder → Builder
  pub with_file : Bool → Builder → Builder
  pub with_line_number : Bool → Builder → Builder
  pub with_ansi : Bool → Builder → Builder
  pub with_level : Bool → Builder → Builder
  pub with_span_events : FmtSpan → Builder → Builder
  pub with_timer : Timer → Builder → Builder
  pub pretty : Builder → Builder
  pub finish : Builder → Subscriber
  -- Whether the filter or the maximal level of a subscriber lets a message of the level INFO through.
  pub lets_through : Subscriber → Message → Bool
  -- The default subscriber of the process, and `set_global_default`.
  pub Global : Type 0
  pub default_of : Global → Option Subscriber
  pub set_global_default : Subscriber → Global → Result (Unit {0}) × Global
  pub set_global_default-none :
      (s : Subscriber) (g : Global)
      → default_of g ≡ none
      → ((set_global_default s g).0 ≡ ok tt) × (default_of (set_global_default s g).1 ≡ some s)
  pub set_global_default-some :
      (s s' : Subscriber) (g : Global)
      → default_of g ≡ some s'
      → (e : Error) × (set_global_default s g ≡ (err e, g))
  -- How an error and a number print.
  pub error_to_string : Error → String
  pub usize_to_string : ℕ → String

module _ (tr : Tracing) where
  open tr use {
    Level, EnvFilter, Builder, Subscriber, Global, with_max_level, with_env_filter, with_target,
    with_thread_ids, with_thread_names, with_file, with_line_number, with_ansi, with_level,
    with_span_events, with_timer, pretty, finish,
  }

  -- The INFO messages with the subscriber that got each, and what was printed to stderr, the newest
  -- first.
  pub record Process : Type 0 where
    pub global : Global
    pub events : List (Subscriber × Message)
    pub stderr : List (String × List String)

  abbrev pub delivered :
      Option Subscriber → Message → List (Subscriber × Message) → List (Subscriber × Message)
  delivered none m old = old
  delivered (some s) m old = if tr.lets_through s m then (s, m) ∷ old else old

  -- `info!`: the default subscriber gets the message, if there is one that lets it through.
  unfoldable pub info : String → String → List String → M Process (Unit {0})
  info target format arguments p = (
    returns tt,
    record p {
      events =
          delivered (tr.default_of p.global)
            (record { target = target; format = format; arguments = arguments }) p.events;
    },
  )

  abbrev pub set_default : Subscriber → M Process (Unit {0})
  set_default s p =
      let (r, g) = tr.set_global_default s p.global in (of_result r, record p { global = g })

  -- The settings that the three functions have in common.
  abbrev pub console : Builder → Subscriber
  console b0 =
      let b1 = with_thread_names true (with_thread_ids true (with_target false b0)) in
      let b2 = with_span_events tr.close (with_line_number true (with_file true b1)) in
      let b3 = pretty (with_ansi true (with_timer tr.rfc_3339 b2)) in
      finish (with_target false (with_level true b3))

  unfoldable pub init_logging : M Process (Unit {0})
  init_logging =
      set_default (console (with_max_level tr.debug tr.builder))
      >> info "broxy::logging" "Logging system initialized" []

  unfoldable pub init_logging_with_level : Level → M Process (Unit {0})
  init_logging_with_level level =
      set_default (console (with_max_level level tr.builder))
      >> info "broxy::logging" "Logging system initialized with level: {}"
          (tr.level_to_string level ∷ [])

  unfoldable pub init_logging_from_env : M Process (Unit {0})
  init_logging_from_env =
      set_default (console (with_env_filter tr.from_default_env tr.builder))
      >> info "broxy::logging" "Logging system initialized from environment" []
