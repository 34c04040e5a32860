-- ===== src/Logging/Once.antt =====
-- src/logging.rs: only the first initialization of a process has an effect.
use broxy.Prelude.{if◌then◌else◌, ◌≡◌, refl, List, [], ◌∷◌, none, some, All}
use broxy.Outcome.{Error, Outcome, returns, fails, M}
use broxy.Logging.{
  Tracing, Message, Process, console, info, init_logging, init_logging_with_level,
  init_logging_from_env,
}

module _ (tr : Tracing) where
  open tr use {Level, Subscriber}

  pub data Init : Type 0 where
    default : Init
    at_level : Level → Init
    from_env : Init

  unfoldable pub init : Init → M (Process tr) (Unit {0})
  init default = init_logging tr
  init (at_level level) = init_logging_with_level tr level
  init from_env = init_logging_from_env tr

  -- Calls one after the other, with what each gives.
  unfoldable pub inits : List Init → Process tr → List (Outcome (Unit {0})) × Process tr
  inits [] p = ([], p)
  inits (k ∷ ks) p = let (o, p') = init k p in let (os, last) = inits ks p' in (o ∷ os, last)

  -- What a call asks for: its subscriber and its message.
  abbrev pub subscriber_of : Init → Subscriber
  subscriber_of default = console tr (tr.with_max_level tr.debug tr.builder)
  subscriber_of (at_level level) = console tr (tr.with_max_level level tr.builder)
  subscriber_of from_env = console tr (tr.with_env_filter tr.from_default_env tr.builder)

  abbrev pub message_of : Init → Message
  message_of default = record {
    target = "broxy::logging";
    format = "Logging system initialized";
    arguments = [];
  }
  message_of (at_level level) = record {
    target = "broxy::logging";
    format = "Logging system initialized with level: {}";
    arguments = tr.level_to_string level ∷ [];
  }
  message_of from_env = record {
    target = "broxy::logging";
    format = "Logging system initialized from environment";
    arguments = [];
  }

  -- The process after the subscriber was set, which gets the message if it lets it through.
  abbrev pub initialized : Init → Process tr → Process tr
  initialized k p = record p {
    global = (tr.set_global_default (subscriber_of k) p.global).1;
    events =
        if tr.lets_through (subscriber_of k) (message_of k)
        then (subscriber_of k, message_of k) ∷ p.events
        else p.events;
  }

  abbrev pub IsFailure : Outcome (Unit {0}) → Type 0
  IsFailure o = (e : Error) × (o ≡ fails e)

  pub init-first :
      (k : Init) (p : Process tr)
      → tr.default_of p.global ≡ none
      → init k p ≡ (returns tt, initialized k p)
  unfolding init init_logging init_logging_with_level init_logging_from_env info
  init-first default p h =
      let (done, now) = tr.set_global_default-none (subscriber_of default) p.global h in
      rw (done, now) refl
  init-first (at_level level) p h =
      let (done, now) = tr.set_global_default-none (subscriber_of (at_level level)) p.global h in
      rw (done, now) refl
  init-first from_env p h =
      let (done, now) = tr.set_global_default-none (subscriber_of from_env) p.global h in
      rw (done, now) refl

  pub init-later :
      (k : Init) (p : Process tr) (s : Subscriber)
      → tr.default_of p.global ≡ some s
      → (e : Error) × (init k p ≡ (fails e, p))
  unfolding init init_logging init_logging_with_level init_logging_from_env info
  init-later default p s h =
      let (e, same) = tr.set_global_default-some (subscriber_of default) s p.global h in
      (e, rw same refl)
  init-later (at_level level) p s h =
      let (e, same) = tr.set_global_default-some (subscriber_of (at_level level)) s p.global h in
      (e, rw same refl)
  init-later from_env p s h =
      let (e, same) = tr.set_global_default-some (subscriber_of from_env) s p.global h in
      (e, rw same refl)

  inits-later :
      (ks : List Init) (p : Process tr) (s : Subscriber)
      → tr.default_of p.global ≡ some s
      → All IsFailure (inits ks p).0 × ((inits ks p).1 ≡ p)
  unfolding inits
  inits-later [] p s h = (tt, refl)
  inits-later (k ∷ ks) p s h =
      let (e, same) = init-later k p s h in
      let (failed, kept) = inits-later ks p s h in rw same (((e, refl), failed), kept)

  -- Of any initializations one after the other, in a process without a default subscriber, the first
  -- succeeds and all others fail: the process is left as the first one left it, with its subscriber
  -- as the default, which got the message of that initialization if its filter or its maximal level
  -- lets it through, and no other INFO message.
  pub inits-first :
      (k : Init) (ks : List Init) (p : Process tr)
      → tr.default_of p.global ≡ none
      → (os : List (Outcome (Unit {0}))) × (inits (k ∷ ks) p ≡ (returns tt ∷ os, initialized k p))
        × All IsFailure os
        × (tr.default_of (initialized k p).global ≡ some (subscriber_of k))
  unfolding inits
  inits-first k ks p h =
      let (_, now) = tr.set_global_default-none (subscriber_of k) p.global h in
      let (failed, kept) = inits-later ks (initialized k p) (subscriber_of k) now in
      ((inits ks (initialized k p)).0, rw (init-first k p h, kept) refl, failed, now)
