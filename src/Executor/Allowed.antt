-- ===== src/Executor/Allowed.antt =====
-- broxy-core/src/service.rs: the answers that services allow for a request, and its future.
use mathlib.Core.Path.{subst}
use broxy.Prelude.{
  ℕ, ◌*◌, ◌<◌, ◌≤◌, ◌≡◌, refl, sym, ap, ◌⊎◌, inl, inr, ltb, if◌then◌else◌, Bool, true, false, List,
  [], ◌∷◌, arith,
}
use broxy.Outcome.{Outcome, returns, fails, panics, undefined}
use broxy.Crates.{Crates}
use broxy.Network.{Network, State, Response, status_response}
use broxy.Service.{Service}
use broxy.Service.Filtering.{filter_request_by_header}
use broxy.Service.Filtering.Headers.{filter_request_by_header-defined}
use broxy.Bundle.{max_size}
use broxy.Bundle.Runs.{Arrival, next}
use broxy.Future.{
  Future, ready, selecting, await_connect, await_handshake, and_spawn, await_send, await_collect,
  poll, pure, ◌>>=◌,
}
use broxy.Future.Calls.{
  call_future, each_service_future, on_match_future, serve_future, process_future,
}
use broxy.Future.Yields.{Yields, Yields-mono, IsProcessed, process_future-Yields}
use broxy.Executor.{start_request}
use broxy.Executor.Polls.{IsGood, select-returns}

module _ (c : Crates) (net : Network c) where
  -- What comes of a service that passed the header of a request.
  abbrev pub IsServed : Service c → Arrival c → Outcome (Response c) → Type 0
  IsServed service a o =
      ((1024 * 64 < max_size (c.size_hint_upper a.body)) × (o ≡ returns (status_response c 413)))
      ⊎ ((max_size (c.size_hint_upper a.body) ≤ 1024 * 64)
          × IsProcessed c net a.from a.header a.body service.process service o)

  -- What comes of a request whose header filters gave this, with what comes of it at the services
  -- behind.
  abbrev pub IsDecided :
      Service c
      → Arrival c
      → Outcome Bool
      → (Outcome (Response c) → Type 0)
      → Outcome (Response c)
      → Type 0
  IsDecided service a (returns true) rest o = IsServed service a o
  IsDecided service a (returns false) rest o = rest o
  IsDecided service a (fails e) rest o = o ≡ returns (status_response c 500)
  IsDecided service a panics rest o = o ≡ panics
  IsDecided service a undefined rest o = ⊥

  -- The answers that the services allow for a request.
  abbrev pub IsAnswer : List (Service c) → Arrival c → Outcome (Response c) → Type 0
  IsAnswer [] a o = o ≡ returns (status_response c 404)
  IsAnswer (service ∷ services) a o =
      IsDecided service a (filter_request_by_header c service a.race a.from a.header)
        (IsAnswer services (next c a)) o

  serve-Yields :
      (service : Service c) (a : Arrival c)
      → Yields net (IsServed service a) (serve_future c service a.from a.header a.body)
  unfolding serve_future
  serve-Yields service a = go (ltb (1024 * 64) (max_size (c.size_hint_upper a.body))) refl
    where
      go :
          (b : Bool)
          → ltb (1024 * 64) (max_size (c.size_hint_upper a.body)) ≡ b
          → Yields net (IsServed service a) (
              if b
              then pure (status_response c 413)
              else (selecting service.load_balancer ready >>= λ upstream.
                  process_future c service upstream a.from a.header a.body))
      go true large = inl (ground arith, refl)
      go false small = λ upstream.
          Yields-mono net (IsProcessed c net a.from a.header a.body service.process service)
            (IsServed service a) (λ o processed. inr (ground arith, processed))
            (process_future c service upstream a.from a.header a.body)
            (process_future-Yields c net a.from a.header a.body service upstream)

  on_match-Yields :
      (service : Service c) (services : List (Service c)) (a : Arrival c) (r : Outcome Bool)
      → filter_request_by_header c service a.race a.from a.header ≡ r
      → Yields net
          (IsAnswer services (next c a))
          (each_service_future c services (c.next_race a.race) a.from a.header a.body)
      → Yields net (IsDecided service a r (IsAnswer services (next c a))) (
          on_match_future c r
            (serve_future c service a.from a.header a.body)
            (each_service_future c services (c.next_race a.race) a.from a.header a.body))
  on_match-Yields service services a (returns true) e rest = serve-Yields service a
  on_match-Yields service services a (returns false) e rest = rest
  on_match-Yields service services a (fails x) e rest = refl
  on_match-Yields service services a panics e rest = refl
  on_match-Yields service services a undefined e rest =
      filter_request_by_header-defined c a.race a.from a.header service e

  pub start_request-Yields :
      (services : List (Service c)) (a : Arrival c)
      → Yields net (IsAnswer services a) (start_request c services a)
  unfolding call_future each_service_future
  start_request-Yields [] a = refl
  start_request-Yields (service ∷ services) a =
      on_match-Yields service services a _ refl (start_request-Yields services (next c a))

  pub poll-Yields :
      (Q : Outcome (Response c) → Type 0) (f : Future c (Response c)) (s : State c) (t m n : ℕ)
      → IsGood s.balancers t m n f
      → Yields net Q f
      → Yields net Q (poll c net f s).0
  unfolding poll
  poll-Yields Q (ready o) s t m n g y = y
  poll-Yields Q (selecting i k) s t m n (_, (lb, at, v), _) y =
      let (u, now) = select-returns c net i lb s at v in
      subst (λ o. Yields net Q (k o)) (sym (ap (λ p. p.0) now)) (y u)
  poll-Yields Q (await_connect a k) s t m n g y = y (net.connect s.history a)
  poll-Yields Q (await_handshake io k) s t m n g y = y (net.handshake s.history io)
  poll-Yields Q (and_spawn conn k) s t m n g y = y
  poll-Yields Q (await_send sender request k) s t m n g y =
      y (net.send_request s.history sender request)
  poll-Yields Q (await_collect body k) s t m n g y = y s.history
