-- ===== src/Executor/Provenance.antt =====
-- broxy-core/src/service.rs: where the requests that upstreams get come from.
use mathlib.Core.Path.{subst}
use broxy.Prelude.{
  ℕ, suc, ◌*◌, ◌≤◌, ◌≡◌, ◌⊎◌, inl, inr, refl, sym, ltb, if◌then◌else◌, Bool, true, false, List, [],
  ◌∷◌, Option, none, some, arith, get_elem?, All, All-set, All-get, All-append_one,
}
use broxy.Outcome.{fails, panics, undefined, Outcome, returns}
use broxy.LoadBalancer
use broxy.LoadBalancer.{SocketAddr, Upstream, LoadBalancer}
use broxy.Crates.{Crates}
use broxy.Network.{
  Network, State, Request, Response, Event, connecting, handshaking, spawning, sending, collecting,
}
use broxy.Service.{Service, call_balancer}
use broxy.Service.Filtering.{filter_request_by_header}
use broxy.Bundle.{max_size}
use broxy.Bundle.Runs.{Arrival, next}
use broxy.Future.{
  Future, ready, selecting, await_connect, await_handshake, and_spawn, await_send, await_collect,
  poll, select,
}
use broxy.Future.Calls.{call_future, each_service_future, on_match_future, serve_future}
use broxy.Future.Sends.{Sends, ready_then-Sends}
use broxy.Future.Forwards.{ForwardsBy, process_future-Sends}
use broxy.Executor.{
  System, Move, arrives, polls, arrivals, start_request, poll_found, step, run_moves,
}
use broxy.Executor.Safety.{after}

module _ (c : Crates) (net : Network c) where
  -- What the first service that matches a request may send for it, if the body is small.
  abbrev pub Forwards : List (Service c) → Arrival c → Request c → Type 0
  Forwards [] a request = ⊥
  Forwards (service ∷ services) a request =
      ((filter_request_by_header c service a.race a.from a.header ≡ returns true)
        × (max_size (c.size_hint_upper a.body) ≤ 1024 * 64)
        × ForwardsBy c net service.process service a.from a.header a.body request)
      ⊎ ((filter_request_by_header c service a.race a.from a.header ≡ returns false)
          × Forwards services (next c a) request)

module _ (c : Crates) where
  -- Of all the requests in a history that were sent to an upstream, `P` holds.
  abbrev pub AllSent : (Request c → Type 0) → List (Event c) → Type 0
  AllSent P [] = Unit
  AllSent P (sending _ request ∷ es) = P request × AllSent P es
  AllSent P (connecting _ ∷ es) = AllSent P es
  AllSent P (handshaking _ ∷ es) = AllSent P es
  AllSent P (spawning _ ∷ es) = AllSent P es
  AllSent P (collecting _ ∷ es) = AllSent P es

  pub AllSent-mono :
      (P Q : Request c → Type 0) (es : List (Event c))
      → ((request : Request c) → P request → Q request)
      → AllSent P es
      → AllSent Q es
  AllSent-mono P Q [] h w = tt
  AllSent-mono P Q (sending _ request ∷ es) h (p, w) = (h request p, AllSent-mono P Q es h w)
  AllSent-mono P Q (connecting _ ∷ es) h w = AllSent-mono P Q es h w
  AllSent-mono P Q (handshaking _ ∷ es) h w = AllSent-mono P Q es h w
  AllSent-mono P Q (spawning _ ∷ es) h w = AllSent-mono P Q es h w
  AllSent-mono P Q (collecting _ ∷ es) h w = AllSent-mono P Q es h w

module _ (c : Crates) (net : Network c) (P : Request c → Type 0) where
  on_match-Sends :
      (r : Outcome Bool) (f g : Future c (Response c))
      → (r ≡ returns true → Sends net P f)
      → (r ≡ returns false → Sends net P g)
      → Sends net P (on_match_future c r f g)
  on_match-Sends (returns true) f g d e = d refl
  on_match-Sends (returns false) f g d e = e refl
  on_match-Sends (fails _) f g d e = tt
  on_match-Sends panics f g d e = tt
  on_match-Sends undefined f g d e = tt

  if_small-Sends :
      (b : Bool) (f g : Future c (Response c))
      → Sends net P f
      → (b ≡ false → Sends net P g)
      → Sends net P (if b then f else g)
  if_small-Sends true f g d e = d
  if_small-Sends false f g d e = e refl

  small_size :
      (a : Arrival c)
      → ltb (1024 * 64) (max_size (c.size_hint_upper a.body)) ≡ false
      → max_size (c.size_hint_upper a.body) ≤ 1024 * 64
  small_size a small = ground arith

  each_service-Sends :
      (services : List (Service c)) (a : Arrival c)
      → ((request : Request c) → Forwards c net services a request → P request)
      → Sends net P (each_service_future c services a.race a.from a.header a.body)
  unfolding each_service_future serve_future
  each_service-Sends [] a p = tt
  each_service-Sends (service ∷ services) a p =
      let size = max_size (c.size_hint_upper a.body) in
      on_match-Sends (filter_request_by_header c service a.race a.from a.header) _ _
        (λ matched. if_small-Sends (ltb (1024 * 64) size) _ _ tt (λ small o.
          ready_then-Sends net P o _ (λ upstream _.
            process_future-Sends c net P service upstream a.from a.header a.body
              (λ request f. p request (inl (matched, small_size a small, f))))))
        (λ skipped.
          each_service-Sends services (next c a) (λ request f. p request (inr (skipped, f))))

  start_request-Sends :
      (services : List (Service c)) (a : Arrival c)
      → ((request : Request c) → Forwards c net services a request → P request)
      → Sends net P (start_request c services a)
  unfolding call_future
  start_request-Sends services a p = each_service-Sends services a p

module _ (c : Crates) (net : Network c) (P : Request c → Type 0) where
  select-history :
      (o : Option LoadBalancer) (i : ℕ) (s : State c)
      → (call_balancer c o i LoadBalancer.get_upstream s).1.history ≡ s.history
  select-history none i s = refl
  select-history (some lb) i s = refl

  poll-AllSent :
      {A : Type 0} (f : Future c A) (s : State c)
      → Sends net P f
      → AllSent c P s.history
      → Sends net P (poll c net f s).0 × AllSent c P (poll c net f s).1.history
  unfolding poll
  poll-AllSent (ready o) s d h = (tt, h)
  poll-AllSent (selecting i k) s d h = (
    d (select c net i s).0,
    subst (AllSent c P) (sym (select-history (get_elem? s.balancers i) i s)) h,
  )
  poll-AllSent (await_connect a k) s d h = (d (net.connect s.history a), h)
  poll-AllSent (await_handshake io k) s d h = (d (net.handshake s.history io), h)
  poll-AllSent (and_spawn conn k) s d h = (d, h)
  poll-AllSent (await_send sender request k) s (p, d) h =
      (d (net.send_request s.history sender request), (p, h))
  poll-AllSent (await_collect body k) s d h = (d s.history, h)

  -- Nothing but what `P` allows was sent or is to be sent.
  abbrev IsHonest : System c → Type 0
  IsHonest sys = All (λ f. Sends net P f) sys.futures × AllSent c P sys.state.history

  module _ (services : List (Service c)) where
    poll_found-IsHonest :
        (sys : System c) (j : ℕ) (o : Option (Future c (Response c)))
        → get_elem? sys.futures j ≡ o
        → IsHonest sys
        → IsHonest (poll_found c net services o j sys)
    poll_found-IsHonest sys j none e v = v
    poll_found-IsHonest sys j (some f) e (w, h) =
        let (d, h') =
          poll-AllSent f sys.state (All-get (λ f. Sends net P f) sys.futures j f e w) h in
        (All-set (λ f. Sends net P f) sys.futures j (poll c net f sys.state).0 d w, h')

    run_moves-IsHonest :
        (ms : List (Move c)) (sys : System c)
        → ((i : ℕ) (a : Arrival c) (request : Request c)
            → get_elem? (arrivals c ms) i ≡ some a
            → Forwards c net services a request
            → P request)
        → IsHonest sys
        → IsHonest (run_moves c net services ms sys)
    unfolding run_moves step
    run_moves-IsHonest [] sys p v = v
    run_moves-IsHonest (arrives a ∷ ms) sys p (w, h) =
        run_moves-IsHonest ms _ (λ i b request e f. p (suc i) b request e f)
          (
            All-append_one (λ f. Sends net P f) sys.futures _ w
                (start_request-Sends c net P services a (λ request f. p 0 a request refl f)),
            h,
          )
    run_moves-IsHonest (polls j ∷ ms) sys p v =
        run_moves-IsHonest ms _ p (poll_found-IsHonest sys j (get_elem? sys.futures j) refl v)

module _ (c : Crates) (net : Network c) (services : List (Service c)) where
  -- The request is sent for one that arrived.
  abbrev pub IsForwarded : List (Move c) → Request c → Type 0
  IsForwarded ms request =
      (i : ℕ) × (a : Arrival c) × (get_elem? (arrivals c ms) i ≡ some a)
      × Forwards c net services a request

module _ (c : Crates) (net : Network c) (services : List (Service c)) where
  -- However requests arrive and are interleaved, and whatever the network answers, each request that
  -- is sent to an upstream is sent for one that arrived: the first service whose header filters do
  -- not refuse that one passes it, its size hint is at most 64 KiB, and what is sent is its header
  -- and body as the middleware of that service made them, which passed the body filters where
  -- the service looks at bodies.
  pub run_moves-forwards :
      (balancers : List LoadBalancer) (ms : List (Move c))
      → AllSent c
          (IsForwarded c net services ms)
          (after c net services (record { balancers = balancers; history = [] }) ms).state.history
  run_moves-forwards balancers ms =
      (run_moves-IsHonest c net (IsForwarded c net services ms) services ms _
        (λ i a request e f. (i, a, e, f)) (tt, tt)).1
