-- ===== src/Bundle/Runs.antt =====
-- broxy-core/src/service.rs: sequences of requests from any clients over one set of services.
use mathlib.Core.Path.{subst}
use broxy.Prelude.{
  ℕ, ◌+◌, ◌≤◌, ◌≡◌, refl, sym, ap, ◌∙◌, List, [], ◌∷◌, Option, some, map, get_elem?, length, arith,
}
use broxy.LoadBalancer.{SocketAddr, LoadBalancer}
use broxy.LoadBalancer.Safety.{IsValid}
use broxy.LoadBalancer.Rounds.{advance_by}
use broxy.Crates.{Crates}
use broxy.Network.{Network, State}
use broxy.Service.{Service}
use broxy.Service.Processing.Effects.{sends}
use broxy.Bundle.{call}
use broxy.Bundle.Balancing.{bump_all, selections, get_elem?-bump_all}
use broxy.Bundle.Safety.{IsWellFormed, IsWellFormed-bump, target, call-IsSafe}

module _ (c : Crates) where
  -- A request with the address of the client that sent it, and how the parallel searches for it race.
  pub record Arrival : Type 0 where
    pub from : SocketAddr
    pub race : c.Race
    pub header : c.RequestParts
    pub body : c.Incoming

  -- The request with the race of the search at the next service.
  abbrev pub next : Arrival → Arrival
  next a = record a { race = c.next_race a.race }

  -- The balancers that the requests make selections from, in order.
  abbrev pub targets : List (Service c) → List Arrival → List (Option ℕ)
  targets services = map (λ a. target c services a.race a.from a.header a.body)

module _ (c : Crates) (net : Network c) (services : List (Service c)) where
  -- The requests one after the other, each by the bundle of its connection.
  unfoldable pub run : List (Arrival c) → State c → State c
  run [] s = s
  run (a ∷ arrivals) s =
      run arrivals
        (call c net (record { services = services; from = a.from }) a.race a.header a.body s).1

  run-balancers :
      (arrivals : List (Arrival c)) (s : State c)
      → IsWellFormed c services s.balancers
      → ((run arrivals s).balancers ≡ bump_all (targets c services arrivals) s.balancers)
        × (sends c (run arrivals s).history ≤ sends c s.history + length arrivals)
  unfolding run
  run-balancers [] s w = (refl, omega arith)
  run-balancers (a ∷ arrivals) s w =
      let safe =
        call-IsSafe c net (record { services = services; from = a.from }) a.race a.header a.body s
          w in
      let after =
        subst (IsWellFormed c services) (sym safe.selected)
          (IsWellFormed-bump c services _ s.balancers w) in
      let (same, few) = run-balancers arrivals _ after in
      (
        same ∙ ap (bump_all (targets c services arrivals)) safe.selected,
        omega (arith, few, safe.one_send),
      )

  -- If the services were made by `new` and point to well-formed balancers: whatever requests arrive and
  -- whatever the network answers, a well-formed balancer moves on by the number of
  -- requests that were for it, also where several services share it; and no more requests are sent
  -- to upstreams than arrived.
  pub run-round_robin :
      (arrivals : List (Arrival c)) (s : State c) (i : ℕ) (lb : LoadBalancer)
      → IsWellFormed c services s.balancers
      → get_elem? s.balancers i ≡ some lb
      → IsValid lb
      → (get_elem? (run arrivals s).balancers i
          ≡ some (advance_by (selections i (targets c services arrivals)) lb))
        × (sends c (run arrivals s).history ≤ sends c s.history + length arrivals)
  run-round_robin arrivals s i lb w at v =
      let (same, few) = run-balancers arrivals s w in
      (
        ap (λ bs. get_elem? bs i) same ∙ get_elem?-bump_all (targets c services arrivals) i _ v at,
        few,
      )
