-- ===== src/Middleware/Chains.antt =====
-- broxy-core/src/middleware.rs: what the chains do, and what their flags mean.
use mathlib.Core.List.{Memᴰ}
use mathlib.Core.Path.{subst}
use broxy.Prelude.{Bool, true, not, ◌≡◌, ◌↔◌, refl, List, [], ◌∷◌, all, arith, inl, inr, Bool-cases}
use broxy.Outcome.{Called}
use broxy.LoadBalancer.{SocketAddr}
use broxy.Crates.{Crates, Bytes}
use broxy.Middleware.Incoming
use broxy.Middleware.Incoming.{MiddlewareIncomingFunction}
use broxy.Middleware.Outgoing
use broxy.Middleware.Outgoing.{MiddlewareOutgoingFunction}
use broxy.Middleware.{new}

module _ {ℓ} {A : Type ℓ} (p : A → Bool) where
  some_member :
      (xs : List A) → not (all (λ x. not (p x)) xs) ≡ true → (x : A) × Memᴰ x xs × (p x ≡ true)
  some_member [] h = cc
  some_member (x ∷ xs) h = elim (Bool-cases (p x)) [
    | inl e ↦ (x, Memᴰ.head refl, e)
    | inr e ↦ let (y, m, q) = some_member xs (rw e at h) in (y, Memᴰ.tail m, q)
  ]

  some_member_of :
      {x : A} {xs : List A} → Memᴰ x xs → p x ≡ true → not (all (λ x. not (p x)) xs) ≡ true
  some_member_of (Memᴰ.head {x = y} {xs} e) q = let same : p y ≡ true = rw (← e) q in rw same
  some_member_of (Memᴰ.tail {x = y} {xs} m) q = ground (arith, some_member_of m q)

module _ (c : Crates) where
  -- A function of the chain takes the body.
  abbrev pub IncomingTakesBody : List (MiddlewareIncomingFunction c) → Type 0
  IncomingTakesBody inc =
      (f : SocketAddr → c.RequestParts → Bytes → Called (Unit {0}) × c.RequestParts × Bytes) × Memᴰ
        (Incoming.internal_with_body f) inc

  abbrev OutgoingTakesBody : List (MiddlewareOutgoingFunction c) → Type 0
  OutgoingTakesBody out =
      (f : SocketAddr
        → SocketAddr
        → c.ResponseParts
        → Bytes
        → Called (Unit {0}) × c.ResponseParts × Bytes)
      × Memᴰ (Outgoing.internal_with_body f) out

  incoming-takes_body :
      (proc : MiddlewareIncomingFunction c)
      → Incoming.needs_body c proc ≡ true
      → (f : SocketAddr → c.RequestParts → Bytes → Called (Unit {0}) × c.RequestParts × Bytes)
        × (proc ≡ Incoming.internal_with_body f)
  unfolding Incoming.needs_body
  incoming-takes_body (Incoming.internal_with_body f) h = (f, refl)
  incoming-takes_body Incoming.external h = cc
  incoming-takes_body (Incoming.internal g) h = cc

  outgoing-takes_body :
      (proc : MiddlewareOutgoingFunction c)
      → Outgoing.needs_body c proc ≡ true
      → (f : SocketAddr
          → SocketAddr
          → c.ResponseParts
          → Bytes
          → Called (Unit {0}) × c.ResponseParts × Bytes)
        × (proc ≡ Outgoing.internal_with_body f)
  unfolding Outgoing.needs_body
  outgoing-takes_body (Outgoing.internal_with_body f) h = (f, refl)
  outgoing-takes_body Outgoing.external h = cc
  outgoing-takes_body (Outgoing.internal g) h = cc

  -- The flags that `new` computes say exactly whether a function of the chain takes the body.
  pub new-needs_body_iff :
      (inc : List (MiddlewareIncomingFunction c)) (out : List (MiddlewareOutgoingFunction c))
      → (((new c inc out).incoming_needs_body ≡ true) ↔ IncomingTakesBody inc)
        × (((new c inc out).out_needs_body ≡ true) ↔ OutgoingTakesBody out)
  unfolding new Incoming.needs_body Outgoing.needs_body
  new-needs_body_iff inc out = (
    (
      λ h.
          let (proc, m, takes) = some_member (Incoming.needs_body c) inc h in
          let (f, e) = incoming-takes_body proc takes in (f, subst (λ p. Memᴰ p inc) e m),
      λ h. some_member_of (Incoming.needs_body c) h.1 refl,
    ),
    (
      λ h.
          let (proc, m, takes) = some_member (Outgoing.needs_body c) out h in
          let (f, e) = outgoing-takes_body proc takes in (f, subst (λ p. Memᴰ p out) e m),
      λ h. some_member_of (Outgoing.needs_body c) h.1 refl,
    ),
  )
