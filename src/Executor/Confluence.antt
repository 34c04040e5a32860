-- ===== src/Executor/Confluence.antt =====
-- broxy-core/src/service.rs and broxy-core/src/load_balancer.rs: the order of requests does not matter
-- to the balancers.
use mathlib.Core.Logic.{∥∥₁_elim}
use mathlib.Core.List.{Perm, Permᴰ}
use broxy.Prelude.{
  ℕ, ◌+◌, ◌≡◌, refl, sym, ap, ◌∙◌, List, [], ◌∷◌, map, Option, none, some, arith, All, get_elem?,
}
use broxy.LoadBalancer.{LoadBalancer}
use broxy.LoadBalancer.Safety.{IsValid}
use broxy.LoadBalancer.Rounds.{advance_by}
use broxy.Crates.{Crates}
use broxy.Network.{Network, State}
use broxy.Service.{Service}
use broxy.Bundle.Balancing.{selections}
use broxy.Bundle.Safety.{IsWellFormed, target}
use broxy.Executor.{Move, arrivals}
use broxy.Executor.Safety.{IsReady, after, settled}

module _ {ℓ} {A : Type ℓ} (t : A → Option ℕ) (i : ℕ) where
  one :
      (o : Option ℕ) (os : List (Option ℕ))
      → selections i (o ∷ os) ≡ selections i (o ∷ []) + selections i os
  one none os = omega arith
  one (some j) os = ground arith

  selections-permd :
      {xs ys : List A} → Permᴰ xs ys → selections i (map t xs) ≡ selections i (map t ys)
  selections-permd Permᴰ.nil = refl
  selections-permd (Permᴰ.cons {a} {b} {l₁ = xs} {l₂ = ys} e d) = omega (
    arith,
    one (t a) (map t xs),
    one (t b) (map t ys),
    selections-permd d,
    ap (λ x. selections i (t x ∷ [])) e,
  )
  selections-permd (Permᴰ.swap {a} {b} {a'} {b'} {l} e e') = omega (
    arith,
    one (t a) (map t (b ∷ l)),
    one (t b) (map t l),
    one (t a') (map t (b' ∷ l)),
    one (t b') (map t l),
    ap (λ x. selections i (t x ∷ [])) e,
    ap (λ x. selections i (t x ∷ [])) e',
  )
  selections-permd (Permᴰ.trans d d') = selections-permd d ∙ selections-permd d'

  -- A balancer is selected xs often in any order.
  selections-perm :
      {xs ys : List A} → Perm xs ys → selections i (map t xs) ≡ selections i (map t ys)
  selections-perm p = ∥∥₁_elim p (hlevel) selections-permd

module _ (c : Crates) (services : List (Service c)) where
  -- If the services were made by `new` and point to well-formed balancers: once all requests of two
  -- runs are answered, which had the same requests in any order, and for each the same races in the
  -- parallel searches over filters, every well-formed balancer stands at the same place in both,
  -- however the requests were interleaved and whatever the two networks answered.
  pub run_moves-confluent :
      (net net' : Network c) (s : State c) (ms ms' : List (Move c)) (i : ℕ) (lb : LoadBalancer)
      → IsWellFormed c services s.balancers
      → get_elem? s.balancers i ≡ some lb
      → IsValid lb
      → Perm (arrivals c ms) (arrivals c ms')
      → All (IsReady c) (after c net services s ms).futures
      → All (IsReady c) (after c net' services s ms').futures
      → get_elem? (after c net services s ms).state.balancers i
        ≡ get_elem? (after c net' services s ms').state.balancers i
  run_moves-confluent net net' s ms ms' i lb well_formed e valid same done done' =
      settled c net services s ms well_formed i lb e valid done
      ∙ ap (λ n. some (advance_by n lb))
          (selections-perm (λ a. target c services a.race a.from a.header a.body) i same)
      ∙ sym (settled c net' services s ms' well_formed i lb e valid done')
