-- ===== src/Executor/Selections.antt =====
-- broxy-core/src/load_balancer.rs: the selections that requests in flight have made and are to make.
use native.Mathlib.Nat.{mod-lt}
use mathlib.Core.List.{map-append}
use broxy.Prelude.{
  ℕ, zero, suc, ◌+◌, ◌≡◌, ap, ◌∙◌, List, [], ◌∷◌, ◌++◌, map, Option, none, some, arith, get_elem?,
  set,
}
use broxy.LoadBalancer.{LoadBalancer}
use broxy.LoadBalancer.Safety.{IsValid}
use broxy.LoadBalancer.Rounds.{advance_by, advance_by_add}
use broxy.Bundle.Balancing.{bump, selections, get_elem?-bump_all}

selections-append :
    (i : ℕ) (ts us : List (Option ℕ)) → selections i (ts ++ us) ≡ selections i ts + selections i us
selections-append i [] us = omega arith
selections-append i (none ∷ ts) us = selections-append i ts us
selections-append i (some j ∷ ts) us = ground (arith, selections-append i ts us)

pub selections-map-append :
    {A : Type 0} (f : A → Option ℕ) (i : ℕ) (xs ys : List A)
    → selections i (map f (xs ++ ys)) ≡ selections i (map f xs) + selections i (map f ys)
selections-map-append f i xs ys =
    ap (selections i) (map-append f xs ys) ∙ selections-append i (map f xs) (map f ys)

-- A pending selection that is made is taken off.
pub selections-set-none :
    {A : Type 0} (f : A → Option ℕ) (i : ℕ) (xs : List A) (j : ℕ) (x y : A)
    → get_elem? xs j ≡ some x
    → f y ≡ none
    → selections i (f x ∷ []) + selections i (map f (set xs j y)) ≡ selections i (map f xs)
selections-set-none f i [] j x y e h = cc
selections-set-none f i (z ∷ xs) zero x y e h =
    let same : z ≡ x = cc e in
    omega (
      arith,
      selections-append i (f x ∷ []) (map f xs),
      ap (λ t. selections i (t ∷ map f xs)) h,
      ap (λ w. selections i (f w ∷ map f xs)) same,
    )
selections-set-none f i (z ∷ xs) (suc j) x y e h = omega (
  arith,
  selections-append i (f z ∷ []) (map f (set xs j y)),
  selections-append i (f z ∷ []) (map f xs),
  selections-set-none f i xs j x y e h,
)

advance_by-IsValid : (k : ℕ) {lb : LoadBalancer} → IsValid lb → IsValid (advance_by k lb)
advance_by-IsValid k v = record { has_server = v.has_server; is_word = mod-lt _ (omega arith) }

-- A selection, or none, on a balancer that has made `k`.
pub get_elem?-bump_add :
    (t : Option ℕ) (i k : ℕ) (bs : List LoadBalancer) (lb : LoadBalancer)
    → IsValid lb
    → get_elem? bs i ≡ some (advance_by k lb)
    → get_elem? (bump t bs) i ≡ some (advance_by (k + selections i (t ∷ [])) lb)
get_elem?-bump_add t i k bs lb v e =
    get_elem?-bump_all (t ∷ []) i bs (advance_by-IsValid k v) e
    ∙ ap some (advance_by_add (selections i (t ∷ [])) k lb)
