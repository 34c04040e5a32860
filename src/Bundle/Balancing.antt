-- ===== src/Bundle/Balancing.antt =====
-- broxy-core/src/service.rs and broxy-core/src/load_balancer.rs: the balancers in shared memory.
use native.Mathlib.Decide.{ℕ_discrete}
use broxy.Prelude.{
  ℕ, suc, ◌≡◌, ◌≢◌, ap, ◌∙◌, ◌==◌, if◌then◌else◌, List, [], ◌∷◌, Option, none, some, arith, true,
  false, get_elem?, set, get_elem?-set_self, get_elem?-set_ne, Option-cases, Bool-cases, inl, inr,
}
use broxy.LoadBalancer.{LoadBalancer}
use broxy.LoadBalancer.Safety.{IsValid, advance, advance-IsValid}
use broxy.LoadBalancer.Rounds.{advance_by, advance_by-zero, advance_by-suc}

-- The balancers after a selection from the one at an address.
abbrev pub set_found : Option LoadBalancer → ℕ → List LoadBalancer → List LoadBalancer
set_found none i bs = bs
set_found (some lb) i bs = set bs i (advance lb)

abbrev pub bump : Option ℕ → List LoadBalancer → List LoadBalancer
bump none bs = bs
bump (some i) bs = set_found (get_elem? bs i) i bs

-- How many selections `targets` makes from the balancer at `i`.
abbrev pub selections : ℕ → List (Option ℕ) → ℕ
selections i [] = 0
selections i (none ∷ ts) = selections i ts
selections i (some j ∷ ts) = if j == i then suc (selections i ts) else selections i ts

abbrev pub bump_all : List (Option ℕ) → List LoadBalancer → List LoadBalancer
bump_all [] bs = bs
bump_all (t ∷ ts) bs = bump_all ts (bump t bs)

bump_self :
    (i : ℕ) (bs : List LoadBalancer) {lb : LoadBalancer}
    → get_elem? bs i ≡ some lb
    → get_elem? (bump (some i) bs) i ≡ some (advance lb)
bump_self i bs {lb} e = rw (e, set_found) (get_elem?-set_self bs i (advance lb) e)

bump_ne :
    (j i : ℕ) (bs : List LoadBalancer) → j ≢ i → get_elem? (bump (some j) bs) i ≡ get_elem? bs i
bump_ne j i bs h = elim (Option-cases (get_elem? bs j)) [
  | inl e ↦ rw (e, set_found)
  | inr (lb, e) ↦ rw (e, set_found) (get_elem?-set_ne bs j i (advance lb) h)
]

-- What a selection does to the balancer at `i`.
pub get_elem?-bump :
    (j i : ℕ) (bs : List LoadBalancer) {lb : LoadBalancer}
    → get_elem? bs i ≡ some lb
    → get_elem? (bump (some j) bs) i ≡ some (if j == i then advance lb else lb)
get_elem?-bump j i bs {lb} e = elim (ℕ_discrete j i) [
  | yes same ↦ let test : (j == i) ≡ true = ground arith in rw (test, same) (bump_self i bs e)
  | no other ↦ let test : (j == i) ≡ false = ground arith in rw test (bump_ne j i bs other ∙ e)
]

-- After a sequence of selections, each balancer has moved on by the number that was made from it.
pub get_elem?-bump_all :
    (ts : List (Option ℕ)) (i : ℕ) (bs : List LoadBalancer) {lb : LoadBalancer}
    → IsValid lb
    → get_elem? bs i ≡ some lb
    → get_elem? (bump_all ts bs) i ≡ some (advance_by (selections i ts) lb)
get_elem?-bump_all [] i bs {lb} v e = e ∙ ap some (advance_by-zero lb v)
get_elem?-bump_all (none ∷ ts) i bs v e = get_elem?-bump_all ts i bs v e
get_elem?-bump_all (some j ∷ ts) i bs {lb} v e = elim (Bool-cases (j == i)) [
  | inl hit ↦ rw hit (
      get_elem?-bump_all ts i _ (advance-IsValid v) (rw hit at (get_elem?-bump j i bs e))
      ∙ ap some (advance_by-suc (selections i ts) lb))
  | inr miss ↦ rw miss (get_elem?-bump_all ts i _ v (rw miss at (get_elem?-bump j i bs e)))
]
