-- ===== src/Service/Filtering/Search.antt =====
-- broxy-core/src/service.rs: what the loop and the parallel search over header filters give.
use broxy.Prelude.{
  Bool, true, false, ◌≡◌, ◌≢◌, ◌↔◌, ◌⊎◌, refl, inl, inr, ℕ, suc, List, [], ◌∷◌, ◌++◌, Option, none,
  some, All, arith, get_elem?,
}
use broxy.Outcome.{Outcome, returns, fails, panics, undefined}
use broxy.LoadBalancer.{SocketAddr}
use broxy.Crates.{Crates}
use broxy.Filter.{Filter, filter}
use broxy.Service.Filtering.{go_on, refusal, sequential}

module _ (c : Crates) (from : SocketAddr) (header : c.RequestParts) where
  abbrev pub Passes : Filter c → Type 0
  Passes f = filter c f from header ≡ returns true

  abbrev NotRefused : Filter c → Type 0
  NotRefused f = refusal (filter c f from header) ≡ returns none

  -- The sequential loop passes a request exactly if every filter does.
  pub sequential-Passes_iff :
      (fs : List (Filter c)) → (sequential c fs from header ≡ returns true) ↔ All Passes fs
  unfolding sequential
  sequential-Passes_iff [] = ground arith
  sequential-Passes_iff (f ∷ fs) = ground (arith, sequential-Passes_iff fs)

  -- Otherwise the first filter that does not pass decides, an error included, whatever follows it.
  sequential-first :
      (pre post : List (Filter c)) (f : Filter c) (r : Outcome Bool)
      → All Passes pre
      → filter c f from header ≡ r
      → r ≢ returns true
      → sequential c (pre ++ f ∷ post) from header ≡ r
  unfolding sequential
  sequential-first [] post f r h e n = ground arith
  sequential-first (g ∷ pre) post f r (p, h) e n = rw p (sequential-first pre post f r h e n)

  pub filter-defined : (f : Filter c) → filter c f from header ≢ undefined
  unfolding filter
  filter-defined f = ground arith

  pub sequential-defined : (fs : List (Filter c)) → sequential c fs from header ≢ undefined
  unfolding sequential
  sequential-defined [] = cc
  sequential-defined (f ∷ fs) = ground (arith, filter-defined f, sequential-defined fs)

  -- A filter of the list panics.
  abbrev pub Panics : List (Filter c) → Type 0
  Panics fs =
      (i : ℕ) × (f : Filter c) × (get_elem? fs i ≡ some f) × (filter c f from header ≡ panics)

  pub sequential-Panics : (fs : List (Filter c)) → sequential c fs from header ≡ panics → Panics fs
  unfolding sequential
  sequential-Panics [] e = cc
  sequential-Panics (f ∷ fs) e = go (sequential-Panics fs) (filter c f from header) refl e
    where
      go :
          (sequential c fs from header ≡ panics → Panics fs)
          → (o : Outcome Bool) → filter c f from header ≡ o
          → go_on o (sequential c fs from header) ≡ panics
          → Panics (f ∷ fs)
      go rest (returns true) h k = let (i, g, at, p) = rest k in (suc i, g, at, p)
      go rest (returns false) h k = cc
      go rest (fails x) h k = cc
      go rest panics h k = (0, f, refl, h)
      go rest undefined h k = cc

  NotRefused-iff :
      (fs : List (Filter c)) → All NotRefused fs ↔ (sequential c fs from header ≡ returns true)
  unfolding sequential
  NotRefused-iff [] = ground arith
  NotRefused-iff (f ∷ fs) = ground (arith, NotRefused-iff fs)

  module _ (race : c.Race) where
    abbrev pub search_result : List (Filter c) → Outcome (Option (Unit {0}))
    search_result fs =
        c.find_map_any race (Filter c) Unit (λ f. refusal (filter c f from header)) fs

    -- What the search gives: nothing if all pass, and else a refusal, or the panic of a filter.
    pub search-cases :
        (fs : List (Filter c))
        → ((search_result fs ≡ returns none) × (sequential c fs from header ≡ returns true))
          ⊎ ((search_result fs ≡ returns (some tt)) × (sequential c fs from header ≢ returns true))
          ⊎ ((search_result fs ≡ panics) × (sequential c fs from header ≢ returns true) × Panics fs)
    search-cases fs = go (search_result fs) refl
      where
        found : (search_result fs ≡ returns none) ↔ All NotRefused fs
        found = c.find_map_any-none race (Filter c) Unit (λ f. refusal (filter c f from header)) fs

        not_passed : search_result fs ≢ returns none → sequential c fs from header ≢ returns true
        not_passed n e = n (found.1 ((NotRefused-iff fs).1 e))

        item :
            search_result fs ≢ returns none
            → (i : ℕ) × (f : Filter c) × (get_elem? fs i ≡ some f)
              × (search_result fs ≡ refusal (filter c f from header))
        item = c.find_map_any-some race (Filter c) Unit (λ f. refusal (filter c f from header)) fs

        go :
            (o : Outcome (Option (Unit {0})))
            → search_result fs ≡ o
            → ((search_result fs ≡ returns none) × (sequential c fs from header ≡ returns true))
              ⊎ ((search_result fs ≡ returns (some tt))
                  × (sequential c fs from header ≢ returns true))
              ⊎ ((search_result fs ≡ panics)
                  × (sequential c fs from header ≢ returns true)
                  × Panics fs)
        go (returns none) e = inl (e, (NotRefused-iff fs).0 (found.0 e))
        go (returns (some tt)) e = inr (inl (e, not_passed (λ h. cc (h, e))))
        go (fails x) e =
            let (i, f, at, same) = item (λ h. cc (h, e)) in absurd (ground (arith, e, same))
        go panics e =
            let (i, f, at, same) = item (λ h. cc (h, e)) in
            inr (inr (e, not_passed (λ h. cc (h, e)), (i, f, at, ground (arith, e, same))))
        go undefined e =
            let (i, f, at, same) = item (λ h. cc (h, e)) in
            absurd (ground (arith, e, same, filter-defined f))
