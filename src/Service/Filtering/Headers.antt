-- ===== src/Service/Filtering/Headers.antt =====
-- broxy-core/src/service.rs: the two ways to filter by header, and which of them `new` selects.
use broxy.Prelude.{
  ltb, if◌then◌else◌, Bool, true, false, ◌≡◌, ◌≢◌, ◌⊎◌, ◌<◌, refl, inl, inr, ℕ, List, Option,
  length, arith, Bool-cases, All,
}
use broxy.Outcome.{Outcome, returns, fails, panics, undefined}
use broxy.LoadBalancer.{SocketAddr}
use broxy.Crates.{Crates, Bytes}
use broxy.Filter.{Filter}
use broxy.BodyFilter.{BodyFilter}
use broxy.Middleware.{Middleware}
use broxy.Network.{Response}
use broxy.Service.{Service, new, FilterFunction, parallel_header, sequential_header}
use broxy.Service.Filtering.{
  sequential, filter_sequential_header, filter_parallel_header, filter_function,
  filter_request_by_header,
}
use broxy.Service.Filtering.Search.{
  Passes, Panics, sequential-Passes_iff, sequential-defined, sequential-Panics, search-cases,
}

-- An error counts as a refusal.
abbrev pub swallow : Outcome Bool → Outcome Bool
swallow (fails e) = returns false
swallow o = o

module _ (c : Crates) (race : c.Race) (from : SocketAddr) (header : c.RequestParts) where
  -- The search refuses what the loop did not pass, unless a filter panics.
  refused :
      (fs : List (Filter c)) (o : Outcome Bool)
      → sequential c fs from header ≡ o
      → o ≢ returns true
      → (returns false ≡ swallow o) ⊎ Panics c from header fs
  refused fs (returns true) e n = absurd (n refl)
  refused fs (returns false) e n = inl refl
  refused fs (fails x) e n = inl refl
  refused fs panics e n = inr (sequential-Panics c from header fs e)
  refused fs undefined e n = absurd (sequential-defined c from header fs e)

  -- Filtering in parallel gives what the sequential loop gives, but a refusal where that fails. If a
  -- filter panics, it may also refuse or panic, where the loop does not pass the request either.
  pub parallel-sequential :
      (service : Service c)
      → (filter_parallel_header c service race from header
          ≡ swallow (filter_sequential_header c service from header))
        ⊎ (Panics c from header service.filters
            × (filter_sequential_header c service from header ≢ returns true)
            × ((filter_parallel_header c service race from header ≡ returns false)
                ⊎ (filter_parallel_header c service race from header ≡ panics)))
  unfolding filter_parallel_header filter_sequential_header
  parallel-sequential service = elim (search-cases c from header race service.filters) [
    | inl (found, passed) ↦ inl (rw (found, passed))
    | inr (inl (found, failed)) ↦
        elim (refused service.filters (sequential c service.filters from header) refl failed) [
          | inl same ↦ inl (rw found same)
          | inr crash ↦ inr (crash, failed, inl (rw found))
        ]
    | inr (inr (found, failed, crash)) ↦ inr (crash, failed, inr (rw found))
  ]

  -- A request that the filters of a service pass is passed by each of them.
  pub filter_request_by_header-Passes :
      (service : Service c)
      → filter_request_by_header c service race from header ≡ returns true
      → All (Passes c from header) service.filters
  unfolding filter_request_by_header filter_parallel_header filter_sequential_header
  filter_request_by_header-Passes service e = go service.filter e
    where
      go :
          (kind : FilterFunction)
          → filter_function c kind service race from header ≡ returns true
          → All (Passes c from header) service.filters
      go sequential_header h = (sequential-Passes_iff c from header service.filters).0 h
      go parallel_header h = elim (search-cases c from header race service.filters) [
        | inl (found, passed) ↦ (sequential-Passes_iff c from header service.filters).0 passed
        | inr (inl (found, failed)) ↦ cc (h, found)
        | inr (inr (found, failed, crash)) ↦ cc (h, found)
      ]

  pub filter_request_by_header-defined :
      (service : Service c) → filter_request_by_header c service race from header ≢ undefined
  unfolding filter_request_by_header filter_parallel_header filter_sequential_header
  filter_request_by_header-defined service = go service.filter
    where
      go : (kind : FilterFunction) → filter_function c kind service race from header ≢ undefined
      go sequential_header = sequential-defined c from header service.filters
      go parallel_header = λ h. elim (search-cases c from header race service.filters) [
        | inl (found, passed) ↦ cc (h, found)
        | inr (inl (found, failed)) ↦ cc (h, found)
        | inr (inr (found, failed, crash)) ↦ cc (h, found)
      ]

  -- A service that `new` makes filters sequentially up to five filters. With more, and unless a filter
  -- panics, an error of a filter is no longer reported: the request is refused as if it did not
  -- match.
  pub new-filter_request_by_header :
      (fs : List (Filter c)) (bfs : List (BodyFilter c)) (mw : Option (Middleware c)) (lb : ℕ)
      (nf : Option (SocketAddr → Bytes → Response c))
      → (filter_request_by_header c (new c fs bfs mw lb nf) race from header ≡ (
          if ltb 5 (length fs)
          then swallow (sequential c fs from header)
          else sequential c fs from header))
        ⊎ ((5 < length fs) × Panics c from header fs)
  unfolding filter_request_by_header new filter_parallel_header filter_sequential_header
  new-filter_request_by_header fs bfs mw lb nf = elim (Bool-cases (ltb 5 (length fs))) [
    | inl many ↦ elim (parallel-sequential (new c fs bfs mw lb nf)) [
      | inl same ↦ inl (rw many same)
      | inr (crash, _, _) ↦ inr (ground arith, crash)
    ]
    | inr few ↦ inl (rw few)
  ]
