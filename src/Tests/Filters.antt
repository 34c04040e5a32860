-- ===== src/Tests/Filters.antt =====
-- Runs of the header and body filters.
use broxy.Prelude.{
  ltb, if◌then◌else◌, ◌≡◌, ◌≢◌, ◌⊎◌, ◌<◌, refl, true, false, List, [], ◌∷◌, none, length,
}
use broxy.Outcome.{returns, fails, foreign, host_empty, panics}
use broxy.Filter.{Filter, method, host, filter, get}
use broxy.BodyFilter
use broxy.BodyFilter.{BodyFilter}
use broxy.Service.{Service, new}
use broxy.Service.Filtering.{
  sequential, filter_sequential_header, filter_parallel_header, filter_request_by_header,
  filter_request_by_body,
}
use broxy.Service.Filtering.Search.{Panics}
use broxy.Service.Filtering.Headers.{swallow, parallel-sequential, new-filter_request_by_header}
use broxy.Tests.Toy.{toy, peer, get_root, broken_filter, h_filter}

filters : Unit {0}
unfolding filter get sequential filter_sequential_header filter_parallel_header
    filter_request_by_header filter_request_by_body new BodyFilter.filter
filters = tt

abbrev gets : Filter toy
gets = method 0

abbrev six : List (Filter toy)
six = gets ∷ gets ∷ broken_filter ∷ gets ∷ gets ∷ gets ∷ []

abbrev five : List (Filter toy)
five = gets ∷ broken_filter ∷ gets ∷ gets ∷ gets ∷ []

abbrev of_filters : List (Filter toy) → Service toy
of_filters fs = new toy fs [] none 0 none

-- The same failing filter is an error among five filters and a mere refusal among six.
error_hidden :
    (filter_request_by_header toy (of_filters five) tt peer get_root ≡ fails (foreign 9))
    × (filter_request_by_header toy (of_filters six) tt peer get_root ≡ returns false)
unfolding filters
error_hidden = (refl, refl)

no_host : filter toy (host "a.example") peer (record get_root { host = none }) ≡ fails host_empty
unfolding filters
no_host = refl

parallel-sequential_example :
    (filter_parallel_header toy (of_filters six) tt peer get_root
      ≡ swallow (filter_sequential_header toy (of_filters six) peer get_root))
    ⊎ (Panics toy peer get_root (of_filters six).filters
        × (filter_sequential_header toy (of_filters six) peer get_root ≢ returns true)
        × ((filter_parallel_header toy (of_filters six) tt peer get_root ≡ returns false)
            ⊎ (filter_parallel_header toy (of_filters six) tt peer get_root ≡ panics)))
parallel-sequential_example = parallel-sequential toy tt peer get_root (of_filters six)

new-filter_request_by_header_example :
    (filter_request_by_header toy (new toy six [] none 0 none) tt peer get_root ≡ (
      if ltb 5 (length six)
      then swallow (sequential toy six peer get_root)
      else sequential toy six peer get_root))
    ⊎ ((5 < length six) × Panics toy peer get_root six)
new-filter_request_by_header_example =
    new-filter_request_by_header toy tt peer get_root six [] none 0 none

-- An external body filter is not implemented.
external_panics :
    filter_request_by_body toy (h_filter ∷ BodyFilter.external ∷ []) peer (104 ∷ []) ≡ panics
unfolding filters
external_panics = refl
