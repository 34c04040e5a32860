-- ===== src/Service/Filtering.antt =====
-- broxy-core/src/service.rs: the loops over a service's filters.
pub mod Search
pub mod Headers
pub mod Bodies
use broxy.Prelude.{Bool, true, false, if◌then◌else◌, List, [], ◌∷◌, Option, none, some, is_none}
use broxy.Outcome.{Result, ok, err, Outcome, returns, fails, panics, undefined}
use broxy.LoadBalancer.{SocketAddr}
use broxy.Crates.{Crates, Bytes}
use broxy.Filter.{Filter}
use broxy.Filter
use broxy.BodyFilter.{BodyFilter}
use broxy.BodyFilter
use broxy.Service.{Service, FilterFunction, parallel_header, sequential_header}

-- A round of a loop over filters: go on with the rest only when the filter passed.
abbrev pub go_on : Outcome Bool → Outcome Bool → Outcome Bool
go_on (returns true) rest = rest
go_on (returns false) rest = returns false
go_on (fails e) rest = fails e
go_on panics rest = panics
go_on undefined rest = undefined

-- What the parallel search looks for: a filter that does not pass.
abbrev pub refusal : Outcome Bool → Outcome (Option (Unit {0}))
refusal (returns f) = returns (if f then none else some tt)
refusal (fails _) = returns (some tt)
refusal panics = panics
refusal undefined = undefined

-- `is_none` on what the search gives, if it does not panic.
abbrev pub nothing_found : Outcome (Option (Unit {0})) → Outcome Bool
nothing_found (returns o) = returns (is_none o)
nothing_found (fails e) = fails e
nothing_found panics = panics
nothing_found undefined = undefined

module _ (c : Crates) where
  open c use {RequestParts, Race, find_map_any}

  unfoldable pub sequential : List (Filter c) → SocketAddr → RequestParts → Outcome Bool
  sequential [] from header = returns true
  sequential (f ∷ fs) from header =
      go_on (Filter.filter c f from header) (sequential fs from header)

  unfoldable pub filter_sequential_header : Service c → SocketAddr → RequestParts → Outcome Bool
  unfolding sequential
  filter_sequential_header service from header = sequential service.filters from header

  unfoldable pub filter_parallel_header :
      Service c → Race → SocketAddr → RequestParts → Outcome Bool
  filter_parallel_header service race from header = nothing_found (
      find_map_any race (Filter c) Unit (λ f. refusal (Filter.filter c f from header))
        service.filters)

  abbrev pub filter_function :
      FilterFunction → Service c → Race → SocketAddr → RequestParts → Outcome Bool
  filter_function parallel_header = filter_parallel_header
  filter_function sequential_header =
      λ service race from header. filter_sequential_header service from header

  unfoldable pub filter_request_by_header :
      Service c → Race → SocketAddr → RequestParts → Outcome Bool
  filter_request_by_header service race from header =
      filter_function service.filter service race from header

  unfoldable pub filter_request_by_body : List (BodyFilter c) → SocketAddr → Bytes → Outcome Bool
  filter_request_by_body [] from body = returns true
  filter_request_by_body (f ∷ fs) from body =
      go_on (BodyFilter.filter c f from body) (filter_request_by_body fs from body)
