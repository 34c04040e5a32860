-- ===== src/Bundle.antt =====
-- broxy-core/src/service.rs: `ServiceBundle`, which routes a request to the first service that
-- matches it.
pub mod Routing
pub mod Verdicts
pub mod Balancing
pub mod Safety
pub mod Runs
pub mod Sizes
use broxy.Prelude.{
  ℕ, ◌*◌, ◌-◌, ◌^◌, ltb, if◌then◌else◌, Bool, true, false, List, [], ◌∷◌, Option, none, some,
}
use broxy.Outcome.{Outcome, returns, fails, panics, undefined, lift, M, ◌>>=◌, pure}
use broxy.LoadBalancer.{v4, SocketAddr}
use broxy.Crates.{Crates}
use broxy.Network.{Response, status_response, Network, State}
use broxy.Service.{Service, get_upstream}
use broxy.Service.Filtering.{filter_request_by_header}
use broxy.Service.Processing.{process}

-- `body.size_hint().upper().unwrap_or(u64::MAX)`
abbrev pub max_size : Option ℕ → ℕ
max_size none = 2 ^ 64 - 1
max_size (some n) = n

module _ (c : Crates) where
  pub record ServiceBundle : Type 0 where
    pub services : List (Service c)
    pub from : SocketAddr

  unfoldable pub new : List (Service c) → ServiceBundle
  new services = record { services = services; from = record { ip = v4 0; port = 1 } }

  -- A round of the loop over services.
  abbrev pub on_match :
      Outcome Bool → M (State c) (Response c) → M (State c) (Response c) → M (State c) (Response c)
  on_match (returns true) here rest = here
  on_match (returns false) here rest = rest
  on_match (fails e) here rest = pure (status_response c 500)
  on_match panics here rest = lift panics
  on_match undefined here rest = lift undefined

module _ (c : Crates) (net : Network c) where
  open c use {RequestParts, Incoming, Race, next_race, size_hint_upper}

  -- What a service that matched does with the request.
  unfoldable pub serve : Service c → SocketAddr → RequestParts → Incoming → M (State c) (Response c)
  serve service from header body =
      if ltb (1024 * 64) (max_size (size_hint_upper body))
      then pure (status_response c 413)
      else do upstream ← get_upstream c service; process c net service upstream from header body

  -- The loop of `call`, with the race of its first search.
  unfoldable pub each_service :
      List (Service c) → Race → SocketAddr → RequestParts → Incoming → M (State c) (Response c)
  each_service [] race from header body = pure (status_response c 404)
  each_service (service ∷ services) race from header body =
      on_match c (filter_request_by_header c service race from header)
        (serve service from header body) (each_service services (next_race race) from header body)

  unfoldable pub call : ServiceBundle c → Race → RequestParts → Incoming → M (State c) (Response c)
  unfolding each_service
  call bundle race header body = each_service bundle.services race bundle.from header body
