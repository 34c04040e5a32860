-- ===== src/Deployment.antt =====
-- src/main.rs: the proxy that the binary runs.
--
-- JSON values and header maps are those of serde_json and http, given as a parameter. A peer's
-- address always prints to a valid header value, so that the `unwrap` calls of the middleware do not
-- panic. The accept loop is in Server.
pub mod Laws
pub mod Main
pub mod Start
pub mod Traffic
pub mod Evenness
pub mod Guard
pub mod Works
use text.Mathlib.Text.{◌==◌ as str_eq}
use broxy.Prelude.{
  ℕ, Bool, true, false, ◌||◌, if◌then◌else◌, List, [], ◌∷◌, Option, none, some, String,
}
use broxy.Outcome.{
  Called, answers, Error, Result, ok, err, Outcome, returns, panics, M, ◌>>=◌, pure, lift,
}
use broxy.LoadBalancer.{v4, SocketAddr, Upstream, LoadBalancer, new as new_balancer}
use broxy.Crates.{Crates, Bytes}
use broxy.Filter.{Filter, method}
use broxy.BodyFilter.{BodyFilter, internal_full_body}
use broxy.Middleware.{Middleware, new as new_middleware}
use broxy.Middleware.Outgoing.{internal}
use broxy.Service.{Service, new}
use broxy.Bundle.{new as new_bundle}
use broxy.Server.{Tokio, Server, new as new_server}

pub record Libraries (c : Crates) : Type 1 where
  -- `hyper::Method::POST`
  pub post : c.Method
  -- `serde_json::Value`
  pub Value : Type 0
  pub from_slice : Bytes → Result Value
  pub get : Value → String → Option Value
  pub as_str : Value → Option String
  -- `HeaderMap::insert` on the headers of a response, and `SocketAddr::to_string`.
  pub insert_header : String → String → c.ResponseParts → c.ResponseParts
  pub to_string : SocketAddr → String

-- `0.0.0.0` and a port, without SSL.
abbrev pub local : ℕ → Upstream
local port = record { address = record { ip = v4 0; port = port }; use_ssl = false }

abbrev pub servers : List Upstream
servers = local 9944 ∷ local 9945 ∷ local 9946 ∷ local 9947 ∷ local 9948 ∷ []

-- `Result::unwrap`
abbrev pub unwrap {ℓ} : {A : Type ℓ} → Result A → Outcome A
unwrap (ok a) = returns a
unwrap (err e) = panics

abbrev pub and_then_str {ℓ} : {A : Type ℓ} → Option A → (A → Option String) → Option String
and_then_str none f = none
and_then_str (some a) f = f a

abbrev pub is_transaction : String → Bool
is_transaction m = str_eq m "eth_sendTransaction" || str_eq m "eth_sendRawTransaction"

-- The verdict on the method of a parsed body.
abbrev pub method_allowed : Option String → Bool
method_allowed none = false
method_allowed (some m) = if is_transaction m then false else true

module _ (c : Crates) (lib : Libraries c) where
  abbrev pub method_of_body : lib.Value → Option String
  method_of_body serialized = and_then_str (lib.get serialized "method") lib.as_str

  abbrev pub allowed : Result lib.Value → Result Bool
  allowed (ok serialized) = ok (method_allowed (method_of_body serialized))
  allowed (err e) = err e

  unfoldable pub rpc_filter : SocketAddr → Bytes → Called Bool
  rpc_filter _ body = answers (allowed (lib.from_slice body))

  unfoldable pub add_headers :
      SocketAddr → SocketAddr → c.ResponseParts → Called (Unit {0}) × c.ResponseParts
  add_headers from upstream_addr header = (
    answers (ok tt),
    lib.insert_header "X-backend" (lib.to_string upstream_addr)
        (lib.insert_header "X-Provided-For" (lib.to_string from) header),
  )

  unfoldable pub middleware : Middleware c
  middleware = new_middleware c [] (internal add_headers ∷ [])

  -- The service, with the balancer at the address 0.
  unfoldable pub service : Service c
  service =
      new c (method lib.post ∷ []) (internal_full_body rpc_filter ∷ []) (some middleware) 0 none

  -- What `main` makes: the balancer, at the address 0, and the server, which has no TLS.
  unfoldable pub start : (tokio : Tokio c) → Outcome (LoadBalancer × Server c tokio)
  start tokio =
      ((do
        load_balancer ← lift (new_balancer servers)
        server ←
            lift
              (unwrap (new_server c tokio (local 8546).address (new_bundle c (service ∷ [])) none))
        pure (load_balancer, server))
        (tt {0})).0
