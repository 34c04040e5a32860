-- ===== src/Deployment/Guard.antt =====
-- src/main.rs: what the running proxy lets through to the upstreams.
use text.Mathlib.Text.{◌==◌ as str_eq}
use broxy.Prelude.{
  ◌≡◌, refl, ap, ◌∙◌, sym, true, false, List, [], ◌∷◌, Option, none, some, String, arith, inl, inr,
}
use broxy.Outcome.{Result, ok, err, returns}
use broxy.LoadBalancer.{SocketAddr}
use broxy.Crates.{Crates, Bytes}
use broxy.Filter.{filter}
use broxy.BodyFilter
use broxy.Middleware.{each_incoming, process_incoming, new as new_middleware}
use broxy.Network.{Network, Request, full}
use broxy.Service.{new, with_body}
use broxy.Future.Forwards.{ForwardsBy}
use broxy.Service.Filtering.{
  filter_request_by_header, filter_sequential_header, sequential, filter_request_by_body,
}
use broxy.Bundle.Runs.{Arrival}
use broxy.Executor.{Move}
use broxy.Executor.Provenance.{Forwards, AllSent, AllSent-mono, IsForwarded, run_moves-forwards}
use broxy.Executor.Safety.{after}
use broxy.Deployment.{Libraries, method_allowed, method_of_body, rpc_filter, middleware, service}
use broxy.Deployment.Start.{balancer, started}

module _ (c : Crates) (lib : Libraries c) where
  -- A POST with a JSON body that names a method, which sends no transaction.
  abbrev pub IsHarmless : Request c → Type 0
  IsHarmless request =
      (text : Bytes) × (value : lib.Value) × (name : String) × (c.method_eq
          (c.method_of request.parts) lib.post
        ≡ true)
      × (request.body ≡ full text)
      × (lib.from_slice text ≡ ok value)
      × (method_of_body c lib value ≡ some name)
      × (str_eq name "eth_sendTransaction" ≡ false)
      × (str_eq name "eth_sendRawTransaction" ≡ false)

  matched-post :
      (race : c.Race) (from : SocketAddr) (header : c.RequestParts)
      → filter_request_by_header c (service c lib) race from header ≡ returns true
      → c.method_eq (c.method_of header) lib.post ≡ true
  unfolding service new filter_request_by_header filter_sequential_header sequential filter
  matched-post race from header e = ground arith

  named :
      (o : Option String)
      → method_allowed o ≡ true
      → (name : String) × (o ≡ some name)
        × (str_eq name "eth_sendTransaction" ≡ false)
        × (str_eq name "eth_sendRawTransaction" ≡ false)
  named none e = cc
  named (some name) e = (name, refl, ground arith, ground arith)

  passed-body :
      (from : SocketAddr) (text : Bytes) (r : Result lib.Value)
      → lib.from_slice text ≡ r
      → filter_request_by_body c (BodyFilter.internal_full_body (rpc_filter c lib) ∷ []) from text
        ≡ returns true
      → (value : lib.Value) × (lib.from_slice text ≡ ok value)
        × (method_allowed (method_of_body c lib value) ≡ true)
  unfolding filter_request_by_body BodyFilter.filter rpc_filter
  passed-body from text (err e) parsed h = absurd (ground arith)
  passed-body from text (ok value) parsed h = (value, parsed, ground arith)

  unchanged :
      (from : SocketAddr) (header : c.RequestParts) (body : Option Bytes)
      → process_incoming c (middleware c lib) from (header, body) ≡ (returns tt, (header, body))
  unfolding middleware new_middleware process_incoming each_incoming
  unchanged from header body = refl

  forwarded-IsHarmless :
      (net : Network c) (race : c.Race) (from : SocketAddr) (header : c.RequestParts)
      (body : c.Incoming) (request : Request c)
      → filter_request_by_header c (service c lib) race from header ≡ returns true
      → ForwardsBy c net with_body (service c lib) from header body request
      → IsHarmless request
  unfolding service new
  forwarded-IsHarmless net race from header body request matched
        (mw, h, text, header', body', read, e, passed, through, made) =
      let (value, parsed, allowed) = passed-body from text (lib.from_slice text) refl passed in
      let (name, at, safe, safe') = named (method_of_body c lib value) allowed in
      let same : mw ≡ middleware c lib = cc e in
      let kept : (returns tt, (header', body')) ≡ (returns tt, (header, some text)) =
        sym through
        ∙ ap (λ m. process_incoming c m from (header, some text)) same
        ∙ unchanged from header (some text) in
      (
        text,
        value,
        name,
        cc (matched-post race from header matched, made, kept),
        cc (made, kept),
        parsed,
        at,
        safe,
        safe',
      )

  Forwards-IsHarmless :
      (net : Network c) (a : Arrival c) (request : Request c)
      → Forwards c net (service c lib ∷ []) a request
      → IsHarmless request
  unfolding service new
  Forwards-IsHarmless net a request (inr (_, f)) = absurd f
  Forwards-IsHarmless net a request (inl (matched, _, f)) =
      forwarded-IsHarmless net a.race a.from a.header a.body request matched f

  -- Whatever is sent to an upstream is harmless.
  pub run_moves-IsHarmless :
      (net : Network c) (ms : List (Move c))
      → AllSent c IsHarmless (after c net (service c lib ∷ []) (started c lib) ms).state.history
  run_moves-IsHarmless net ms =
      let services = service c lib ∷ [] in
      AllSent-mono c (IsForwarded c net services ms) IsHarmless
        (after c net services (started c lib) ms).state.history
        (λ request f. Forwards-IsHarmless net f.1 request f.3)
        (run_moves-forwards c net services (balancer c lib ∷ []) ms)
