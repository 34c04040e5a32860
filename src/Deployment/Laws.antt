-- ===== src/Deployment/Laws.antt =====
-- src/main.rs: what the running proxy answers.
use broxy.Prelude.{
  ◌⊎◌, inl, inr, String, ◌*◌, ◌≤◌, ◌≡◌, refl, ◌∙◌, ap, Bool, true, false, [], ◌∷◌, none, some,
  get_elem?, set,
}
use broxy.Outcome.{ok, returns}
use broxy.LoadBalancer.{SocketAddr, Upstream, LoadBalancer}
use broxy.LoadBalancer.Safety.{IsValid, advance, next_index}
use broxy.Crates.{Crates, Bytes}
use broxy.Filter.{filter, method}
use broxy.BodyFilter
use broxy.Middleware.{
  each_incoming, each_outgoing, process_incoming, process_outgoing, new as new_middleware,
}
use broxy.Middleware.Outgoing
use broxy.Network.{
  Network, State, Request, full, status_response, sending, collecting, record_event,
}
use broxy.Service.{new}
use broxy.Service.Filtering.{
  filter_request_by_header, filter_sequential_header, sequential, filter_request_by_body,
}
use broxy.Service.Processing.{process}
use broxy.Service.Processing.Exchange.{IsReachable, opened}
use broxy.Service.Processing.WholeBody.{process-refused, process-with_body}
use broxy.Bundle.{max_size, ServiceBundle, call}
use broxy.Bundle.Routing.{call-no_match, call-served}
use broxy.Deployment.{
  Libraries, method_allowed, method_of_body, rpc_filter, add_headers, middleware, service,
}

module _ (c : Crates) (lib : Libraries c) (net : Network c) (race : c.Race) (from : SocketAddr)
    (header : c.RequestParts) (body : c.Incoming) (s : State c) where
  abbrev pub bundle : ServiceBundle c
  bundle = record { services = service c lib ∷ []; from = from }

  matches :
      (b : Bool)
      → c.method_eq (c.method_of header) lib.post ≡ b
      → filter_request_by_header c (service c lib) race from header ≡ returns b
  unfolding service new filter_request_by_header filter_sequential_header sequential filter
  matches true e = rw e
  matches false e = rw e

  -- The JSON value has this text under the name "method".
  abbrev pub Names : lib.Value → String → Type 0
  Names value name =
      (v : lib.Value) × (lib.get value "method" ≡ some v) × (lib.as_str v ≡ some name)

  abbrev pub NamesNothing : lib.Value → Type 0
  NamesNothing value =
      (lib.get value "method" ≡ none)
      ⊎ ((v : lib.Value) × (lib.get value "method" ≡ some v) × (lib.as_str v ≡ none))

  -- The JSON value names no method, or one that sends a transaction.
  abbrev pub IsForbidden : lib.Value → Type 0
  IsForbidden value =
      NamesNothing value ⊎ Names value "eth_sendTransaction" ⊎ Names value "eth_sendRawTransaction"

  IsForbidden-refused :
      (value : lib.Value) → IsForbidden value → method_allowed (method_of_body c lib value) ≡ false
  IsForbidden-refused value (inl (inl e)) = rw e
  IsForbidden-refused value (inl (inr (v, e, e'))) = rw (e, e')
  IsForbidden-refused value (inr (inl (v, e, e'))) = rw (e, e')
  IsForbidden-refused value (inr (inr (v, e, e'))) = rw (e, e')

  -- A request with another method than POST is answered with 404.
  call-not_post :
      c.method_eq (c.method_of header) lib.post ≡ false
      → call c net bundle race header body s ≡ (returns (status_response c 404), s)
  call-not_post e = call-no_match c net bundle header body s race (matches false e, tt)

  module _ (lb : LoadBalancer) (text : Bytes) (value : lib.Value)
      (is_post : c.method_eq (c.method_of header) lib.post ≡ true)
      (small : max_size (c.size_hint_upper body) ≤ 1024 * 64)
      (at : get_elem? s.balancers 0 ≡ some lb) (valid : IsValid lb)
      (collected : net.collect s.history body ≡ ok text)
      (parsed : lib.from_slice text ≡ ok value) where
    -- The state in which the request is processed.
    abbrev chosen : State c
    chosen = record s { balancers = set s.balancers 0 (advance lb) }

    verdict :
        (b : Bool)
        → method_allowed (method_of_body c lib value) ≡ b
        → filter_request_by_body c (BodyFilter.internal_full_body (rpc_filter c lib) ∷ []) from text
          ≡ returns b
    unfolding filter_request_by_body BodyFilter.filter rpc_filter
    verdict true e = rw (parsed, e)
    verdict false e = rw (parsed, e)

    -- A POST whose JSON body has no text under the name "method", or there one of the two methods that
    -- send a transaction, is answered with 403: an upstream is chosen for it, but not contacted. Its
    -- size must be at most 64 KiB, and the balancer well-formed.
    pub call-forbidden :
        IsForbidden value
        → call c net bundle race header body s
          ≡ (returns (status_response c 403), record_event c (collecting body) chosen)
    unfolding service new
    call-forbidden e =
        let (u, _, served) =
          call-served c net bundle header body s race [] [] (service c lib) refl tt lb
            (matches true is_post) small at valid in
        served
        ∙ process-refused c net (method lib.post ∷ []) _ [] (middleware c lib) 0 none u from header
            body chosen text collected (verdict false (IsForbidden-refused value e))

    unchanged :
        process_incoming c (middleware c lib) from (header, some text)
        ≡ (returns tt, (header, some text))
    unfolding middleware new_middleware process_incoming each_incoming
    unchanged = refl

    provided :
        (u : Upstream) (parts : c.ResponseParts) (answer : Bytes)
        → process_outgoing c (middleware c lib) from u.address (parts, some answer)
          ≡ (returns tt, ((add_headers c lib from u.address parts).1, some answer))
    unfolding middleware new_middleware process_outgoing each_outgoing Outgoing.process add_headers
    provided u parts answer = refl

    -- Any other POST with a JSON body goes to the next server with its header and body as they came,
    -- and the client gets the answer with two headers more, if every stage succeeds.
    pub call-forwarded :
        (u : Upstream) (parts : c.ResponseParts) (answer : c.Incoming) (answer_text : Bytes)
        {stream : c.TcpStream} {sender : c.Sender} {conn : c.Connection}
        → let t = opened c net u.address stream conn (record_event c (collecting body) chosen) in
          let request : Request c = record { parts = header; body = full text } in
          let t' = record_event c (sending sender request) t in
          method_allowed (method_of_body c lib value) ≡ true
          → get_elem? lb.servers (next_index lb) ≡ some u
          → IsReachable c net (record_event c (collecting body) chosen) u.address stream sender conn
          → net.send_request t.history sender request ≡ ok (parts, answer)
          → net.collect t'.history answer ≡ ok answer_text
          → call c net bundle race header body s ≡ (
            returns (record {
              parts =
                  lib.insert_header "X-backend"
                    (lib.to_string u.address)
                    (lib.insert_header "X-Provided-For" (lib.to_string from) parts);
              body = full answer_text;
            }),
            record_event c (collecting answer) t',
          )
    unfolding service new add_headers
    call-forwarded u parts answer answer_text e found reachable sent read =
        let (u', found', served) =
          call-served c net bundle header body s race [] [] (service c lib) refl tt lb
            (matches true is_post) small at valid in
        let same : u' ≡ u = cc (found', found) in
        served
        ∙ ap (λ v. process c net (service c lib) v from header body chosen) same
        ∙ process-with_body c net (method lib.post ∷ []) _ [] (middleware c lib) 0 none u from
            header body chosen text collected header text parts _ answer answer_text answer_text
            (verdict true e) reachable unchanged sent read (provided u parts answer_text)
