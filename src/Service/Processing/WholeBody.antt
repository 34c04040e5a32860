-- ===== src/Service/Processing/WholeBody.antt =====
-- broxy-core/src/service.rs: `process_with_body`, which reads the whole body.
use broxy.Prelude.{ℕ, ◌≡◌, ◌≢◌, refl, Bool, true, false, List, ◌∷◌, Option, none, some}
use broxy.Outcome.{Error, ok, Outcome, returns, fails, panics, undefined}
use broxy.LoadBalancer.{SocketAddr, Upstream}
use broxy.Crates.{Crates, Bytes}
use broxy.Filter.{Filter}
use broxy.BodyFilter.{BodyFilter}
use broxy.Middleware.{Middleware, process_incoming, process_outgoing}
use broxy.Network.{
  Network, State, Request, Response, full, sending, collecting, record_event, status_response,
}
use broxy.Service.{Service, new}
use broxy.Service.Filtering.{filter_request_by_body}
use broxy.Service.Processing.{
  refuse_body, answer_with_body, send_with_body, forward_with_body, process,
}
use broxy.Service.Processing.Safety.{on_verdict, process_with_body_lem}
use broxy.Service.Processing.Exchange.{IsReachable, opened, open_client_lem}

module _ (c : Crates) (net : Network c) (fs : List (Filter c)) (f : BodyFilter c)
    (bfs : List (BodyFilter c)) (middleware : Middleware c) (lb : ℕ)
    (nf : Option (SocketAddr → Bytes → Response c)) (upstream : Upstream) (from : SocketAddr)
    (header : c.RequestParts) (body : c.Incoming) (s : State c) (entire_body : Bytes)
    (collected : net.collect s.history body ≡ ok entire_body) where
  open c use {RequestParts, ResponseParts, Incoming}

  abbrev service : Service c
  service = new c fs (f ∷ bfs) (some middleware) lb nf

  process-on_verdict :
      process c net service upstream from header body s
      ≡ on_verdict c net service middleware upstream from header entire_body
          (filter_request_by_body c (f ∷ bfs) from entire_body)
          (record_event c (collecting body) s)
  unfolding process new
  process-on_verdict = rw (
    process_with_body_lem c net service middleware f bfs upstream from header body s refl refl,
    collected,
  )

  -- A refused body is answered with the configured response, or with 403 where there is none; an
  -- error or a panic of a filter becomes that of the request.
  abbrev pub unpassed : Outcome Bool → Outcome (Response c)
  unpassed (returns _) =
      returns (elim nf [ some respond ↦ respond from entire_body | none ↦ status_response c 403 ])
  unpassed (fails e) = fails e
  unpassed panics = panics
  unpassed undefined = undefined

  on_verdict-unpassed :
      (verdict : Outcome Bool) (t : State c)
      → verdict ≢ returns true
      → on_verdict c net service middleware upstream from header entire_body verdict t
        ≡ (unpassed verdict, t)
  unfolding refuse_body new
  on_verdict-unpassed (returns true) t h = absurd (h refl)
  on_verdict-unpassed (returns false) t h = refl
  on_verdict-unpassed (fails e) t h = refl
  on_verdict-unpassed panics t h = refl
  on_verdict-unpassed undefined t h = refl

  pub process-not_forwarded :
      (verdict : Outcome Bool)
      → filter_request_by_body c (f ∷ bfs) from entire_body ≡ verdict
      → verdict ≢ returns true
      → process c net service upstream from header body s
        ≡ (unpassed verdict, record_event c (collecting body) s)
  process-not_forwarded verdict e refused =
      rw (process-on_verdict, e) (on_verdict-unpassed verdict _ refused)

  pub process-refused :
      filter_request_by_body c (f ∷ bfs) from entire_body ≡ returns false
      → process c net service upstream from header body s
        ≡ (unpassed (returns false), record_event c (collecting body) s)
  process-refused refused = process-not_forwarded (returns false) refused (λ e. cc e)

  -- A body that passes is forwarded: the upstream gets header and body as the incoming chain left
  -- them, and the client gets header and body of the answer as the outgoing chain left them.
  pub process-with_body :
      (header' : RequestParts) (body' : Bytes) (parts parts' : ResponseParts) (answer : Incoming)
      (text text' : Bytes) {stream : c.TcpStream} {sender : c.Sender} {conn : c.Connection}
      → let t = opened c net upstream.address stream conn (record_event c (collecting body) s) in
        let request : Request c = record { parts = header'; body = full body' } in
        let u = record_event c (sending sender request) t in
        filter_request_by_body c (f ∷ bfs) from entire_body ≡ returns true
        → IsReachable c net (record_event c (collecting body) s) upstream.address stream sender conn
        → process_incoming c middleware from (header, some entire_body)
          ≡ (returns tt, (header', some body'))
        → net.send_request t.history sender request ≡ ok (parts, answer)
        → net.collect u.history answer ≡ ok text
        → process_outgoing c middleware from upstream.address (parts, some text)
          ≡ (returns tt, (parts', some text'))
        → process c net service upstream from header body s ≡ (
          returns (record { parts = parts'; body = full text' }),
          record_event c (collecting answer) u,
        )
  unfolding forward_with_body send_with_body answer_with_body
  process-with_body header' body' parts parts' answer text text' passed reachable ran sent read
        ran' =
      rw (
        process-on_verdict,
        passed,
        open_client_lem c net upstream _ reachable,
        ran,
        sent,
        read,
        ran',
      )

  -- If the incoming chain fails, the answer is 500: the connection to the upstream stands by then,
  -- but the request is not sent.
  process-incoming_fails :
      (e : Error) (ran : RequestParts × Option Bytes) {stream : c.TcpStream} {sender : c.Sender}
      {conn : c.Connection}
      → filter_request_by_body c (f ∷ bfs) from entire_body ≡ returns true
      → IsReachable c net (record_event c (collecting body) s) upstream.address stream sender conn
      → process_incoming c middleware from (header, some entire_body) ≡ (fails e, ran)
      → process c net service upstream from header body s ≡ (
        returns (status_response c 500),
        opened c net upstream.address stream conn (record_event c (collecting body) s),
      )
  unfolding forward_with_body
  process-incoming_fails e ran passed reachable failed =
      rw (process-on_verdict, passed, open_client_lem c net upstream _ reachable, failed)
