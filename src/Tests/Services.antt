-- ===== src/Tests/Services.antt =====
-- Runs of the three ways to process a request.
use mathlib.Core.List.{Memᴰ}
use broxy.Prelude.{◌*◌, ◌≤◌, ◌&&◌, leb, length, arith, ◌≡◌, refl, [], ◌∷◌, none, some}
use broxy.Crates.{Bytes}
use broxy.BodyFilter.{BodyFilter, internal_full_body}
use broxy.Bundle.{serve}
use broxy.Bundle.Sizes.{serve-small}
use broxy.Outcome.{answers, ok, returns, panics}
use broxy.Middleware.{Middleware, each_incoming, each_outgoing, process_incoming, process_outgoing}
use broxy.Middleware as Chain
use broxy.Middleware.Incoming
use broxy.Middleware.Outgoing
use broxy.BodyFilter
use broxy.Network.{State, status_response, full, incoming, sending, collecting, record_event}
use broxy.Service.{new}
use broxy.Service.Filtering.{filter_request_by_body}
use broxy.Service.Processing.{
  process, process_with_body, process_without_body_with_middleware,
  process_without_body_without_middleware, process_without_body_internal, open_client,
  process_without_body_with_middleware_internal, get_body_filters_raw, from_raw_parts,
  forward_with_body, send_with_body, answer_with_body, refuse_body,
}
use broxy.Service.Processing.Effects.{IsTame}
use broxy.Service.Processing.Safety.{new-process-IsTame}
use broxy.Service.Processing.Exchange.{IsReachable, opened, process-unfiltered, process-header_only}
use broxy.Service.Processing.WholeBody.{process-with_body}
use broxy.Service.Processing.Failures.{process-body_middleware_panics, process-outgoing_body_fails}
use broxy.Tests.Toy.{
  RequestParts, ResponseParts, toy, echo, server, start, peer, get_root, hello, pong, fine,
  h_filter, begins_h, refuse_all, tag_request, blank_body, tag_response, blank, tagging,
}

running : Unit {0}
unfolding process process_with_body process_without_body_with_middleware
    process_without_body_without_middleware process_without_body_internal open_client
    process_without_body_with_middleware_internal get_body_filters_raw from_raw_parts
    forward_with_body send_with_body answer_with_body refuse_body new Chain.new
    filter_request_by_body BodyFilter.filter each_incoming each_outgoing process_incoming
    process_outgoing Incoming.process Incoming.needs_body Outgoing.process Outgoing.needs_body
running = tt

abbrev read : State toy
read = record_event toy (collecting hello) start

abbrev is_reachable :
    (s : State toy)
    → IsReachable toy echo s (server 1).address (server 1).address (server 1).address tt
is_reachable s = record { connected = refl; shaken = refl }

abbrev tagged : RequestParts
tagged = record get_root { tags = 1 ∷ [] }

abbrev tagged_answer : ResponseParts
tagged_answer = record fine { tags = 2 ∷ [] }

-- A body filter that refuses everything does nothing in a service without middleware.
ignored_filter :
    (process toy echo
      (new toy [] (refuse_all ∷ []) none 0 none)
      (server 1)
      peer
      get_root
      hello
      start).0
    ≡ returns (record { parts = fine; body = incoming pong })
unfolding running
ignored_filter = refl

forbidden :
    process toy echo
      (new toy [] (refuse_all ∷ []) (some tagging) 0 none)
      (server 1)
      peer
      get_root
      hello
      start
    ≡ (returns (status_response toy 403), read)
unfolding running
forbidden = refl

new-process-IsTame_example : IsTame toy 1 1 start (
    process toy echo
      (new toy [] (h_filter ∷ []) (some tagging) 0 none)
      (server 1)
      peer
      get_root
      hello
      start)
new-process-IsTame_example =
    new-process-IsTame toy echo [] (h_filter ∷ []) (some tagging) 0 none (server 1) peer get_root
      hello start

abbrev reached : State toy → State toy
reached s = opened toy echo (server 1).address (server 1).address tt s

process-unfiltered_example :
    process toy echo (new toy [] (refuse_all ∷ []) none 0 none) (server 1) peer get_root hello start
    ≡ (
      returns (record { parts = fine; body = incoming pong }),
      record_event toy
          (sending (server 1).address (record { parts = get_root; body = incoming hello }))
          (reached start),
    )
process-unfiltered_example =
    process-unfiltered toy echo [] 0 none (server 1) peer get_root hello start (is_reachable start)
      (refuse_all ∷ []) fine pong refl

process-header_only_example :
    process toy echo (new toy [] [] (some tagging) 0 none) (server 1) peer get_root hello start ≡ (
      returns (record { parts = tagged_answer; body = incoming pong }),
      record_event toy
          (sending (server 1).address (record { parts = tagged; body = incoming hello }))
          (reached start),
    )
unfolding running
process-header_only_example =
    process-header_only toy echo [] 0 none (server 1) peer get_root hello start (is_reachable start)
      tagging tagged fine tagged_answer pong refl refl refl refl

abbrev rewriting : Middleware toy
rewriting = record tagging { process_incoming = tag_request ∷ blank_body ∷ [] }

process-with_body_example :
    process toy echo
      (new toy [] (h_filter ∷ []) (some rewriting) 0 none)
      (server 1)
      peer
      get_root
      hello
      start
    ≡ (
      returns (record { parts = tagged_answer; body = full pong.text }),
      record_event toy (collecting pong) (
          record_event toy
            (sending (server 1).address (record { parts = tagged; body = full [] }))
            (reached read)),
    )
unfolding running
process-with_body_example =
    process-with_body toy echo [] h_filter [] rewriting 0 none (server 1) peer get_root hello start
      hello.text refl tagged [] fine tagged_answer pong pong.text pong.text refl (is_reachable read)
      refl refl refl refl

process-body_middleware_panics_example :
    process toy echo
      (new toy [] [] (some (Chain.new toy (blank_body ∷ []) [])) 0 none)
      (server 1)
      peer
      get_root
      hello
      start
    ≡ (panics, start)
process-body_middleware_panics_example =
    process-body_middleware_panics toy echo [] 0 none (server 1) peer get_root hello start
      (blank_body ∷ []) [] (_, Memᴰ.head refl)

process-outgoing_body_fails_example :
    process toy echo
      (new toy [] []
        (some (
          Chain.new toy (tag_request ∷ []) (tag_response ∷ Outgoing.internal_with_body blank ∷ [])))
        0
        none)
      (server 1)
      peer
      get_root
      hello
      start
    ≡ (
      returns (status_response toy 500),
      record_event toy
          (sending (server 1).address (record { parts = tagged; body = incoming hello }))
          (reached start),
    )
unfolding running
process-outgoing_body_fails_example =
    process-outgoing_body_fails toy echo [] 0 none (server 1) peer get_root hello start
      (tag_request ∷ []) (tag_response ∷ []) [] blank tagged fine tagged_answer pong refl
      (is_reachable start) refl refl refl

-- A filter that also refuses what is longer than 64 KiB refuses nothing more.
abbrev h_small_filter : BodyFilter toy
h_small_filter =
    internal_full_body (λ from body. answers (ok (begins_h body && leb (length body) 65536)))

same_small :
    (text : Bytes)
    → length text ≤ 1024 * 64
    → filter_request_by_body toy (h_filter ∷ []) peer text
      ≡ filter_request_by_body toy (h_small_filter ∷ []) peer text
unfolding filter_request_by_body BodyFilter.filter
same_small [] h = refl
same_small (b ∷ text) h = ground arith

serve-small_example :
    serve toy echo (new toy [] (h_filter ∷ []) (some tagging) 0 none) peer get_root hello start
    ≡ serve toy echo
        (new toy [] (h_small_filter ∷ []) (some tagging) 0 none)
        peer
        get_root
        hello
        start
serve-small_example =
    serve-small toy echo [] h_filter h_small_filter [] [] 0 none peer get_root hello
      (λ h text n e k. ground arith) same_small (some tagging) start
