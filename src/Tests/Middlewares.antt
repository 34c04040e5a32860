-- ===== src/Tests/Middlewares.antt =====
-- Runs of the middleware chains.
use broxy.Prelude.{◌≡◌, refl, [], ◌∷◌, none}
use broxy.Outcome.{fails, panics, panicked, no_body_provided}
use broxy.Middleware.{each_incoming}
use broxy.Middleware.Incoming
use broxy.Tests.Toy.{toy, peer, get_root, tag_request, blank_body}

-- Without a body, the chain keeps what it did to the header before it fails.
no_body :
    each_incoming toy (tag_request ∷ blank_body ∷ []) peer (get_root, none)
    ≡ (fails no_body_provided, (record get_root { tags = 1 ∷ [] }, none))
unfolding each_incoming Incoming.process
no_body = refl

abbrev crashing : Incoming.MiddlewareIncomingFunction toy
crashing = Incoming.internal (λ from parts. (panicked, record parts { tags = 3 ∷ parts.tags }))

-- A panic ends the chain too.
crash :
    each_incoming toy (tag_request ∷ crashing ∷ blank_body ∷ []) peer (get_root, none)
    ≡ (panics, (record get_root { tags = 3 ∷ 1 ∷ [] }, none))
unfolding each_incoming Incoming.process
crash = refl
