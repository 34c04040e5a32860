-- ===== src/Bundle/Sizes.antt =====
-- broxy-core/src/service.rs: the size limit protects the body filters.
use broxy.Prelude.{
  ℕ, ◌*◌, ◌≤◌, ◌≡◌, refl, sym, ap, ◌∙◌, ltb, List, ◌∷◌, Option, none, some, arith, length,
  Bool-cases, inl, inr,
}
use broxy.Outcome.{Result, ok, err, of_result, and_then, and_then_cong}
use broxy.LoadBalancer.{SocketAddr, Upstream}
use broxy.Crates.{Crates, Bytes}
use broxy.Filter.{Filter}
use broxy.BodyFilter.{BodyFilter}
use broxy.Middleware.{Middleware}
use broxy.Network.{Network, State, Response, Event, collecting, record_event}
use broxy.Service.{Service, new, get_upstream}
use broxy.Service.Filtering.{filter_request_by_body}
use broxy.Service.Processing.{process, process_without_body_without_middleware, refuse_body}
use broxy.Service.Processing.Safety.{on_verdict, process_with_body_lem}
use broxy.Bundle.{max_size, serve}

small-some : (o : Option ℕ) → max_size o ≤ 1024 * 64 → (n : ℕ) × (o ≡ some n) × (n ≤ 1024 * 64)
small-some none h = absurd (omega arith)
small-some (some n) h = (n, refl, h)

module _ (c : Crates) (net : Network c) (fs : List (Filter c)) (f f' : BodyFilter c)
    (bfs bfs' : List (BodyFilter c)) (lb : ℕ) (nf : Option (SocketAddr → Bytes → Response c))
    (from : SocketAddr) (header : c.RequestParts) (body : c.Incoming)
    -- An upper bound in a size hint holds.
    (hinted : (h : List (Event c)) (text : Bytes) (n : ℕ)
      → net.collect h body ≡ ok text
      → c.size_hint_upper body ≡ some n
      → length text ≤ n)
    (agree : (text : Bytes)
      → length text ≤ 1024 * 64
      → filter_request_by_body c (f ∷ bfs) from text
        ≡ filter_request_by_body c (f' ∷ bfs') from text) where
  abbrev one : Option (Middleware c) → Service c
  one mw = new c fs (f ∷ bfs) mw lb nf

  abbrev other : Option (Middleware c) → Service c
  other mw = new c fs (f' ∷ bfs') mw lb nf

  same_verdict :
      (middleware : Middleware c) (upstream : Upstream) (text : Bytes)
      → length text ≤ 1024 * 64
      → on_verdict c net
          (one (some middleware))
          middleware
          upstream
          from
          header
          text
          (filter_request_by_body c (f ∷ bfs) from text)
        ≡ on_verdict c net
            (other (some middleware))
            middleware
            upstream
            from
            header
            text
            (filter_request_by_body c (f' ∷ bfs') from text)
  unfolding new refuse_body
  same_verdict middleware upstream text small = rw (agree text small) refl

  same_process :
      (mw : Option (Middleware c)) (upstream : Upstream) (s : State c)
      → max_size (c.size_hint_upper body) ≤ 1024 * 64
      → process c net (one mw) upstream from header body s
        ≡ process c net (other mw) upstream from header body s
  unfolding process new process_without_body_without_middleware
  same_process none upstream s small = refl
  same_process (some middleware) upstream s small =
      process_with_body_lem c net (one (some middleware)) middleware f bfs upstream from header body
        s refl refl
      ∙ go (net.collect s.history body) refl
      ∙ sym (
          process_with_body_lem c net (other (some middleware)) middleware f' bfs' upstream from
            header body s refl refl)
    where
      go :
          (r : Result Bytes)
          → net.collect s.history body ≡ r
          → and_then
              (of_result r, record_event c (collecting body) s)
              (λ text.
                on_verdict c net
                  (one (some middleware))
                  middleware
                  upstream
                  from
                  header
                  text
                  (filter_request_by_body c (f ∷ bfs) from text))
            ≡ and_then
                (of_result r, record_event c (collecting body) s)
                (λ text.
                  on_verdict c net
                    (other (some middleware))
                    middleware
                    upstream
                    from
                    header
                    text
                    (filter_request_by_body c (f' ∷ bfs') from text))
      go (ok text) e =
          let (n, known, bound) = small-some (c.size_hint_upper body) small in
          ap (λ m. m (record_event c (collecting body) s))
            (same_verdict middleware upstream text (omega (arith, hinted s.history text n e known)))
      go (err e') e = refl

  -- If a body is never longer than its size hint says, body filters see no text longer than 64 KiB: two services whose body filters differ at most on
  -- longer texts serve every request in the same way.
  pub serve-small :
      (mw : Option (Middleware c)) (s : State c)
      → serve c net (one mw) from header body s ≡ serve c net (other mw) from header body s
  unfolding serve get_upstream new
  serve-small mw s = elim (Bool-cases (ltb (1024 * 64) (max_size (c.size_hint_upper body)))) [
    | inl large ↦ rw large refl
    | inr fits ↦
        let small : max_size (c.size_hint_upper body) ≤ 1024 * 64 = ground arith in
        rw fits (and_then_cong (get_upstream c (one mw) s) (λ u t. same_process mw u t small))
  ]
