-- ===== src/Service/Filtering/Bodies.antt =====
-- broxy-core/src/service.rs: filtering by body.
use broxy.Prelude.{Bool, true, ◌≡◌, ◌≢◌, ◌↔◌, List, [], ◌∷◌, ◌++◌, All, arith}
use broxy.Outcome.{Outcome, returns}
use broxy.LoadBalancer.{SocketAddr}
use broxy.Crates.{Crates, Bytes}
use broxy.BodyFilter.{BodyFilter, filter}
use broxy.Service.Filtering.{go_on, filter_request_by_body}

module _ (c : Crates) (from : SocketAddr) (body : Bytes) where
  abbrev pub PassesBody : BodyFilter c → Type 0
  PassesBody f = filter c f from body ≡ returns true

  -- A body passes exactly if every filter passes it.
  filter_request_by_body-passes_iff :
      (fs : List (BodyFilter c))
      → (filter_request_by_body c fs from body ≡ returns true) ↔ All PassesBody fs
  unfolding filter_request_by_body
  filter_request_by_body-passes_iff [] = ground arith
  filter_request_by_body-passes_iff (f ∷ fs) = ground (arith, filter_request_by_body-passes_iff fs)

  -- Otherwise the first filter that does not pass it decides: its refusal, error or panic.
  filter_request_by_body-first :
      (pre post : List (BodyFilter c)) (f : BodyFilter c) (o : Outcome Bool)
      → All PassesBody pre
      → filter c f from body ≡ o
      → o ≢ returns true
      → filter_request_by_body c (pre ++ f ∷ post) from body ≡ o
  unfolding filter_request_by_body
  filter_request_by_body-first [] post f o h e n = ground arith
  filter_request_by_body-first (g ∷ pre) post f o (p, h) e n =
      rw p (filter_request_by_body-first pre post f o h e n)

  go_on-defined :
      (o rest : Outcome Bool)
      → o ≢ Outcome.undefined
      → rest ≢ Outcome.undefined
      → go_on o rest ≢ Outcome.undefined
  go_on-defined o rest h k = ground arith

  filter-defined : (f : BodyFilter c) → filter c f from body ≢ Outcome.undefined
  unfolding filter
  filter-defined f = ground arith

  pub filter_request_by_body-defined :
      (fs : List (BodyFilter c)) → filter_request_by_body c fs from body ≢ Outcome.undefined
  unfolding filter_request_by_body
  filter_request_by_body-defined [] = ground arith
  filter_request_by_body-defined (f ∷ fs) =
      go_on-defined _ _ (filter-defined f) (filter_request_by_body-defined fs)
