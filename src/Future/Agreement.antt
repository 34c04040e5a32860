-- ===== src/Future/Agreement.antt =====
-- broxy-core/src/service.rs: a future that nothing interrupts does what the function does at once.
use broxy.Prelude.{◌≡◌, refl, ap, ◌∙◌}
use broxy.Outcome.{Outcome, returns, fails, panics, undefined, M, and_then, and_then_cong}
use broxy.Crates.{Crates}
use broxy.Network.{Network, State}
use broxy.Future.{
  Future, ready, selecting, await_connect, await_handshake, and_spawn, await_send, await_collect,
  ◌>>=◌, ready_then, block_on,
}

module _ {c : Crates} (net : Network c) where
  -- The future does what the function does.
  abbrev pub Agrees : {A : Type 0} → Future c A → M (State c) A → Type 0
  Agrees t m = (s : State c) → block_on c net t s ≡ m s

  pub ready_then-Agrees :
      {A B : Type 0} (o : Outcome A) (f : A → Future c B) (s : State c)
      → block_on c net (ready_then o f) s ≡ and_then (o, s) (λ a. block_on c net (f a))
  unfolding block_on
  ready_then-Agrees (returns a) f s = refl
  ready_then-Agrees (fails e) f s = refl
  ready_then-Agrees panics f s = refl
  ready_then-Agrees undefined f s = refl

  block_on-bind :
      {A B : Type 0} (t : Future c A) (f : A → Future c B) (s : State c)
      → block_on c net (t >>= f) s ≡ and_then (block_on c net t s) (λ a. block_on c net (f a))
  unfolding block_on
  block_on-bind (ready o) f s = ready_then-Agrees o f s
  block_on-bind (selecting i k) f s = block_on-bind (k _) f _
  block_on-bind (await_connect a k) f s = block_on-bind (k _) f _
  block_on-bind (await_handshake io k) f s = block_on-bind (k _) f _
  block_on-bind (and_spawn conn k) f s = block_on-bind k f _
  block_on-bind (await_send sender request k) f s = block_on-bind (k _) f _
  block_on-bind (await_collect body k) f s = block_on-bind (k _) f _

  -- What follows a future that agrees may be compared on its own.
  pub bind-Agrees :
      {A B : Type 0} (t : Future c A) (m : M (State c) A) (f : A → Future c B)
      (g : A → M (State c) B)
      → Agrees t m
      → ((a : A) → Agrees (f a) (g a))
      → Agrees (t >>= f) (λ s. and_then (m s) g)
  bind-Agrees t m f g h k s =
      block_on-bind t f s
      ∙ ap (λ p. and_then p (λ a. block_on c net (f a))) (h s)
      ∙ and_then_cong (m s) k
