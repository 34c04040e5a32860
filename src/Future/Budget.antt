-- ===== src/Future/Budget.antt =====
-- broxy-core/src/service.rs: how much a future may still do, whatever answers it gets.
use broxy.Prelude.{ℕ, ◌+◌, ◌-◌, ◌≤◌, ◌<◌, ◌≢◌, refl, arith}
use broxy.Outcome.{Result, ok, err, of_result, Outcome, returns, fails, panics, undefined}
use broxy.Crates.{Crates, Bytes}
use broxy.Network.{Response}
use broxy.Future.{
  Future, ready, selecting, await_connect, await_handshake, and_spawn, await_send, await_collect,
  ◌>>=◌, ready_then,
}
use broxy.Future.Calls.{or_internal_error}

pub of_result-defined : {A : Type 0} (r : Result A) → of_result r ≢ undefined
of_result-defined (ok a) = cc
of_result-defined (err e) = cc

module _ {c : Crates} where
  -- The future is ready after at most `t` more polls, without undefined behaviour and without a
  -- selection; on the way it connects at most `m` times and sends at most `n` requests.
  abbrev pub Within : {A : Type 0} → ℕ → ℕ → ℕ → Future c A → Type 0
  Within t m n (ready o) = o ≢ undefined
  Within t m n (selecting i k) = ⊥
  Within t m n (await_connect a k) =
      (0 < t) × (0 < m) × ((r : Result c.TcpStream) → Within (t - 1) (m - 1) n (k r))
  Within t m n (await_handshake io k) =
      (0 < t) × ((r : Result (c.Sender × c.Connection)) → Within (t - 1) m n (k r))
  Within t m n (and_spawn conn k) = (0 < t) × Within (t - 1) m n k
  Within t m n (await_send sender request k) =
      (0 < t)
      × (0 < n)
      × ((r : Result (c.ResponseParts × c.Incoming)) → Within (t - 1) m (n - 1) (k r))
  Within t m n (await_collect body k) = (0 < t) × ((r : Result Bytes) → Within (t - 1) m n (k r))

  pub Within-mono :
      {A : Type 0} (x : Future c A) (t m n t' m' n' : ℕ)
      → t ≤ t'
      → m ≤ m'
      → n ≤ n'
      → Within t m n x
      → Within t' m' n' x
  Within-mono (ready o) t m n t' m' n' h1 h2 h3 w = w
  Within-mono (selecting i k) t m n t' m' n' h1 h2 h3 w = w
  Within-mono (await_connect a k) t m n t' m' n' h1 h2 h3 (p, q, w) = (
    omega arith,
    omega arith,
    λ r. Within-mono (k r) _ _ _ _ _ _ (omega arith) (omega arith) h3 (w r),
  )
  Within-mono (await_handshake io k) t m n t' m' n' h1 h2 h3 (p, w) =
      (omega arith, λ r. Within-mono (k r) _ _ _ _ _ _ (omega arith) h2 h3 (w r))
  Within-mono (and_spawn conn k) t m n t' m' n' h1 h2 h3 (p, w) =
      (omega arith, Within-mono k _ _ _ _ _ _ (omega arith) h2 h3 w)
  Within-mono (await_send sender request k) t m n t' m' n' h1 h2 h3 (p, q, w) = (
    omega arith,
    omega arith,
    λ r. Within-mono (k r) _ _ _ _ _ _ (omega arith) h2 (omega arith) (w r),
  )
  Within-mono (await_collect body k) t m n t' m' n' h1 h2 h3 (p, w) =
      (omega arith, λ r. Within-mono (k r) _ _ _ _ _ _ (omega arith) h2 h3 (w r))

  pub ready_then-Within :
      {A B : Type 0} (t m n : ℕ) (o : Outcome A) (f : A → Future c B)
      → o ≢ undefined
      → ((a : A) → Within t m n (f a))
      → Within t m n (ready_then o f)
  ready_then-Within t m n (returns a) f d w = w a
  ready_then-Within t m n (fails e) f d w = cc
  ready_then-Within t m n panics f d w = cc
  ready_then-Within t m n undefined f d w = absurd (d refl)

  -- The budgets of a future and of what follows it add up.
  pub bind-Within :
      {A B : Type 0} (x : Future c A) (f : A → Future c B) (t m n t' m' n' : ℕ)
      → Within t m n x
      → ((a : A) → Within t' m' n' (f a))
      → Within (t + t') (m + m') (n + n') (x >>= f)
  bind-Within (ready o) f t m n t' m' n' d w =
      ready_then-Within _ _ _ o f d
        (λ a. Within-mono (f a) t' m' n' _ _ _ (omega arith) (omega arith) (omega arith) (w a))
  bind-Within (selecting i k) f t m n t' m' n' v w = v
  bind-Within (await_connect a k) f t m n t' m' n' (p, q, v) w = (
    omega arith,
    omega arith,
    λ r.
        Within-mono (k r >>= f) (t - 1 + t') (m - 1 + m') (n + n') _ _ _ (omega arith) (omega arith)
          (omega arith) (bind-Within (k r) f _ _ _ t' m' n' (v r) w),
  )
  bind-Within (await_handshake io k) f t m n t' m' n' (p, v) w = (
    omega arith,
    λ r.
        Within-mono (k r >>= f) (t - 1 + t') (m + m') (n + n') _ _ _ (omega arith) (omega arith)
          (omega arith) (bind-Within (k r) f _ _ _ t' m' n' (v r) w),
  )
  bind-Within (and_spawn conn k) f t m n t' m' n' (p, v) w = (
    omega arith,
    Within-mono (k >>= f) (t - 1 + t') (m + m') (n + n') _ _ _ (omega arith) (omega arith)
        (omega arith) (bind-Within k f _ _ _ t' m' n' v w),
  )
  bind-Within (await_send sender request k) f t m n t' m' n' (p, q, v) w = (
    omega arith,
    omega arith,
    λ r.
        Within-mono (k r >>= f) (t - 1 + t') (m + m') (n - 1 + n') _ _ _ (omega arith) (omega arith)
          (omega arith) (bind-Within (k r) f _ _ _ t' m' n' (v r) w),
  )
  bind-Within (await_collect body k) f t m n t' m' n' (p, v) w = (
    omega arith,
    λ r.
        Within-mono (k r >>= f) (t - 1 + t') (m + m') (n + n') _ _ _ (omega arith) (omega arith)
          (omega arith) (bind-Within (k r) f _ _ _ t' m' n' (v r) w),
  )

  pub or_internal_error-Within :
      (t m n : ℕ) (o : Outcome (Unit {0})) (x : Future c (Response c))
      → o ≢ undefined
      → Within t m n x
      → Within t m n (or_internal_error o x)
  or_internal_error-Within t m n (returns _) x d w = w
  or_internal_error-Within t m n (fails e) x d w = cc
  or_internal_error-Within t m n panics x d w = cc
  or_internal_error-Within t m n undefined x d w = absurd (d refl)
