-- ===== src/Service/Processing/Effects.antt =====
-- broxy-core/src/service.rs: what a computation may do to the shared state.
use broxy.Prelude.{ℕ, suc, ◌+◌, ◌≤◌, ◌≡◌, ◌≢◌, refl, ◌∙◌, List, [], ◌∷◌, arith}
use broxy.Outcome.{Outcome, returns, fails, panics, undefined, M, and_then}
use broxy.Crates.{Crates}
use broxy.Network.{Event, connecting, handshaking, spawning, sending, collecting, State, Response}
use broxy.Service.Processing.{or_internal_error}

module _ (c : Crates) where
  -- How many connections a history opens, and how many requests it sends.
  abbrev pub connects : List (Event c) → ℕ
  connects [] = 0
  connects (connecting _ ∷ es) = suc (connects es)
  connects (handshaking _ ∷ es) = connects es
  connects (spawning _ ∷ es) = connects es
  connects (sending _ _ ∷ es) = connects es
  connects (collecting _ ∷ es) = connects es

  abbrev pub sends : List (Event c) → ℕ
  sends [] = 0
  sends (connecting _ ∷ es) = sends es
  sends (handshaking _ ∷ es) = sends es
  sends (spawning _ ∷ es) = sends es
  sends (sending _ _ ∷ es) = suc (sends es)
  sends (collecting _ ∷ es) = sends es

  -- A result from `s` that is no undefined behaviour, with which no balancer changed, and at most
  -- `m` connections were opened and `n` requests sent.
  pub record IsTame {B : Type 0} (m n : ℕ) (s : State c) (p : Outcome B × State c) : Type 0 where
    pub defined : p.0 ≢ undefined
    pub same_balancers : p.1.balancers ≡ s.balancers
    pub few_connects : connects p.1.history ≤ connects s.history + m
    pub few_sends : sends p.1.history ≤ sends s.history + n

  IsTame-trans :
      {A B : Type 0} {m n j k : ℕ} {s : State c} {p : Outcome A × State c} {q : Outcome B × State c}
      → IsTame m n s p
      → IsTame j k p.1 q
      → IsTame (m + j) (n + k) s q
  IsTame-trans v w = record {
    defined = w.defined;
    same_balancers = w.same_balancers ∙ v.same_balancers;
    few_connects = omega arith;
    few_sends = omega arith;
  }

  IsTame-mono :
      {B : Type 0} {m n j k : ℕ} {s : State c} {p : Outcome B × State c}
      → m ≤ j
      → n ≤ k
      → IsTame m n s p
      → IsTame j k s p
  IsTame-mono h h' v = record {
    defined = v.defined;
    same_balancers = v.same_balancers;
    few_connects = omega arith;
    few_sends = omega arith;
  }

  -- A step and what follows it add up.
  pub IsTame-bind :
      {A B : Type 0} (m n j k : ℕ) (s : State c) (p : Outcome A × State c) (f : A → M (State c) B)
      → IsTame m n s p
      → ((a : A) (t : State c) → IsTame j k t (f a t))
      → IsTame (m + j) (n + k) s (and_then p f)
  IsTame-bind m n j k s (returns a, t) f v w = IsTame-trans v (w a t)
  IsTame-bind m n j k s (fails e, t) f v w = ground arith
  IsTame-bind m n j k s (panics, t) f v w = ground arith
  IsTame-bind m n j k s (undefined, t) f v w = absurd (v.defined refl)

  -- So do a step that leaves the state alone and what follows it.
  pub IsTame-recover :
      (m n : ℕ) (s : State c) (o : Outcome (Unit {0})) (rest : M (State c) (Response c))
      → o ≢ undefined
      → IsTame m n s (rest s)
      → IsTame m n s (or_internal_error c o rest s)
  IsTame-recover m n s (returns _) rest d v = v
  IsTame-recover m n s (fails e) rest d v = ground arith
  IsTame-recover m n s panics rest d v = ground arith
  IsTame-recover m n s undefined rest d v = absurd (d refl)
