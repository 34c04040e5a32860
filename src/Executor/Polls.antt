-- ===== src/Executor/Polls.antt =====
-- broxy-core/src/service.rs: what a poll of one request does to the shared state.
use mathlib.Core.Path.{subst}
use broxy.Prelude.{
  ℕ, ◌+◌, ◌-◌, ◌≤◌, ◌<◌, ◌≡◌, refl, sym, List, Option, none, some, arith, get_elem?,
}
use broxy.Outcome.{returns}
use broxy.LoadBalancer.{Upstream, LoadBalancer}
use broxy.LoadBalancer.Safety.{IsValid, get_upstream-returns}
use broxy.Crates.{Crates}
use broxy.Network.{Network, State}
use broxy.Service.Processing.Effects.{connects, sends}
use broxy.Bundle.Balancing.{bump}
use broxy.Bundle.Safety.{IsLive, bump-IsLive}
use broxy.Future.{
  Future, ready, selecting, await_connect, await_handshake, and_spawn, await_send, await_collect,
  poll, select,
}
use broxy.Future.Budget.{Within, Within-mono}

module _ {c : Crates} where
  -- The balancer that the next poll selects from.
  abbrev pub next_select : {A : Type 0} → Future c A → Option ℕ
  next_select (selecting i k) = some i
  next_select _ = none

  -- A request with at most `t` polls, `m` connections and `n` sent requests to come, with at most
  -- one selection, which is its first step and from a well-formed balancer.
  abbrev pub IsGood : {A : Type 0} → List LoadBalancer → ℕ → ℕ → ℕ → Future c A → Type 0
  IsGood bs t m n (selecting i k) =
      (0 < t) × IsLive bs i × ((u : Upstream) → Within (t - 1) m n (k (returns u)))
  IsGood bs t m n f = Within t m n f

  Within-IsGood :
      {A : Type 0} (bs : List LoadBalancer) (t m n : ℕ) (f : Future c A)
      → Within t m n f
      → IsGood bs t m n f × (next_select f ≡ none)
  Within-IsGood bs t m n (selecting i k) w = absurd w
  Within-IsGood bs t m n (ready o) w = (w, refl)
  Within-IsGood bs t m n (await_connect a k) w = (w, refl)
  Within-IsGood bs t m n (await_handshake io k) w = (w, refl)
  Within-IsGood bs t m n (and_spawn conn k) w = (w, refl)
  Within-IsGood bs t m n (await_send sender request k) w = (w, refl)
  Within-IsGood bs t m n (await_collect body k) w = (w, refl)

  -- Other requests may have made a selection meanwhile, and a budget may be given more.
  pub IsGood-mono :
      {A : Type 0} (f : Future c A) (bs : List LoadBalancer) (j : Option ℕ) (t m n t' : ℕ)
      → t ≤ t'
      → IsGood bs t m n f
      → IsGood (bump j bs) t' m n f
  IsGood-mono (selecting i k) bs j t m n t' h (p, l, w) = (
    omega arith,
    bump-IsLive j bs i l,
    λ u. Within-mono (k (returns u)) _ _ _ _ _ _ (omega arith) (omega arith) (omega arith) (w u),
  )
  IsGood-mono (ready o) bs j t m n t' h w = w
  IsGood-mono (await_connect a k) bs j t m n t' h w =
      Within-mono (await_connect a k) t m n t' m n h (omega arith) (omega arith) w
  IsGood-mono (await_handshake io k) bs j t m n t' h w =
      Within-mono (await_handshake io k) t m n t' m n h (omega arith) (omega arith) w
  IsGood-mono (and_spawn conn k) bs j t m n t' h w =
      Within-mono (and_spawn conn k) t m n t' m n h (omega arith) (omega arith) w
  IsGood-mono (await_send sender request k) bs j t m n t' h w =
      Within-mono (await_send sender request k) t m n t' m n h (omega arith) (omega arith) w
  IsGood-mono (await_collect body k) bs j t m n t' h w =
      Within-mono (await_collect body k) t m n t' m n h (omega arith) (omega arith) w

module _ (c : Crates) (net : Network c) where
  -- What a poll of a request with `t`, `m` and `n` to come leaves.
  pub record IsPolled {A : Type 0} (t m n : ℕ) (f : Future c A) (s : State c)
      (p : Future c A × State c) : Type 0 where
    pub more_connects : ℕ
    pub more_sends : ℕ
    pub is_good : IsGood p.1.balancers (t - 1) more_connects more_sends p.0
    pub no_select : next_select p.0 ≡ none
    pub selected : p.1.balancers ≡ bump (next_select f) s.balancers
    pub few_connects : connects c p.1.history + more_connects ≤ connects c s.history + m
    pub few_sends : sends c p.1.history + more_sends ≤ sends c s.history + n

  pub select-returns :
      (i : ℕ) (lb : LoadBalancer) (s : State c)
      → get_elem? s.balancers i ≡ some lb
      → IsValid lb
      → (u : Upstream) × (select c net i s
          ≡ (returns u, record s { balancers = bump (some i) s.balancers }))
  select-returns i lb s at v = let (u, _, now) = get_upstream-returns lb v in (u, rw (at, now) refl)

  after-IsPolled :
      {A : Type 0} (t m n m' n' : ℕ) (f g : Future c A) (s s' : State c)
      → Within (t - 1) m' n' g
      → s'.balancers ≡ bump (next_select f) s.balancers
      → connects c s'.history + m' ≤ connects c s.history + m
      → sends c s'.history + n' ≤ sends c s.history + n
      → IsPolled t m n f s (g, s')
  after-IsPolled t m n m' n' f g s s' w e h k =
      let (good, none_next) = Within-IsGood s'.balancers (t - 1) m' n' g w in
      record {
        more_connects = m';
        more_sends = n';
        is_good = good;
        no_select = none_next;
        selected = e;
        few_connects = h;
        few_sends = k;
      }

  pub poll-IsPolled :
      {A : Type 0} (t m n : ℕ) (f : Future c A) (s : State c)
      → IsGood s.balancers t m n f
      → IsPolled t m n f s (poll c net f s)
  unfolding poll
  poll-IsPolled t m n (ready o) s w =
      after-IsPolled t m n m n (ready o) (ready o) s s w refl (omega arith) (omega arith)
  poll-IsPolled t m n (selecting i k) s (p, (lb, at, v), w) =
      let (u, now) = select-returns i lb s at v in
      subst (λ r. IsPolled t m n (selecting i k) s (k r.0, r.1)) (sym now)
        (after-IsPolled t m n m n (selecting i k) (k (returns u)) s _ (w u) refl (omega arith)
          (omega arith))
  poll-IsPolled t m n (await_connect a k) s (p, q, w) =
      after-IsPolled t m n (m - 1) n (await_connect a k) _ s _ (w (net.connect s.history a)) refl
        (omega arith) (omega arith)
  poll-IsPolled t m n (await_handshake io k) s (p, w) =
      after-IsPolled t m n m n (await_handshake io k) _ s _ (w (net.handshake s.history io)) refl
        (omega arith) (omega arith)
  poll-IsPolled t m n (and_spawn conn k) s (p, w) =
      after-IsPolled t m n m n (and_spawn conn k) k s _ w refl (omega arith) (omega arith)
  poll-IsPolled t m n (await_send sender request k) s (p, q, w) =
      after-IsPolled t m n m (n - 1) (await_send sender request k) _ s _
        (w (net.send_request s.history sender request)) refl (omega arith) (omega arith)
  poll-IsPolled t m n (await_collect body k) s (p, w) =
      after-IsPolled t m n m n (await_collect body k) _ s _ (w (net.collect s.history body)) refl
        (omega arith) (omega arith)
