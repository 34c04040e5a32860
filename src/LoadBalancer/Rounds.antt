-- ===== src/LoadBalancer/Rounds.antt =====
-- broxy-core/src/load_balancer.rs: sequences of selections, within and across the counter's wrap.
use native.Mathlib.Nat.{mod-lt, mod-eq_of_lt, mod-add-mod, add-zero, div-add-mod', mul-mod_left}
use native.Mathlib.Decide.{dec_lt}
use broxy.Prelude.{
  ℕ, zero, suc, ◌+◌, ◌*◌, ◌/◌, ◌%◌, ◌≤◌, ◌<◌, ◌≡◌, ◌≢◌, refl, sym, ap, ◌∙◌, List, [], ◌∷◌, map,
  Option, some, arith, length, get_elem?,
}
use broxy.Outcome.{returns, M, ◌>>=◌, pure}
use broxy.LoadBalancer.{Upstream, LoadBalancer, usize_mod, get_upstream}
use broxy.LoadBalancer.Counting.{count, window, count-window_even}
use broxy.LoadBalancer.Safety.{IsValid, advance, advance-IsValid, next_index, get_upstream-returns}

-- `m` selections, one after the other.
unfoldable pub picks : ℕ → M LoadBalancer (List Upstream)
picks zero = pure []
picks (suc m) = do u ← get_upstream; us ← picks m; pure (u ∷ us)

-- The balancer after `m` selections.
abbrev pub advance_by : ℕ → LoadBalancer → LoadBalancer
advance_by m lb = record lb { current_index = (lb.current_index + m) % usize_mod }

pub advance_by-zero : (lb : LoadBalancer) → IsValid lb → lb ≡ advance_by 0 lb
advance_by-zero lb v =
    ap (λ c. record lb { current_index = c })
      (sym (ap (λ c. c % usize_mod) (add-zero lb.current_index) ∙ mod-eq_of_lt v.is_word))

pub advance_by-suc : (m : ℕ) (lb : LoadBalancer) → advance_by m (advance lb) ≡ advance_by (suc m) lb
advance_by-suc m lb =
    ap (λ c. record lb { current_index = c })
      (mod-add-mod (lb.current_index + 1) usize_mod m ∙ ap (λ c. c % usize_mod) (omega arith))

pub advance_by_add :
    (j k : ℕ) (lb : LoadBalancer) → advance_by j (advance_by k lb) ≡ advance_by (k + j) lb
advance_by_add j k lb =
    ap (λ c. record lb { current_index = c })
      (mod-add-mod (lb.current_index + k) usize_mod j ∙ ap (λ c. c % usize_mod) (omega arith))

pub picks-suc :
    (m : ℕ) (lb : LoadBalancer) {u : Upstream} {us : List Upstream}
    → get_upstream lb ≡ (returns u, advance lb)
    → picks m (advance lb) ≡ (returns us, advance_by m (advance lb))
    → picks (suc m) lb ≡ (returns (u ∷ us), advance_by (suc m) lb)
unfolding picks
picks-suc m lb now later = rw (now, later, advance_by-suc m lb)

-- The server at the counter plus `k`, as the code computes it from a counter that wraps.
abbrev nth_server : LoadBalancer → ℕ → Option Upstream
nth_server lb k = get_elem? lb.servers ((lb.current_index + k) % usize_mod % length lb.servers)

nth_server-zero :
    (lb : LoadBalancer) → IsValid lb → nth_server lb 0 ≡ get_elem? lb.servers (next_index lb)
nth_server-zero lb v =
    ap (λ c. get_elem? lb.servers (c % length lb.servers))
      (ap (λ c. c % usize_mod) (add-zero lb.current_index) ∙ mod-eq_of_lt v.is_word)

nth_server-suc : (lb : LoadBalancer) (k : ℕ) → nth_server (advance lb) k ≡ nth_server lb (suc k)
nth_server-suc lb k =
    ap (λ c. get_elem? lb.servers (c % length lb.servers))
      (mod-add-mod (lb.current_index + 1) usize_mod k ∙ ap (λ c. c % usize_mod) (omega arith))

picks_lem :
    (m : ℕ) (lb : LoadBalancer)
    → IsValid lb
    → (us : List Upstream) × (picks m lb ≡ (returns us, advance_by m lb))
      × ((k : ℕ) → k < m → get_elem? us k ≡ nth_server lb k)
unfolding picks
picks_lem zero lb v = ([], ap (λ c. (returns [], c)) (advance_by-zero lb v), λ k h. elim h [ ])
picks_lem (suc m) lb v =
    let (u, found, now) = get_upstream-returns lb v in
    let (us, later, at) = picks_lem m (advance lb) (advance-IsValid v) in
    (u ∷ us, picks-suc m lb now later, go u us found at)
  where
    go :
        (u : Upstream) (us : List Upstream)
        → get_elem? lb.servers (next_index lb) ≡ some u
        → ((k : ℕ) → k < m → get_elem? us k ≡ nth_server (advance lb) k)
        → (k : ℕ) → k < suc m
        → get_elem? (u ∷ us) k ≡ nth_server lb k
    go u us found at zero h = sym (nth_server-zero lb v ∙ found)
    go u us found at (suc k) h = at k (omega arith) ∙ nth_server-suc lb k

-- The `k`-th of `m` selections from a well-formed balancer is the server at the counter plus `k`, reduced first to a machine
-- word and then by the number of servers; the counter moves on by `m`.
pub picks-round_robin :
    (lb : LoadBalancer) (m k : ℕ)
    → IsValid lb
    → k < m
    → (us : List Upstream) × (picks m lb ≡ (returns us, advance_by m lb))
      × (get_elem? us k
          ≡ get_elem? lb.servers ((lb.current_index + k) % usize_mod % length lb.servers))
picks-round_robin lb m k v h = let (us, e, at) = picks_lem m lb v in (us, e, at k h)

pub window-advance :
    (lb : LoadBalancer) (n m : ℕ)
    → lb.current_index + suc m ≤ usize_mod
    → window n ((lb.current_index + 1) % usize_mod) m ≡ window n (lb.current_index + 1) m
window-advance lb n zero h = refl
window-advance lb n (suc m) h = ap (λ c. window n c (suc m)) (mod-eq_of_lt (omega arith))

picks-window :
    (m : ℕ) (lb : LoadBalancer)
    → IsValid lb
    → lb.current_index + m ≤ usize_mod
    → (us : List Upstream) × (picks m lb ≡ (returns us, advance_by m lb))
      × (map some us ≡ map (get_elem? lb.servers) (window (length lb.servers) lb.current_index m))
unfolding picks
picks-window zero lb v h = ([], ap (λ c. (returns [], c)) (advance_by-zero lb v), refl)
picks-window (suc m) lb v h =
    let (u, found, now) = get_upstream-returns lb v in
    let (us, later, same) = picks-window m (advance lb) (advance-IsValid v) (omega arith) in
    (u ∷ us, picks-suc m lb now later, rw (same, window-advance lb (length lb.servers) m h, found))

-- While the counter does not wrap, `m` selections fall on the servers evenly: each index is chosen
-- `m` divided by the number of servers times, or once more.
picks-even :
    (lb : LoadBalancer) (m i : ℕ)
    → IsValid lb
    → lb.current_index + m ≤ usize_mod
    → i < length lb.servers
    → (us : List Upstream) × (is : List ℕ) × (picks m lb ≡ (returns us, advance_by m lb))
      × (map some us ≡ map (get_elem? lb.servers) is)
      × (m / length lb.servers ≤ count i is)
      × (count i is ≤ m / length lb.servers + 1)
picks-even lb m i v h hi =
    let (us, e, same) = picks-window m lb v h in
    let (least, most) = count-window_even (length lb.servers) i lb.current_index m hi in
    (us, window (length lb.servers) lb.current_index m, e, same, least, most)

mod-suc_lt : (n x : ℕ) → 0 < n → (x + 1) % n ≢ 0 → x % n + 1 < n
mod-suc_lt n x pos h = elim (dec_lt (x % n + 1) n) [
  | yes p ↦ p
  | no p ↦ absurd (h (ap (λ y. y % n) (next p) ∙ mul-mod_left (x / n + 1) n))
]
  where
    next : ¬ (x % n + 1 < n) → x + 1 ≡ (x / n + 1) * n
    next p = omega (arith, div-add-mod' x n, mod-lt x pos)

-- Where the number of servers of a well-formed balancer does not divide the number of machine
-- words, the order breaks when
-- the counter wraps: the selection at the last word is not of the last server, and yet the next
-- one starts again at the first server.
pub picks-wrap :
    (lb : LoadBalancer)
    → IsValid lb
    → usize_mod % length lb.servers ≢ 0
    → lb.current_index + 1 ≡ usize_mod
    → (u : Upstream) × (w : Upstream) × (picks 2 lb
        ≡ (returns (u ∷ w ∷ []), record lb { current_index = 1 }))
      × (get_elem? lb.servers (next_index lb) ≡ some u)
      × (next_index lb + 1 < length lb.servers)
      × (get_elem? lb.servers 0 ≡ some w)
unfolding picks
picks-wrap lb v odd last =
    let (u, at_u, now) = get_upstream-returns lb v in
    let (w, at_w, later) = get_upstream-returns (advance lb) (advance-IsValid v) in
    let none_left = advance_by-zero _ (advance-IsValid (advance-IsValid v)) in
    let both = picks-suc 1 lb now (picks-suc 0 _ later (ap (λ c. (returns [], c)) none_left)) in
    let restarts : next_index (advance lb) ≡ 0 = omega (arith, last) in
    (
      u,
      w,
      both ∙ ap (λ c. (returns (u ∷ w ∷ []), record lb { current_index = c })) (omega arith),
      at_u,
      mod-suc_lt _ _ v.has_server (rw last odd),
      ap (get_elem? lb.servers) (sym restarts) ∙ at_w,
    )
