-- ===== src/LoadBalancer/Dues.antt =====
-- broxy-core/src/load_balancer.rs: what selections give, counted by any weight of addresses.
use broxy.Prelude.{
  ℕ, zero, suc, ◌+◌, ◌-◌, ◌/◌, ◌≤◌, ◌<◌, ◌≡◌, ◌==◌, if◌then◌else◌, refl, ap, ◌∙◌, List, [], ◌∷◌,
  Option, none, some, All, arith, length, get_elem?, set,
}
use native.Mathlib.Nat.{mod-lt}
use broxy.LoadBalancer.{SocketAddr, Upstream, LoadBalancer, usize_mod}
use broxy.LoadBalancer.Counting.{count, window, count-window_even, div-add_bounds}
use broxy.LoadBalancer.Safety.{IsValid, advance, advance-IsValid, next_index}
use broxy.LoadBalancer.Rounds.{
  advance_by, advance_by-zero, advance_by-suc, advance_by_add, window-advance,
}

abbrev pub weight_of : (SocketAddr → ℕ) → Option Upstream → ℕ
weight_of w none = 0
weight_of w (some u) = w u.address

-- The weight of the server that the next selection gives.
abbrev pub next_weight : (SocketAddr → ℕ) → LoadBalancer → ℕ
next_weight w lb = weight_of w (get_elem? lb.servers (next_index lb))

-- The weight of the servers that `k` selections give.
abbrev pub dues : (SocketAddr → ℕ) → ℕ → LoadBalancer → ℕ
dues w zero lb = 0
dues w (suc k) lb = next_weight w lb + dues w k (advance lb)

dues-suc :
    (w : SocketAddr → ℕ) (k : ℕ) (lb : LoadBalancer)
    → IsValid lb
    → dues w (suc k) lb ≡ dues w k lb + next_weight w (advance_by k lb)
dues-suc w zero lb v = omega (arith, ap (next_weight w) (advance_by-zero lb v))
dues-suc w (suc k) lb v =
    omega (
      arith,
      dues-suc w k (advance lb) (advance-IsValid v),
      ap (next_weight w) (advance_by-suc k lb),
    )

-- While the counter does not wrap, a weight that tells one server from the others counts how often
-- its turn comes.
dues-window :
    (w : SocketAddr → ℕ) (i k : ℕ) (lb : LoadBalancer)
    → IsValid lb
    → lb.current_index + k ≤ usize_mod
    → ((j : ℕ)
        → j < length lb.servers
        → weight_of w (get_elem? lb.servers j) ≡ (if j == i then 1 else 0))
    → dues w k lb ≡ count i (window (length lb.servers) lb.current_index k)
dues-window w i zero lb v h only = refl
dues-window w i (suc k) lb v h only =
    let later = dues-window w i k (advance lb) (advance-IsValid v) (omega arith) only in
    let now = only (next_index lb) (mod-lt _ v.has_server) in
    ground (arith, later, now, ap (count i) (window-advance lb (length lb.servers) k h))

-- The balancers have moved on from where they were by at most `n` selections, of servers whose
-- weight is `t`.
abbrev pub HasDues : (SocketAddr → ℕ) → List LoadBalancer → List LoadBalancer → ℕ → ℕ → Type 0
HasDues w [] [] n t = t ≡ 0
HasDues w [] (lb' ∷ bs') n t = ⊥
HasDues w (lb ∷ bs) [] n t = ⊥
HasDues w (lb ∷ bs) (lb' ∷ bs') n t =
    (k : ℕ) × (n' : ℕ) × (t' : ℕ) × (lb' ≡ advance_by k lb)
    × HasDues w bs bs' n' t'
    × (k + n' ≤ n)
    × (t ≡ dues w k lb + t')

pub HasDues-zero :
    (w : SocketAddr → ℕ) (bs : List LoadBalancer) → All IsValid bs → HasDues w bs bs 0 0
HasDues-zero w [] vs = refl
HasDues-zero w (lb ∷ bs) (v, vs) =
    (0, 0, 0, advance_by-zero lb v, HasDues-zero w bs vs, omega arith, refl)

pub HasDues-mono :
    (w : SocketAddr → ℕ) (bs bs' : List LoadBalancer) (n n' t : ℕ)
    → n ≤ n'
    → HasDues w bs bs' n t
    → HasDues w bs bs' n' t
HasDues-mono w [] [] n n' t h d = d
HasDues-mono w [] (lb' ∷ bs') n n' t h d = d
HasDues-mono w (lb ∷ bs) [] n n' t h d = d
HasDues-mono w (lb ∷ bs) (lb' ∷ bs') n n' t h (k, m, t', at, d, few, total) =
    (k, m, t', at, d, omega arith, total)

-- A selection adds the weight of its server.
pub HasDues-set :
    (w : SocketAddr → ℕ) (bs bs' : List LoadBalancer) (i : ℕ) (lb : LoadBalancer) (n t : ℕ)
    → All IsValid bs
    → get_elem? bs' i ≡ some lb
    → HasDues w bs bs' n t
    → HasDues w bs (set bs' i (advance lb)) (n + 1) (t + next_weight w lb)
HasDues-set w [] [] i lb n t vs e d = cc
HasDues-set w [] (b' ∷ bs') i lb n t vs e d = absurd d
HasDues-set w (b ∷ bs) [] i lb n t vs e d = absurd d
HasDues-set w (b ∷ bs) (b' ∷ bs') zero lb n t (v, vs) e (k, n', t', at, d, few, total) =
    let same : lb ≡ advance_by k b = cc (e, at) in
    (
      suc k,
      n',
      t',
      ap advance same ∙ advance_by_add 1 k b ∙ ap (λ n. advance_by n b) (omega arith),
      d,
      omega (arith, few),
      omega (arith, total, dues-suc w k b v, ap (next_weight w) same),
    )
HasDues-set w (b ∷ bs) (b' ∷ bs') (suc i) lb n t (v, vs) e (k, n', t', at, d, few, total) = (
  k,
  n' + 1,
  t' + next_weight w lb,
  at,
  HasDues-set w bs bs' i lb n' t' vs e d,
  omega (arith, few),
  omega (arith, total),
)

-- The server that a weight tells from the others gets at most its share of `k` selections, and one.
pub dues_even :
    (w : SocketAddr → ℕ) (i k m : ℕ) (lb : LoadBalancer)
    → IsValid lb
    → lb.current_index + m ≤ usize_mod
    → i < length lb.servers
    → ((j : ℕ)
        → j < length lb.servers
        → weight_of w (get_elem? lb.servers j) ≡ (if j == i then 1 else 0))
    → k ≤ m
    → dues w k lb ≤ m / length lb.servers + 1
dues_even w i k m lb v h hi only le =
    let same = dues-window w i k lb v (omega arith) only in
    let (_, most) = count-window_even (length lb.servers) i lb.current_index k hi in
    let (least, _) = div-add_bounds (length lb.servers) k (m - k) v.has_server in
    let all : k + (m - k) ≡ m = omega (arith, le) in
    omega (arith, same, most, least, ap (λ (x : ℕ). x / length lb.servers) all)
