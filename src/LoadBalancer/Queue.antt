-- ===== src/LoadBalancer/Queue.antt =====
-- broxy-core/src/load_balancer.rs: a balancer as a queue of servers whose first is moved to the end.
use native.Mathlib.Nat.{mod-lt, mod-eq_of_lt, mod-add-mod, mod_self}
use native.Mathlib.Decide.{dec_lt}
use mathlib.Core.List.{append_assoc, append-nil}
use broxy.Prelude.{
  ℕ, zero, suc, ◌+◌, ◌%◌, ◌<◌, ◌≡◌, refl, sym, ap, ◌∙◌, List, [], ◌∷◌, ◌++◌, some, arith, length,
  get_elem?, take, take-length,
}
use broxy.Outcome.{returns}
use broxy.LoadBalancer.{Upstream, LoadBalancer, usize_mod}
use broxy.LoadBalancer.Safety.{IsValid, advance, advance-IsValid, next_index, get_upstream-returns}
use broxy.LoadBalancer.Rounds.{picks, picks-suc, advance_by, advance_by-zero, advance_by-suc}

-- The first of the queue, `m` times, each moved to the end.
abbrev pub queue_picks : ℕ → List Upstream → List Upstream × List Upstream
queue_picks zero q = ([], q)
queue_picks (suc m) [] = ([], [])
queue_picks (suc m) (u ∷ q) = let (us, r) = queue_picks m (q ++ u ∷ []) in (u ∷ us, r)

module _ {A : Type 0} where
  abbrev drop : ℕ → List A → List A
  drop zero xs = xs
  drop (suc k) [] = []
  drop (suc k) (x ∷ xs) = drop k xs

  abbrev rotate : ℕ → List A → List A
  rotate k xs = drop k xs ++ take k xs

  drop-split :
      (k : ℕ) (xs : List A) {u : A} → get_elem? xs k ≡ some u → drop k xs ≡ u ∷ drop (suc k) xs
  drop-split k [] e = cc
  drop-split zero (x ∷ xs) e = cc
  drop-split (suc k) (x ∷ xs) e = drop-split k xs e

  take-suc :
      (k : ℕ) (xs : List A) {u : A}
      → get_elem? xs k ≡ some u
      → take (suc k) xs ≡ take k xs ++ u ∷ []
  take-suc k [] e = cc
  take-suc zero (x ∷ xs) e = cc
  take-suc (suc k) (x ∷ xs) e = ap (λ ys. x ∷ ys) (take-suc k xs e)

  drop-length : (xs : List A) → drop (length xs) xs ≡ []
  drop-length [] = refl
  drop-length (x ∷ xs) = drop-length xs

  -- The rest of a rotated list with its first at the end is the list rotated once more.
  rotate-next :
      (k : ℕ) (xs : List A) {u : A}
      → get_elem? xs k ≡ some u
      → (drop (suc k) xs ++ take k xs) ++ u ∷ [] ≡ rotate (suc k) xs
  rotate-next k xs {u} e =
      append_assoc (drop (suc k) xs) (take k xs) (u ∷ [])
      ∙ ap (λ ys. drop (suc k) xs ++ ys) (sym (take-suc k xs e))

  rotate-length : (xs : List A) → rotate (length xs) xs ≡ rotate 0 xs
  rotate-length xs = rw (drop-length xs, take-length xs) (sym (append-nil xs))

-- The queue of a balancer: its servers from the next one on.
abbrev pub queue : LoadBalancer → List Upstream
queue lb = rotate (next_index lb) lb.servers

rotate-mod :
    (c n : ℕ) (xs : List Upstream)
    → n ≡ length xs
    → 0 < n
    → rotate ((c + 1) % n) xs ≡ rotate (suc (c % n)) xs
rotate-mod c n xs e pos = elim (dec_lt (c % n + 1) n) [
  | yes p ↦
      let forth : (c + 1) % n ≡ suc (c % n) = omega (arith, mod-add-mod c n 1, mod-eq_of_lt p) in
      ap (λ k. rotate k xs) forth
  | no p ↦
      let last : c % n + 1 ≡ n = omega (arith, mod-lt c pos) in
      let back : (c + 1) % n ≡ 0 = sym (mod-add-mod c n 1) ∙ ap (λ k. k % n) last ∙ mod_self n in
      let last' : suc (c % n) ≡ length xs = omega (arith, last, e) in
      rw (back, last') (sym (rotate-length xs))
]

queue-advance :
    (lb : LoadBalancer)
    → IsValid lb
    → lb.current_index + 1 < usize_mod
    → queue (advance lb) ≡ rotate (suc (next_index lb)) lb.servers
queue-advance lb v h =
    ap (λ c. rotate (c % length lb.servers) lb.servers) (mod-eq_of_lt h)
    ∙ rotate-mod lb.current_index (length lb.servers) lb.servers refl v.has_server

-- The selected server is the first of the queue, and moves to its end.
queue-select :
    (lb : LoadBalancer) {u : Upstream}
    → IsValid lb
    → lb.current_index + 1 < usize_mod
    → get_elem? lb.servers (next_index lb) ≡ some u
    → (q : List Upstream) × (queue lb ≡ u ∷ q) × (queue (advance lb) ≡ q ++ u ∷ [])
queue-select lb {u} v h e = (
  drop (suc (next_index lb)) lb.servers ++ take (next_index lb) lb.servers,
  ap (λ ys. ys ++ take (next_index lb) lb.servers) (drop-split (next_index lb) lb.servers e),
  queue-advance lb v h ∙ sym (rotate-next (next_index lb) lb.servers e),
)

-- While the counter does not wrap, a well-formed balancer implements a queue: a sequence of selections takes the
-- servers that taking the first of the queue and moving it to the end gives, and the balancer
-- then stands for the queue that is left.
pub picks-queue :
    (m : ℕ) (lb : LoadBalancer)
    → IsValid lb
    → lb.current_index + m < usize_mod
    → (picks m lb ≡ (returns (queue_picks m (queue lb)).0, advance_by m lb))
      × (queue (advance_by m lb) ≡ (queue_picks m (queue lb)).1)
unfolding picks
picks-queue zero lb v h =
    (ap (λ b. (returns [], b)) (advance_by-zero lb v), ap queue (sym (advance_by-zero lb v)))
picks-queue (suc m) lb v h =
    let (u, found, now) = get_upstream-returns lb v in
    let (q, split, moved) = queue-select lb v (omega arith) found in
    let word : (lb.current_index + 1) % usize_mod ≡ lb.current_index + 1 =
      mod-eq_of_lt (omega arith) in
    let (later, left) = picks-queue m (advance lb) (advance-IsValid v) (omega arith) in
    (
      picks-suc m lb now later ∙ rw (split, moved) refl,
      ap queue (sym (advance_by-suc m lb)) ∙ left ∙ rw (split, moved) refl,
    )
