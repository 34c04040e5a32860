-- ===== src/LoadBalancer/Counting.antt =====
-- How often each residue occurs among consecutive numbers: the arithmetic behind round-robin.
use native.Mathlib.Nat.{
  div-add-mod', div-eq_of_lt-le, mod-lt, div-lt_iff_lt-mul, div-mul-le_self, lt-div-mul-add,
}
use native.Mathlib.Nat.{add-zero, add_assoc}
use native.Mathlib.Decide.{dec_lt}
use broxy.Prelude.{
  ℕ, zero, suc, ◌+◌, ◌-◌, ◌*◌, ◌/◌, ◌%◌, ◌≤◌, ◌<◌, ◌==◌, if◌then◌else◌, ◌≡◌, sym, ap, List, [], ◌∷◌,
  arith,
}

abbrev pub count : ℕ → List ℕ → ℕ
count a [] = 0
count a (x ∷ xs) = if x == a then suc (count a xs) else count a xs

-- The residues of `m` consecutive numbers from `start` on.
abbrev pub window : ℕ → ℕ → ℕ → List ℕ
window n start zero = []
window n start (suc m) = start % n ∷ window n (start + 1) m

-- How many numbers below `x` leave the remainder `i`.
below : ℕ → ℕ → ℕ → ℕ
below n i x = (x + (n - 1 - i)) / n

-- The count from the quotient and the remainder of its argument.
below_lo : (n i q r x : ℕ) → x ≡ q * n + r → r < n → i < n → r ≤ i → below n i x ≡ q
unfolding below
below_lo n i q r x e hr hi h = div-eq_of_lt-le n (omega arith) (omega arith)

below_hi : (n i q r x : ℕ) → x ≡ q * n + r → r < n → i < n → i < r → below n i x ≡ q + 1
unfolding below
below_hi n i q r x e hr hi h = div-eq_of_lt-le n (omega arith) (omega arith)

below_step-euclid :
    (n i q r x : ℕ)
    → x ≡ q * n + r
    → r < n
    → i < n
    → below n i (x + 1) ≡ (if r == i then suc (below n i x) else below n i x)
below_step-euclid n i q r x e hr hi = elim (dec_lt (r + 1) n) [
  | yes p ↦ ground (
    arith,
    below_lo n i q r x,
    below_hi n i q r x,
    below_lo n i q (r + 1) (x + 1),
    below_hi n i q (r + 1) (x + 1),
  )
  | no p ↦ ground (
    arith,
    below_lo n i q r x,
    below_hi n i q r x,
    below_lo n i (q + 1) 0 (x + 1) (omega arith) (omega arith) hi (omega arith),
  )
]

below_step :
    (n i x : ℕ)
    → i < n
    → below n i (x + 1) ≡ (if (x % n) == i then suc (below n i x) else below n i x)
below_step n i x h =
    below_step-euclid n i (x / n) (x % n) x (sym (div-add-mod' x n)) (mod-lt x (omega arith)) h

count-window :
    (n i start m : ℕ) → i < n → count i (window n start m) + below n i start ≡ below n i (start + m)
count-window n i start zero h = omega (arith, ap (below n i) (add-zero start))
count-window n i start (suc m) h = ground (
  arith,
  count-window n i (start + 1) m h,
  below_step n i start h,
  ap (below n i) (add_assoc start 1 m),
)

pub div-add_bounds :
    (n a m : ℕ) → 0 < n → (a / n + m / n ≤ (a + m) / n) × ((a + m) / n ≤ a / n + m / n + 1)
div-add_bounds n a m pos = (omega (arith, not_below), omega (arith, below_next))
  where
    not_below : ¬ ((a + m) / n < a / n + m / n)
    not_below h =
        let bound = (div-lt_iff_lt-mul pos).0 h in
        omega (arith, bound, div-mul-le_self a n, div-mul-le_self m n)

    below_next : (a + m) / n < a / n + m / n + 2
    below_next =
        (div-lt_iff_lt-mul pos).1
          (omega (arith, lt-div-mul-add {a = a} pos, lt-div-mul-add {a = m} pos))

-- A run of `m` consecutive numbers meets each residue `m / n` times, or once more.
pub count-window_even :
    (n i start m : ℕ)
    → i < n
    → (m / n ≤ count i (window n start m)) × (count i (window n start m) ≤ m / n + 1)
unfolding below
count-window_even n i start m h =
    let rearranged : start + m + (n - 1 - i) ≡ start + (n - 1 - i) + m = omega arith in
    omega (
      arith,
      count-window n i start m h,
      ap (λ (x : ℕ). x / n) rearranged,
      div-add_bounds n (start + (n - 1 - i)) m (omega arith),
    )
