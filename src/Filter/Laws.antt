-- ===== src/Filter/Laws.antt =====
-- broxy-core/src/filter.rs: what the single filters decide.
use broxy.Prelude.{
  Bool, true, ◌≡◌, ◌↔◌, inl, inr, sym, ap, refl, List, [], ◌∷◌, Option, none, some, is_none,
  is_some, arith, Bool-cases,
}
use mathlib.Core.List.{Memᴰ}
use broxy.Outcome.{Outcome, returns}
use broxy.LoadBalancer.{IpAddr, v4, v6, SocketAddr}
use broxy.Crates.{Crates}
use broxy.Filter.{ip_eq, get, black_list, white_list, filter}

ip_eq_iff : (a b : IpAddr) → (ip_eq a b ≡ true) ↔ (a ≡ b)
ip_eq_iff (v4 a) (v4 b) = ground arith
ip_eq_iff (v6 a) (v6 b) = ground arith
ip_eq_iff (v4 a) (v6 b) = ground arith
ip_eq_iff (v6 a) (v4 b) = ground arith

-- `get` finds an address exactly if it is a member.
get_sound : (ips : List IpAddr) (ip : IpAddr) → is_some (get ips ip) ≡ true → Memᴰ ip ips
unfolding get
get_sound [] ip h = cc
get_sound (x ∷ xs) ip h = elim (Bool-cases (ip_eq x ip)) [
  | inl same ↦ Memᴰ.head (sym ((ip_eq_iff x ip).0 same))
  | inr other ↦ Memᴰ.tail (get_sound xs ip (rw (other, get) at h))
]

get_complete : {ip : IpAddr} {ips : List IpAddr} → Memᴰ ip ips → is_some (get ips ip) ≡ true
unfolding get
get_complete {ip} (Memᴰ.head {x} {xs} e) = rw ((ip_eq_iff x ip).1 (sym e))
get_complete {ip} (Memᴰ.tail {x} {xs} m) = ground (arith, get_complete {ips = xs} m)

is_none-eq-true {ℓ} : {A : Type ℓ} (o : Option A) → is_none o ≡ true → ¬ (is_some o ≡ true)
is_none-eq-true none h k = cc
is_none-eq-true (some a) h k = cc

is_none-of_not {ℓ} : {A : Type ℓ} (o : Option A) → ¬ (is_some o ≡ true) → is_none o ≡ true
is_none-of_not none h = refl
is_none-of_not (some a) h = absurd (h refl)

returns-injective : {a b : Bool} → ◌≡◌ {A = Outcome Bool} (returns a) (returns b) → a ≡ b
returns-injective e = cc

-- A white list passes exactly the peers whose address is listed, and a black list exactly the
-- others; the port and the request do not matter.
pub filter-lists_iff :
    (c : Crates) (ips : List IpAddr) (from : SocketAddr) (header : c.RequestParts)
    → ((filter c (white_list ips) from header ≡ returns true) ↔ Memᴰ from.ip ips)
      × ((filter c (black_list ips) from header ≡ returns true) ↔ (¬ Memᴰ from.ip ips))
unfolding filter
filter-lists_iff c ips from header = (
  (λ e. get_sound ips from.ip (returns-injective e), λ m. ap returns (get_complete m)),
  (
    λ e m. is_none-eq-true (get ips from.ip) (returns-injective e) (get_complete m),
    λ n. ap returns (is_none-of_not (get ips from.ip) (λ h. n (get_sound ips from.ip h))),
  ),
)
