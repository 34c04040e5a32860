-- ===== src/LoadBalancer.antt =====
-- broxy-core/src/load_balancer.rs and broxy-core/src/upstream.rs: round-robin selection.
--
-- `usize` is the 64-bit word of the targets that the proxy is built for: `fetch_add` wraps. The
-- pointer that `get_upstream` returns is modelled by the value that it points to.
pub mod Safety
pub mod Counting
pub mod Rounds
pub mod Queue
pub mod Dues
pub mod Threads
use broxy.Prelude.{ℕ, ◌+◌, ◌%◌, ◌^◌, ◌==◌, if◌then◌else◌, Bool, List, [], ◌∷◌, length, get_elem?}
use broxy.Outcome.{Outcome, returns, panics, or_undefined, M, ◌>>=◌, lift}

-- `std::net::IpAddr`, each family with the number of its address.
pub data IpAddr : Type 0 where
  v4 v6 : ℕ → IpAddr

pub record SocketAddr : Type 0 where
  pub ip : IpAddr
  pub port : ℕ

pub record Upstream : Type 0 where
  pub address : SocketAddr
  pub use_ssl : Bool

pub record LoadBalancer : Type 0 where
  pub servers : List Upstream
  pub current_index : ℕ

abbrev pub usize_mod : ℕ
usize_mod = 2 ^ 64

unfoldable pub new : List Upstream → Outcome LoadBalancer
new [] = panics
new (u ∷ us) = returns (record { servers = u ∷ us; current_index = 0 })

-- `current_index.fetch_add(1)`: the old value, and a counter that wraps.
unfoldable pub fetch_add : M LoadBalancer ℕ
fetch_add lb =
    (returns lb.current_index, record lb { current_index = (lb.current_index + 1) % usize_mod })

-- `a % b` on machine words.
abbrev pub rem : ℕ → ℕ → Outcome ℕ
rem a b = if b == 0 then panics else returns (a % b)

abbrev pub get_unchecked {ℓ} : {A : Type ℓ} → List A → ℕ → Outcome A
get_unchecked xs i = or_undefined (get_elem? xs i)

unfoldable pub get_upstream : M LoadBalancer Upstream
unfolding fetch_add
get_upstream lb =
    (do
      current ← fetch_add
      index ← lift (rem current (length lb.servers))
      lift (get_unchecked lb.servers index))
      lb
