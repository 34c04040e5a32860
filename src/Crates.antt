-- ===== src/Crates.antt =====
-- The third-party crates that the proxy calls, as a parameter of every definition that uses them:
-- http, regex, rayon, hyper and tokio. The laws say what their documentation promises.
use broxy.Outcome.{Outcome, returns}
use broxy.Prelude.{◌≢◌, some, get_elem?, ℕ, ◌≡◌, ◌↔◌, Bool, Option, none, List, String, All}

-- `u8` values.
abbrev pub Bytes : Type 0
Bytes = List ℕ

pub record Crates : Type 1 where
  -- `http::Method` with its `eq`.
  pub Method : Type 0
  pub method_eq : Method → Method → Bool
  -- `http::request::Parts`: its method, and the host and path of its URI.
  pub RequestParts : Type 0
  pub method_of : RequestParts → Method
  pub host_of : RequestParts → Option String
  pub path_of : RequestParts → String
  -- `http::response::Parts`: those of `Response::new`, and `status_mut`.
  pub ResponseParts : Type 0
  pub new_parts : ResponseParts
  pub set_status : ℕ → ResponseParts → ResponseParts
  pub status_of : ResponseParts → ℕ
  pub status_of-set_status : (n : ℕ) (p : ResponseParts) → status_of (set_status n p) ≡ n
  -- `regex::Regex`
  pub Regex : Type 0
  pub is_match : Regex → String → Bool
  -- `rayon`: what `f` gives on some item, a panic of `f` included, and none exactly if it gives none on
  -- every item. Which item that is depends on how its threads race, in each search anew.
  pub Race : Type 0
  pub next_race : Race → Race
  pub find_map_any : Race → (A B : Type 0) → (A → Outcome (Option B)) → List A → Outcome (Option B)
  pub find_map_any-none :
      (race : Race) (A B : Type 0) (f : A → Outcome (Option B)) (xs : List A)
      → (find_map_any race A B f xs ≡ returns none) ↔ All (λ x. f x ≡ returns none) xs
  pub find_map_any-some :
      (race : Race) (A B : Type 0) (f : A → Outcome (Option B)) (xs : List A)
      → find_map_any race A B f xs ≢ returns none
      → (i : ℕ) × (x : A) × (get_elem? xs i ≡ some x) × (find_map_any race A B f xs ≡ f x)
  -- `hyper::body::Incoming`, with the upper bound of its size hint.
  pub Incoming : Type 0
  pub size_hint_upper : Incoming → Option ℕ
  -- `tokio::net::TcpStream`, and the two halves of a client connection of `hyper`.
  pub TcpStream : Type 0
  pub Sender : Type 0
  pub Connection : Type 0
