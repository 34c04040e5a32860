-- ===== src/Tests/Toy.antt =====
-- Small stand-ins for the crates and for the network, and data to run the definitions on.
use text.Mathlib.Text.{◌==◌ as str_eq}
use broxy.Prelude.{
  ℕ, suc, get_elem?, ◌≡◌, ◌≢◌, ◌↔◌, refl, sym, Bool, false, List, [], ◌∷◌, Option, none, some,
  String, All, ◌==◌, arith,
}
use broxy.Outcome.{Outcome, returns, fails, panics, undefined, Called, answers, ok, err, foreign}
use broxy.LoadBalancer.{v4, SocketAddr, Upstream, LoadBalancer}
use broxy.LoadBalancer.Safety.{IsValid}
use broxy.Crates.{Crates, Bytes}
use broxy.Filter.{Filter, custom_function}
use broxy.BodyFilter.{BodyFilter, internal_full_body}
use broxy.Middleware.{Middleware}
use broxy.Middleware.Incoming
use broxy.Middleware.Outgoing
use broxy.Network.{Network, State}

pub record RequestParts : Type 0 where
  pub method : ℕ
  pub host : Option String
  pub path : String
  pub tags : List ℕ

pub record ResponseParts : Type 0 where
  pub status : ℕ
  pub tags : List ℕ

pub record Stream : Type 0 where
  pub text : Bytes
  pub upper : Option ℕ

-- The first outcome that is not a mere none, in the order of the list.
abbrev or_else {ℓ} : {A : Type ℓ} → Outcome (Option A) → Outcome (Option A) → Outcome (Option A)
or_else (returns none) o = o
or_else (returns (some a)) o = returns (some a)
or_else (fails e) o = fails e
or_else panics o = panics
or_else undefined o = undefined

abbrev find_first : (A B : Type 0) → (A → Outcome (Option B)) → List A → Outcome (Option B)
find_first A B f [] = returns none
find_first A B f (x ∷ xs) = or_else (f x) (find_first A B f xs)

pub find_first-none :
    (A B : Type 0) (f : A → Outcome (Option B)) (xs : List A)
    → (find_first A B f xs ≡ returns none) ↔ All (λ x. f x ≡ returns none) xs
find_first-none A B f [] = ground arith
find_first-none A B f (x ∷ xs) = ground (arith, find_first-none A B f xs)

pub find_first-some :
    (A B : Type 0) (f : A → Outcome (Option B)) (xs : List A)
    → find_first A B f xs ≢ returns none
    → (i : ℕ) × (x : A) × (get_elem? xs i ≡ some x) × (find_first A B f xs ≡ f x)
find_first-some A B f [] n = absurd (n refl)
find_first-some A B f (x ∷ xs) n = go (find_first-some A B f xs) (f x) refl n
  where
    go :
        (find_first A B f xs ≢ returns none
          → (i : ℕ) × (y : A) × (get_elem? xs i ≡ some y) × (find_first A B f xs ≡ f y))
        → (o : Outcome (Option B)) → f x ≡ o
        → or_else o (find_first A B f xs) ≢ returns none
        → (i : ℕ) × (y : A) × (get_elem? (x ∷ xs) i ≡ some y)
          × (or_else o (find_first A B f xs) ≡ f y)
    go rest (returns none) e m = let (i, y, at, same) = rest m in (suc i, y, at, same)
    go rest (returns (some b)) e m = (0, x, refl, sym e)
    go rest (fails z) e m = (0, x, refl, sym e)
    go rest panics e m = (0, x, refl, sym e)
    go rest undefined e m = (0, x, refl, sym e)

abbrev pub toy : Crates
toy = record {
  Method = ℕ;
  method_eq = λ a b. a == b;
  RequestParts = RequestParts;
  method_of = λ p. p.method;
  host_of = λ p. p.host;
  path_of = λ p. p.path;
  ResponseParts = ResponseParts;
  new_parts = record { status = 200; tags = [] };
  set_status = λ n p. record p { status = n };
  status_of = λ p. p.status;
  status_of-set_status = λ n p. refl;
  Regex = String;
  is_match = str_eq;
  Race = Unit;
  next_race = λ race. race;
  find_map_any = λ race. find_first;
  find_map_any-none = λ race. find_first-none;
  find_map_any-some = λ race. find_first-some;
  Incoming = Stream;
  size_hint_upper = λ b. b.upper;
  TcpStream = SocketAddr;
  Sender = SocketAddr;
  Connection = Unit;
}

-- Every upstream accepts, and answers with the body "ok".
abbrev pub pong : Stream
pong = record { text = 111 ∷ 107 ∷ []; upper = some 2 }

abbrev pub fine : ResponseParts
fine = record { status = 200; tags = [] }

abbrev pub echo : Network toy
echo = record {
  connect = λ history address. ok address;
  handshake = λ history stream. ok (stream, tt);
  send_request = λ history sender request. ok (fine, pong);
  collect = λ history body. ok body.text;
}

abbrev pub server : ℕ → Upstream
server n = record { address = record { ip = v4 n; port = 80 }; use_ssl = false }

abbrev pub three : LoadBalancer
three = record { servers = server 1 ∷ server 2 ∷ server 3 ∷ []; current_index = 0 }

abbrev pub start : State toy
start = record { balancers = three ∷ []; history = [] }

abbrev pub peer : SocketAddr
peer = record { ip = v4 7; port = 5000 }

-- GET is 0 and POST is 1.
abbrev pub get_root : RequestParts
get_root = record { method = 0; host = some "a.example"; path = "/"; tags = [] }

abbrev pub hello : Stream
hello = record { text = 104 ∷ 105 ∷ []; upper = some 2 }

abbrev pub unsized : Stream
unsized = record { text = []; upper = none }

abbrev pub broken_filter : Filter toy
broken_filter = custom_function (λ from header. answers (err (foreign 9)))

-- Passes the bodies that begin with "h".
abbrev pub begins_h : Bytes → Bool
begins_h [] = false
begins_h (b ∷ bs) = b == 104

abbrev pub h_filter : BodyFilter toy
h_filter = internal_full_body (λ from body. answers (ok (begins_h body)))

abbrev pub refuse_all : BodyFilter toy
refuse_all = internal_full_body (λ from body. answers (ok false))

abbrev pub tag_request : Incoming.MiddlewareIncomingFunction toy
tag_request =
    Incoming.internal (λ from parts. (answers (ok tt), record parts { tags = 1 ∷ parts.tags }))

abbrev pub blank_body : Incoming.MiddlewareIncomingFunction toy
blank_body = Incoming.internal_with_body (λ from parts body. (answers (ok tt), parts, []))

abbrev pub tag_response : Outgoing.MiddlewareOutgoingFunction toy
tag_response =
    Outgoing.internal
      (λ from upstream_addr parts. (answers (ok tt), record parts { tags = 2 ∷ parts.tags }))

abbrev pub blank :
    SocketAddr → SocketAddr → ResponseParts → Bytes → Called (Unit {0}) × ResponseParts × Bytes
blank from upstream_addr parts body = (answers (ok tt), parts, [])

abbrev pub tagging : Middleware toy
tagging = record {
  process_incoming = tag_request ∷ [];
  incoming_needs_body = false;
  process_out = tag_response ∷ [];
  out_needs_body = false;
}

pub three-IsValid : IsValid three
three-IsValid = record { has_server = omega arith; is_word = omega arith }
