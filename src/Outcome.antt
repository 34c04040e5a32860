-- ===== src/Outcome.antt =====
-- What a call of the code does: `anyhow::Result`, panics and undefined behaviour as values.
--
-- `Error` has a constructor for each `anyhow!` of the crate; `foreign` stands for an error of a
-- third-party crate or of a configured function, told apart by an opaque number.
-- An `Outcome` also has the two ways in which a Rust call gives no result at all: a panic (`assert!`,
-- `expect`, `todo!`, `unimplemented!`), and the undefined behaviour of an unchecked access.
use broxy.Prelude.{ℕ, ◌≡◌, refl, Option, none, some}

pub data Error : Type 0 where
  host_empty expected_filter_async expected_filter no_body_provided : Error
  foreign : ℕ → Error

pub data Result {ℓ} (A : Type ℓ) : Type ℓ where
  ok : A → Result A
  err : Error → Result A

-- What a call of a function that a service is configured with gives: its result, or a panic.
pub data Called {ℓ} (A : Type ℓ) : Type ℓ where
  answers : Result A → Called A
  panicked : Called A

pub data Outcome {ℓ} (A : Type ℓ) : Type ℓ where
  returns : A → Outcome A
  fails : Error → Outcome A
  panics undefined : Outcome A

abbrev pub map_ok {ℓ κ} : {A : Type ℓ} {B : Type κ} → (A → B) → Result A → Result B
map_ok f (ok a) = ok (f a)
map_ok f (err e) = err e

abbrev pub ok_or {ℓ} : {A : Type ℓ} → Option A → Error → Result A
ok_or none e = err e
ok_or (some a) e = ok a

abbrev pub of_result {ℓ} : {A : Type ℓ} → Result A → Outcome A
of_result (ok a) = returns a
of_result (err e) = fails e

abbrev pub of_called {ℓ} : {A : Type ℓ} → Called A → Outcome A
of_called (answers r) = of_result r
of_called panicked = panics

-- An unchecked unwrapping or access: without a value there is no promise at all.
abbrev pub or_undefined {ℓ} : {A : Type ℓ} → Option A → Outcome A
or_undefined none = undefined
or_undefined (some a) = returns a

-- A computation over a state. A call that fails or panics keeps the changes made before.
abbrev pub M {ℓ κ} : Type ℓ → Type κ → Type (ℓ ⊔ κ)
M S A = S → Outcome A × S

abbrev pub and_then {ℓ κ μ} :
    {S : Type ℓ} {A : Type κ} {B : Type μ} → Outcome A × S → (A → M S B) → Outcome B × S
and_then (returns a, s) f = f a s
and_then (fails e, s) f = (fails e, s)
and_then (panics, s) f = (panics, s)
and_then (undefined, s) f = (undefined, s)

infixl 5 ◌>>=◌ ◌>>◌
abbrev pub ◌>>=◌ {ℓ κ μ} : {S : Type ℓ} {A : Type κ} {B : Type μ} → M S A → (A → M S B) → M S B
◌>>=◌ m f s = and_then (m s) f

abbrev pub ◌>>◌ {ℓ κ} : {S : Type ℓ} {B : Type κ} → M S (Unit {0}) → M S B → M S B
m >> k = m >>= λ _. k

abbrev pub pure {ℓ κ} : {S : Type ℓ} {A : Type κ} → A → M S A
pure a s = (returns a, s)

abbrev pub lift {ℓ κ} : {S : Type ℓ} {A : Type κ} → Outcome A → M S A
lift o s = (o, s)

-- No undefined behaviour; a panic or an error may come.
abbrev pub IsDefined {ℓ} : {A : Type ℓ} → Outcome A → Type 0
IsDefined undefined = ⊥
IsDefined _ = Unit

pub and_then_cong {ℓ κ μ} :
    {S : Type ℓ} {A : Type κ} {B : Type μ} (p : Outcome A × S) {f g : A → M S B}
    → ((a : A) (s : S) → f a s ≡ g a s)
    → and_then p f ≡ and_then p g
and_then_cong (returns a, s) h = h a s
and_then_cong (fails e, s) h = refl
and_then_cong (panics, s) h = refl
and_then_cong (undefined, s) h = refl
