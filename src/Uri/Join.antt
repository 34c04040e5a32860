-- ===== src/Uri/Join.antt =====
-- broxy-core/src/utils.rs: how `combine_uris` joins paths.
use mathlib.Core.List.{append_assoc, append-nil}
use broxy.Prelude.{
  Option, none, some, ◌≢◌, ℕ, zero, suc, ◌≡◌, refl, sym, ap, ◌∙◌, [], ◌∷◌, ◌++◌, is_empty, arith,
  false, ◌⊎◌, inl, inr,
}
use broxy.Uri.{
  Text, slash, trim_start, trim_end, cons_trimmed, join, with_scheme, push_query, unwrap_or_empty,
  UriLibrary, combined_text, combine_uris,
}

-- A text of slashes alone.
abbrev pub slashes : ℕ → Text
slashes zero = []
slashes (suc k) = slash ∷ slashes k

trim_start-slashes : (k : ℕ) (t : Text) → trim_start (slashes k ++ t) ≡ trim_start t
trim_start-slashes zero t = refl
trim_start-slashes (suc k) t = trim_start-slashes k t

trim_end-slashes_only : (k : ℕ) → trim_end (slashes k) ≡ []
trim_end-slashes_only zero = refl
trim_end-slashes_only (suc k) = rw (trim_end-slashes_only k)

trim_end-slashes : (t : Text) (k : ℕ) → trim_end (t ++ slashes k) ≡ trim_end t
trim_end-slashes [] k = trim_end-slashes_only k
trim_end-slashes (x ∷ t) k = rw (trim_end-slashes t k)

-- The slashes at the joint make no difference, however many there are.
join-slashes : (p q : Text) (j k : ℕ) → join (p ++ slashes j) (slashes k ++ q) ≡ join p q
unfolding join
join-slashes p q j k = rw (trim_end-slashes p j, trim_start-slashes k q)

trim_start_idem : (t : Text) → trim_start (trim_start t) ≡ trim_start t
trim_start_idem [] = refl
trim_start_idem (x ∷ t) = ground (arith, trim_start_idem t)

-- Trimming does not reach what stands before a text that it does not empty.
trim_end-append : (s t : Text) → is_empty (trim_end t) ≡ false → trim_end (s ++ t) ≡ s ++ trim_end t
trim_end-append [] t h = refl
trim_end-append (x ∷ s) t h = rw (trim_end-append s t h) (not_empty s (trim_end t) h)
  where
    not_empty : (s r : Text) → is_empty r ≡ false → cons_trimmed x (s ++ r) ≡ x ∷ (s ++ r)
    not_empty [] [] h = cc
    not_empty [] (y ∷ r) h = refl
    not_empty (y ∷ s) r h = refl

trim_end_idem : (t : Text) → trim_end (trim_end t) ≡ trim_end t
trim_end_idem [] = refl
trim_end_idem (x ∷ t) = ground (arith, trim_end_idem t)

trim_start-append :
    (t u : Text) → is_empty (trim_start t) ≡ false → trim_start (t ++ u) ≡ trim_start t ++ u
trim_start-append [] u h = cc
trim_start-append (x ∷ t) u h = ground (arith, trim_start-append t u)

trim_comm : (t : Text) → trim_start (trim_end t) ≡ trim_end (trim_start t)
trim_comm [] = refl
trim_comm (x ∷ t) = ground (arith, trim_comm t)

-- What is left of a text after trimming its start does not end where it begins.
trim_start-cases : (t : Text) → (trim_start t ≡ []) ⊎ (is_empty (trim_end (trim_start t)) ≡ false)
trim_start-cases [] = inl refl
trim_start-cases (x ∷ t) = ground (arith, trim_start-cases t)

trim_end-nil : (t : Text) → trim_start t ≡ [] → trim_end t ≡ []
trim_end-nil [] e = refl
trim_end-nil (x ∷ t) e = ground (arith, trim_end-nil t)

trim_end-slash :
    (t : Text) → is_empty (trim_end t) ≡ false → trim_end (slash ∷ t) ≡ slash ∷ trim_end t
trim_end-slash t h = rw h

trim_start-joint :
    (b u : Text)
    → is_empty (trim_end (trim_start b)) ≡ false
    → trim_start (trim_end b ++ u) ≡ trim_end (trim_start b) ++ u
trim_start-joint b u h =
    trim_start-append (trim_end b) u (ap is_empty (trim_comm b) ∙ h)
    ∙ ap (λ t. t ++ u) (trim_comm b)

trim_end-joint :
    (a b : Text)
    → is_empty (trim_end (trim_start b)) ≡ false
    → trim_end (a ++ slash ∷ trim_start b) ≡ a ++ slash ∷ trim_end (trim_start b)
trim_end-joint a b h =
    let kept = trim_end-slash (trim_start b) h in
    trim_end-append a (slash ∷ trim_start b) (ap is_empty kept) ∙ ap (λ t. a ++ t) kept

-- Joining three paths gives the same path in either order.
join_assoc : (a b c : Text) → join (join a b) c ≡ join a (join b c)
unfolding join
join_assoc a b c = elim (trim_start-cases b) [
  | inl e ↦
      rw (e, trim_end-nil b e, trim_end-slashes (trim_end a) 1, trim_end_idem a, trim_start_idem c)
  | inr h ↦ rw (
    trim_end-joint (trim_end a) b h,
    trim_start-joint b (slash ∷ trim_start c) h,
    append_assoc (trim_end a) (slash ∷ trim_end (trim_start b)) (slash ∷ trim_start c),
  )
]

-- Combining with a base that ends in slashes, or a path that begins with them, is combining
-- without them, whatever the query, the scheme and the authority are.
combine_uris-slashes :
    (lib : UriLibrary) (base base' append append' : lib.Uri) (j k : ℕ)
    → lib.path base' ≡ lib.path base ++ slashes j
    → lib.scheme_str base' ≡ lib.scheme_str base
    → lib.authority base' ≡ lib.authority base
    → lib.path append' ≡ slashes k ++ lib.path append
    → lib.query append' ≡ lib.query append
    → combine_uris lib base' append' ≡ combine_uris lib base append
unfolding combine_uris combined_text
combine_uris-slashes lib base base' append append' j k p s a q r =
    cc (p, s, a, q, r, join-slashes (lib.path base) (lib.path append) j k)

-- A text that is empty or ends in something else than a slash.
abbrev pub EndsPlain : Text → Type 0
EndsPlain t = (t ≡ []) ⊎ ((s : Text) × (x : ℕ) × (t ≡ s ++ x ∷ []) × (x ≢ 47))

-- A text that is empty or begins with something else than a slash.
abbrev pub BeginsPlain : Text → Type 0
BeginsPlain [] = Unit
BeginsPlain (x ∷ t) = x ≢ 47

trim_start-plain : (t : Text) → BeginsPlain t → trim_start t ≡ t
trim_start-plain [] h = refl
trim_start-plain (x ∷ t) h = ground arith

trim_end-plain : (t : Text) → EndsPlain t → trim_end t ≡ t
trim_end-plain t (inl e) = rw e
trim_end-plain t (inr (s, x, e, h)) =
    let kept : trim_end (x ∷ []) ≡ x ∷ [] = ground arith in
    rw e (trim_end-append s (x ∷ []) (ap is_empty kept) ∙ ap (λ u. s ++ u) kept)

-- What stands before the path: the scheme, "://" and the authority, or nothing without a scheme.
abbrev pub origin : Option Text → Option Text → Text
origin none authority = []
origin (some scheme) none = scheme ++ 58 ∷ 47 ∷ 47 ∷ []
origin (some scheme) (some authority) = scheme ++ 58 ∷ 47 ∷ 47 ∷ authority

-- What stands behind it: a question mark and the query, or nothing without a query.
abbrev pub query_part : Option Text → Text
query_part none = []
query_part (some []) = []
query_part (some (x ∷ query)) = 63 ∷ x ∷ query

with_scheme-origin :
    (scheme authority : Option Text) (t : Text)
    → with_scheme scheme authority t ≡ origin scheme authority ++ t
with_scheme-origin none authority t = refl
with_scheme-origin (some scheme) none t =
    ap (λ u. u ++ t) (append-nil (scheme ++ 58 ∷ 47 ∷ 47 ∷ []))
with_scheme-origin (some scheme) (some authority) t =
    ap (λ u. u ++ t) (append_assoc scheme (58 ∷ 47 ∷ 47 ∷ []) authority)

push_query-part :
    (t : Text) (query : Option Text) → push_query t (unwrap_or_empty query) ≡ t ++ query_part query
push_query-part t none = sym (append-nil t)
push_query-part t (some []) = sym (append-nil t)
push_query-part t (some (x ∷ query)) = refl

-- Combining two URIs parses a text with one slash where their paths meet, however many slashes the
-- path of the first has at its end and that of the second at its beginning; before it stand the
-- scheme and the authority of the first, and behind it the query of the second.
pub combine_uris-one_slash :
    (lib : UriLibrary) (base append : lib.Uri) (p q : Text) (j k : ℕ)
    → lib.path base ≡ p ++ slashes j
    → lib.path append ≡ slashes k ++ q
    → EndsPlain p
    → BeginsPlain q
    → combine_uris lib base append
      ≡ lib.parse (
          origin (lib.scheme_str base) (lib.authority base)
          ++ (p ++ 47 ∷ q)
          ++ query_part (lib.query append))
unfolding combine_uris combined_text join
combine_uris-one_slash lib base append p q j k e e' ends begins =
    let left : trim_end (lib.path base) ≡ p =
      ap trim_end e ∙ trim_end-slashes p j ∙ trim_end-plain p ends in
    let right : trim_start (lib.path append) ≡ q =
      ap trim_start e' ∙ trim_start-slashes k q ∙ trim_start-plain q begins in
    let joined : trim_end (lib.path base) ++ slash ∷ trim_start (lib.path append) ≡ p ++ 47 ∷ q =
      rw (left, right) in
    let before = origin (lib.scheme_str base) (lib.authority base) in
    ap
      (λ t. lib.parse (
        with_scheme (lib.scheme_str base) (lib.authority base)
          (push_query t (unwrap_or_empty (lib.query append)))))
      joined
    ∙ ap lib.parse (
        with_scheme-origin (lib.scheme_str base) (lib.authority base) _
        ∙ ap (λ t. before ++ t) (push_query-part (p ++ 47 ∷ q) (lib.query append))
        ∙ sym (append_assoc before (p ++ 47 ∷ q) (query_part (lib.query append))))
