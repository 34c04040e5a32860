-- ===== src/Uri/Split.antt =====
-- broxy-core/src/utils.rs: the path and the query can be read back from what `combine_uris` writes.
use mathlib.Core.List.{append_assoc}
use broxy.Prelude.{
  ℕ, ◌==◌, ◌≡◌, ◌≢◌, refl, sym, ap, ◌∙◌, if◌then◌else◌, Bool, true, false, ◌&&◌, [], ◌∷◌, ◌++◌,
  is_empty, Option, none, some, All, arith,
}
use broxy.Uri.{
  Text, slash, question_mark, scheme_separator, trim_start, trim_end, join, push_query, with_scheme,
  unwrap_or_empty, UriLibrary, combined_text,
}

-- What stands before the first question mark, and what stands behind it, as in RFC 3986.
abbrev pub cons_before : ℕ → Text × Option Text → Text × Option Text
cons_before x (before, behind) = (x ∷ before, behind)

abbrev pub split_query : Text → Text × Option Text
split_query [] = ([], none)
split_query (x ∷ t) =
    let rest = split_query t in if x == question_mark then ([], some t) else cons_before x rest

abbrev pub IsPlain : Text → Type 0
IsPlain = All (λ x. x ≢ question_mark)

-- The part of the text before the path.
abbrev pub prefix : Option Text → Option Text → Text
prefix none authority = []
prefix (some scheme) authority = scheme ++ scheme_separator ++ unwrap_or_empty authority

-- An empty query is as good as none.
abbrev pub some_query : Text → Option Text
some_query [] = none
some_query (x ∷ q) = some (x ∷ q)

with_scheme-prefix : (s a : Option Text) (t : Text) → with_scheme s a t ≡ prefix s a ++ t
with_scheme-prefix none a t = refl
with_scheme-prefix (some s) a t = refl

append-IsPlain : (s t : Text) → IsPlain s → IsPlain t → IsPlain (s ++ t)
append-IsPlain [] t p q = q
append-IsPlain (x ∷ s) t (h, p) q = (h, append-IsPlain s t p q)

if-IsPlain : (b : Bool) (s t : Text) → IsPlain s → IsPlain t → IsPlain (if b then s else t)
if-IsPlain true s t p q = p
if-IsPlain false s t p q = q

trim_start-IsPlain : (t : Text) → IsPlain t → IsPlain (trim_start t)
trim_start-IsPlain [] p = tt
trim_start-IsPlain (x ∷ t) (h, p) = if-IsPlain (x == slash) _ _ (trim_start-IsPlain t p) (h, p)

trim_end-IsPlain : (t : Text) → IsPlain t → IsPlain (trim_end t)
trim_end-IsPlain [] p = tt
trim_end-IsPlain (x ∷ t) (h, p) =
    if-IsPlain (is_empty (trim_end t) && (x == slash)) [] _ tt (h, trim_end-IsPlain t p)

split_query-plain : (t : Text) → IsPlain t → split_query t ≡ (t, none)
split_query-plain [] p = refl
split_query-plain (x ∷ t) (h, p) = ground (arith, split_query-plain t p)

split_query-marked : (t q : Text) → IsPlain t → split_query (t ++ question_mark ∷ q) ≡ (t, some q)
split_query-marked [] q p = refl
split_query-marked (x ∷ t) q (h, p) = ground (arith, split_query-marked t q p)

join-IsPlain : (p q : Text) → IsPlain p → IsPlain q → IsPlain (join p q)
unfolding join
join-IsPlain p q h k =
    append-IsPlain (trim_end p) (slash ∷ trim_start q) (trim_end-IsPlain p h)
      ((λ e. absurd (omega (arith, e))), trim_start-IsPlain q k)

split_query-push_query : (t q : Text) → IsPlain t → split_query (push_query t q) ≡ (t, some_query q)
split_query-push_query t [] p = split_query-plain t p
split_query-push_query t (x ∷ q) p = split_query-marked t (x ∷ q) p

append-push_query : (s t q : Text) → s ++ push_query t q ≡ push_query (s ++ t) q
append-push_query s t [] = refl
append-push_query s t (x ∷ q) = sym (append_assoc s t (question_mark ∷ x ∷ q))

-- If neither the paths nor what stands before them has a question mark, then splitting the text that
-- `combine_uris` parses at its first question mark gives back the joined path and the query of the
-- second URI, where an empty query is as good as none.
pub split_query-combined_text :
    (lib : UriLibrary) (base append : lib.Uri)
    → IsPlain (prefix (lib.scheme_str base) (lib.authority base))
    → IsPlain (lib.path base)
    → IsPlain (lib.path append)
    → split_query (combined_text lib base append) ≡ (
      prefix (lib.scheme_str base) (lib.authority base) ++ join (lib.path base) (lib.path append),
      some_query (unwrap_or_empty (lib.query append)),
    )
unfolding combined_text
split_query-combined_text lib base append r p q =
    let before = prefix (lib.scheme_str base) (lib.authority base) in
    let path = join (lib.path base) (lib.path append) in
    let query = unwrap_or_empty (lib.query append) in
    ap split_query (
      with_scheme-prefix (lib.scheme_str base) (lib.authority base) (push_query path query)
      ∙ append-push_query before path query)
    ∙ split_query-push_query (before ++ path) query
        (append-IsPlain before path r (join-IsPlain _ _ p q))
