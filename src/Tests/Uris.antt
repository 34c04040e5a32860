-- ===== src/Tests/Uris.antt =====
-- Runs of `combine_uris`, with URIs that are their parts.
use broxy.Prelude.{◌≡◌, refl, [], ◌∷◌, ◌++◌, arith, inr, Option, none, some}
use broxy.Outcome.{ok}
use broxy.Uri.{Text, UriLibrary, join, combined_text, combine_uris}
use broxy.Uri.Split.{prefix, split_query, split_query-combined_text}
use broxy.Uri.Join.{combine_uris-one_slash}

record Parts : Type 0 where
  path : Text
  query : Option Text
  scheme : Option Text

-- "h" is the scheme, and "e" the authority; a parser that keeps the whole text as the path.
abbrev lib : UriLibrary
lib = record {
  Uri = Parts;
  path = λ u. u.path;
  query = λ u. u.query;
  scheme_str = λ u. u.scheme;
  authority = λ u. some (101 ∷ []);
  parse = λ t. ok (record { path = t; query = none; scheme = none });
}

-- "/a" and "/u?p".
abbrev base : Parts
base = record { path = 47 ∷ 97 ∷ []; query = none; scheme = some (104 ∷ []) }

abbrev users : Parts
users = record { path = 47 ∷ 117 ∷ []; query = some (112 ∷ []); scheme = none }

abbrev base_slash : Parts
base_slash = record base { path = 47 ∷ 97 ∷ 47 ∷ [] }

abbrev users_slashes : Parts
users_slashes = record users { path = 47 ∷ 47 ∷ 47 ∷ 117 ∷ [] }

-- "h://e/a/u?p"
combined :
    combined_text lib base users ≡ 104 ∷ 58 ∷ 47 ∷ 47 ∷ 101 ∷ 47 ∷ 97 ∷ 47 ∷ 117 ∷ 63 ∷ 112 ∷ []
unfolding combined_text join
combined = refl

split_query-combined_text_example :
    split_query (combined_text lib base users)
    ≡ (prefix (some (104 ∷ [])) (some (101 ∷ [])) ++ join base.path users.path, some (112 ∷ []))
split_query-combined_text_example =
    split_query-combined_text lib base users (ground arith) (ground arith) (ground arith)

-- "h://e/a/" and "///u?p" make "h://e/a/u?p".
combine_uris-one_slash_example :
    combine_uris lib base_slash users_slashes
    ≡ ok (record {
      path = 104 ∷ 58 ∷ 47 ∷ 47 ∷ 101 ∷ 47 ∷ 97 ∷ 47 ∷ 117 ∷ 63 ∷ 112 ∷ [];
      query = none;
      scheme = none;
    })
combine_uris-one_slash_example =
    combine_uris-one_slash lib base_slash users_slashes (47 ∷ 97 ∷ []) (117 ∷ []) 1 3 refl refl
      (inr (47 ∷ [], 97, refl, omega arith)) (omega arith)
