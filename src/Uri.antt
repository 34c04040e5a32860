-- ===== src/Uri.antt =====
-- broxy-core/src/utils.rs: `combine_uris`.
--
-- A text is the list of its code points. `http::Uri` with its parser is a parameter.
pub mod Join
pub mod Split
use broxy.Prelude.{
  ℕ, ◌==◌, if◌then◌else◌, Bool, ◌&&◌, List, [], ◌∷◌, ◌++◌, is_empty, Option, none, some,
}
use broxy.Outcome.{Result}

abbrev pub Text : Type 0
Text = List ℕ

abbrev pub slash : ℕ
slash = 47

abbrev pub question_mark : ℕ
question_mark = 63

abbrev pub scheme_separator : Text
scheme_separator = 58 ∷ slash ∷ slash ∷ []

-- `trim_start_matches('/')`
abbrev pub trim_start : Text → Text
trim_start [] = []
trim_start (x ∷ xs) = if x == slash then trim_start xs else x ∷ xs

abbrev pub cons_trimmed : ℕ → Text → Text
cons_trimmed x rest = if is_empty rest && (x == slash) then [] else x ∷ rest

-- `trim_end_matches('/')`
abbrev pub trim_end : Text → Text
trim_end [] = []
trim_end (x ∷ xs) = cons_trimmed x (trim_end xs)

-- `http::Uri`
pub record UriLibrary : Type 1 where
  pub Uri : Type 0
  pub path : Uri → Text
  pub query : Uri → Option Text
  pub scheme_str : Uri → Option Text
  pub authority : Uri → Option Text
  pub parse : Text → Result Uri

abbrev pub unwrap_or_empty : Option Text → Text
unwrap_or_empty none = []
unwrap_or_empty (some t) = t

-- The path of the result from the paths of the two arguments.
unfoldable pub join : Text → Text → Text
join base_path append_path = trim_end base_path ++ slash ∷ trim_start append_path

abbrev pub push_query : Text → Text → Text
push_query full_path append_query =
    if is_empty append_query then full_path else full_path ++ question_mark ∷ append_query

abbrev pub with_scheme : Option Text → Option Text → Text → Text
with_scheme none authority full_path = full_path
with_scheme (some scheme) authority full_path =
    scheme ++ scheme_separator ++ unwrap_or_empty authority ++ full_path

module _ (lib : UriLibrary) where
  -- The text that `combine_uris` parses.
  unfoldable pub combined_text : lib.Uri → lib.Uri → Text
  combined_text base append =
      with_scheme (lib.scheme_str base) (lib.authority base)
        (push_query (join (lib.path base) (lib.path append)) (unwrap_or_empty (lib.query append)))

  unfoldable pub combine_uris : lib.Uri → lib.Uri → Result lib.Uri
  combine_uris base append = lib.parse (combined_text base append)
