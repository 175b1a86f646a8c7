-- ===== src/Url.antt =====
-- util.go, and the URL functions at the end of client.go: joining, the trailing slash that the
-- server wants, and the version component of an API URL. The regular expression is written out
-- as the backtracking match that Go's greedy `.*` makes.
pub mod Join
pub mod Pattern
pub mod Versioned
use mathlib.Core.Option
use gomaasapi.Prelude.{
  ℕ, Bool, true, false, ◌&&◌, Option, none, some, List, [], ◌∷◌, ◌++◌, if◌then◌else◌, ltb, leb,
  ◌==◌, nat_eq, list_eq,
}
use gomaasapi.Strings.{Text, codes, slash, has_suffix, has_prefix, trim_left, trim_right}

-- JoinURLs
unfoldable pub join_urls : Text → Text → Text
join_urls base_url path = trim_right base_url b'/' ++ slash ++ trim_left path b'/'

-- EnsureTrailingSlash
unfoldable pub ensure_trailing_slash : Text → Text
ensure_trailing_slash url = if has_suffix url slash then url else url ++ slash

-- AddAPIVersionToURL
unfoldable pub add_api_version_to_url : Text → Text → Text
add_api_version_to_url base_url api_version =
    ensure_trailing_slash base_url ++ codes "api/" ++ api_version ++ slash

-- `\d`
abbrev pub is_digit : ℕ → Bool
is_digit c = leb b'0' c && leb c b'9'

-- The longest prefix of digits, and the rest.
pub span_digits : Text → Text × Text
span_digits [] = ([], [])
span_digits (c ∷ s) =
    let (ds, rest) = span_digits s in if is_digit c then (c ∷ ds, rest) else ([], c ∷ s)

-- `/?$`
pub at_end : Text → Bool
at_end [] = true
at_end (c ∷ []) = c == b'/'
at_end _ = false

-- `\d+/?$` behind the digits and the dot `seen`
match_minor : Text → Text × Text → Option Text
match_minor seen ([], rest) = none
match_minor seen (d ∷ ds, rest) = if at_end rest then some (seen ++ d ∷ ds) else none

-- `\.\d+/?$` behind the digits of the major version
match_dot : Text × Text → Option Text
match_dot ([], rest) = none
match_dot (d ∷ ds, []) = none
match_dot (d ∷ ds, c ∷ rest) =
    if c == b'.' then match_minor (d ∷ ds ++ c ∷ []) (span_digits rest) else none

-- `api/(?P<version>\d+\.\d+)/?$`, which gives the version
match_tail : Text → Option Text
match_tail (a ∷ p ∷ i ∷ s ∷ rest) =
    if (a ∷ p ∷ i ∷ s ∷ []) == codes "api/" then match_dot (span_digits rest) else none
match_tail _ = none

-- `^(?P<base>.*/)` in front of it, the longest base first; `base` is what lies behind.
pub search_base : Text → Text → Option (Text × Text)
search_base base [] = none
search_base base (c ∷ s) =
    let here = (if c == b'/' then Option.map (λ v. (base ++ c ∷ [], v)) (match_tail s) else none) in
    let longer = search_base (base ++ c ∷ []) s in
    if c == b'\n' then none else elim longer [ some m ↦ some m | none ↦ here ]

split_result : Text → Option (Text × Text) → Text × Text × Bool
split_result url none = (url, [], false)
split_result url (some (base, version)) = (base, version, true)

-- SplitVersionedURL
unfoldable pub split_versioned_url : Text → Text × Text × Bool
unfolding search_base match_tail match_dot match_minor at_end span_digits split_result
split_versioned_url url = split_result url (search_base [] url)
