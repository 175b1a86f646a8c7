-- ===== src/Url/Join.antt =====
-- What joining and the trailing slash guarantee.
use gomaasapi.Prelude.{◌≡◌, false, ◌++◌, nat_eq, list_eq, ◌⊎◌, Bool-cases, inl, inr}
use gomaasapi.Strings.{Text, slash, has_suffix}
use gomaasapi.Strings.Trim.{
  AllEqual, NotHead, NotLast, trim_left-append, trim_right-append, has_suffix_sound,
  has_suffix-append,
}
use gomaasapi.Url.{join_urls, ensure_trailing_slash}

-- Whatever number of slashes ends the base and starts the path, the two are joined by one slash:
-- `join_urls (b ++ slashes) (slashes' ++ p)` is `b`, a slash and `p`, where `b` does not end and
-- `p` does not start with a slash.
join_urls_lem :
    (b slashes slashes' p : Text)
    → NotLast b'/' b
    → AllEqual b'/' slashes
    → AllEqual b'/' slashes'
    → NotHead b'/' p
    → join_urls (b ++ slashes) (slashes' ++ p) ≡ b ++ slash ++ p
unfolding join_urls
join_urls_lem b slashes slashes' p hb hs hs' hp =
    rw (trim_right-append b slashes b'/' hs hb, trim_left-append slashes' p b'/' hs' hp)

-- The result ends in a slash; it is the URL itself, or the URL and a slash where that did not end
-- in one. A second call changes nothing.
pub ensure_trailing_slash_lem :
    (url : Text)
    → ((b : Text) × (ensure_trailing_slash url ≡ b ++ slash))
      × ((ensure_trailing_slash url ≡ url)
          ⊎ (has_suffix url slash ≡ false) × (ensure_trailing_slash url ≡ url ++ slash))
      × (ensure_trailing_slash (ensure_trailing_slash url) ≡ ensure_trailing_slash url)
unfolding ensure_trailing_slash
ensure_trailing_slash_lem url = elim (Bool-cases (has_suffix url slash)) [
  | inl e ↦ let (b, p) = has_suffix_sound url slash e in ((b, rw e p), inl (rw e), rw (e, e))
  | inr e ↦ ((url, rw e), inr (e, rw e), rw e (rw (has_suffix-append url slash)))
]
