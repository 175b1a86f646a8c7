-- ===== src/Url/Versioned.antt =====
-- The version component of a URL: `SplitVersionedURL` against a description of the pattern, and
-- `AddAPIVersionToURL` undone by it.
use gomaasapi.Prelude.{
  ℕ, ◌≡◌, refl, sym, ◌≢◌, ◌↔◌, true, some, [], ◌++◌, arith, nat_eq, list_eq, append_assoc, ap, All,
  All-append, All-left, Bool-cases, inl, inr, ◌∙◌, Option-cases,
}
use gomaasapi.Strings.{Text, codes, slash, has_suffix}
use gomaasapi.Url.{
  search_base, split_result, split_versioned_url, add_api_version_to_url, ensure_trailing_slash,
}
use gomaasapi.Url.Join.{ensure_trailing_slash_lem}
use gomaasapi.Url.Pattern.{IsVersion, Matches}
use gomaasapi.Url.Pattern.Complete.{search_base_complete}
use gomaasapi.Url.Pattern.Sound.{Found, search_base_sound}

Matches-Found : (url base version : Text) → Found [] url (base, version) → Matches url base version
Matches-Found url base version f = record {
  front = f.front;
  base_eq = f.base_eq;
  front_line = f.front_line;
  version_IsVersion = f.version_IsVersion;
  rest = f.rest;
  rest_end = f.rest_end;
  url_eq =
      f.text_eq
      ∙ sym (append_assoc f.front slash _)
      ∙ sym (ap (λ t. t ++ (codes "api/" ++ version ++ f.rest)) f.base_eq);
}

-- The URL is split into a base and a version exactly when it is, up to a last slash, the base
-- and `api/` and the version; the two parts are then determined by the URL.
pub split_versioned_url_iff :
    (url base version : Text)
    → (split_versioned_url url ≡ (base, version, true)) ↔ Matches url base version
unfolding split_versioned_url
split_versioned_url_iff url base version = (
  λ h. Matches-Found url base version (search_base_sound [] url (base, version) (split_found h)),
  λ m.
      rw (m.url_eq, m.base_eq, append_assoc)
        (rw (
          search_base_complete [] m.front version m.rest m.front_line m.version_IsVersion
            m.rest_end)),
)
  where
    split_found :
        split_result url (search_base [] url) ≡ (base, version, true)
        → search_base [] url ≡ some (base, version)
    split_found h = elim (Option-cases (search_base [] url)) [
      | inl e ↦ absurd (ground arith)
      | inr (m, e) ↦ ground arith
    ]

ensure_trailing_slash-All :
    (P : ℕ → Type 0) (url : Text) → All P url → P b'/' → All P (ensure_trailing_slash url)
unfolding ensure_trailing_slash
ensure_trailing_slash-All P url h p = elim (Bool-cases (has_suffix url slash)) [
  | inl e ↦ rw e h
  | inr e ↦ rw e (All-append P url slash h (p, tt))
]

-- Splitting the URL that `AddAPIVersionToURL` makes of a base and a version gives that version
-- and the base with its slash, for every version and every base on one line.
pub split_versioned_url-add_api_version_to_url :
    (base version : Text)
    → All (λ c. c ≢ b'\n') base
    → IsVersion version
    → split_versioned_url (add_api_version_to_url base version)
      ≡ (ensure_trailing_slash base, version, true)
unfolding add_api_version_to_url
split_versioned_url-add_api_version_to_url base version l h =
    let (b, e) = (ensure_trailing_slash_lem base).0 in
    (split_versioned_url_iff _ _ version).1 (record {
      front = b;
      base_eq = e;
      front_line = All-left _ b slash (rw e at (ensure_trailing_slash-All _ base l (omega arith)));
      version_IsVersion = h;
      rest = slash;
      rest_end = inr refl;
      url_eq = rw (append_assoc, append_assoc, append_assoc);
    })
