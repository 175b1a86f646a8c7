-- ===== src/Tests/Urls.antt =====
-- URLs, parameters and texts.
use gomaasapi.Prelude.{◌≡◌, refl, ◌↔◌, true, [], ◌∷◌, arith, nat_eq, list_eq}
use gomaasapi.Strings.{Text, codes}
use gomaasapi.Url.{ensure_trailing_slash, add_api_version_to_url, split_versioned_url}
use gomaasapi.Url.Pattern.{IsVersion, Matches}
use gomaasapi.Url.Versioned.{split_versioned_url_iff, split_versioned_url-add_api_version_to_url}

split_versioned_url_iff_example :
    (split_versioned_url (codes "http://maas/api/2.0/") ≡ (codes "http://maas/", codes "2.0", true))
    ↔ Matches (codes "http://maas/api/2.0/") (codes "http://maas/") (codes "2.0")
split_versioned_url_iff_example =
    split_versioned_url_iff (codes "http://maas/api/2.0/") (codes "http://maas/") (codes "2.0")

split_run :
    split_versioned_url (codes "http://maas/api/2.0/") ≡ (codes "http://maas/", codes "2.0", true)
unfolding split_versioned_url codes list_eq nat_eq
split_run = refl

abbrev two_zero : Text
two_zero = b'2' ∷ b'.' ∷ b'0' ∷ []

two_zero-IsVersion : IsVersion two_zero
two_zero-IsVersion = record {
  major = b'2' ∷ [];
  minor = b'0' ∷ [];
  major_Digits = ((λ e. cc), (refl, tt));
  minor_Digits = ((λ e. cc), (refl, tt));
  eq = refl;
}

split_versioned_url-add_api_version_to_url_example :
    split_versioned_url (add_api_version_to_url (b'x' ∷ []) two_zero)
    ≡ (ensure_trailing_slash (b'x' ∷ []), two_zero, true)
split_versioned_url-add_api_version_to_url_example =
    split_versioned_url-add_api_version_to_url (b'x' ∷ []) two_zero (omega arith, tt)
      two_zero-IsVersion
