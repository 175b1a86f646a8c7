-- ===== src/Strings.antt =====
-- Go strings as lists of bytes, and the functions of the `strings` package that the program calls.
pub mod Counts
pub mod Trim
pub mod Decimal
pub mod Split
use Prim.Native.Char.{code}
use Prim.Native.String
use gomaasapi.Prelude.{
  ℕ, String, ◌≡◌, refl, Bool, true, false, ◌||◌, List, [], ◌∷◌, ◌++◌, if◌then◌else◌, ◌==◌, nat_eq,
  list_eq,
}

abbrev pub Text : Type 0
Text = List ℕ

-- The bytes of a literal (all literals of the program are ASCII). It stays shut in proofs.
unfoldable pub codes : String → Text
codes String.[] = []
codes (String.◌∷◌ c s) = code c ∷ codes s

abbrev pub slash : Text
slash = b'/' ∷ []

-- strings.HasSuffix
unfoldable pub has_suffix : Text → Text → Bool
has_suffix [] t = t == []
has_suffix (c ∷ s) t = (t == c ∷ s) || has_suffix s t

-- strings.HasPrefix
unfoldable pub has_prefix : Text → Text → Bool
has_prefix s [] = true
has_prefix [] (d ∷ t) = false
has_prefix (c ∷ s) (d ∷ t) = if c == d then has_prefix s t else false

-- strings.TrimLeft and strings.TrimRight, at a cutset of one byte
unfoldable pub trim_left : Text → ℕ → Text
trim_left [] d = []
trim_left (c ∷ s) d = if c == d then trim_left s d else c ∷ s

-- `c` in front of what is left of the bytes behind it
trim_cons : ℕ → ℕ → Text → Text
trim_cons d c [] = if c == d then [] else c ∷ []
trim_cons d c (e ∷ s) = c ∷ e ∷ s

unfoldable pub trim_right : Text → ℕ → Text
unfolding trim_cons
trim_right [] d = []
trim_right (c ∷ s) d = trim_cons d c (trim_right s d)

-- The parts closed so far are kept by the caller; `cur` is the part that is being read.
split_from : ℕ → Text → Text → List Text
split_from sep cur [] = cur ∷ []
split_from sep cur (c ∷ s) =
    let closed = cur ∷ split_from sep [] s in
    let longer = split_from sep (cur ++ c ∷ []) s in if c == sep then closed else longer

-- strings.Split, at a separator of one byte
unfoldable pub split : Text → ℕ → List Text
unfolding split_from
split s sep = split_from sep [] s

-- strings.Join
unfoldable pub join : List Text → Text → Text
join [] sep = []
join (p ∷ []) sep = p
join (p ∷ q ∷ ps) sep = p ++ sep ++ join (q ∷ ps) sep
