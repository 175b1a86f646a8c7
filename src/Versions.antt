-- ===== src/Versions.antt =====
-- Versions of the API: the fields of `version.Number` of github.com/juju/version that the program
-- sets.
use gomaasapi.Prelude.{ℕ, Bool, ◌||◌, ◌&&◌, ◌==◌, nat_eq, ltb, leb}

pub record Version : Type 0 where
  pub major : ℕ
  pub minor : ℕ

-- version.Zero
abbrev pub zero_version : Version
zero_version = record { major = 0; minor = 0 }

-- twoDotOh
abbrev pub two_dot_oh : Version
two_dot_oh = record { major = 2; minor = 0 }

-- The order of versions: by the major number, and then by the minor one.
abbrev pub version_leb : Version → Version → Bool
version_leb v w = ltb v.major w.major || (v.major == w.major && leb v.minor w.minor)

abbrev pub version_beq : Version → Version → Bool
version_beq v w = v.major == w.major && v.minor == w.minor
