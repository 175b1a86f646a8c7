-- ===== src/Strings/Counts.antt =====
-- How often a string is in a list of strings.
use gomaasapi.Prelude.{
  ℕ, ◌+◌, ◌≡◌, arith, List, [], ◌∷◌, ◌++◌, if◌then◌else◌, ◌==◌, nat_eq, list_eq,
}
use gomaasapi.Strings.{Text}

abbrev pub times : Text → List Text → ℕ
times s [] = 0
times s (t ∷ l) = let rest = times s l in if t == s then rest + 1 else rest

pub times-append : (s : Text) (l r : List Text) → times s (l ++ r) ≡ times s l + times s r
times-append s [] r = omega arith
times-append s (t ∷ l) r = ground (arith, times-append s l r)
