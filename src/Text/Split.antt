-- ===== src/Text/Split.antt =====
-- `strings.Split` by one character, and `strings.LastIndex` of one.
use go_im_system.Prelude.{ℕ, List, [], ◌∷◌, Option, none, some, ◌==◌, if◌then◌else◌}
use go_im_system.Text.{Text}

-- The parts, the first given apart.
unfoldable pub split_at : ℕ → Text → Text × List Text
split_at c [] = ([], [])
split_at c (d ∷ t) =
    let rest = split_at c t in if d == c then ([], rest.0 ∷ rest.1) else (d ∷ rest.0, rest.1)

unfoldable pub split : ℕ → Text → List Text
unfolding split_at
split c t = (split_at c t).0 ∷ (split_at c t).1

abbrev before_last : ℕ → ℕ → Text → Option (Text × Text) → Option (Text × Text)
before_last c d t (some (s, u)) = some (d ∷ s, u)
before_last c d t none = if d == c then some ([], t) else none

-- What stands before the last `c` and after it, if there is one.
unfoldable pub cut_last : ℕ → Text → Option (Text × Text)
cut_last c [] = none
cut_last c (d ∷ t) = before_last c d t (cut_last c t)
