-- ===== src/Text/Affix.antt =====
-- `str.startswith`, `str.endswith`, `in`, and slices.
use mojodns.Prelude.{ℕ, zero, suc, ◌-◌, Bool, true, false, ◌&&◌, ◌||◌, [], ◌∷◌, length, ◌==◌, ◌≟◌}
use mojodns.Text.Strip.{Text}

-- `s.startswith(p)`, the prefix first
unfoldable pub starts_with : Text → Text → Bool
starts_with [] s = true
starts_with (p ∷ ps) [] = false
starts_with (p ∷ ps) (x ∷ xs) = p == x && starts_with ps xs

unfoldable pub drop : ℕ → Text → Text
drop zero xs = xs
drop (suc n) [] = []
drop (suc n) (x ∷ xs) = drop n xs

unfoldable pub take : ℕ → Text → Text
take zero xs = []
take (suc n) [] = []
take (suc n) (x ∷ xs) = x ∷ take n xs

-- `s[:-n]` for a positive `n`
unfoldable pub drop_end : ℕ → Text → Text
unfolding take
drop_end n s = take (length s - n) s

-- `s.endswith(p)`, the suffix first: one of the tails of `s` is `p`
unfoldable pub ends_with : Text → Text → Bool
ends_with p [] = [] ≟ p
ends_with p (x ∷ xs) = (x ∷ xs) ≟ p || ends_with p xs

-- `p in s`
unfoldable pub is_infix : Text → Text → Bool
unfolding starts_with
is_infix p [] = starts_with p []
is_infix p (x ∷ xs) = starts_with p (x ∷ xs) || is_infix p xs
