-- ===== src/Text/Split.antt =====
-- `str.split`, `str.partition`, `str.join`, `str.replace`.
use mojodns.Prelude.{
  ℕ, Bool, true, false, not, ◌&&◌, List, [], ◌∷◌, ◌++◌, filter, ◌==◌, if◌then◌else◌,
}
use mojodns.Text.Strip.{Text, is_space}

-- One character in front of the first part.
unfoldable pub onto_head : ℕ → List Text → List Text
onto_head x [] = (x ∷ []) ∷ []
onto_head x (p ∷ ps) = (x ∷ p) ∷ ps

-- The parts between the characters that pass the test: at least one part, and parts may be empty.
unfoldable pub split_by : (ℕ → Bool) → Text → List Text
unfolding onto_head
split_by p [] = [] ∷ []
split_by p (x ∷ xs) = let rest = split_by p xs in if p x then [] ∷ rest else onto_head x rest

-- `s.split(c)`
unfoldable pub split : ℕ → Text → List Text
unfolding split_by
split c t = split_by (λ x. x == c) t

abbrev pub is_empty : Text → Bool
is_empty [] = true
is_empty (x ∷ xs) = false

-- `s.split()`: the non-empty parts between white space
unfoldable pub split_words : Text → List Text
unfolding split_by is_space filter
split_words t = filter (λ w. not (is_empty w)) (split_by is_space t)

-- `sep.join(parts)`
unfoldable pub join : Text → List Text → Text
join sep [] = []
join sep (p ∷ []) = p
join sep (p ∷ q ∷ ps) = p ++ (sep ++ join sep (q ∷ ps))

-- `s.partition(c)`: what stands before the first `c`, whether there is one, and what stands after it
unfoldable pub partition : ℕ → Text → Text × Bool × Text
partition c [] = ([], false, [])
partition c (x ∷ xs) =
    let (before, found, after) = partition c xs in
    if x == c then ([], true, xs) else (x ∷ before, found, after)

-- `s.replace(ab, r)` for a two-character pattern `ab` with two different characters or the same one
-- twice: scans from the left and resumes behind each match
unfoldable pub replace_pair : ℕ → ℕ → Text → Text → Text
replace_pair a b r [] = []
replace_pair a b r (x ∷ []) = x ∷ []
replace_pair a b r (x ∷ y ∷ ys) =
    let behind = replace_pair a b r ys in
    let next = replace_pair a b r (y ∷ ys) in if x == a && y == b then r ++ behind else x ∷ next

-- `s.replace(c, r)` for a one-character pattern
unfoldable pub replace_char : ℕ → Text → Text → Text
replace_char c r [] = []
replace_char c r (x ∷ xs) = let rest = replace_char c r xs in if x == c then r ++ rest else x ∷ rest
