-- ===== src/Text/Strip.antt =====
-- `str.strip`, `str.rstrip`, `str.lstrip`.
use mojodns.Prelude.{ℕ, Bool, ◌||◌, ◌&&◌, List, [], ◌∷◌, leb, ◌==◌, if◌then◌else◌}

abbrev pub Text : Type 0
Text = List ℕ

-- `str.isspace` of one character.
unfoldable pub is_space : ℕ → Bool
is_space c =
    (leb 9 c && leb c 13)
    || (leb 28 c && leb c 32)
    || c == 0x85
    || c == 0xa0
    || c == 0x1680
    || (leb 0x2000 c && leb c 0x200a)
    || c == 0x2028
    || c == 0x2029
    || c == 0x202f
    || c == 0x205f
    || c == 0x3000

unfoldable pub drop_while : (ℕ → Bool) → Text → Text
drop_while p [] = []
drop_while p (x ∷ xs) = if p x then drop_while p xs else x ∷ xs

-- One element in front of what is left of the rest.
unfoldable pub keep_end : (ℕ → Bool) → ℕ → Text → Text
keep_end p x [] = if p x then [] else x ∷ []
keep_end p x (y ∷ ys) = x ∷ y ∷ ys

unfoldable pub drop_while_end : (ℕ → Bool) → Text → Text
unfolding keep_end
drop_while_end p [] = []
drop_while_end p (x ∷ xs) = keep_end p x (drop_while_end p xs)

-- `s.strip()`
unfoldable pub strip : Text → Text
unfolding drop_while drop_while_end is_space
strip t = drop_while_end is_space (drop_while is_space t)

-- `s.strip(c)`, `s.rstrip(c)`, `s.lstrip(c)` for one character
unfoldable pub strip_char : ℕ → Text → Text
unfolding drop_while drop_while_end
strip_char c t = drop_while_end (λ x. x == c) (drop_while (λ x. x == c) t)

unfoldable pub rstrip_char : ℕ → Text → Text
unfolding drop_while_end
rstrip_char c t = drop_while_end (λ x. x == c) t

unfoldable pub lstrip_char : ℕ → Text → Text
unfolding drop_while
lstrip_char c t = drop_while (λ x. x == c) t
