-- ===== src/Text/Case.antt =====
-- `str.lower` and `str.upper` on the ASCII letters.
use mojodns.Prelude.{ℕ, ◌+◌, ◌-◌, ◌&&◌, leb, map, if◌then◌else◌}
use mojodns.Text.Strip.{Text}

unfoldable pub lower_char : ℕ → ℕ
lower_char c = if leb b'A' c && leb c b'Z' then c + 32 else c

unfoldable pub upper_char : ℕ → ℕ
upper_char c = if leb b'a' c && leb c b'z' then c - 32 else c

unfoldable pub lower : Text → Text
unfolding lower_char
lower t = map lower_char t

unfoldable pub upper : Text → Text
unfolding upper_char
upper t = map upper_char t
