-- ===== src/Text.antt =====
-- Python's `str`, as far as the program uses it. A text is the list of its code points. Upper and
-- lower case are those of the ASCII letters: every other character is its own case.
mod Strip
mod Split
mod Case
mod Number
pub mod Trim
pub mod Pieces
pub mod Decimal
use Prim.Native.Char.{code}
use Prim.Native.String.{String}
use mojodns.Prelude.{ℕ, List, ◌∷◌, []}
unfoldable pub use Strip.{
  drop_while, drop_while_end, is_space, strip, strip_char, rstrip_char, lstrip_char,
}
unfoldable pub use Split.{
  is_empty, split_by, split, split_words, join, partition, replace_pair, replace_char,
}
unfoldable pub use Case.{lower_char, upper_char, lower, upper}
unfoldable pub use Number.{is_digit, show_nat, show_int, parse_nat, parse_int, digits_from, scan}
unfoldable pub use Affix.{starts_with, ends_with, is_infix, drop, drop_end, take}
mod Affix
pub use Number.{ℤ, pos, negsuc}
pub use Strip.{Text}

-- The code points of a literal.
abbrev pub codes : String → List ℕ
codes String.[] = []
codes (String.◌∷◌ c s) = code c ∷ codes s
