-- ===== src/Text/Number.antt =====
-- `str(n)` and `int(s)` for integers in decimal.
use mojodns.Prelude.{
  ℕ, zero, suc, ◌+◌, ◌-◌, ◌*◌, ◌/◌, ◌%◌, Bool, true, false, ◌&&◌, [], ◌∷◌, Option, none, some, ltb,
  leb, ◌==◌, if◌then◌else◌,
}
use mojodns.Text.Strip.{Text, strip}

-- `negsuc n` is -(n + 1)
pub data ℤ : Type 0 where
  pos : ℕ → ℤ
  negsuc : ℕ → ℤ

unfoldable pub is_digit : ℕ → Bool
is_digit c = leb b'0' c && leb c b'9'

-- The decimal digits of `n` in front of `out`; `n + 1` units of fuel are enough.
unfoldable pub digits_from : ℕ → ℕ → Text → Text
digits_from zero n out = out
digits_from (suc fuel) n out =
    let more = digits_from fuel (n / 10) ((b'0' + n % 10) ∷ out) in
    if ltb n 10 then (b'0' + n) ∷ out else more

unfoldable pub show_nat : ℕ → Text
unfolding digits_from
show_nat n = digits_from (suc n) n []

unfoldable pub show_int : ℤ → Text
unfolding show_nat
show_int (pos n) = show_nat n
show_int (negsuc n) = b'-' ∷ show_nat (suc n)

-- The digits that are left, behind a value `acc`; `seen` says that a digit stands right before them.
-- An underscore may stand between two digits.
unfoldable pub scan : Text → ℕ → Bool → Option ℕ
unfolding is_digit
scan [] acc true = some acc
scan [] acc false = none
scan (c ∷ s) acc seen =
    let digit = scan s (acc * 10 + (c - b'0')) true in
    let gap = scan s acc false in
    if is_digit c then digit else if c == b'_' && seen then gap else none

unfoldable pub parse_nat : Text → Option ℕ
unfolding scan
parse_nat s = scan s 0 false

abbrev negate : ℕ → ℤ
negate zero = pos 0
negate (suc n) = negsuc n

abbrev signed : (ℕ → ℤ) → Option ℕ → Option ℤ
signed f none = none
signed f (some n) = some (f n)

unfoldable pub parse_sign : Text → Option ℤ
unfolding parse_nat
parse_sign [] = none
parse_sign (c ∷ s) =
    if c == b'-'
    then signed negate (parse_nat s)
    else if c == b'+'
    then signed pos (parse_nat s)
    else signed pos (parse_nat (c ∷ s))

-- `int(s)`; `none` is a ValueError
unfoldable pub parse_int : Text → Option ℤ
unfolding parse_sign strip
parse_int s = parse_sign (strip s)
