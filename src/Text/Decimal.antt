-- ===== src/Text/Decimal.antt =====
-- `int(str(n))` is `n`.
use mojodns.Prelude.{
  ℕ, zero, suc, ◌+◌, ◌*◌, ◌/◌, ◌%◌, ◌<◌, Bool, true, false, ◌≡◌, refl, [], ◌∷◌, some, arith, ◌∙◌,
}
use mojodns.Text.Strip.{Text, is_space}
use mojodns.Text.Split.{is_empty}
use mojodns.Text.Number.{
  ℤ, pos, negsuc, is_digit, digits_from, show_nat, show_int, scan, parse_nat, parse_sign, parse_int,
}
use mojodns.Text.Pieces.{IsWord}
use mojodns.Text.Trim.{Lacks, strip-Lacks}

-- A digit in front adds to the value on its left.
scan_digit :
    (d acc : ℕ) (s : Text) (seen : Bool)
    → d < 10
    → scan ((b'0' + d) ∷ s) acc seen ≡ scan s (acc * 10 + d) true
unfolding scan
scan_digit d acc s seen h = ground arith

-- Reading the digits of `n` from a value 0 leads to `n`, whatever stands behind them.
pub scan-digits_from :
    (fuel n : ℕ) (out : Text) → n < fuel → scan (digits_from fuel n out) 0 false ≡ scan out n true
unfolding digits_from
scan-digits_from zero n out h = elim h [ ]
scan-digits_from (suc fuel) n out h = ground (
  arith,
  scan_digit n 0 out false,
  scan-digits_from fuel (n / 10) ((b'0' + n % 10) ∷ out),
  scan_digit (n % 10) (n / 10) out true,
)

pub parse_nat-show_nat : (n : ℕ) → parse_nat (show_nat n) ≡ some n
unfolding parse_nat show_nat
parse_nat-show_nat n = scan-digits_from (suc n) n [] (omega arith) ∙ (unfold scan in refl)

digit_cases : (d : ℕ) → d < 10 → is_space (b'0' + d) ≡ false
unfolding is_space
digit_cases d h = ground arith

-- Digits are no white space.
digits_from-Lacks :
    (fuel n : ℕ) (out : Text) → Lacks is_space out → Lacks is_space (digits_from fuel n out)
unfolding digits_from
digits_from-Lacks zero n out h = h
digits_from-Lacks (suc fuel) n out h = ground (
  arith,
  digit_cases n,
  digit_cases (n % 10),
  digits_from-Lacks fuel (n / 10) ((b'0' + n % 10) ∷ out),
)

-- The head is a digit, so neither a sign nor nothing.
abbrev digit_first : Text → Bool
digit_first [] = false
digit_first (c ∷ s) = is_digit c

digits_from_first :
    (fuel n : ℕ) (out : Text) → n < fuel → digit_first (digits_from fuel n out) ≡ true
unfolding digits_from is_digit
digits_from_first zero n out h = elim h [ ]
digits_from_first (suc fuel) n out h =
    ground (arith, digits_from_first fuel (n / 10) ((b'0' + n % 10) ∷ out))

pub show_nat-IsWord : (n : ℕ) → IsWord (show_nat n)
unfolding show_nat
show_nat-IsWord n = (
  not_empty (digits_from (suc n) n []) (digits_from_first (suc n) n [] (omega arith)),
  digits_from-Lacks (suc n) n [] tt,
)
  where
    not_empty : (t : Text) → digit_first t ≡ true → is_empty t ≡ false
    not_empty [] h = cc
    not_empty (c ∷ s) h = refl

unsigned :
    (t : Text) (n : ℕ) → digit_first t ≡ true → parse_nat t ≡ some n → parse_sign t ≡ some (pos n)
unfolding parse_sign is_digit
unsigned [] n h k = cc
unsigned (c ∷ s) n h k = ground arith

pub show_int-IsWord : (z : ℤ) → IsWord (show_int z)
unfolding show_int is_space
show_int-IsWord (pos n) = show_nat-IsWord n
show_int-IsWord (negsuc n) = (refl, (refl, (show_nat-IsWord (suc n)).1))

parse_sign-show_int : (z : ℤ) → parse_sign (show_int z) ≡ some z
unfolding show_int
parse_sign-show_int (pos n) =
    unsigned (show_nat n) n (unfold show_nat in digits_from_first (suc n) n [] (omega arith))
      (parse_nat-show_nat n)
parse_sign-show_int (negsuc n) = unfold parse_sign in rw (parse_nat-show_nat (suc n)) refl

-- Every integer is read back from its decimal text.
pub parse_int-show_int : (z : ℤ) → parse_int (show_int z) ≡ some z
unfolding parse_int
parse_int-show_int z = rw (strip-Lacks (show_int z) (show_int-IsWord z).1) (parse_sign-show_int z)
