-- ===== src/Spf/Unquote.antt =====
-- Quoting a text for a TXT record and unquoting it.
use mojodns.Prelude.{
  ℕ, zero, suc, false, ◌&&◌, ◌||◌, [], ◌∷◌, ◌++◌, Option, none, some, any, length, ◌<◌, ◌==◌, ◌≡◌,
  ◌≢◌, ◌⊎◌, refl, ap, ◌∙◌, if◌then◌else◌, arith, append-nil,
}
use mojodns.Text.{Text, strip, replace_pair, replace_char, starts_with, ends_with, is_space}
use mojodns.Text.Trim.{starts, strip_id, ends-append_end}
use mojodns.DnsUtil.{escape_txt, quote_txt}
use mojodns.Spf.Quote.{prepend, quoted_body, quoted_parts, unescape, concat_parts, strip_txt}

-- What one character is escaped to.
abbrev escaped : ℕ → Text → Text
escaped c rest = if c == b'"' || c == b'\\' then b'\\' ∷ c ∷ rest else c ∷ rest

escape_txt-cons : (c : ℕ) (t : Text) → escape_txt (c ∷ t) ≡ escaped c (escape_txt t)
unfolding escape_txt replace_char
escape_txt-cons c t = ground arith

nonempty : (t : Text) (c : ℕ) → t ++ c ∷ [] ≢ []
nonempty [] c h = cc
nonempty (x ∷ t) c h = cc

-- A plain character belongs to the quoted text.
quoted_body_plain :
    (c : ℕ) (r : Text)
    → (c == b'"') ≡ false
    → (c == b'\\') ≡ false
    → r ≢ []
    → quoted_body (c ∷ r) ≡ prepend c (quoted_body r)
unfolding quoted_body
quoted_body_plain c [] h k e = absurd (e refl)
quoted_body_plain c (d ∷ r) h k e = rw h (rw k refl)

-- A backslash takes the next character with it.
quoted_body_escaped :
    (c : ℕ) (r : Text)
    → (c == 10) ≡ false
    → quoted_body (b'\\' ∷ c ∷ r) ≡ prepend b'\\' (prepend c (quoted_body r))
unfolding quoted_body
quoted_body_escaped c r h = rw h refl

quoted_body_end : quoted_body (b'"' ∷ []) ≡ some ([], [])
unfolding quoted_body
quoted_body_end = refl

escape_txt_nil : escape_txt [] ≡ []
unfolding escape_txt replace_char
escape_txt_nil = refl

quoted_body-escape_txt :
    (t : Text) → quoted_body (escape_txt t ++ b'"' ∷ []) ≡ some (escape_txt t, [])
quoted_body-escape_txt [] = rw escape_txt_nil quoted_body_end
quoted_body-escape_txt (c ∷ t) = rw (escape_txt-cons c t) (
    ground (
      arith,
      quoted_body-escape_txt t,
      quoted_body_plain c (escape_txt t ++ b'"' ∷ []),
      quoted_body_escaped c (escape_txt t ++ b'"' ∷ []),
      nonempty (escape_txt t) b'"',
    ))

-- No escaped text begins with a quote.
starts-escape_txt : (t : Text) → starts (λ x. x == b'"') (escape_txt t) ≡ false
starts-escape_txt [] = rw escape_txt_nil refl
starts-escape_txt (c ∷ t) = rw (escape_txt-cons c t) (ground arith)

-- Removing the backslashes of quotes leaves the doubled ones.
abbrev doubled : Text → Text
doubled t = replace_char b'\\' (b'\\' ∷ b'\\' ∷ []) t

unquote_quote :
    (r : Text)
    → replace_pair b'\\' b'"' (b'"' ∷ []) (b'\\' ∷ b'"' ∷ r)
      ≡ b'"' ∷ replace_pair b'\\' b'"' (b'"' ∷ []) r
unfolding replace_pair
unquote_quote r = refl

unquote_other :
    (c : ℕ) (r : Text)
    → ((c == b'\\') ≡ false) ⊎ (starts (λ x. x == b'"') r ≡ false)
    → replace_pair b'\\' b'"' (b'"' ∷ []) (c ∷ r) ≡ c ∷ replace_pair b'\\' b'"' (b'"' ∷ []) r
unfolding replace_pair
unquote_other c [] h = refl
unquote_other c (d ∷ r) h = ground arith

unquote_nil : replace_pair b'\\' b'"' (b'"' ∷ []) [] ≡ []
unfolding replace_pair
unquote_nil = refl

halve_nil : replace_pair b'\\' b'\\' (b'\\' ∷ []) [] ≡ []
unfolding replace_pair
halve_nil = refl

unquote-escape_txt : (t : Text) → replace_pair b'\\' b'"' (b'"' ∷ []) (escape_txt t) ≡ doubled t
unfolding replace_char
unquote-escape_txt [] = rw escape_txt_nil unquote_nil
unquote-escape_txt (c ∷ t) = rw (escape_txt-cons c t) (
    ground (
      arith,
      unquote-escape_txt t,
      starts-escape_txt t,
      unquote_quote (escape_txt t),
      unquote_other c (escape_txt t),
      unquote_other b'\\' (c ∷ escape_txt t),
    ))

halve_pair :
    (r : Text)
    → replace_pair b'\\' b'\\' (b'\\' ∷ []) (b'\\' ∷ b'\\' ∷ r)
      ≡ b'\\' ∷ replace_pair b'\\' b'\\' (b'\\' ∷ []) r
unfolding replace_pair
halve_pair r = refl

halve_other :
    (c : ℕ) (r : Text)
    → (c == b'\\') ≡ false
    → replace_pair b'\\' b'\\' (b'\\' ∷ []) (c ∷ r) ≡ c ∷ replace_pair b'\\' b'\\' (b'\\' ∷ []) r
unfolding replace_pair
halve_other c [] h = refl
halve_other c (d ∷ r) h = rw h refl

halve-doubled : (t : Text) → replace_pair b'\\' b'\\' (b'\\' ∷ []) (doubled t) ≡ t
unfolding replace_char
halve-doubled [] = halve_nil
halve-doubled (c ∷ t) =
    ground (arith, halve-doubled t, halve_pair (doubled t), halve_other c (doubled t))

unescape-escape_txt : (t : Text) → unescape (escape_txt t) ≡ t
unescape-escape_txt t =
    ap (replace_pair b'\\' b'\\' (b'\\' ∷ [])) (unquote-escape_txt t) ∙ halve-doubled t

-- What the scan finds of one quoted string that is the whole text.
quoted_parts_whole :
    (n : ℕ) (body r : Text)
    → quoted_body r ≡ some (body, [])
    → quoted_parts (suc n) (b'"' ∷ r) ≡ body ∷ []
unfolding quoted_parts
quoted_parts_whole zero body r e = rw e refl
quoted_parts_whole (suc n) body r e = rw e refl

strip_quoted : (t : Text) → strip (b'"' ∷ (t ++ b'"' ∷ [])) ≡ b'"' ∷ (t ++ b'"' ∷ [])
unfolding is_space
strip_quoted t = strip_id _ refl (ends-append_end is_space (b'"' ∷ t) b'"')

-- Unquoting what `quote_txt` writes gives the text back, stripped, whatever quotes and backslashes it
-- holds, unless it already begins and ends with a quote.
pub strip_txt-quote_txt :
    (t : Text)
    → (starts_with (b'"' ∷ []) (strip t) && ends_with (b'"' ∷ []) (strip t)) ≡ false
    → strip_txt (quote_txt t) ≡ strip t
unfolding strip_txt quote_txt any concat_parts
strip_txt-quote_txt t h = rw h (
    rw (strip_quoted (escape_txt (strip t))) (
      rw
        (quoted_parts_whole (length (escape_txt (strip t) ++ b'"' ∷ [])) (escape_txt (strip t)) _
          (quoted_body-escape_txt (strip t)))
        (append-nil _ ∙ unescape-escape_txt (strip t))))

-- What follows a quoted string is shorter than `n`.
abbrev Shorter : ℕ → Option (Text × Text) → Type 0
Shorter n none = Unit
Shorter n (some (body, rest)) = length rest < n
