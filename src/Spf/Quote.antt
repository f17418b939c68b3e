-- ===== src/Spf/Quote.antt =====
-- `strip_txt`, which undoes `quote_txt` of app/mojodns/dnsutil.py.
use mojodns.Prelude.{
  ℕ, zero, suc, List, [], ◌∷◌, ◌++◌, Option, none, some, any, length, ◌==◌, if◌then◌else◌,
}
use mojodns.Text.{Text, strip, replace_pair}

abbrev pub prepend : ℕ → Option (Text × Text) → Option (Text × Text)
prepend c none = none
prepend c (some (body, rest)) = some (c ∷ body, rest)

-- What is quoted, behind its opening quote, and what follows the closing one; a backslash takes the
-- next character with it, unless that ends the line.
unfoldable pub quoted_body : Text → Option (Text × Text)
quoted_body [] = none
quoted_body (c ∷ []) = if c == b'"' then some ([], []) else none
quoted_body (c ∷ d ∷ cs) =
    let next = quoted_body (d ∷ cs) in
    let behind = quoted_body cs in
    if c == b'"'
    then some ([], d ∷ cs)
    else if c == b'\\'
    then (if d == 10 then none else prepend c (prepend d behind))
    else prepend c next

-- `re.findall` of quoted strings: after a match it goes on behind it, otherwise one character
-- further; each step shortens the text.
unfoldable pub quoted_parts : ℕ → Text → List Text
quoted_parts zero t = []
quoted_parts (suc n) [] = []
quoted_parts (suc n) (c ∷ cs) =
    let skip = quoted_parts n cs in
    let behind = λ (m : Text × Text). m.0 ∷ quoted_parts n m.1 in
    if c == b'"' then elim (quoted_body cs) [ none ↦ skip | some m ↦ behind m ] else skip

abbrev pub unescape : Text → Text
unescape p = replace_pair b'\\' b'\\' (b'\\' ∷ []) (replace_pair b'\\' b'"' (b'"' ∷ []) p)

-- `"".join(…)` of the parts, if there are any
unfoldable pub concat_parts : List Text → Text
concat_parts [] = []
concat_parts (p ∷ ps) = unescape p ++ concat_parts ps

abbrev pub parts_or : List Text → Text → Text
parts_or [] c = c
parts_or (p ∷ ps) c = concat_parts (p ∷ ps)

unfoldable pub strip_txt : Text → Text
strip_txt content =
    let c = strip content in
    if any (λ x. x == b'"') c then parts_or (quoted_parts (length c) c) c else c
