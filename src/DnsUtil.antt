-- ===== src/DnsUtil.antt =====
-- app/mojodns/dnsutil.py: record contents in the form that PowerDNS wants. A UI field is a text; the
-- record type is a text too, as the forms send it.
pub mod Soa
pub mod Rows
pub mod Order
use mojodns.Prelude.{
  ℕ, suc, Bool, true, false, ◌&&◌, ◌||◌, not, List, [], ◌∷◌, ◌++◌, Option, none, some, elem, ◌≟◌,
  if◌then◌else◌, length, leb,
}
use mojodns.Text.{
  Text, codes, ℤ, pos, strip, split_words, join, partition, replace_char, show_int, parse_int,
  starts_with, ends_with,
}

abbrev pub prio_types : List Text
prio_types = codes "MX" ∷ codes "SRV" ∷ []

abbrev pub hostname_types : List Text
hostname_types = codes "CNAME" ∷ codes "NS" ∷ codes "PTR" ∷ codes "MX" ∷ codes "SRV" ∷ []

unfoldable pub dotted : Text → Text
dotted host =
    let host' = strip host in if ends_with (b'.' ∷ []) host' then host' else host' ++ b'.' ∷ []

-- Backslashes are doubled first, then each quote gets one in front.
unfoldable pub escape_txt : Text → Text
escape_txt content =
    replace_char b'"' (b'\\' ∷ b'"' ∷ []) (replace_char b'\\' (b'\\' ∷ b'\\' ∷ []) content)

unfoldable pub quote_txt : Text → Text
quote_txt content =
    let content' = strip content in
    if starts_with (b'"' ∷ []) content' && ends_with (b'"' ∷ []) content'
    then content'
    else b'"' ∷ (escape_txt content' ++ b'"' ∷ [])

-- `parts[-1] = dotted(parts[-1])`, if there is a part
unfoldable pub dot_last : List Text → List Text
dot_last [] = []
dot_last (p ∷ []) = dotted p ∷ []
dot_last (p ∷ q ∷ ps) = p ∷ dot_last (q ∷ ps)

-- `prio or 0`
abbrev pub prio_or_zero : Option ℤ → ℤ
prio_or_zero none = pos 0
prio_or_zero (some p) = p

unfoldable pub build_content : Text → Text → Option ℤ → Text
build_content rtype data' prio =
    let body = strip data' in
    if rtype ≟ codes "TXT"
    then quote_txt body
    else if elem rtype hostname_types && not (elem rtype prio_types)
    then dotted body
    else if rtype ≟ codes "MX"
    then show_int (prio_or_zero prio) ++ (b' ' ∷ dotted body)
    else if rtype ≟ codes "SRV"
    then show_int (prio_or_zero prio) ++ (b' ' ∷ join (b' ' ∷ []) (dot_last (split_words body)))
    else body

-- `int(first), rest`, or `None, content` where `first` is no integer
abbrev pub prio_of : Option ℤ → Text → Text → Option ℤ × Text
prio_of (some p) rest content = (some p, rest)
prio_of none rest content = (none, content)

unfoldable pub split_prio : Text → Text → Option ℤ × Text
split_prio rtype content =
    let (first, found, rest) = partition b' ' content in
    if elem rtype prio_types then prio_of (parse_int first) rest content else (none, content)
