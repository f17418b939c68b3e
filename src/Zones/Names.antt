-- ===== src/Zones/Names.antt =====
-- Names in forms and names of records, and what all handlers share.
use mojodns.Prelude.{
  ℕ, Bool, false, not, ◌&&◌, ◌||◌, List, [], ◌∷◌, ◌++◌, all, leb, length, ◌==◌, ◌≟◌, if◌then◌else◌,
}
use mojodns.Text.{
  Text, codes, strip, rstrip_char, ends_with, starts_with, split, drop_end, is_empty, is_digit,
}
use mojodns.Pdns.{canonical}
use mojodns.Idn.{Idna, to_ascii, to_unicode}
use mojodns.Http.{Response, Settings, redirect}
use mojodns.Notifier.{Lookup}

-- What the handlers use of the outside, but for the PowerDNS server.
pub record Env : Type 0 where
  pub settings : Settings
  pub idna : Idna
  pub dns : Lookup

unfoldable pub rel_name : Idna → Text → Text → Text
rel_name idna name zone =
    let bare = rstrip_char b'.' name in
    let zbare = rstrip_char b'.' zone in
    if bare ≟ zbare
    then codes "@"
    else to_unicode idna
        (if ends_with (b'.' ∷ zbare) bare then drop_end (length (b'.' ∷ zbare)) bare else bare)

unfoldable pub fqdn : Idna → Text → Text → Text
fqdn idna host zone =
    let h = strip host in
    if h ≟ codes "@" || is_empty h
    then canonical zone
    else canonical (to_ascii idna h ++ b'.' ∷ rstrip_char b'.' zone)

-- One label of the pattern of `_valid_zone_name`.
abbrev zone_char : ℕ → Bool
zone_char c = (leb b'a' c && leb c b'z') || is_digit c || c == b'_'

unfoldable pub is_zone_label : Text → Bool
is_zone_label l =
    not (is_empty l)
    && leb (length l) 63
    && all (λ c. zone_char c || c == b'-') l
    && not (starts_with (b'-' ∷ []) l)
    && not (ends_with (b'-' ∷ []) l)

-- One or more labels, each with a dot behind it.
unfoldable pub zone_labels : List Text → Bool
zone_labels [] = false
zone_labels (l ∷ []) = false
zone_labels (l ∷ [] ∷ []) = is_zone_label l
zone_labels (l ∷ (c ∷ cs) ∷ []) = false
zone_labels (l ∷ m ∷ n ∷ ls) = is_zone_label l && zone_labels (m ∷ n ∷ ls)

unfoldable pub valid_zone_name : Text → Bool
valid_zone_name zone = zone_labels (split b'.' zone)

abbrev pub zone_url : Text → Text
zone_url zone = codes "/zones/" ++ rstrip_char b'.' zone

abbrev pub edit_page : Text → Response
edit_page zone = redirect (zone_url zone ++ codes "/edit")

abbrev pub zone_page : Text → Response
zone_page zone = redirect (zone_url zone)

abbrev pub zones_page : Response
zones_page = redirect (codes "/zones")
