-- ===== src/Zones/Import/Origin.antt =====
-- An origin in capitals is not found again among the names, which are lowered.
use mojodns.Prelude.{
  true, false, ◌&&◌, List, [], ◌∷◌, ◌++◌, All, Option, none, some, any, elem, ◌≟◌, ≟_iff, ◌≡◌, ◌≢◌,
  refl, subst, ◌⊎◌, inl, inr, Bool-cases,
}
use mojodns.Text.{Text, lower_char, drop_while_end, lower, is_empty, rstrip_char, codes}
use mojodns.Text.Trim.{lower-lower}
use mojodns.Pdns.Types.{Change}
use mojodns.Zones.Import.{
  ParseZone, Parsing, sets, dns_exception, uncaught, Parsed, zone_parse_error, raised, RdataSet,
  is_key, add_set, by_key, with_apex, has_text, dnssec_types, no_apex_error, from_parsing,
  origin_for, text_or, detect_origin, parse_zone_text,
}

-- The name of an rrset in lower case.
abbrev IsLower : Option Text → Type 0
IsLower none = Unit
IsLower (some n) = lower n ≡ n

abbrev Lowered : List Change → Type 0
Lowered = All (λ rr. IsLower rr.name)

add_set-Lowered : (s : RdataSet) (rrs : List Change) → Lowered rrs → Lowered (add_set s rrs)
unfolding add_set
add_set-Lowered s [] h = (lower-lower s.owner, tt)
add_set-Lowered s (rr ∷ rrs) h = elim (Bool-cases (is_key (lower s.owner) s.rtype rr)) [
  | inl e ↦ rw e (h.0, h.1)
  | inr e ↦ rw e (h.0, add_set-Lowered s rrs h.1)
]

by_key-Lowered : (ss : List RdataSet) (rrs : List Change) → Lowered rrs → Lowered (by_key ss rrs)
unfolding by_key
by_key-Lowered [] rrs h = h
by_key-Lowered (s ∷ ss) rrs h = elim (Bool-cases (elem s.rtype dnssec_types)) [
  | inl e ↦ rw e (by_key-Lowered ss rrs h)
  | inr e ↦ rw e (by_key-Lowered ss (add_set s rrs) (add_set-Lowered s rrs h))
]

named_otherwise :
    (origin rtype : Text) (rr : Change)
    → lower origin ≢ origin
    → IsLower rr.name
    → is_key origin rtype rr ≡ false
named_otherwise origin rtype rr h l = go rr.name l
  where
    differs : (n : Text) → lower n ≡ n → (n ≟ origin) ≡ true → ⊥
    differs n l e = h (subst (λ (t : Text). lower t ≡ t) ((≟_iff n origin).0 e) l)

    go :
        (name : Option Text)
        → IsLower name
        → (has_text origin name && has_text rtype rr.rtype) ≡ false
    go none l = refl
    go (some n) l = elim (Bool-cases (n ≟ origin)) [
      | inl e ↦ absurd (differs n l e)
      | inr e ↦ rw e refl
    ]

no_apex :
    (origin rtype : Text) (rrs : List Change)
    → lower origin ≢ origin
    → Lowered rrs
    → any (is_key origin rtype) rrs ≡ false
unfolding any
no_apex origin rtype [] h l = refl
no_apex origin rtype (rr ∷ rrs) h l =
    rw (named_otherwise origin rtype rr h l.0) (no_apex origin rtype rrs h l.1)

-- What is read under an origin in capitals ends without a zone.
abbrev Refused : Text → Parsing → Parsed → Type 0
Refused origin read result =
    ((ss : List RdataSet) × (read ≡ sets ss) × (result ≡ no_apex_error))
    ⊎ ((e : Text) × (read ≡ dns_exception e)
        × (result ≡ zone_parse_error (codes "zone file does not parse: " ++ e)))
    ⊎ ((read ≡ uncaught) × (result ≡ raised))

from_parsing-Refused :
    (origin : Text) (read : Parsing)
    → lower origin ≢ origin
    → Refused origin read (from_parsing origin read)
unfolding with_apex
from_parsing-Refused origin (sets ss) h =
    inl
      (ss, refl, rw (no_apex origin (codes "SOA") (by_key ss []) h (by_key-Lowered ss [] tt)) refl)
from_parsing-Refused origin (dns_exception e) h = inr (inl (e, refl, refl))
from_parsing-Refused origin uncaught h = inr (inr (refl, refl))

not_empty :
    (t : Text)
    → lower (rstrip_char b'.' t ++ b'.' ∷ []) ≢ rstrip_char b'.' t ++ b'.' ∷ []
    → is_empty t ≡ false
unfolding lower rstrip_char lower_char drop_while_end
not_empty [] h = absurd (h refl)
not_empty (c ∷ cs) h = refl

-- Zone text whose origin, as given or as found in the text, holds a capital letter never gives a zone. If
-- dnspython reads it, whatever its records are, the ZoneParseError says that there is no SOA record at the
-- apex; else it passes on the text of the DNSException, or the other exception leaves the function.
pub parse_zone_text-IsRefused :
    (parse : ParseZone) (text : Text) (name : Option Text)
    → let origin = rstrip_char b'.' (origin_for text name) ++ b'.' ∷ [] in
      let read = parse text (text_or (detect_origin text) origin) origin in
      let result = parse_zone_text parse text name in
      lower origin ≢ origin
      → ((ss : List RdataSet) × (read ≡ sets ss) × (result ≡ no_apex_error))
        ⊎ ((e : Text) × (read ≡ dns_exception e)
            × (result ≡ zone_parse_error (codes "zone file does not parse: " ++ e)))
        ⊎ ((read ≡ uncaught) × (result ≡ raised))
unfolding parse_zone_text
parse_zone_text-IsRefused parse text name h =
    let origin = rstrip_char b'.' (origin_for text name) ++ b'.' ∷ [] in
    rw (not_empty (origin_for text name) h)
      (from_parsing-Refused origin (parse text (text_or (detect_origin text) origin) origin) h)
