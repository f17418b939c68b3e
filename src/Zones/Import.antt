-- ===== src/Zones/Import.antt =====
-- Importing zone text: app/mojodns/axfr.py and the handler. What dnspython makes of a text is a parameter.
pub mod Origin
use mojodns.Prelude.{
  ℕ, Bool, true, false, not, ◌&&◌, ◌||◌, List, [], ◌∷◌, ◌++◌, Option, none, some, map, any, elem,
  length, leb, Exec, pure, raise, crash, ◌>>=◌, ◌>>◌, try_pdns, if◌then◌else◌, ◌+◌, ◌==◌, ◌≟◌, ◌⊎◌,
  inl, inr,
}
use mojodns.Text.{
  Text, codes, ℤ, strip, lower, is_empty, starts_with, split_by, split_words, rstrip_char, join,
}
use mojodns.Pdns.{canonical}
use mojodns.Pdns.Types.{Rec, Change, Api}
use mojodns.Pdns.Zones as Client
use mojodns.Pdns.Tsig.{ensure_tsig_allow_axfr}
use mojodns.Idn.{to_ascii, to_unicode}
use mojodns.Http.{Response}
use mojodns.Db.{User, World, on_server, get_db_state, put_db}
use mojodns.Access.Grants.{add_grant}
use mojodns.Zones.Names.{Env, valid_zone_name, zone_page, zones_page}
use mojodns.Zones.Handlers.{cat, show, log_zone, say, complain}
use mojodns.Zones.Contents.{add_content}

-- The characters at which `splitlines` breaks; a pair of CR and LF makes an empty line here, which is
-- skipped as every empty line is.
abbrev is_line_break : ℕ → Bool
is_line_break c =
    (leb 10 c && leb c 13) || (leb 28 c && leb c 30) || c == 0x85 || c == 0x2028 || c == 0x2029

-- `parts[1:5]` of a line whose first word is gone
abbrev next_four : List Text → List Text
next_four [] = []
next_four (a ∷ []) = a ∷ []
next_four (a ∷ b ∷ []) = a ∷ b ∷ []
next_four (a ∷ b ∷ c ∷ []) = a ∷ b ∷ c ∷ []
next_four (a ∷ b ∷ c ∷ d ∷ rest) = a ∷ b ∷ c ∷ d ∷ []

abbrev second : List Text → Option Text
second [] = none
second (b ∷ rest) = some b

-- What one line, with its words, says of the origin.
abbrev line_origin : Text → List Text → Option Text
line_origin line [] = none
line_origin line (a ∷ rest) =
    if starts_with (codes ";") line
    then none
    else if a ≟ codes "$ORIGIN" && not (is_empty_words rest)
    then second rest
    else if elem (codes "SOA") (next_four rest) && not (starts_with (codes "$") a)
    then some a
    else none
  where
    is_empty_words : List Text → Bool
    is_empty_words [] = true
    is_empty_words (w ∷ ws) = false

abbrev first_some : Option Text → Option Text → Option Text
first_some (some t) next = some t
first_some none next = next

unfoldable pub origin_of : List Text → Option Text
origin_of [] = none
origin_of (l ∷ ls) = first_some (line_origin l (split_words l)) (origin_of ls)

unfoldable pub detect_origin : Text → Option Text
detect_origin text = origin_of (split_by is_line_break text)

-- A set of records of a parsed zone: its owner, type and TTL, and the text of each record.
pub record RdataSet : Type 0 where
  pub owner : Text
  pub rtype : Text
  pub ttl : ℤ
  pub contents : List Text

-- What dnspython makes of a text: its sets; the text of a DNSException that reading it raises; or an
-- exception behind that, such as that of `dns.name.from_text` for a name that is none, which nothing
-- catches.
pub data Parsing : Type 0 where
  sets : List RdataSet → Parsing
  dns_exception : Text → Parsing
  uncaught : Parsing

-- The text is read under the origin that comes second, and its sets are written under the origin that
-- comes third.
abbrev pub ParseZone : Type 0
ParseZone = Text → Text → Text → Parsing

-- What `parse_zone_text` returns or raises: `raised` stands for any exception but a ZoneParseError.
pub data Parsed : Type 0 where
  parsed_zone : Text → List Change → Parsed
  zone_parse_error : Text → Parsed
  raised : Parsed

unfoldable pub add_contents : List Text → List Rec → List Rec
add_contents [] records = records
add_contents (c ∷ cs) records = add_contents cs (add_content c records)

abbrev pub has_text : Text → Option Text → Bool
has_text t none = false
has_text t (some u) = u ≟ t

abbrev pub is_key : Text → Text → Change → Bool
is_key name rtype rr = has_text name rr.name && has_text rtype rr.rtype

abbrev new_rrset : Text → RdataSet → Change
new_rrset name s = record {
  name = some name;
  rtype = some s.rtype;
  changetype = some (codes "REPLACE");
  ttl = some s.ttl;
  records = add_contents s.contents [];
}

-- The rrset of the key grows; a new key comes last, with the TTL of its first set.
unfoldable pub add_set : RdataSet → List Change → List Change
add_set s [] = new_rrset (lower s.owner) s ∷ []
add_set s (rr ∷ rrs) =
    let rest = add_set s rrs in
    if is_key (lower s.owner) s.rtype rr
    then record rr { records = add_contents s.contents rr.records } ∷ rrs
    else rr ∷ rest

abbrev pub dnssec_types : List Text
dnssec_types =
    codes "RRSIG" ∷ codes "NSEC" ∷ codes "NSEC3" ∷ codes "NSEC3PARAM" ∷ codes "DNSKEY" ∷ []

unfoldable pub by_key : List RdataSet → List Change → List Change
by_key [] rrsets = rrsets
by_key (s ∷ ss) rrsets = by_key ss (if elem s.rtype dnssec_types then rrsets else add_set s rrsets)

abbrev pub text_or : Option Text → Text → Text
text_or none t = t
text_or (some []) t = t
text_or (some (c ∷ cs)) t = c ∷ cs

abbrev pub no_apex_error : Parsed
no_apex_error = zone_parse_error (codes "no SOA record at the zone apex")

-- The end of `parse_zone_text`.
unfoldable pub with_apex : Text → List Change → Parsed
with_apex origin rrsets =
    if any (is_key origin (codes "SOA")) rrsets then parsed_zone origin rrsets else no_apex_error

abbrev pub from_parsing : Text → Parsing → Parsed
from_parsing origin (sets ss) = with_apex origin (by_key ss [])
from_parsing origin (dns_exception e) = zone_parse_error (codes "zone file does not parse: " ++ e)
from_parsing origin uncaught = raised

-- The name that is given, or that of the text.
unfoldable pub origin_for : Text → Option Text → Text
origin_for text name = strip (text_or name (text_or (detect_origin text) []))

unfoldable pub parse_zone_text : ParseZone → Text → Option Text → Parsed
parse_zone_text parse text name =
    let found = origin_for text name in
    let origin = rstrip_char b'.' found ++ b'.' ∷ [] in
    if is_empty found
    then zone_parse_error
        (codes "cannot determine the zone name — no SOA found; fill in the zone name field")
    else from_parsing origin (parse text (text_or (detect_origin text) origin) origin)

unfoldable pub record_count : List Change → ℕ
record_count [] = 0
record_count (rr ∷ rrs) = length rr.records + record_count rrs

module _ {S : Type 0} (api : Api S) (env : Env) (parse : ParseZone) where
  abbrev adopt : User → Text → List Change → Bool → Exec (World S) Response
  adopt user zone rrsets false = pure zones_page
  adopt user zone rrsets true = do
    db ← get_db_state
    put_db (add_grant zone user.id true db)
    log_zone user zone (
        cat (
          codes "Import zone "
          ∷ zone
          ∷ codes " ("
          ∷ show (record_count rrsets)
          ∷ codes " records)"
          ∷ []))
    say (
        cat (
          codes "Zone "
          ∷ to_unicode env.idna zone
          ∷ codes " imported ("
          ∷ show (record_count rrsets)
          ∷ codes " records)"
          ∷ []))
    pure (zone_page zone)

  abbrev import_parsed : User → Parsed → Exec (World S) Response
  import_parsed user (zone_parse_error e) = do complain e; pure zones_page
  import_parsed user raised = raise crash
  import_parsed user (parsed_zone origin rrsets) =
      let zone = canonical origin in
      if not (valid_zone_name zone)
      then (do
        complain (cat (codes "'" ∷ zone ∷ codes "' is not a valid zone name" ∷ []))
        pure zones_page)
      else (try_pdns
            (do
              on_server (
                  Client.create_zone api zone (codes "Master") (some env.settings.catalog_zone)
                    rrsets)
              on_server (ensure_tsig_allow_axfr api env.settings.tsig_key_names zone)
              pure true)
            (λ status message. do complain message; pure false)
          >>= adopt user zone rrsets)

  -- `text` is that of the form or of the file, none for a file that is no text.
  unfoldable pub zone_import : User → Text → Option Text → Exec (World S) Response
  zone_import user name none = do
    complain (codes "Uploaded file is not a text zone file")
    pure zones_page
  zone_import user name (some text) =
      if is_empty (strip text)
      then (do complain (codes "Paste zone text or choose a file to import"); pure zones_page)
      else import_parsed user (
          parse_zone_text parse text
            (if is_empty (strip name) then none else some (to_ascii env.idna name)))
