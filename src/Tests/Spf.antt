-- ===== src/Tests/Spf.antt =====
-- Runs of the SPF records, the record table and the import of zone text.
use mojodns.Prelude.{
  ◌⊎◌, ◌++◌, ◌≢◌, ≟_iff, none, inl, filter, true, false, List, [], ◌∷◌, refl, inl, ◌≡◌, ◌≟◌,
  list_beq, elem,
}
use mojodns.Text.{
  rstrip_char, split_by, split_words, Text, codes, strip, pos, lower, lower_char, drop_while,
  drop_while_end, is_space, starts_with, ends_with,
}
use mathlib.Core.Bool.{false≢true}
use mojodns.Zones.Import.{
  RdataSet, sets, dns_exception, uncaught, zone_parse_error, raised, no_apex_error, ParseZone,
  origin_for, detect_origin, origin_of, parse_zone_text,
}
use mojodns.Zones.Import.Origin.{parse_zone_text-IsRefused}
use mojodns.DnsUtil.{quote_txt}
use mojodns.DnsUtil.Rows.{flatten_rrsets}
use mojodns.DnsUtil.Order.{IsTable, flatten_rrsets-IsTable}
use mojodns.Pdns.Types.{Rrset}
use mojodns.Spf.{Term, IpAddress, parse_term, render_term, validate}
use mojodns.Spf.Quote.{strip_txt}
use mojodns.Spf.Unquote.{strip_txt-quote_txt}
use mojodns.Spf.Build.{IsMechanism, IsQualifier, Separable, parse_term-render_term}

abbrev quoted_word : Text
quoted_word = codes " say \"no\" \\ -all "

strip_txt-quote_txt_example : strip_txt (quote_txt quoted_word) ≡ strip quoted_word
unfolding strip drop_while drop_while_end is_space starts_with ends_with ◌≟◌ list_beq
strip_txt-quote_txt_example = strip_txt-quote_txt quoted_word refl

abbrev two_types : List Rrset
two_types =
    record {
      name = codes "w.a.b.";
      rtype = codes "MX";
      ttl = pos 60;
      records = record { content = codes "10 m."; disabled = false } ∷ [];
    }
    ∷ record {
      name = codes "a.b.";
      rtype = codes "A";
      ttl = pos 60;
      records = record { content = codes "1.2.3.4"; disabled = false } ∷ [];
    }
    ∷ []

flatten_rrsets-IsTable_example : IsTable two_types (flatten_rrsets two_types)
flatten_rrsets-IsTable_example = flatten_rrsets-IsTable two_types

abbrev any_ip : IpAddress
any_ip = record { is_network4 = λ t. true; is_network6 = λ t. true }

abbrev ip4_term : Term
ip4_term = record {
  qualifier = codes "-";
  kind = codes "ip4";
  value = codes "10/8";
  raw = [];
  error = [];
}

ip4-IsMechanism : IsMechanism (codes "ip4")
unfolding lower lower_char elem ◌≟◌ list_beq
ip4-IsMechanism = record {
  lower_id = refl;
  known = refl;
  no_modifier = refl;
  no_colon = (refl, (refl, (refl, tt)));
  no_slash = (refl, (refl, (refl, tt)));
  no_equals = (refl, (refl, (refl, tt)));
  filled = refl;
  unsigned = refl;
}

ip4-Separable : Separable (codes "ip4") (codes "10/8")
unfolding elem ◌≟◌ list_beq
ip4-Separable = ((refl, (refl, (refl, (refl, tt)))), inl refl)

dash : IsQualifier (codes "-")
dash = refl

parse_term-render_term_example : parse_term any_ip (render_term ip4_term) ≡ record ip4_term {
  raw = render_term ip4_term;
  error = validate any_ip (codes "ip4") (codes "10/8");
}
parse_term-render_term_example =
    parse_term-render_term any_ip ip4_term dash ip4-IsMechanism ip4-Separable

abbrev soa_text : Text
soa_text = codes "A.b. 60 IN SOA ns. m. 1 2 3 4 5"

one_soa : ParseZone
one_soa text origin target = sets (
    record {
      owner = codes "a.b.";
      rtype = codes "SOA";
      ttl = pos 60;
      contents = codes "ns. m. 1 2 3 4 5" ∷ [];
    }
    ∷ [])

capital :
    lower (rstrip_char b'.' (origin_for soa_text none) ++ b'.' ∷ [])
    ≢ rstrip_char b'.' (origin_for soa_text none) ++ b'.' ∷ []
unfolding origin_for detect_origin origin_of split_by split_words lower rstrip_char strip drop_while
    drop_while_end is_space starts_with ◌≟◌ list_beq lower_char filter elem
capital e = false≢true ((≟_iff (codes "a.b.") (codes "A.b.")).1 e)

parse_zone_text-IsRefused_example :
    let result = parse_zone_text one_soa soa_text none in
    let read = one_soa soa_text (codes "A.b.") (codes "A.b.") in
    ((ss : List RdataSet) × (read ≡ sets ss) × (result ≡ no_apex_error))
    ⊎ ((e : Text) × (read ≡ dns_exception e)
        × (result ≡ zone_parse_error (codes "zone file does not parse: " ++ e)))
    ⊎ ((read ≡ uncaught) × (result ≡ raised))
unfolding origin_for detect_origin origin_of split_by split_words rstrip_char strip drop_while
    drop_while_end is_space starts_with ◌≟◌ list_beq filter elem
parse_zone_text-IsRefused_example = parse_zone_text-IsRefused one_soa soa_text none capital
