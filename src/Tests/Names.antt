-- ===== src/Tests/Names.antt =====
-- Runs on names and SOA contents.
use mojodns.Prelude.{ok, ◌≡◌, refl}
use mojodns.Text.{codes, pos, is_space}
use mojodns.DnsUtil.{dotted}
use mojodns.DnsUtil.Soa.{Soa, parse, content, email, email_to_rname}
use mojodns.DnsUtil.Soa.RoundTrip.{parse-content}
use mojodns.DnsUtil.Soa.Mail.{email_to_rname-email, email-email_to_rname_dotted}
use mojodns.Pdns.{canonical}
use mojodns.Pdns.Names.{IsCanonical, canonical-IsCanonical, canonical-canonical}

abbrev soa : Soa
soa = record {
  mname = codes "n";
  rname = codes "h";
  serial = pos 1;
  refresh = pos 2;
  retry = pos 3;
  expire = pos 4;
  minimum = pos 5;
}

parse-content_example :
    parse (content soa) ≡ ok (record soa { mname = dotted (codes "n"); rname = dotted (codes "h") })
unfolding is_space
parse-content_example = parse-content soa (refl, (refl, tt)) (refl, (refl, tt))

email_to_rname-email_example :
    (email (codes "h.d.") ≡ codes "h@d") × (email_to_rname (email (codes "h.d.")) ≡ codes "h.d.")
unfolding is_space
email_to_rname-email_example =
    email_to_rname-email (codes "h") (codes "d") (refl, tt) (refl, tt) (refl, tt) (refl, tt) refl
      refl

email-email_to_rname_dotted_example : email (email_to_rname (codes "a.b@d")) ≡ codes "a\\@b.d"
unfolding is_space
email-email_to_rname_dotted_example =
    email-email_to_rname_dotted (codes "a") (codes "b") (codes "d") (refl, tt) (refl, tt) (refl, tt)
      (refl, tt) (refl, tt) (refl, tt) (refl, tt) refl refl

canonical-IsCanonical_example : IsCanonical (canonical (codes " A.b "))
canonical-IsCanonical_example = canonical-IsCanonical (codes " A.b ")

canonical-canonical_example : canonical (canonical (codes "A")) ≡ canonical (codes "A")
unfolding is_space
canonical-canonical_example = canonical-canonical (codes "A") (refl, tt)
