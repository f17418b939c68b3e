-- ===== src/DnsUtil/Rows.antt =====
-- `flatten_rrsets` of app/mojodns/dnsutil.py: the rrsets of a zone as its SOA and a sorted table.
use mojodns.Prelude.{
  sort_by, Bool, true, false, ◌&&◌, ◌||◌, List, [], ◌∷◌, ◌++◌, map, Option, none, some, ltb, ◌==◌,
  ◌≟◌, Result, ok, err, if◌then◌else◌,
}
use mojodns.Text.{Text, codes, ℤ}
use mojodns.Pdns.Types.{Rec, Rrset}
use mojodns.DnsUtil.{split_prio}
use mojodns.DnsUtil.Soa
use mojodns.DnsUtil.Soa.{Soa}

pub record Row : Type 0 where
  pub name : Text
  pub rtype : Text
  pub ttl : ℤ
  pub content : Text
  pub body : Text
  pub prio : Option ℤ
  pub disabled : Bool

-- The order of texts, by code points.
unfoldable pub text_lt : Text → Text → Bool
text_lt [] [] = false
text_lt [] (y ∷ ys) = true
text_lt (x ∷ xs) [] = false
text_lt (x ∷ xs) (y ∷ ys) = ltb x y || (x == y && text_lt xs ys)

-- The order of the keys `(name, type, content)`.
unfoldable pub row_lt : Row → Row → Bool
row_lt a b =
    text_lt a.name b.name
    || (a.name ≟ b.name
        && (text_lt a.rtype b.rtype || (a.rtype ≟ b.rtype && text_lt a.content b.content)))

unfoldable pub row_of : Rrset → Rec → Row
row_of rr r =
    let (prio, body) = split_prio rr.rtype r.content in
    record {
      name = rr.name;
      rtype = rr.rtype;
      ttl = rr.ttl;
      content = r.content;
      body = body;
      prio = prio;
      disabled = r.disabled;
    }

abbrev pub soa_of : Option Soa → List Rec → Result (Option Soa)
soa_of soa [] = ok soa
soa_of soa (r ∷ rs) = elim (Soa.parse r.content) [ ok s ↦ ok (some s) | err e ↦ err e ]

abbrev pub and_then :
    Result (Option Soa)
    → (Option Soa → Result (Option Soa × List Row))
    → Result (Option Soa × List Row)
and_then (ok s) f = f s
and_then (err e) f = err e

-- The loop over the rrsets, with the SOA and the rows so far.
unfoldable pub collect : List Rrset → Option Soa → List Row → Result (Option Soa × List Row)
collect [] soa rows = ok (soa, rows)
collect (rr ∷ rrs) soa rows =
    let at_soa = and_then (soa_of soa rr.records) (λ s. collect rrs s rows) in
    let at_rows = collect rrs soa (rows ++ map (row_of rr) rr.records) in
    if rr.rtype ≟ codes "SOA" then at_soa else at_rows

abbrev pub sorted : Result (Option Soa × List Row) → Result (Option Soa × List Row)
sorted (ok (soa, rows)) = ok (soa, sort_by row_lt rows)
sorted (err e) = err e

unfoldable pub flatten_rrsets : List Rrset → Result (Option Soa × List Row)
flatten_rrsets rrsets = sorted (collect rrsets none [])
