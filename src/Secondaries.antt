-- ===== src/Secondaries.antt =====
-- app/mojodns/slaves.py. What dnspython does is a parameter: the answers that a resolver gives, and those
-- that a name server gives to one query. During one request they are functions.
pub mod Rows
pub mod Asks
pub mod Delegation
pub mod Agreement
use mojodns.Prelude.{
  ℕ, zero, suc, ◌-◌, Bool, true, false, not, ◌&&◌, ◌||◌, List, [], ◌∷◌, ◌++◌, Option, none, some,
  map, filter, length, sort_by, Exec, pure, ◌>>=◌, ltb, if◌then◌else◌, ◌≟◌,
}
use mojodns.Text.{Text, codes, pos, join, show_int, rstrip_char}
use mojodns.Pdns.{canonical}
use mojodns.Pdns.Types.{Api, Rrset}
use mojodns.Pdns.Zones as Client
use mojodns.DnsUtil.Rows.{text_lt}

-- An RRset of an answer, as far as the program looks: the serial of the first SOA record, the targets
-- of NS records, and what RRSIG records cover with their expiration.
pub data AnswerSet : Type 0 where
  soa_set : ℕ → AnswerSet
  ns_set : List Text → AnswerSet
  rrsig_set : List (Text × ℕ) → AnswerSet
  other_set : AnswerSet

-- `rcode` is none for NOERROR, and else the lower-case name of the code.
pub record Answer : Type 0 where
  pub rcode : Option Text
  pub answer : List AnswerSet
  pub authority : List AnswerSet

pub data Exchange : Type 0 where
  replied : Answer → Exchange
  timed_out : Exchange
  query_failed : Text → Exchange

-- The addresses or targets of a name by type, none when the resolver raises; one query to an address
-- over UDP or, if the flag is set, TCP; and `check_allow_private or is_public_ip(addr)`.
pub record Dns : Type 0 where
  pub resolve : Text → Text → Option (List Text)
  pub query : Bool → Text → Text → Text → Exchange
  pub addr_ok : Text → Bool

unfoldable pub ns_of : Text → List Rrset → List Text
ns_of zone [] = []
ns_of zone (rr ∷ rrs) =
    if rr.rtype ≟ codes "NS" && canonical rr.name ≟ zone
    then sort_by text_lt (map (λ r. canonical r.content) rr.records)
    else ns_of zone rrs

abbrev sorted_or_none : Option (List Text) → List Text
sorted_or_none none = []
sorted_or_none (some addresses) = sort_by text_lt addresses

unfoldable pub first_soa : List AnswerSet → Option ℕ
first_soa [] = none
first_soa (soa_set serial ∷ sets) = some serial
first_soa (ns_set targets ∷ sets) = first_soa sets
first_soa (rrsig_set sigs ∷ sets) = first_soa sets
first_soa (other_set ∷ sets) = first_soa sets

abbrev serial_or : Option ℕ → Option ℕ × Option Text
serial_or none = (none, some (codes "no SOA"))
serial_or (some serial) = (some serial, none)

abbrev serial_of : Option Text → List AnswerSet → Option ℕ × Option Text
serial_of (some code) sets = (none, some code)
serial_of none sets = serial_or (first_soa sets)

-- A time-out goes on to the next protocol; behind TCP there is none.
abbrev soa_tcp : Exchange → Option ℕ × Option Text
soa_tcp (replied r) = serial_of r.rcode r.answer
soa_tcp timed_out = (none, some (codes "timeout"))
soa_tcp (query_failed e) = (none, some (codes "error: " ++ e))

abbrev soa_udp : Exchange → Option ℕ × Option Text → Option ℕ × Option Text
soa_udp (replied r) tcp = serial_of r.rcode r.answer
soa_udp timed_out tcp = tcp
soa_udp (query_failed e) tcp = (none, some (codes "error: " ++ e))

pub record Row : Type 0 where
  pub ns : Text
  pub addr : Option Text
  pub serial : Option ℕ
  pub status : Text
  pub detail : Option Text

abbrev pub master_behind : Option ℕ → ℕ → Bool
master_behind none serial = false
master_behind (some master) serial = ltb serial master

abbrev lag : Option ℕ → ℕ → Option Text
lag none serial = none
lag (some master) serial = some (show_int (pos (master - serial)) ++ codes " behind")

abbrev polled : Option ℕ → Text → Text → Option ℕ × Option Text → Row
polled master ns addr (none, error) = record {
  ns = ns;
  addr = some addr;
  serial = none;
  status = codes "down";
  detail = error;
}
polled master ns addr (some serial, error) = record {
  ns = ns;
  addr = some addr;
  serial = some serial;
  status = if master_behind master serial then codes "stale" else codes "ok";
  detail = if master_behind master serial then lag master serial else none;
}

abbrev unresolved : Text → Row
unresolved ns = record {
  ns = ns;
  addr = none;
  serial = none;
  status = codes "down";
  detail = some (codes "no IPv4 / unresolvable");
}

abbrev skipped : Text → Text → Row
skipped ns addr = record {
  ns = ns;
  addr = some addr;
  serial = none;
  status = codes "skipped";
  detail = some (codes "non-public address");
}

-- `r["addr"] or ""`
abbrev addr_text : Option Text → Text
addr_text none = []
addr_text (some a) = a

unfoldable pub row_lt : Row → Row → Bool
row_lt a b = text_lt a.ns b.ns || (a.ns ≟ b.ns && text_lt (addr_text a.addr) (addr_text b.addr))

module _ (dns : Dns) where
  unfoldable pub a_records : Text → List Text
  a_records name = sorted_or_none (dns.resolve (rstrip_char b'.' name ++ b'.' ∷ []) (codes "A"))

  unfoldable pub soa_serial : Text → Text → Option ℕ × Option Text
  soa_serial addr zone =
      let name = canonical zone in
      soa_udp (dns.query false (codes "SOA") addr name)
        (soa_tcp (dns.query true (codes "SOA") addr name))

  -- The rows and the targets that one name server adds.
  unfoldable pub sort_out : Text → List Text → List Row × List (Text × Text)
  sort_out ns [] = ([], [])
  sort_out ns (a ∷ addrs) =
      let (rows, targets) = sort_out ns addrs in
      if dns.addr_ok a then (rows, (ns, a) ∷ targets) else (skipped ns a ∷ rows, targets)

  abbrev for_ns : Text → List Text → List Row × List (Text × Text)
  for_ns ns [] = (unresolved ns ∷ [], [])
  for_ns ns (a ∷ addrs) = sort_out ns (a ∷ addrs)

  unfoldable pub plan : List Text → List Row × List (Text × Text)
  plan [] = ([], [])
  plan (ns ∷ nss) =
      let (rows, targets) = for_ns ns (a_records ns) in
      let (rows', targets') = plan nss in (rows ++ rows', targets ++ targets')

  unfoldable pub poll : Text → Option ℕ → Text × Text → Row
  poll zone master (ns, addr) = polled master ns addr (soa_serial addr zone)

  -- The rows of the name servers `nss`.
  unfoldable pub rows_of : Text → Option ℕ → List Text → List Row
  rows_of zone master nss =
      let (rows, targets) = plan nss in sort_by row_lt (rows ++ map (poll zone master) targets)

module _ {S : Type 0} (api : Api S) where
  unfoldable pub apex_ns : Text → Exec S (List Text)
  apex_ns zone = do
    zdata ← Client.get_zone api (canonical zone)
    pure (ns_of (canonical zone) zdata.rrsets)

  unfoldable pub check_slaves : Dns → Text → Option ℕ → Exec S (List Row)
  check_slaves dns zone master = do
    nss ← apex_ns (canonical zone)
    pure (rows_of dns (canonical zone) master nss)

abbrev part : List Row → Text → List Text
part rows s = of_count (length (filter (λ r. r.status ≟ s) rows))
  where
    of_count : ℕ → List Text
    of_count zero = []
    of_count (suc n) = (show_int (pos (suc n)) ++ b' ' ∷ s) ∷ []

abbrev or_no_nameservers : Text → Text
or_no_nameservers [] = codes "no nameservers"
or_no_nameservers (c ∷ cs) = c ∷ cs

unfoldable pub summarize_rows : List Row → Text
summarize_rows rows = or_no_nameservers (
    join (codes ", ") (
      part rows (codes "ok")
      ++ (part rows (codes "stale") ++ (part rows (codes "down") ++ part rows (codes "skipped")))))
