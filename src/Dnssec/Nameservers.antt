-- ===== src/Dnssec/Nameservers.antt =====
-- The signatures that the name servers serve.
use mojodns.Prelude.{
  ℕ, ◌-◌, ◌/◌, Bool, true, false, ◌||◌, ◌&&◌, List, [], ◌∷◌, ◌++◌, Option, none, some, map, filter,
  sort_by, min, leb, if◌then◌else◌, ◌≟◌,
}
use mojodns.Text.{Text, codes, ℤ, pos, negsuc}
use mojodns.Pdns.{canonical}
use mojodns.DnsUtil.Rows.{text_lt}
use mojodns.Secondaries.{
  Dns, AnswerSet, soa_set, ns_set, rrsig_set, other_set, Exchange, replied, timed_out, query_failed,
  a_records,
}
use mojodns.Dnssec.Parent.{int_lt}

abbrev pub expires_early : Option ℤ → ℤ → Bool
expires_early none warn_days = false
expires_early (some days) warn_days = int_lt days warn_days

unfoldable pub classify_ns : Option Bool → Option ℤ → ℤ → Text
classify_ns none days warn_days = codes "down"
classify_ns (some false) days warn_days = codes "unsigned"
classify_ns (some true) days warn_days =
    if expires_early days warn_days then codes "expiring" else codes "ok"

abbrev sooner : Option ℕ → ℕ → Option ℕ
sooner none e = some e
sooner (some d) e = some (min d e)

-- The soonest expiration of the signatures over DNSKEY records, so far `exp`.
unfoldable pub soonest_sig : List (Text × ℕ) → Option ℕ → Option ℕ
soonest_sig [] exp = exp
soonest_sig ((covered, e) ∷ sigs) exp =
    soonest_sig sigs (if covered ≟ codes "DNSKEY" then sooner exp e else exp)

unfoldable pub soonest_of : List AnswerSet → Option ℕ → Option ℕ
soonest_of [] exp = exp
soonest_of (rrsig_set sigs ∷ sets) exp = soonest_of sets (soonest_sig sigs exp)
soonest_of (soa_set serial ∷ sets) exp = soonest_of sets exp
soonest_of (ns_set targets ∷ sets) exp = soonest_of sets exp
soonest_of (other_set ∷ sets) exp = soonest_of sets exp

-- Whether the answer is signed, the soonest expiration, and the error.
abbrev pub Signature : Type 0
Signature = Option Bool × Option ℕ × Option Text

abbrev is_there : Option ℕ → Bool
is_there none = false
is_there (some n) = true

abbrev signature_of : Option Text → List AnswerSet → Signature
signature_of (some code) sets = (none, none, some code)
signature_of none sets = let exp = soonest_of sets none in (some (is_there exp), exp, none)

abbrev signature_or : Exchange → Signature → Signature
signature_or (replied r) next = signature_of r.rcode r.answer
signature_or timed_out next = next
signature_or (query_failed e) next = (none, none, some (codes "error: " ++ e))

unfoldable pub ns_signature : Dns → Text → Text → Signature
ns_signature dns ip zone =
    let name = canonical zone in
    signature_or (dns.query false (codes "DNSKEY") ip name)
      (signature_or (dns.query true (codes "DNSKEY") ip name) (none, none, some (codes "timeout")))

pub record NsRow : Type 0 where
  pub ns : Text
  pub addr : Option Text
  pub status : Text
  pub expires_at : Option ℕ
  pub days_left : Option ℤ
  pub detail : Option Text

-- `(exp - now) // 86400`, rounded down, for whole seconds
unfoldable pub days_until : ℕ → ℕ → ℤ
days_until now exp =
    if leb now exp then pos ((exp - now) / 86400) else negsuc ((now - exp - 1) / 86400)

abbrev days_of : ℕ → Option ℕ → Option ℤ
days_of now none = none
days_of now (some exp) = some (days_until now exp)

-- `if exp`: an expiration of zero is none.
abbrev at_time : Option ℕ → Option ℕ
at_time none = none
at_time (some ℕ.zero) = none
at_time (some (ℕ.suc e)) = some (ℕ.suc e)

abbrev row_of : ℕ → ℤ → Text → Text → Signature → NsRow
row_of now warn_days ns addr (signed, exp, error) = record {
  ns = ns;
  addr = some addr;
  status = classify_ns signed (days_of now exp) warn_days;
  expires_at = at_time exp;
  days_left = days_of now exp;
  detail = error;
}

abbrev down : Text → NsRow
down ns = record {
  ns = ns;
  addr = none;
  status = codes "down";
  expires_at = none;
  days_left = none;
  detail = some (codes "no IPv4 / unresolvable");
}

abbrev addr_text : Option Text → Text
addr_text none = []
addr_text (some a) = a

unfoldable pub ns_row_lt : NsRow → NsRow → Bool
ns_row_lt a b = text_lt a.ns b.ns || (a.ns ≟ b.ns && text_lt (addr_text a.addr) (addr_text b.addr))

module _ (dns : Dns) where
  abbrev for_ns : Text → List Text → List NsRow × List (Text × Text)
  for_ns ns [] = (down ns ∷ [], [])
  for_ns ns (a ∷ addrs) = ([], map (λ x. (ns, x)) (a ∷ addrs))

  unfoldable pub plan_signatures : List Text → List NsRow × List (Text × Text)
  plan_signatures [] = ([], [])
  plan_signatures (ns ∷ nss) =
      let (rows, targets) = for_ns ns (filter dns.addr_ok (a_records dns ns)) in
      let (rows', targets') = plan_signatures nss in (rows ++ rows', targets ++ targets')

  unfoldable pub run_signature : Text → ℕ → ℤ → Text × Text → NsRow
  run_signature zone now warn_days (ns, addr) =
      row_of now warn_days ns addr (ns_signature dns addr zone)

  unfoldable pub signature_rows : Text → ℕ → ℤ → List Text → List NsRow
  signature_rows zone now warn_days nss =
      let (rows, targets) = plan_signatures nss in
      sort_by ns_row_lt (rows ++ map (run_signature zone now warn_days) targets)
