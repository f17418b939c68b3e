-- ===== src/Tests/Secondaries.antt =====
-- Runs of the checks of name servers and signatures.
use mojodns.Prelude.{
  ◌≢◌, ◌↔◌, Bool, if◌then◌else◌, Bool-cases, inl, inr, arith, true, [], ◌∷◌, not, none, some, any,
  All, ◌≟◌, list_beq, refl, ◌≡◌,
}
use mojodns.Text.{Text, codes, pos}
use mojodns.Secondaries.{Exchange, timed_out, Dns, replied, soa_set, ns_set, rows_of}
use mojodns.Secondaries.Rows.{rows_of_complete}
use mojodns.Secondaries.Asks.{answering, rows_of-answering}
use mojodns.Secondaries.Delegation.{check_delegation}
use mojodns.Secondaries.Agreement.{IsConsistent, check_delegation-IsConsistent}
use mojodns.Dnssec.Parent.{Ds}
use mojodns.Dnssec.Nameservers.{NsRow}
use mojodns.Dnssec.Check.{secured_report}
use mojodns.Dnssec.Check.Clean.{Among, IsHealthy, secured_report-clean}

abbrev name_server : Text
name_server = codes "ns.a.b."

abbrev lagging : Dns
lagging = record {
  resolve = λ name rtype. some (codes "9.9.9.9" ∷ []);
  query = λ tcp rtype ip name. replied (record {
    rcode = none;
    answer = soa_set 5 ∷ ns_set (name_server ∷ []) ∷ [];
    authority = [];
  });
  addr_ok = λ addr. true;
}

rows_of_complete_example :
    any (λ r. r.ns ≟ name_server) (rows_of lagging (codes "a.b.") (some 7) (name_server ∷ []))
    ≡ true
unfolding any ◌≟◌ list_beq
rows_of_complete_example =
    rows_of_complete lagging (codes "a.b.") (some 7) name_server (name_server ∷ []) refl

check_delegation-IsConsistent_example :
    IsConsistent (check_delegation lagging (codes "a.b") (codes "NS.a.b" ∷ []))
check_delegation-IsConsistent_example =
    check_delegation-IsConsistent lagging (codes "a.b") (codes "NS.a.b" ∷ [])

abbrev new_ds : Ds
new_ds = record { keytag = pos 9; algorithm = pos 13; digest_type = pos 2; digest = codes "ab" }

abbrev signed_row : NsRow
signed_row = record {
  ns = name_server;
  addr = some (codes "9.9.9.9");
  status = codes "ok";
  expires_at = some 900000;
  days_left = some (pos 10);
  detail = none;
}

secured_report-clean_example :
    ((secured_report
        (new_ds ∷ [])
        none
        (new_ds ∷ [])
        (codes "secure")
        (signed_row ∷ [])
        (pos 3)).warnings
      ≡ [])
    ↔ (((new_ds ∷ []) ≢ [])
        × All (λ d. Among d (new_ds ∷ [])) (new_ds ∷ [])
        × All (IsHealthy (pos 3)) (signed_row ∷ []))
secured_report-clean_example =
    secured_report-clean (new_ds ∷ []) none (new_ds ∷ []) (codes "secure") (signed_row ∷ []) (pos 3)

abbrev guarded : Dns
guarded = record lagging { addr_ok = λ addr. not (addr ≟ codes "9.9.9.9") }

abbrev silent : Bool → Text → Text → Text → Exchange
silent tcp rtype ip name =
    if ip ≟ codes "9.9.9.9" then timed_out else guarded.query tcp rtype ip name

silent_elsewhere :
    (tcp : Bool) (rtype ip name : Text)
    → guarded.addr_ok ip ≡ true
    → silent tcp rtype ip name ≡ guarded.query tcp rtype ip name
silent_elsewhere tcp rtype ip name h = elim (Bool-cases (ip ≟ codes "9.9.9.9")) [
  | inl e ↦ ground arith
  | inr e ↦ rw e refl
]

rows_of-answering_example :
    rows_of (answering guarded silent) (codes "a.b.") (some 7) (name_server ∷ [])
    ≡ rows_of guarded (codes "a.b.") (some 7) (name_server ∷ [])
rows_of-answering_example =
    rows_of-answering guarded silent silent_elsewhere (codes "a.b.") (some 7) (name_server ∷ [])
