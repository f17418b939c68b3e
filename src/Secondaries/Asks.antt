-- ===== src/Secondaries/Asks.antt =====
-- Whom a poll asks.
use mojodns.Prelude.{
  ℕ, true, List, [], ◌∷◌, ◌++◌, All, Option, map, sort_by, Bool, false, ap, ◌≡◌, refl,
}
use mojodns.Text.{Text, codes}
use mojodns.Pdns.{canonical}
use mojodns.Secondaries.{
  Dns, Exchange, row_lt, soa_serial, a_records, for_ns, sort_out, plan, poll, polled, rows_of,
}
use mojodns.Secondaries.Rows.{IsAllowed, plan_sound}

module _ (dns : Dns) (query : Bool → Text → Text → Text → Exchange) where
  -- The same name servers, but for their answers.
  abbrev pub answering : Dns
  answering = record dns { query = query }

  sort_out-answering :
      (ns : Text) (addrs : List Text) → sort_out answering ns addrs ≡ sort_out dns ns addrs
  unfolding sort_out
  sort_out-answering ns [] = refl
  sort_out-answering ns (a ∷ addrs) = rw (sort_out-answering ns addrs) refl

  for_ns-answering :
      (ns : Text) (addrs : List Text) → for_ns answering ns addrs ≡ for_ns dns ns addrs
  for_ns-answering ns [] = refl
  for_ns-answering ns (a ∷ addrs) = sort_out-answering ns (a ∷ addrs)

  plan-answering : (nss : List Text) → plan answering nss ≡ plan dns nss
  unfolding plan a_records
  plan-answering [] = refl
  plan-answering (ns ∷ nss) =
      rw (for_ns-answering ns (a_records dns ns)) (rw (plan-answering nss) refl)

  module _
      (same : (tcp : Bool) (rtype addr name : Text)
        → dns.addr_ok addr ≡ true
        → query tcp rtype addr name ≡ dns.query tcp rtype addr name)
      (zone : Text) (master : Option ℕ) where
    soa_serial-answering :
        (addr : Text)
        → dns.addr_ok addr ≡ true
        → soa_serial answering addr zone ≡ soa_serial dns addr zone
    unfolding soa_serial
    soa_serial-answering addr h =
        rw (same false (codes "SOA") addr (canonical zone) h)
          (rw (same true (codes "SOA") addr (canonical zone) h) refl)

    polls-answering :
        (targets : List (Text × Text))
        → All (IsAllowed dns zone master) targets
        → map (poll answering zone master) targets ≡ map (poll dns zone master) targets
    unfolding poll
    polls-answering [] h = refl
    polls-answering ((ns, addr) ∷ targets) h = rw (soa_serial-answering addr h.0) (
        ap (λ l. polled master ns addr (soa_serial dns addr zone) ∷ l)
          (polls-answering targets h.1))

    -- Whatever a name server at an address that the guard refuses would answer, the rows are the same:
    -- a poll does not depend on such a server.
    pub rows_of-answering :
        (nss : List Text) → rows_of answering zone master nss ≡ rows_of dns zone master nss
    unfolding rows_of
    rows_of-answering nss = rw (plan-answering nss) (
        ap (λ l. sort_by row_lt ((plan dns nss).0 ++ l))
          (polls-answering (plan dns nss).1 (plan_sound dns zone master nss).1))
