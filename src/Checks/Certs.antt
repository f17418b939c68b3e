-- ===== src/Checks/Certs.antt =====
-- app/mojodns/routers/checks.py: the certificates that the HTTPS checks leave in the database, and the
-- page that lists them. Times count microseconds.
pub mod Rows
pub mod Listed
use mojodns.Prelude.{
  ℕ, ◌+◌, Bool, true, false, not, ◌&&◌, ◌||◌, List, [], ◌∷◌, ◌++◌, Option, none, some, map, filter,
  any, sort_by, ltb, if◌then◌else◌, ◌==◌, ◌≟◌,
}
use mojodns.Text.{Text, codes, take, is_empty}
use mojodns.Pdns.{canonical}
use mojodns.Db.{User, ZoneAccess, CertObservation, Db, is_admin}
use mojodns.Checks.Cert.{Analysis}
use mojodns.Checks.Probe.{Trust, CertInfo, Report}

-- The row of a host, an address and a port.
unfoldable pub is_row : Text → Text → ℕ → CertObservation → Bool
is_row host ip port c = c.host ≟ host && c.ip ≟ ip && c.port == port

-- The first text that is there and not empty.
unfoldable pub first_text : List (Option Text) → Text
first_text [] = codes "no certificate"
first_text (none ∷ ts) = first_text ts
first_text (some [] ∷ ts) = first_text ts
first_text (some (c ∷ cs) ∷ ts) = c ∷ cs

abbrev cert_error : Option CertInfo → Option Text
cert_error none = none
cert_error (some c) = c.error

-- `cert.get("trusted")`
abbrev trusted_of : Option Trust → Option Bool
trusted_of none = none
trusted_of (some t) = some t.trusted

abbrev pub analysis_of : Option CertInfo → Option (Analysis × Option Bool)
analysis_of none = none
analysis_of (some c) = with_trust c.analysis
  where
    with_trust : Option Analysis → Option (Analysis × Option Bool)
    with_trust none = none
    with_trust (some a) = some (a, trusted_of c.trust)

abbrev pub filled_row : Report → Option (Analysis × Option Bool) → CertObservation → CertObservation
filled_row result (some (a, trusted)) row = record row {
  subject = some (take 255 a.subject);
  issuer = some (take 255 a.issuer);
  not_after = some a.not_after;
  days_left = some a.days_left;
  hostname_match = some a.hostname_match;
  self_signed = some a.self_signed;
  trusted = trusted;
  error = none;
}
filled_row result none row = record row {
  error = some (take 255 (first_text (result.detail ∷ cert_error result.cert ∷ [])));
  not_after = none;
  days_left = none;
}

unfoldable pub fill_row : Text → ℕ → Report → CertObservation → CertObservation
fill_row zone now result row =
    filled_row result (analysis_of result.cert) (record row { zone = zone; checked_at = now })

abbrev pub new_row : ℕ → Text → Text → CertObservation
new_row id host ip = record {
  id = id;
  zone = [];
  host = host;
  ip = ip;
  port = 443;
  subject = none;
  issuer = none;
  not_after = none;
  days_left = none;
  hostname_match = none;
  self_signed = none;
  trusted = none;
  error = none;
  checked_at = 0;
}

abbrev pub filled_at :
    Text → ℕ → Report → (CertObservation → Bool) → CertObservation → CertObservation
filled_at zone now result here c = if here c then fill_row zone now result c else c

unfoldable pub store_cert : Text → Text → Text → ℕ → Report → Db → Db
store_cert zone host ip now result db =
    let here = is_row (canonical host) ip 443 in
    if any here db.certs
    then record db { certs = map (filled_at zone now result here) db.certs }
    else record db {
      certs = db.certs ++ fill_row zone now result (new_row db.next_id (canonical host) ip) ∷ [];
      next_id = db.next_id + 1;
    }

-- The order of the keys `(not_after is None, not_after or datetime.max)`.
abbrev after_lt : Option ℕ → Option ℕ → Bool
after_lt none b = false
after_lt (some a) none = true
after_lt (some a) (some b) = ltb a b

unfoldable pub cert_lt : CertObservation → CertObservation → Bool
cert_lt a b = after_lt a.not_after b.not_after

unfoldable pub certs_overview : Db → User → List CertObservation
certs_overview db user = sort_by cert_lt (
    filter (λ c. is_admin user || any (λ a. a.zone ≟ c.zone && a.user_id == user.id) db.access)
      db.certs)
