-- ===== src/Checks/Cert.antt =====
-- app/mojodns/httpcheck.py: what is read off a certificate. Times count microseconds.
use mojodns.Prelude.{
  ℕ, ◌-◌, ◌/◌, Bool, true, false, ◌&&◌, ◌||◌, List, [], ◌∷◌, Option, none, some, any, ltb, leb,
  if◌then◌else◌, ◌≟◌,
}
use mojodns.Text.{Text, ℤ, pos, negsuc, codes, lower, rstrip_char, starts_with, drop, partition}

-- A name of a certificate: its first common name, if there is one, and its RFC 4514 form.
pub record CertName : Type 0 where
  pub common_name : Option Text
  pub rfc4514 : Text

-- A parsed certificate; `sans` is empty when the extension is missing or does not parse.
pub record Certificate : Type 0 where
  pub subject : CertName
  pub issuer : CertName
  pub is_self_issued : Bool
  pub sans : List Text
  pub not_before : ℕ
  pub not_after : ℕ

abbrev name_or : Text → Option Text → Text
name_or fallback none = fallback
name_or fallback (some cn) = cn

unfoldable pub name_text : CertName → Text
name_text n = name_or n.rfc4514 n.common_name

-- What stands behind the first dot, if there is one.
abbrev pub parent_is : Text → Text × Bool × Text → Bool
parent_is n (label, false, rest) = false
parent_is n (label, true, rest) = rest ≟ n

abbrev pub host_key : Text → Text
host_key host = lower (rstrip_char b'.' host)

unfoldable pub name_matches : Text → Text → Bool
name_matches host n =
    n ≟ host || (starts_with (codes "*.") n && parent_is (drop 2 n) (partition b'.' host))

unfoldable pub host_matches : Text → List Text → Bool
host_matches host names = any (λ n. name_matches (host_key host) (host_key n)) names

-- What the panel keeps of a certificate.
pub record Analysis : Type 0 where
  pub subject : Text
  pub issuer : Text
  pub sans : List Text
  pub not_before : ℕ
  pub not_after : ℕ
  pub days_left : ℤ
  pub expired : Bool
  pub not_yet_valid : Bool
  pub self_signed : Bool
  pub hostname_match : Bool

abbrev pub day : ℕ
day = 86400000000

-- `(not_after - now).days`, rounded down
unfoldable pub days_between : ℕ → ℕ → ℤ
days_between now not_after =
    if leb now not_after
    then pos ((not_after - now) / day)
    else negsuc ((now - not_after - 1) / day)

abbrev or_subject : List Text → Text → List Text
or_subject [] subject = subject ∷ []
or_subject (s ∷ ss) subject = s ∷ ss

unfoldable pub analyze_cert : ℕ → Certificate → Text → Analysis
analyze_cert now cert host = record {
  subject = name_text cert.subject;
  issuer = name_text cert.issuer;
  sans = cert.sans;
  not_before = cert.not_before;
  not_after = cert.not_after;
  days_left = days_between now cert.not_after;
  expired = ltb cert.not_after now;
  not_yet_valid = ltb now cert.not_before;
  self_signed = cert.is_self_issued;
  hostname_match = host_matches host (or_subject cert.sans (name_text cert.subject));
}
