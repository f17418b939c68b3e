-- ===== src/Verify/Resolver.antt =====
-- app/mojodns/verify.py: the DNS queries and the check of a zone. What dnspython does is a parameter.
use mojodns.Prelude.{
  Bool, true, false, List, [], ◌∷◌, ◌++◌, Option, none, some, map, Exec, Result, ok, err, pure,
  ◌>>=◌, http_error, pdns_error, value_error, crash, Error, if◌then◌else◌,
}
use mojodns.Text.{Text, codes, rstrip_char}
use mojodns.Pdns.{canonical}
use mojodns.Pdns.Types.{Api, Zone}
use mojodns.Pdns.Zones as Client
use mojodns.Verify.{CheckResult, classify, configured_ns, sorted}

-- What `resolve` does: it returns the texts of the records, or raises.
pub data Resolved : Type 0 where
  records : List Text → Resolved
  nxdomain : Resolved
  no_answer : Resolved
  no_nameservers : Resolved
  resolve_timeout : Resolved
  resolve_error : Text → Resolved

-- What a validating resolver says to a query for the SOA record: an exception, SERVFAIL, another code
-- than NOERROR, or an answer with or without the AD bit.
pub data Validation : Type 0 where
  unreachable : Validation
  servfail : Validation
  other_rcode : Validation
  noerror : Bool → Validation

pub record Resolver : Type 0 where
  pub resolve : Text → Text → Resolved
  pub validate : Text → Text → Validation
  pub verify_resolver_list : List Text

-- A set of names is a sorted list, with the text of the error.
abbrev ns_result : Resolved → List Text × Option Text
ns_result (records targets) = (sorted (map canonical targets), none)
ns_result nxdomain = ([], some (codes "NXDOMAIN"))
ns_result no_answer = ([], some (codes "no NS records"))
ns_result no_nameservers = ([], some (codes "SERVFAIL"))
ns_result resolve_timeout = ([], some (codes "timeout"))
ns_result (resolve_error e) = ([], some (codes "error: " ++ e))

module _ (resolver : Resolver) where
  unfoldable pub resolve_ns : Text → List Text × Option Text
  resolve_ns zone = ns_result (resolver.resolve (rstrip_char b'.' zone ++ b'.' ∷ []) (codes "NS"))

  abbrev status_or : Validation → Text → Text
  status_or unreachable next = next
  status_or servfail next = codes "bogus"
  status_or other_rcode next = next
  status_or (noerror true) next = codes "secure"
  status_or (noerror false) next = codes "insecure"

  unfoldable pub ask_resolvers : Text → List Text → Text
  ask_resolvers name [] = codes "error"
  ask_resolvers name (ip ∷ ips) = status_or (resolver.validate ip name) (ask_resolvers name ips)

  unfoldable pub dnssec_status : Text → Text
  dnssec_status zone = ask_resolvers (canonical zone) resolver.verify_resolver_list

  abbrev checked : Text → Zone → CheckResult
  checked zone zdata =
      let conf = configured_ns zdata.rrsets zone in
      let (resolved, error) = resolve_ns zone in
      record {
        zone = zone;
        status = classify conf resolved error;
        configured = conf;
        resolved = resolved;
        detail = error;
        dnssec = some (if zdata.dnssec then dnssec_status zone else codes "unsigned");
      }

  abbrev error_text : Error → Text
  error_text (http_error status detail) = detail
  error_text (pdns_error status message) = message
  error_text (value_error token) = token
  error_text crash = []

  abbrev check_outcome : Text → Result Zone → CheckResult
  check_outcome zone (ok zdata) = checked zone zdata
  check_outcome zone (err e) = record {
    zone = zone;
    status = codes "error";
    configured = [];
    resolved = [];
    detail = some (codes "pdns: " ++ error_text e);
    dnssec = none;
  }

  module _ {S : Type 0} (api : Api S) where
    -- Every exception of the server makes a result; of the text of a crash nothing is said here.
    unfoldable pub check_zone : Text → Exec S CheckResult
    check_zone zone s =
        let (r, s') = Client.get_zone api (canonical zone) s in
        (ok (check_outcome (canonical zone) r), s')

    unfoldable pub check_zones : List Text → Exec S (List CheckResult)
    check_zones [] = pure []
    check_zones (zone ∷ zones) = do r ← check_zone zone; rs ← check_zones zones; pure (r ∷ rs)
