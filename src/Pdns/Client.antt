-- ===== src/Pdns/Client.antt =====
-- `PdnsClient._req`: a status from 400 on is a PdnsError, a 204 has no body.
use mojodns.Prelude.{
  ◌++◌, Option, none, some, Exec, Result, ok, err, pdns_error, crash, if◌then◌else◌, leb, ◌==◌,
}
use mojodns.Text.{codes}
use mojodns.Pdns.Types.{Request, Reply, Body, Api, empty}

unfoldable pub outcome : Option Reply → Result Body
outcome none = err crash
outcome (some resp) =
    if leb 400 resp.status
    then err (pdns_error resp.status (codes "PowerDNS API: " ++ resp.message))
    else if resp.status == 204
    then ok empty
    else ok resp.body

unfoldable pub req : {S : Type 0} → Api S → Request → Exec S Body
req api r s = let (reply, s') = api r s in (outcome reply, s')
