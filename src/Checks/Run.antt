-- ===== src/Checks/Run.antt =====
-- app/mojodns/routers/checks.py: the addresses that may be probed, and a check. A check is done in a
-- state that joins the panel's, the rate limiter's and the network's; what it returns is what its page
-- shows: the result and the name of the location.
pub mod Scope
pub mod Targets
use mojodns.Prelude.{
  ℕ, Bool, true, false, not, ◌&&◌, ◌||◌, List, [], ◌∷◌, ◌++◌, Option, none, some, filter, find,
  elem, append_new, Exec, Result, ok, err, http_error, pure, raise, ◌>>=◌, ◌>>◌, try_pdns,
  if◌then◌else◌, ◌==◌, ◌≟◌,
}
use mojodns.Text.{Text, codes, ℤ, pos, rstrip_char, join, show_int, is_empty}
use mojodns.Pdns.{canonical}
use mojodns.Pdns.Types.{Api, Rec, Rrset}
use mojodns.Pdns.Zones as Client
use mojodns.RateLimit.{Hits, allow}
use mojodns.Db.{User, Proxy, Db, World, on_server, get_db_state, put_db, log_history}
use mojodns.Checks.Guard.{is_public_ip}
use mojodns.Checks.Proxies.{ProxySpec, proxy_spec, visible_proxies}
use mojodns.Checks.Cert.{Analysis}
use mojodns.Checks.Certs.{store_cert}
use mojodns.Checks.Probe.{Network, CertInfo, Report, bare_report, check_tcp, check_http}
use mojodns.Checks.Https.{check_https}

-- The addresses of a name by type, as the resolvers of the settings answer; none is an exception.
abbrev pub Resolve : Type 0
Resolve = Text → Text → Option (List Text)

unfoldable pub add_all : List Text → List Text → List Text
add_all out [] = out
add_all out (a ∷ as') = add_all (append_new a out) as'

abbrev pub add_answer : List Text → Option (List Text) → List Text
add_answer out none = out
add_answer out (some addresses) = add_all out addresses

unfoldable pub resolve_ips : Resolve → Text → List Text
resolve_ips resolve name =
    let full = rstrip_char b'.' name ++ b'.' ∷ [] in
    add_answer (add_answer [] (resolve full (codes "A"))) (resolve full (codes "AAAA"))

unfoldable pub add_contents : List Text → List Rec → List Text
add_contents ips [] = ips
add_contents ips (r ∷ rs) = add_contents (append_new r.content ips) rs

abbrev pub cname_of : List Rec → Option Text → Option Text
cname_of [] cname = cname
cname_of (r ∷ rs) cname = some r.content

-- What an rrset adds to the addresses and the CNAME found so far.
unfoldable pub own_step : Text → Rrset → List Text → Option Text → List Text × Option Text
own_step name rr ips cname =
    if not (rr.name ≟ name)
    then (ips, cname)
    else if rr.rtype ≟ codes "A" || rr.rtype ≟ codes "AAAA"
    then (add_contents ips rr.records, cname)
    else if rr.rtype ≟ codes "CNAME"
    then (ips, cname_of rr.records cname)
    else (ips, cname)

-- The loop over the rrsets.
unfoldable pub own_targets : Text → List Rrset → List Text → Option Text → List Text × Option Text
own_targets name [] ips cname = (ips, cname)
own_targets name (rr ∷ rrs) ips cname =
    let (ips', cname') = own_step name rr ips cname in own_targets name rrs ips' cname'

abbrev pub or_resolved : Resolve → List Text × Option Text → List Text
or_resolved resolve (ip ∷ ips, cname) = ip ∷ ips
or_resolved resolve ([], none) = []
or_resolved resolve ([], some []) = []
or_resolved resolve ([], some (c ∷ cs)) = resolve_ips resolve (c ∷ cs)

abbrev pub public_only : {N : Type 0} → Network N → List Text → List Text
public_only net ips =
    if net.check_allow_private then ips else filter (λ ip. is_public_ip net.address ip) ips

-- The panel, the table of the rate limiter and the network.
pub record Panel (S N : Type 0) : Type 0 where
  pub world : World S
  pub hits : Hits
  pub net : N

abbrev pub on_world : {S N A : Type 0} → Exec (World S) A → Exec (Panel S N) A
on_world m p = let (r, w) = m p.world in (r, record p { world = w })

abbrev pub on_net : {S N A : Type 0} → Exec N A → Exec (Panel S N) A
on_net m p = let (r, n) = m p.net in (r, record p { net = n })

abbrev pub limit_of : ℤ → Option ℤ → ℤ
limit_of default none = default
limit_of default (some limit) = limit

abbrev days_text : Option CertInfo → Text
days_text none = []
days_text (some c) = days_of c.analysis
  where
    days_of : Option Analysis → Text
    days_of none = []
    days_of (some a) = join [] (codes ", cert " ∷ show_int a.days_left ∷ codes "d left" ∷ [])

module _ {S : Type 0} (api : Api S) where
  unfoldable pub check_targets :
      {N : Type 0} → Network N → Resolve → Text → Text → Exec (World S) (List Text)
  check_targets net resolve zone host =
      try_pdns
        (do
          zdata ← on_server (Client.get_zone api zone)
          pure (
              public_only net
                (or_resolved resolve (own_targets (canonical host) zdata.rrsets [] none))))
        (λ status message. pure [])

  abbrev selected : Option Text → List Text → Option Text
  selected ip [] = none
  selected none (first ∷ ips) = some first
  selected (some ip) (first ∷ ips) = some (if elem ip (first ∷ ips) then ip else first)

  -- What the panel page offers: the addresses, the one that is selected, and the locations.
  unfoldable pub check_panel :
      {N : Type 0}
      → Network N
      → Resolve
      → Text
      → User
      → Text
      → Option Text
      → Exec (World S) (List Text × Option Text × List Proxy)
  check_panel net resolve zone user host ip = do
    ips ← check_targets net resolve zone host
    db ← get_db_state
    pure (ips, selected ip ips, visible_proxies db user)

  module _ {N : Type 0} (net : Network N) (resolve : Resolve) (default_limit : ℤ) (micros : ℕ) where
    -- The request of a check.
    abbrev limited : Text → Text → Text → ℕ → ℤ → ℕ → Report
    limited kind host ip port limit retry =
        bare_report kind ip (some host) port (codes "rate-limited") (
          some (
            join [] (
              codes "rate limit reached ("
              ∷ show_int limit
              ∷ codes "/min) — wait "
              ∷ show_int (pos retry)
              ∷ codes "s"
              ∷ [])))

    abbrev ask_limiter : User → ℤ → Exec (Panel S N) (Bool × ℕ)
    ask_limiter user limit p =
        let (answer, hits) = allow (show_int (pos user.id)) limit p.world.now p.hits in
        (ok answer, record p { hits = hits })

    abbrev pub keep_cert : User → Text → Text → Text → Proxy → Report → Exec (Panel S N) Report
    keep_cert user zone host ip chosen result = do
      on_world (do
        db ← get_db_state
        put_db (store_cert zone host ip micros result db)
        log_history (some user.id) (codes "zone") (some zone) (
            join [] (
              codes "HTTPS check "
              ∷ host
              ∷ codes " ("
              ∷ ip
              ∷ codes ") via "
              ∷ chosen.name
              ∷ codes ": "
              ∷ result.status
              ∷ days_text result.cert
              ∷ [])))
      pure result

    abbrev pub https_and_store :
        User → Text → Text → Text → Proxy → Option ProxySpec → Exec (Panel S N) Report
    https_and_store user zone host ip chosen spec =
        on_net (check_https net micros ip host 443 spec) >>= keep_cert user zone host ip chosen

    unfoldable pub run_kind :
        User → Text → Text → Text → Text → ℕ → Proxy → Option ProxySpec → Exec (Panel S N) Report
    run_kind user zone kind host ip port chosen spec =
        if kind ≟ codes "tcp"
        then on_net (check_tcp net ip port spec)
        else if kind ≟ codes "http"
        then on_net (check_http net ip host 80 spec)
        else if kind ≟ codes "https"
        then https_and_store user zone host ip chosen spec
        else raise (http_error 400 (codes "unknown check kind"))

    abbrev pub after_limit :
        User
        → Text
        → Text
        → Text
        → Text
        → ℕ
        → Proxy
        → ℤ
        → Bool × ℕ
        → Exec (Panel S N) (Report × Text)
    after_limit user zone kind host ip port chosen limit (false, retry) =
        pure (limited kind host ip port limit retry, chosen.name)
    after_limit user zone kind host ip port chosen limit (true, retry) = do
      result ← run_kind user zone kind host ip port chosen (proxy_spec chosen)
      pure (result, chosen.name)

    abbrev pub from_location :
        User → Text → Text → Text → Text → ℕ → Option Proxy → Exec (Panel S N) (Report × Text)
    from_location user zone kind host ip port none = raise (http_error 404 [])
    from_location user zone kind host ip port (some chosen) =
        let limit = limit_of default_limit user.check_rate_limit in
        ask_limiter user limit >>= after_limit user zone kind host ip port chosen limit

    abbrev pub on_targets :
        User → Text → Text → Text → Text → ℕ → ℕ → List Text → Exec (Panel S N) (Report × Text)
    on_targets user zone kind host ip port proxy targets p =
        if not (elem ip targets)
        then (err (http_error 404 []), p)
        else from_location user zone kind host ip port
            (find (λ q. q.id == proxy) (visible_proxies p.world.db user)) p

    unfoldable pub run_check :
        User → Text → Text → Text → Text → ℕ → ℕ → Exec (Panel S N) (Report × Text)
    run_check user zone kind host ip port proxy =
        on_world (check_targets net resolve zone host)
        >>= on_targets user zone kind host ip port proxy
