-- ===== src/Checks/Probe.antt =====
-- app/mojodns/httpcheck.py: opening a connection, and the TCP and HTTP checks. What a report says of the
-- latency is left out. An uncaught exception is `crash`.
use mojodns.Prelude.{
  ℕ, Bool, true, false, not, ◌&&◌, ◌||◌, List, ◌++◌, Option, none, some, Exec, ok, crash, pure,
  raise, ◌>>=◌, ◌⊎◌, if◌then◌else◌,
}
use mojodns.Text.{Text, codes, lower, is_infix, rstrip_char}
use mojodns.Checks.Guard.{Address, is_public_ip}
use mojodns.Checks.Http.{
  Socket, Failure, HttpReply, Answer, answered, broken, value_error, http_request,
}
use mojodns.Checks.Proxies.{ProxySpec}
use mojodns.Checks.Cert.{Certificate, Analysis}

-- What opening a connection comes to: a socket, or an exception with its text.
pub data Dial (N : Type 0) : Type 0 where
  connected : Socket N → Dial N
  connection_refused : Text → Dial N
  timed_out : Dial N
  socks5_auth_error : Text → Dial N
  proxy_connection_error : Text → Dial N
  socks5_error : Text → Dial N
  general_proxy_error : Text → Dial N
  os_error : Text → Dial N

-- A TLS handshake: the socket and the certificate, or an exception.
pub data Handshake (N : Type 0) : Type 0 where
  secured : Socket N → Option (List ℕ) → Handshake N
  unverified : Text → Handshake N
  refused : Failure → Handshake N

-- The network with states in `N`: connections, handshakes that verify or accept any certificate,
-- `load_der_x509_certificate` with the text of what it raises, and the addresses of `ipaddress`.
pub record Network (N : Type 0) : Type 0 where
  pub dial : Option ProxySpec → Text → ℕ → N → Dial N × N
  pub handshake : Bool → Socket N → Text → N → Handshake N × N
  pub load_der : List ℕ → Certificate ⊎ Text
  pub address : Text → Option Address
  pub check_allow_private : Bool

-- A dict of the checks; `tls_ok`, `cert` and what follows are those of the HTTP checks.
pub record Trust : Type 0 where
  pub trusted : Bool
  pub trust_error : Option Text

-- `out["cert"]`: the analysis, or the text of what went wrong, and the verdict, once it is added.
pub record CertInfo : Type 0 where
  pub analysis : Option Analysis
  pub error : Option Text
  pub trust : Option Trust

pub record Report : Type 0 where
  pub kind : Text
  pub ip : Text
  pub host : Option Text
  pub port : ℕ
  pub status : Text
  pub detail : Option Text
  pub tls_ok : Bool
  pub cert : Option CertInfo
  pub http_status : Option ℕ
  pub status_line : Option Text
  pub server : Option Text
  pub location : Option Text

abbrev pub bare_report : Text → Text → Option Text → ℕ → Text → Option Text → Report
bare_report kind ip host port status detail = record {
  kind = kind;
  ip = ip;
  host = host;
  port = port;
  status = status;
  detail = detail;
  tls_ok = false;
  cert = none;
  http_status = none;
  status_line = none;
  server = none;
  location = none;
}

abbrev pub blocked_report : Text → Text → Option Text → ℕ → Report
blocked_report kind ip host port =
    bare_report kind ip host port (codes "blocked") (some (codes "non-public address blocked"))

-- A ConnectError, or the socket.
pub data Opened (N : Type 0) : Type 0 where
  reached : Socket N → Opened N
  failed : Text → Text → Opened N

abbrev socks5_failure : {N : Type 0} → Text → Opened N
socks5_failure msg =
    let low = lower msg in
    if is_infix (codes "refused") low
    then failed (codes "refused") (codes "connection refused (via proxy)")
    else if is_infix (codes "ttl expired") low || is_infix (codes "unreachable") low
    then failed (codes "timeout") (codes "unreachable via proxy: " ++ msg)
    else failed (codes "error") (codes "via proxy: " ++ msg)

-- The clauses of a direct connection: the exceptions of `socks` are OSErrors there.
unfoldable pub opened_direct : {N : Type 0} → Dial N → Opened N
opened_direct (connected sock) = reached sock
opened_direct (connection_refused e) = failed (codes "refused") (codes "connection refused")
opened_direct timed_out = failed (codes "timeout") (codes "timed out")
opened_direct (socks5_auth_error e) = failed (codes "error") e
opened_direct (proxy_connection_error e) = failed (codes "error") e
opened_direct (socks5_error e) = failed (codes "error") e
opened_direct (general_proxy_error e) = failed (codes "error") e
opened_direct (os_error e) = failed (codes "error") e

unfoldable pub opened_by_proxy : {N : Type 0} → Dial N → Opened N
opened_by_proxy (connected sock) = reached sock
opened_by_proxy (socks5_auth_error e) =
    failed (codes "proxy-error") (codes "proxy auth failed: " ++ e)
opened_by_proxy (proxy_connection_error e) =
    failed (codes "proxy-error") (codes "cannot reach proxy: " ++ e)
opened_by_proxy (socks5_error e) = socks5_failure e
opened_by_proxy (general_proxy_error e) = failed (codes "proxy-error") (codes "proxy error: " ++ e)
opened_by_proxy timed_out = failed (codes "timeout") (codes "timed out")
opened_by_proxy (connection_refused e) = failed (codes "error") e
opened_by_proxy (os_error e) = failed (codes "error") e

abbrev truthy : Option ℕ → Bool
truthy none = false
truthy (some ℕ.zero) = false
truthy (some (ℕ.suc n)) = true

abbrev pub has_status : Option ℕ → Bool
has_status = truthy

abbrev http_report : Text → Text → ℕ → HttpReply → Report
http_report ip host port r = record {
  kind = codes "http";
  ip = ip;
  host = some host;
  port = port;
  status = if has_status r.http_status then codes "ok" else codes "error";
  detail = r.detail;
  tls_ok = false;
  cert = none;
  http_status = r.http_status;
  status_line = r.status_line;
  server = r.server;
  location = r.location;
}

module _ {N : Type 0} (net : Network N) where
  unfoldable pub blocked : Text → Bool
  blocked ip = not net.check_allow_private && not (is_public_ip net.address ip)

  abbrev pub classified : Option ProxySpec → Dial N → Opened N
  classified none d = opened_direct d
  classified (some p) d = opened_by_proxy d

  unfoldable pub connect : Text → ℕ → Option ProxySpec → Exec N (Opened N)
  connect ip port proxy n = let (d, n') = net.dial proxy ip port n in (ok (classified proxy d), n')

  abbrev tcp_report : Text → ℕ → Opened N → Report
  tcp_report ip port (reached sock) =
      bare_report (codes "tcp") ip none port (codes "ok") (some (codes "connection established"))
  tcp_report ip port (failed status detail) =
      bare_report (codes "tcp") ip none port status (some detail)

  unfoldable pub check_tcp : Text → ℕ → Option ProxySpec → Exec N Report
  check_tcp ip port proxy =
      if blocked ip
      then pure (blocked_report (codes "tcp") ip none port)
      else (do opened ← connect ip port proxy; pure (tcp_report ip port opened))

  -- An OSError of `sendall` and a ValueError of `int` leave this check.
  abbrev pub http_outcome : Text → Text → ℕ → Answer → Exec N Report
  http_outcome ip host port (answered r) = pure (http_report ip host port r)
  http_outcome ip host port (broken e) = raise crash
  http_outcome ip host port value_error = raise crash

  abbrev pub ask : Text → Text → ℕ → Opened N → Exec N Report
  ask ip host port (failed status detail) n =
      (ok (bare_report (codes "http") ip (some host) port status (some detail)), n)
  ask ip host port (reached sock) n =
      let (a, n') = http_request sock host n in http_outcome ip host port a n'

  unfoldable pub check_http : Text → Text → ℕ → Option ProxySpec → Exec N Report
  check_http ip raw_host port proxy =
      let host = rstrip_char b'.' raw_host in
      if blocked ip
      then pure (blocked_report (codes "http") ip (some host) port)
      else connect ip port proxy >>= ask ip host port
